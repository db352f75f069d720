-- ===== src/Enrollments/History.antt =====
-- Histories of calls of `EnrollmentStore` in apps/server/src/enrollments.ts, and what they keep.
use ac.Enrollments.Change.{
  stays, maps, keeps, adds, Change, RowIsSound, approve-Respects, reject-Respects, touch-Respects,
}
use ac.Prelude.{
  ltb, Bool-cases, is_some, keep, All, All-append, All-keep, includes, IsDistinct, IsDistinct-snoc,
  ℕ, String, ◌≡◌, refl, ap, inl, inr, Bool, false, not, Option, List, [], ◌∷◌, ◌++◌, map, arith,
  ◌==◌, sym, subst, ◌⊎◌,
}
use ac.Enrollments.Methods.{
  new_row, is_taken, mint, approve, reject, poll_by_device_code, purge_expired, set_approved,
  set_rejected,
}
use ac.Enrollments.Types.{EnrollmentRow, MintInput, ApproveInput, RejectInput, Kek}
use ac.Enrollments.Store.{
  Table, find_by_code, find_by_hash, delete_by_hash, touch_poll, if_pending, update_pending,
  if_hash,
}

-- One call that may write, with its clock and random codes.
pub data Call : Type 0 where
  mint_call : MintInput → ℕ → List (String × String) → Call
  approve_call : ApproveInput → Call
  reject_call : RejectInput → Call
  poll_call : String → ℕ → Call
  purge_call : ℕ → Call

pub record IsSound (rs : Table) : Type 0 where
  pub rows : All RowIsSound rs
  pub hashes : IsDistinct (map (λ r. r.device_code_hash) rs)
  pub user_codes : IsDistinct (map (λ r. r.user_code) rs)

module _ (key : EnrollmentRow → String) where
  map-key :
      (f : EnrollmentRow → EnrollmentRow) (rs : Table)
      → ((r : EnrollmentRow) → key (f r) ≡ key r)
      → map key (map f rs) ≡ map key rs
  map-key f [] h = refl
  map-key f (r ∷ rs) h = ground (arith, map-key f rs h, h r)

  includes-map-keep :
      (p : EnrollmentRow → Bool) (rs : Table) (a : String)
      → includes (map key rs) a ≡ false
      → includes (map key (keep p rs)) a ≡ false
  includes-map-keep p [] a h = refl
  includes-map-keep p (r ∷ rs) a h = ground (arith, includes-map-keep p rs a)

  IsDistinct-map-keep :
      (p : EnrollmentRow → Bool) (rs : Table)
      → IsDistinct (map key rs)
      → IsDistinct (map key (keep p rs))
  IsDistinct-map-keep p [] h = tt
  IsDistinct-map-keep p (r ∷ rs) h =
      ground (arith, IsDistinct-map-keep p rs h.1, includes-map-keep p rs (key r) h.0)

  map-key-snoc :
      (rs : Table) (r : EnrollmentRow) → map key (rs ++ r ∷ []) ≡ map key rs ++ key r ∷ []
  map-key-snoc [] r = refl
  map-key-snoc (x ∷ xs) r = ap (λ ks. key x ∷ ks) (map-key-snoc xs r)

All-map :
    (f : EnrollmentRow → EnrollmentRow) (rs : Table)
    → ((r : EnrollmentRow) → RowIsSound r → RowIsSound (f r))
    → All RowIsSound rs
    → All RowIsSound (map f rs)
All-map f [] g h = tt
All-map f (r ∷ rs) g h = (g r h.0, All-map f rs g h.1)

includes-hashes :
    (rs : Table) (h : String)
    → includes (map (λ r. r.device_code_hash) rs) h ≡ is_some (find_by_hash h rs)
unfolding find_by_hash
includes-hashes [] h = refl
includes-hashes (r ∷ rs) h = ground (arith, includes-hashes rs h)

includes-codes :
    (rs : Table) (c : String) → includes (map (λ r. r.user_code) rs) c ≡ is_some (find_by_code c rs)
unfolding find_by_code
includes-codes [] c = refl
includes-codes (r ∷ rs) c = ground (arith, includes-codes rs c)

Change-IsSound : (rs ss : Table) → Change rs ss → IsSound rs → IsSound ss
Change-IsSound rs ss stays h = h
Change-IsSound rs ss (maps f {rs = ts} g) h = record {
  rows = All-map f ts g.sound h.rows;
  hashes = rw (map-key (λ r. r.device_code_hash) f ts g.same_hash) h.hashes;
  user_codes = rw (map-key (λ r. r.user_code) f ts g.same_code) h.user_codes;
}
Change-IsSound rs ss (keeps p {rs = ts}) h = record {
  rows = All-keep RowIsSound p ts h.rows;
  hashes = IsDistinct-map-keep (λ r. r.device_code_hash) p ts h.hashes;
  user_codes = IsDistinct-map-keep (λ r. r.user_code) p ts h.user_codes;
}
Change-IsSound rs ss (adds r {rs = ts} g t) h = record {
  rows = All-append RowIsSound ts (r ∷ []) h.rows (g, tt);
  hashes = rw (map-key-snoc (λ r. r.device_code_hash) ts r) (
      IsDistinct-snoc (map (λ r. r.device_code_hash) ts) r.device_code_hash h.hashes
        (ground (arith, includes-hashes ts r.device_code_hash)));
  user_codes = rw (map-key-snoc (λ r. r.user_code) ts r) (
      IsDistinct-snoc (map (λ r. r.user_code) ts) r.user_code h.user_codes
        (ground (arith, includes-codes ts r.user_code)));
}

module _ (hash_of : String → String) (kek : Option Kek) where
  unfoldable pub perform : Call → Table → Table
  perform (mint_call input now draws) rs = (mint hash_of input now draws rs).1
  perform (approve_call input) rs = (approve kek input rs).1
  perform (reject_call input) rs = (reject input rs).1
  perform (poll_call device_code now) rs = (poll_by_device_code hash_of kek device_code now rs).1
  perform (purge_call now) rs = (purge_expired now rs).1

  unfoldable pub run : List Call → Table → Table
  unfolding perform
  run [] rs = rs
  run (c ∷ cs) rs = run cs (perform c rs)

  mint-Change :
      (input : MintInput) (now : ℕ) (draws : List (String × String)) (rs : Table)
      → Change rs (mint hash_of input now draws rs).1
  unfolding mint
  mint-Change input now [] rs = stays
  mint-Change input now ((dc, uc) ∷ draws) rs = elim (Bool-cases (is_taken (hash_of dc) uc rs)) [
    | inl t ↦ rw t (mint-Change input now draws rs)
    | inr t ↦ rw t (
        adds (new_row input now (hash_of dc) uc)
          (record { lives = refl; bound = refl; token = refl; sealed = refl }) t)
  ]

  -- A poll leaves the table, deletes the row, or notes the time.
  pub poll-table :
      (device_code : String) (now : ℕ) (rs : Table)
      → ((poll_by_device_code hash_of kek device_code now rs).1 ≡ rs)
        ⊎ ((poll_by_device_code hash_of kek device_code now rs).1
            ≡ delete_by_hash (hash_of device_code) rs)
        ⊎ ((poll_by_device_code hash_of kek device_code now rs).1
            ≡ touch_poll now (hash_of device_code) rs)
  unfolding poll_by_device_code
  poll-table device_code now rs = ground arith

  becomes : (rs ss ts : Table) → ts ≡ ss → Change rs ss → Change rs ts
  becomes rs ss ts e c = subst (λ (t : Table). Change rs t) (sym e) c

  poll-Change :
      (device_code : String) (now : ℕ) (rs : Table)
      → Change rs (poll_by_device_code hash_of kek device_code now rs).1
  unfolding delete_by_hash touch_poll
  poll-Change dc now rs = elim (poll-table dc now rs) [
    | inl e ↦ becomes rs rs _ e stays
    | inr (inl e) ↦ becomes rs _ _ e (keeps (λ r. not (r.device_code_hash == hash_of dc)))
    | inr (inr e) ↦
        becomes rs _ _ e (maps (if_hash (hash_of dc) now) (touch-Respects (hash_of dc) now))
  ]

  pub perform-Change : (c : Call) (rs : Table) → Change rs (perform c rs)
  unfolding perform approve reject update_pending purge_expired
  perform-Change (mint_call input now draws) rs = mint-Change input now draws rs
  perform-Change (approve_call input) rs =
      maps (if_pending input.user_code (set_approved kek input)) (approve-Respects kek input)
  perform-Change (reject_call input) rs =
      maps (if_pending input.user_code (set_rejected input)) (reject-Respects input)
  perform-Change (poll_call device_code now) rs = poll-Change device_code now rs
  perform-Change (purge_call now) rs = keeps (λ r. not (ltb r.expires_at now))

  -- From a sound table, the empty one among them, every history of calls ends in a sound one: each
  -- row lives for five minutes and carries a member and a token exactly if it is approved, and no
  -- two rows share a device code's hash or a user code.
  pub run_enrollments-IsSound : (cs : List Call) (rs : Table) → IsSound rs → IsSound (run cs rs)
  unfolding run
  run_enrollments-IsSound [] rs h = h
  run_enrollments-IsSound (c ∷ cs) rs h =
      run_enrollments-IsSound cs (perform c rs)
        (Change-IsSound rs (perform c rs) (perform-Change c rs) h)
