-- ===== src/Broker/Recipients.antt =====
-- To whom `push` of packages/core/src/broker.ts goes.
use ac.EventLog.Types.{is_text}
use ac.Broker.Push.{
  recipients_of, PushPayload, PushContext, truthy, add_recipient, add_recipients, add_sender,
  sender_of, recipients_by,
}
use ac.Broker.Registry.{get, Registry, has}
use ac.Prelude.{
  includes, IsDistinct, includes-append, IsDistinct-snoc, String, ◌≡◌, refl, Bool, true, ◌&&◌, ◌||◌,
  Option, none, some, List, [], ◌∷◌, map, arith, ◌==◌, eq_iff,
}

includes-add_recipient :
    (reg : Registry) (out : List String) (n a : String)
    → includes (add_recipient reg out n) a ≡ (includes out a || (n == a && has n reg))
unfolding add_recipient
includes-add_recipient reg out n a = ground (arith, includes-append out (n ∷ []) a, eq_iff n a)

IsDistinct-add_recipient :
    (reg : Registry) (out : List String) (n : String)
    → IsDistinct out
    → IsDistinct (add_recipient reg out n)
unfolding add_recipient
IsDistinct-add_recipient reg out n h = ground (arith, IsDistinct-snoc out n)

includes-add_recipients :
    (reg : Registry) (out ns : List String) (a : String)
    → includes (add_recipients reg out ns) a ≡ (includes out a || (includes ns a && has a reg))
unfolding add_recipients
includes-add_recipients reg out [] a = ground arith
includes-add_recipients reg out (n ∷ ns) a = ground (
  arith,
  includes-add_recipients reg (add_recipient reg out n) ns a,
  includes-add_recipient reg out n a,
  eq_iff n a,
)

IsDistinct-add_recipients :
    (reg : Registry) (out ns : List String)
    → IsDistinct out
    → IsDistinct (add_recipients reg out ns)
unfolding add_recipients
IsDistinct-add_recipients reg out [] h = h
IsDistinct-add_recipients reg out (n ∷ ns) h =
    IsDistinct-add_recipients reg (add_recipient reg out n) ns
      (IsDistinct-add_recipient reg out n h)

includes-add_sender :
    (reg : Registry) (from : Option String) (out : List String) (a : String)
    → includes (add_sender reg from out) a ≡ (includes out a || (is_text from a && has a reg))
unfolding add_sender
includes-add_sender reg none out a = ground arith
includes-add_sender reg (some n) out a =
    ground (arith, includes-add_recipient reg out n a, eq_iff n a)

IsDistinct-add_sender :
    (reg : Registry) (from : Option String) (out : List String)
    → IsDistinct out
    → IsDistinct (add_sender reg from out)
unfolding add_sender
IsDistinct-add_sender reg none out h = h
IsDistinct-add_sender reg (some n) out h = IsDistinct-add_recipient reg out n h

includes-keys : (reg : Registry) (a : String) → includes (map (λ e. e.key) reg) a ≡ has a reg
unfolding has get
includes-keys [] a = refl
includes-keys (e ∷ es) a = ground (arith, includes-keys es a)

-- Whom a push means: the target and the sender; or the names that the caller gave and the sender;
-- or everybody.
abbrev pub is_meant : Option String → Option (List String) → Option String → String → Bool
is_meant (some target) listed from a = target == a || is_text from a
is_meant none (some names) from a = includes names a || is_text from a
is_meant none none from a = true

abbrev pub is_addressed : PushPayload → PushContext → String → Bool
is_addressed payload context a =
    is_meant (truthy payload.to) context.recipients (truthy context.from) a

recipients_by-IsDistinct :
    (to : Option String) (listed : Option (List String)) (from : Option String) (reg : Registry)
    → IsDistinct (recipients_by to listed from reg)
unfolding recipients_by
recipients_by-IsDistinct (some t) listed from reg =
    IsDistinct-add_sender reg (sender_of from t) (add_recipient reg [] t)
      (IsDistinct-add_recipient reg [] t tt)
recipients_by-IsDistinct none (some ns) from reg =
    IsDistinct-add_sender reg from (add_recipients reg [] ns)
      (IsDistinct-add_recipients reg [] ns tt)
recipients_by-IsDistinct none none from reg =
    IsDistinct-add_recipients reg [] (map (λ e. e.key) reg) tt

-- No one is a recipient twice.
pub recipients_of-IsDistinct :
    (payload : PushPayload) (context : PushContext) (reg : Registry)
    → IsDistinct (recipients_of payload context reg)
unfolding recipients_of
recipients_of-IsDistinct payload context reg =
    recipients_by-IsDistinct (truthy payload.to) context.recipients (truthy context.from) reg

sender_of-text :
    (from : Option String) (t a : String)
    → (t == a || is_text (sender_of from t) a) ≡ (t == a || is_text from a)
sender_of-text none t a = refl
sender_of-text (some f) t a = ground (arith, eq_iff f t, eq_iff f a, eq_iff t a)

recipients_by_lem :
    (to : Option String) (listed : Option (List String)) (from : Option String) (reg : Registry)
    (a : String)
    → includes (recipients_by to listed from reg) a ≡ (is_meant to listed from a && has a reg)
unfolding recipients_by
recipients_by_lem (some t) listed from reg a = ground (
  arith,
  includes-add_sender reg (sender_of from t) (add_recipient reg [] t) a,
  includes-add_recipient reg [] t a,
  sender_of-text from t a,
  eq_iff t a,
)
recipients_by_lem none (some ns) from reg a = ground (
  arith,
  includes-add_sender reg from (add_recipients reg [] ns) a,
  includes-add_recipients reg [] ns a,
)
recipients_by_lem none none from reg a =
    ground (arith, includes-add_recipients reg [] (map (λ e. e.key) reg) a, includes-keys reg a)

-- A name is among the recipients exactly if it is addressed and known to the registry.
pub recipients_of_lem :
    (payload : PushPayload) (context : PushContext) (reg : Registry) (a : String)
    → includes (recipients_of payload context reg) a ≡ (is_addressed payload context a && has a reg)
unfolding recipients_of
recipients_of_lem payload context reg a =
    recipients_by_lem (truthy payload.to) context.recipients (truthy context.from) reg a
