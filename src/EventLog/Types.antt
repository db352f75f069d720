-- ===== src/EventLog/Types.antt =====
-- Messages of packages/sdk/src/types.ts, and the options of packages/core/src/event-log.ts.
use ac.Prelude.{List, ℕ, suc, min, String, Bool, false, Option, none, some, ◌==◌}
use Prim.Native.String
use ac.Objectives.Types.{Attachment}

pub data LogLevel : Type 0 where
  debug info notice warning error critical : LogLevel

-- `data.thread`: the entry of `data` that the log reads. JSON null counts as absent.
pub data Thread : Type 0 where
  absent : Thread
  text : String → Thread
  other : Thread

pub record Message : Type 0 where
  pub id : String
  pub ts : ℕ
  pub to : Option String
  pub from : Option String
  pub title : Option String
  pub body : String
  pub level : LogLevel
  pub thread : Thread
  -- The other entries of `data`, each with its JSON text.
  pub other_data : List (String × String)
  pub attachments : List Attachment

-- A `number`, as far as `clampQueryLimit` tells it: not finite, at most 0, between 0 and 1, or
-- with the whole part `suc n`.
pub data Number : Type 0 where
  not_finite not_positive below_one : Number
  from_one : (n : ℕ) → Number

pub record EventLogQueryOptions : Type 0 where
  pub viewer : String
  pub with : Option String
  pub channel : Option String
  pub limit : Option Number
  pub before : Option ℕ

pub record EventLogTailOptions : Type 0 where
  pub since : Option ℕ
  pub limit : Option ℕ

abbrev pub default_query_limit : ℕ
default_query_limit = 100

abbrev pub max_query_limit : ℕ
max_query_limit = 1000

unfoldable pub clamp_query_limit : Option Number → ℕ
clamp_query_limit none = default_query_limit
clamp_query_limit (some not_finite) = default_query_limit
clamp_query_limit (some not_positive) = default_query_limit
clamp_query_limit (some below_one) = min 0 max_query_limit
clamp_query_limit (some (from_one n)) = min (suc n) max_query_limit

abbrev pub general_channel_id : String
general_channel_id = "general"

unfoldable pub channel_thread_tag : String → String
channel_thread_tag channel_id = String.◌++◌ "chan:" channel_id

-- Equality of `string | null` with a string.
abbrev pub is_text : Option String → String → Bool
is_text none b = false
is_text (some a) b = a == b
