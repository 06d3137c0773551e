-- ===== src/ExitStatus.antt =====
-- The exit status of a request process: its bits are set at the end of `request` and read by
-- `bump_no` and `reap_request` of bio4d/bio4d.c.
pub mod Counts
pub mod Reap
pub mod Balance
use Prim.Native.Nat.{bit_and, bit_or}
use blobio.Base.{
  ℕ, ◌+◌, ◌*◌, ◌/◌, Bool, true, false, Option, none, some, List, [], ◌∷◌, Bytes, length, ◌==◌,
  if◌then◌else◌,
}
use blobio.Chat.{at}

-- `REQUEST_EXIT_STATUS_CHAT_NO` and its kin
abbrev pub chat_no : ℕ
chat_no = 1

abbrev pub chat_no2 : ℕ
chat_no2 = 2

abbrev pub chat_no3 : ℕ
chat_no3 = 3

abbrev set_chat : ℕ → ℕ → ℕ
set_chat status class = bit_or (bit_and status 0x9F) (class * 32)

-- The switch on the length of the chat history; `none` is a panic.
unfoldable pub classify : Bytes → ℕ → Option ℕ
classify ch status =
    if length ch == 0
    then none
    else if length ch == 2
    then some (if at ch 0 == b'n' then set_chat status chat_no else status)
    else if length ch == 5
    then some (if at ch 3 == b'n' then set_chat status chat_no2 else status)
    else if length ch == 8
    then some (if at ch 5 == b'n' then set_chat status chat_no3 else status)
    else none

-- The counters of one verb, and those of all requests. An absent pointer is `none`.
pub record Counters : Type 0 where
  pub ok_count : ℕ
  pub no_count : ℕ
  pub no2_count : ℕ
  pub no3_count : ℕ

-- `v_no`, `v_no2` and `v_no3`: the counts of a verb, where it has them
pub record VerbCounters : Type 0 where
  pub v_no : Option ℕ
  pub v_no2 : Option ℕ
  pub v_no3 : Option ℕ

-- `*v += 1`, or the panic of a null pointer, which is `none`
counted : Counters → (Option ℕ → VerbCounters) → Option ℕ → Option (Counters × VerbCounters)
counted c put none = none
counted c put (some n) = some (c, put (some (n + 1)))

bump_no_class : ℕ → Counters → VerbCounters → Option (Counters × VerbCounters)
unfolding counted
bump_no_class class c v =
    if class == 0
    then some (record c { ok_count = c.ok_count + 1 }, v)
    else if class == chat_no
    then counted (record c { no_count = c.no_count + 1 }) (λ n. record v { v_no = n }) v.v_no
    else if class == chat_no2
    then counted (record c { no2_count = c.no2_count + 1 }) (λ n. record v { v_no2 = n }) v.v_no2
    else counted (record c { no3_count = c.no3_count + 1 }) (λ n. record v { v_no3 = n }) v.v_no3

unfoldable pub bump_no : ℕ → Counters → VerbCounters → Option (Counters × VerbCounters)
unfolding bump_no_class
bump_no exit_status c v =
    if bit_and exit_status 0x3 == 0
    then bump_no_class (bit_and exit_status 0x60 / 32) c v
    else some (c, v)

-- A request that ends with this chat, and is then reaped: its verb's bits are in the status.
pub count_request : Bytes → ℕ → Counters → VerbCounters → Option (Counters × VerbCounters)
unfolding classify bump_no
count_request ch status c v = elim (classify ch status) [ none ↦ none | some s ↦ bump_no s c v ]
