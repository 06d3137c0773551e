-- ===== src/ExitStatus/Reap.antt =====
-- The totals that the server keeps of its request processes: `reap_request` of bio4d/bio4d.c, on one
-- request process that has ended.
use Prim.Native.Nat.{bit_and}
use blobio.Base.{ℕ, ◌+◌, ◌/◌, not, Option, none, some, List, [], ◌∷◌, ◌==◌, if◌then◌else◌}
use blobio.ExitStatus.{Counters, VerbCounters, bump_no}

-- The counts of one verb: of its requests, and of those with a no. A counter that `bump_no` gets a
-- null pointer for is `none`.
pub record VerbTotals : Type 0 where
  pub count : ℕ
  pub nos : VerbCounters

pub record Totals : Type 0 where
  pub exit_count : ℕ
  pub signal_count : ℕ
  pub success_count : ℕ
  pub error_count : ℕ
  pub timeout_count : ℕ
  pub fault_count : ℕ
  pub counters : Counters
  pub cat : VerbTotals
  pub get : VerbTotals
  pub put : VerbTotals
  pub give : VerbTotals
  pub take : VerbTotals
  pub eat : VerbTotals
  pub wrap : VerbTotals
  pub roll : VerbTotals

-- How a process ends: with an exit status, or by a signal that is warned of or panicked at.
pub data Death : Type 0 where
  exited : ℕ → Death
  signaled signaled_badly : Death

-- The process exit status, in the two lower bits.
unfoldable pub count_process : ℕ → Totals → Totals
count_process process t =
    if process == 0
    then record t { success_count = t.success_count + 1 }
    else if process == 1
    then record t { error_count = t.error_count + 1 }
    else if process == 2
    then record t { timeout_count = t.timeout_count + 1 }
    else if process == 3
    then record t { fault_count = t.fault_count + 1 }
    else t

-- A verb's count, and `bump_no` on its counters.
unfoldable pub count_verb : ℕ → Totals → VerbTotals → (Totals → VerbTotals → Totals) → Option Totals
count_verb s8 t v put = elim (bump_no s8 t.counters v.nos) [
  | none ↦ none
  | some (c, nos) ↦
      some (put (record t { counters = c }) (record { count = v.count + 1; nos = nos }))
]

-- The switch on the verb, in bits 3 to 5. Where the source passes a null pointer for a counter of the verb,
-- the counter is `none` in the totals of the verb.
unfoldable pub switch_verb : ℕ → ℕ → Totals → Option Totals
unfolding count_verb
switch_verb verb s8 t =
    if verb == 0
    then count_verb s8 t t.cat (λ t' v. record t' { cat = v })
    else if verb == 1
    then count_verb s8 t t.get (λ t' v. record t' { get = v })
    else if verb == 2
    then count_verb s8 t t.put (λ t' v. record t' { put = v })
    else if verb == 3
    then count_verb s8 t t.give (λ t' v. record t' { give = v })
    else if verb == 4
    then count_verb s8 t t.take (λ t' v. record t' { take = v })
    else if verb == 5
    then count_verb s8 t t.eat (λ t' v. record t' { eat = v })
    else if verb == 6
    then count_verb s8 t t.wrap (λ t' v. record t' { wrap = v })
    else if verb == 7
    then count_verb s8 t t.roll (λ t' v. record t' { roll = v })
    else if not (bit_and s8 0x3 == 0)
    then some t
    else none

unfoldable pub count_exit : ℕ → Totals → Option Totals
unfolding count_process switch_verb
count_exit s8 t = switch_verb (bit_and s8 0x1C / 4) s8 (count_process (bit_and s8 0x3) t)

-- One turn of the loop on `waitpid`, for a request process; `none` is a panic.
unfoldable pub reap : Death → Totals → Option Totals
unfolding count_exit
reap (exited s8) t = count_exit s8 (record t { exit_count = t.exit_count + 1 })
reap signaled t =
    some (record t { exit_count = t.exit_count + 1; signal_count = t.signal_count + 1 })
reap signaled_badly t = none

-- The loop, over the ends that it meets.
unfoldable pub reap_all : List Death → Totals → Option Totals
unfolding reap
reap_all [] t = some t
reap_all (d ∷ ds) t = elim (reap d t) [ none ↦ none | some t' ↦ reap_all ds t' ]
