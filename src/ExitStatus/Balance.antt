-- ===== src/ExitStatus/Balance.antt =====
-- The totals add up.
use Prim.Native.Nat.{bit_and}
use blobio.Base.{
  ℕ, ◌+◌, ◌/◌, ◌<◌, ◌≡◌, refl, true, ◌&&◌, Option, none, some, List, [], ◌∷◌, ◌==◌, ltb,
  if◌then◌else◌, arith, All, all_below, below, and_left, and_right,
}
use blobio.ExitStatus.{Counters, VerbCounters, bump_no, bump_no_class, counted}
use blobio.ExitStatus.Counts.{below_eight}
use blobio.ExitStatus.Reap.{
  VerbTotals, Totals, Death, exited, signaled, signaled_badly, count_process, count_verb,
  switch_verb, count_exit, reap, reap_all,
}

fields_fit : all_below 256 (λ s. ltb (bit_and s 0x3) 4 && ltb (bit_and s 0x1C / 4) 8) ≡ true
unfolding all_below
fields_fit = refl

abbrev pub chat_sum : Counters → ℕ
chat_sum c = c.ok_count + c.no_count + c.no2_count + c.no3_count

abbrev pub verb_sum : Totals → ℕ
verb_sum t =
    t.cat.count + t.get.count + t.put.count + t.give.count + t.take.count + t.eat.count
    + t.wrap.count + t.roll.count

abbrev pub status_sum : Totals → ℕ
status_sum t = t.success_count + t.error_count + t.timeout_count + t.fault_count

-- Every end of a process is a success, an error, a timeout, a fault or a signal; and every success is
-- counted by its chat.
pub record IsBalanced (t : Totals) : Type 0 where
  pub exits : t.exit_count ≡ status_sum t + t.signal_count
  pub verbs : t.exit_count ≡ verb_sum t + t.signal_count
  pub chats : t.success_count ≡ chat_sum t.counters

abbrev one_if_success : ℕ → ℕ
one_if_success s8 = if bit_and s8 0x3 == 0 then 1 else 0

-- `bump_no` counts a request that was a success, and no other.
abbrev Bumped : ℕ → Counters → Option (Counters × VerbCounters) → Type 0
Bumped more c none = Unit
Bumped more c (some (c', v')) = chat_sum c' ≡ chat_sum c + more

counted-Bumped :
    (c c' : Counters) (put : Option ℕ → VerbCounters) (n : Option ℕ)
    → chat_sum c' ≡ chat_sum c + 1
    → Bumped 1 c (counted c' put n)
unfolding counted
counted-Bumped c c' put none h = tt
counted-Bumped c c' put (some n) h = h

bump_no-Bumped :
    (s8 : ℕ) (c : Counters) (v : VerbCounters) → Bumped (one_if_success s8) c (bump_no s8 c v)
unfolding bump_no bump_no_class counted
bump_no-Bumped s8 c v = ground arith

abbrev Kept : Option Totals → Type 0
Kept none = Unit
Kept (some t) = IsBalanced t

count_verb-Kept :
    (s8 : ℕ) (t : Totals) (v : VerbTotals) (put : Totals → VerbTotals → Totals)
    → ((c : Counters) (nos : VerbCounters)
        → chat_sum c ≡ chat_sum t.counters + one_if_success s8
        → IsBalanced (put (record t { counters = c }) (record { count = v.count + 1; nos = nos })))
    → Kept (count_verb s8 t v put)
unfolding count_verb
count_verb-Kept s8 t v put h = go (bump_no s8 t.counters v.nos) (bump_no-Bumped s8 t.counters v.nos)
  where
    go :
        (o : Option (Counters × VerbCounters))
        → Bumped (one_if_success s8) t.counters o
        → Kept (elim o [
          | none ↦ none
          | some (c, nos) ↦
              some (put (record t { counters = c }) (record { count = v.count + 1; nos = nos }))
        ])
    go none b = tt
    go (some (c, nos)) b = h c nos b

-- With the exit and its status counted, and the verb and the chat not yet.
record Started (success : ℕ) (t : Totals) : Type 0 where
  exits : t.exit_count ≡ status_sum t + t.signal_count
  verbs : t.exit_count ≡ verb_sum t + t.signal_count + 1
  chats : t.success_count ≡ chat_sum t.counters + success

count_process-Started :
    (process : ℕ) (t : Totals)
    → process < 4
    → IsBalanced t
    → Started
        (if process == 0 then 1 else 0)
        (count_process process (record t { exit_count = t.exit_count + 1 }))
unfolding count_process
count_process-Started process t lt b = ground arith

module _ (s8 : ℕ) (t : Totals) (b : Started (one_if_success s8) t) where
  balanced :
      (t' : Totals)
      → t'.exit_count ≡ t.exit_count
      → t'.signal_count ≡ t.signal_count
      → t'.success_count ≡ t.success_count
      → status_sum t' ≡ status_sum t
      → verb_sum t' ≡ verb_sum t + 1
      → chat_sum t'.counters ≡ chat_sum t.counters + one_if_success s8
      → IsBalanced t'
  balanced t' e g u st ve ch = record {
    exits = omega (arith, b.exits);
    verbs = omega (arith, b.verbs);
    chats = omega (arith, b.chats);
  }

  switch_verb-Kept : (verb : ℕ) → verb < 8 → Kept (switch_verb verb s8 t)
  unfolding switch_verb
  switch_verb-Kept =
      below_eight (λ v. Kept (switch_verb v s8 t))
        (count_verb-Kept s8 t t.cat (λ (t' : Totals) (v : VerbTotals). record t' { cat = v })
          (λ c nos h.
            balanced
              (record t { counters = c; cat = record { count = t.cat.count + 1; nos = nos } }) refl
              refl refl refl (omega arith) h))
        (count_verb-Kept s8 t t.get (λ (t' : Totals) (v : VerbTotals). record t' { get = v })
          (λ c nos h.
            balanced
              (record t { counters = c; get = record { count = t.get.count + 1; nos = nos } }) refl
              refl refl refl (omega arith) h))
        (count_verb-Kept s8 t t.put (λ (t' : Totals) (v : VerbTotals). record t' { put = v })
          (λ c nos h.
            balanced
              (record t { counters = c; put = record { count = t.put.count + 1; nos = nos } }) refl
              refl refl refl (omega arith) h))
        (count_verb-Kept s8 t t.give (λ (t' : Totals) (v : VerbTotals). record t' { give = v })
          (λ c nos h.
            balanced
              (record t { counters = c; give = record { count = t.give.count + 1; nos = nos } })
              refl refl refl refl (omega arith) h))
        (count_verb-Kept s8 t t.take (λ (t' : Totals) (v : VerbTotals). record t' { take = v })
          (λ c nos h.
            balanced
              (record t { counters = c; take = record { count = t.take.count + 1; nos = nos } })
              refl refl refl refl (omega arith) h))
        (count_verb-Kept s8 t t.eat (λ (t' : Totals) (v : VerbTotals). record t' { eat = v })
          (λ c nos h.
            balanced
              (record t { counters = c; eat = record { count = t.eat.count + 1; nos = nos } }) refl
              refl refl refl (omega arith) h))
        (count_verb-Kept s8 t t.wrap (λ (t' : Totals) (v : VerbTotals). record t' { wrap = v })
          (λ c nos h.
            balanced
              (record t { counters = c; wrap = record { count = t.wrap.count + 1; nos = nos } })
              refl refl refl refl (omega arith) h))
        (count_verb-Kept s8 t t.roll (λ (t' : Totals) (v : VerbTotals). record t' { roll = v })
          (λ c nos h.
            balanced
              (record t { counters = c; roll = record { count = t.roll.count + 1; nos = nos } })
              refl refl refl refl (omega arith) h))

bits : (s : ℕ) → s < 256 → (bit_and s 0x3 < 4) × (bit_and s 0x1C / 4 < 8)
bits s lt =
    let both =
      below 256 s (λ s. ltb (bit_and s 0x3) 4 && ltb (bit_and s 0x1C / 4) 8) fields_fit lt in
    let one = and_left (ltb (bit_and s 0x3) 4) (ltb (bit_and s 0x1C / 4) 8) both in
    let two = and_right (ltb (bit_and s 0x3) 4) (ltb (bit_and s 0x1C / 4) 8) both in
    ground (arith, one, two)

-- An exit status is a byte.
abbrev pub IsByte : Death → Type 0
IsByte (exited s8) = s8 < 256
IsByte _ = Unit

reap-Kept : (d : Death) (t : Totals) → IsByte d → IsBalanced t → Kept (reap d t)
unfolding reap count_exit
reap-Kept (exited s8) t lt b =
    switch_verb-Kept s8
      (count_process (bit_and s8 0x3) (record t { exit_count = t.exit_count + 1 }))
      (count_process-Started (bit_and s8 0x3) t (bits s8 lt).0 b) (bit_and s8 0x1C / 4)
      (bits s8 lt).1
reap-Kept signaled t lt b = ground arith
reap-Kept signaled_badly t lt b = tt

rest-Kept :
    (ds : List Death) (o : Option Totals)
    → Kept o
    → ((t : Totals) → IsBalanced t → Kept (reap_all ds t))
    → Kept (elim o [ none ↦ none | some t ↦ reap_all ds t ])
rest-Kept ds none k rest = tt
rest-Kept ds (some t) k rest = rest t k

reap_all-Kept : (ds : List Death) (t : Totals) → All IsByte ds → IsBalanced t → Kept (reap_all ds t)
unfolding reap_all
reap_all-Kept [] t bytes b = b
reap_all-Kept (d ∷ ds) t (byte, bytes) b =
    rest-Kept ds (reap d t) (reap-Kept d t byte b) (λ t1 k. reap_all-Kept ds t1 bytes k)

-- Over any sequence of ends of request processes that is not stopped by a panic, totals that add up
-- still do: every end is a success, an error, a timeout, a fault or a signal, every process that
-- exited is counted for one verb, and every success for one class of chat.
pub reap_all-IsBalanced :
    (ds : List Death) (t t' : Totals)
    → All IsByte ds
    → IsBalanced t
    → reap_all ds t ≡ some t'
    → IsBalanced t'
reap_all-IsBalanced ds t t' bytes b h = rw h at (reap_all-Kept ds t bytes b)
