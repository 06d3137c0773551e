-- ===== src/ExitStatus/Counts.antt =====
-- What the exit status says of the chat, and what is counted of it.
use blobio.Base.{
  ℕ, zero, suc, ◌+◌, ◌*◌, ◌<◌, ◌≡◌, refl, Bool, true, false, some, List, [], ◌∷◌, arith,
}
use blobio.Chat.History.{spell}
use blobio.ExitStatus.{Counters, VerbCounters, count_request}

pub below_eight :
    (P : ℕ → Type 0) → P 0 → P 1 → P 2 → P 3 → P 4 → P 5 → P 6 → P 7 → (v : ℕ) → v < 8 → P v
below_eight P a b c d e f g h zero lt = a
below_eight P a b c d e f g h (suc zero) lt = b
below_eight P a b c d e f g h (suc (suc zero)) lt = c
below_eight P a b c d e f g h (suc (suc (suc zero))) lt = d
below_eight P a b c d e f g h (suc (suc (suc (suc zero)))) lt = e
below_eight P a b c d e f g h (suc (suc (suc (suc (suc zero))))) lt = f
below_eight P a b c d e f g h (suc (suc (suc (suc (suc (suc zero)))))) lt = g
below_eight P a b c d e f g h (suc (suc (suc (suc (suc (suc (suc zero))))))) lt = h
below_eight P a b c d e f g h (suc (suc (suc (suc (suc (suc (suc (suc n)))))))) lt =
    absurd (omega arith)

-- The counters that stand for a chat: where its no is.
abbrev pub counted_as : List Bool → Counters → ℕ → ℕ → ℕ → Counters × VerbCounters
counted_as (false ∷ []) c n n2 n3 = (
  record c { no_count = c.no_count + 1 },
  record { v_no = some (n + 1); v_no2 = some n2; v_no3 = some n3 },
)
counted_as (true ∷ false ∷ []) c n n2 n3 = (
  record c { no2_count = c.no2_count + 1 },
  record { v_no = some n; v_no2 = some (n2 + 1); v_no3 = some n3 },
)
counted_as said c n n2 n3 = (
  record c { ok_count = c.ok_count + 1 },
  record { v_no = some n; v_no2 = some n2; v_no3 = some n3 },
)

abbrev pub Counted : List Bool → ℕ → Type 0
Counted said v =
    (c : Counters) (n n2 n3 : ℕ)
    → count_request (spell said) (v * 4) c
        (record { v_no = some n; v_no2 = some n2; v_no3 = some n3 })
      ≡ some (counted_as said c n n2 n3)

abbrev AllCounted : ℕ → Type 0
AllCounted v =
    Counted (true ∷ []) v
    × Counted (false ∷ []) v
    × Counted (true ∷ true ∷ []) v
    × Counted (true ∷ false ∷ []) v
    × Counted (true ∷ true ∷ true ∷ []) v
    × Counted (true ∷ true ∷ false ∷ []) v

-- A request of any verb that ends with success is counted by its chat: a first no and a second in
-- the counters of their own, a chat of one, two or three ok as ok; and a chat of two ok and a no is
-- counted as ok too, in no counter of a third no.
pub count_request-Counted :
    (v : ℕ)
    → v < 8
    → Counted (true ∷ []) v
      × Counted (false ∷ []) v
      × Counted (true ∷ true ∷ []) v
      × Counted (true ∷ false ∷ []) v
      × Counted (true ∷ true ∷ true ∷ []) v
      × Counted (true ∷ true ∷ false ∷ []) v
unfolding count_request
count_request-Counted =
    below_eight AllCounted
      (
        λ c n n2 n3. refl,
        λ c n n2 n3. refl,
        λ c n n2 n3. refl,
        λ c n n2 n3. refl,
        λ c n n2 n3. refl,
        λ c n n2 n3. refl,
      )
      (
        λ c n n2 n3. refl,
        λ c n n2 n3. refl,
        λ c n n2 n3. refl,
        λ c n n2 n3. refl,
        λ c n n2 n3. refl,
        λ c n n2 n3. refl,
      )
      (
        λ c n n2 n3. refl,
        λ c n n2 n3. refl,
        λ c n n2 n3. refl,
        λ c n n2 n3. refl,
        λ c n n2 n3. refl,
        λ c n n2 n3. refl,
      )
      (
        λ c n n2 n3. refl,
        λ c n n2 n3. refl,
        λ c n n2 n3. refl,
        λ c n n2 n3. refl,
        λ c n n2 n3. refl,
        λ c n n2 n3. refl,
      )
      (
        λ c n n2 n3. refl,
        λ c n n2 n3. refl,
        λ c n n2 n3. refl,
        λ c n n2 n3. refl,
        λ c n n2 n3. refl,
        λ c n n2 n3. refl,
      )
      (
        λ c n n2 n3. refl,
        λ c n n2 n3. refl,
        λ c n n2 n3. refl,
        λ c n n2 n3. refl,
        λ c n n2 n3. refl,
        λ c n n2 n3. refl,
      )
      (
        λ c n n2 n3. refl,
        λ c n n2 n3. refl,
        λ c n n2 n3. refl,
        λ c n n2 n3. refl,
        λ c n n2 n3. refl,
        λ c n n2 n3. refl,
      )
      (
        λ c n n2 n3. refl,
        λ c n n2 n3. refl,
        λ c n n2 n3. refl,
        λ c n n2 n3. refl,
        λ c n n2 n3. refl,
        λ c n n2 n3. refl,
      )
