-- ===== src/Qarg/Algo.antt =====
-- The algorithm of a query that has no other argument.
use blobio.Base.{
  ℕ, zero, suc, ◌+◌, ◌≤◌, ◌≡◌, refl, ap, true, false, none, some, [], ◌∷◌, ◌++◌, Bytes, All, codes,
  length, take, ltb, ◌==◌, if◌then◌else◌, is_graph, is_lower, is_digit, is_ascii, Bool-cases, inl,
  inr, arith,
}
use blobio.Qarg.{
  Args, at_null, scan_chars, match_name, is_value, checked_value, frisk_qarg, note_algo, after_algo,
  step, rounds, frisk_qargs, accepted, is_lower_or_digit, overrun, stored, get_value, get_algo,
  until_null,
}

abbrev pub IsAlgoChar : ℕ → Type 0
IsAlgoChar c = is_lower_or_digit c ≡ true

-- A character of a name is graphic, and no ampersand or null.
algo_char :
    (c : ℕ)
    → IsAlgoChar c
    → ((c == b'&') ≡ false) × ((c == 0) ≡ false) × (is_ascii c ≡ true) × (is_graph c ≡ true)
unfolding is_lower_or_digit is_lower is_digit is_ascii is_graph
algo_char c h = ground arith

lower_char : (c : ℕ) → is_lower c ≡ true → IsAlgoChar c
unfolding is_lower_or_digit
lower_char c h = ground arith

is_value-algo : (most : ℕ) (v : Bytes) → All IsAlgoChar v → length v ≤ most → is_value most v ≡ true
unfolding is_value
is_value-algo most [] h fits = refl
is_value-algo zero (c ∷ v) h fits = absurd (omega arith)
is_value-algo (suc most) (c ∷ v) (h, hs) fits =
    let (no_amp, no_null, ascii, graph) = algo_char c h in
    rw (no_amp, ascii, graph, is_value-algo most v hs (omega arith)) refl

scan_chars-algo :
    (v : Bytes) → All IsAlgoChar v → scan_chars is_lower_or_digit v ≡ at_null (length v)
unfolding scan_chars
scan_chars-algo [] h = refl
scan_chars-algo (c ∷ v) (h, hs) =
    let (no_amp, _, _, _) = algo_char c h in rw (no_amp, h, scan_chars-algo v hs) refl

until_null-algo :
    (n : ℕ) (v : Bytes)
    → All IsAlgoChar v
    → n ≡ length v + 1
    → until_null (take n (v ++ 0 ∷ [])) ≡ v
unfolding until_null
until_null-algo zero v h size = absurd (omega (arith, size))
until_null-algo (suc n) [] h size = refl
until_null-algo (suc n) (c ∷ v) (h, hs) size =
    let (_, no_null, _, _) = algo_char c h in
    rw (no_null, until_null-algo n v hs (omega (arith, size))) refl

get_value-algo :
    (c : ℕ) (v : Bytes)
    → All IsAlgoChar (c ∷ v)
    → length v ≤ 7
    → get_value 9 (codes "algo=" ++ c ∷ v) (some (5, length (c ∷ v) + 1))
      ≡ (if length v == 7 then overrun else stored (c ∷ v))
unfolding get_value
get_value-algo c v h fits = elim (Bool-cases (length v == 7)) [
  | inl full ↦
      let no_room : ltb (length (c ∷ v) + 1) 9 ≡ false = ground arith in rw (no_room, full) refl
  | inr short ↦
      let room : ltb (length (c ∷ v) + 1) 9 ≡ true = ground arith in
      rw (room, short) (ap stored (until_null-algo (length (c ∷ v) + 1) (c ∷ v) h refl))
]

abbrev pub algo_only : ℕ → Args
algo_only len = record { algo = some (5, len); brr_mask = none; fnp = none }

-- A query of one algorithm of a letter and at most seven letters and digits, all of lower case, is
-- accepted; the algorithm is then copied, but one of eight characters is followed by a null behind the
-- end of its array.
pub get_algo-frisk_qargs :
    (c : ℕ) (v : Bytes)
    → is_lower c ≡ true
    → All IsAlgoChar v
    → length v ≤ 7
    → let query = codes "algo=" ++ c ∷ v in
      let args = algo_only (length (c ∷ v) + 1) in
      (frisk_qargs query ≡ accepted args)
      × (get_algo query args ≡ (if length v == 7 then overrun else stored (c ∷ v)))
unfolding frisk_qargs rounds step frisk_qarg match_name checked_value after_algo note_algo is_ascii
    get_algo
get_algo-frisk_qargs c v lower h fits = (
  rw (is_value-algo 8 (c ∷ v) (lower_char c lower, h) (omega arith), lower, scan_chars-algo v h)
      refl,
  get_value-algo c v (lower_char c lower, h) fits,
)
