-- ===== src/Frisk/Scan.antt =====
-- The primitives of cli/bio-frisk-brr.c: a pointer into the array `line` is the rest of the array.
use blobio.Base.{
  ℕ, zero, suc, ◌+◌, Bool, not, ◌||◌, [], ◌∷◌, ◌++◌, Bytes, leb, ◌==◌, if◌then◌else◌, is_ascii,
  is_digit, is_lower,
}

-- A value with the pointer behind it, an exit by `sexit` or `die`, or a read behind the array.
pub data Scanned {ℓ} (A : Type ℓ) : Type ℓ where
  took : A → Bytes → Scanned A
  rejected died overrun : Scanned A

-- A function that moves the pointer.
abbrev pub Scan : Type 0 → Type 0
Scan A = Bytes → Scanned A

infixl 5 ◌>>=◌ ◌>>◌
abbrev pub ◌>>=◌ : {A B : Type 0} → Scan A → (A → Scan B) → Scan B
◌>>=◌ m f p = elim (m p) [
  | took a q ↦ f a q
  | rejected ↦ rejected
  | died ↦ died
  | overrun ↦ overrun
]

abbrev pub ◌>>◌ : {A B : Type 0} → Scan A → Scan B → Scan B
m >> k = m >>= λ _. k

abbrev pub pure : {A : Type 0} → A → Scan A
pure a p = took a p

abbrev pub sexit : {A : Type 0} → Scan A
sexit p = rejected

abbrev pub die : {A : Type 0} → Scan A
die p = died

-- `*p++`
abbrev pub get : Scan ℕ
get [] = overrun
get (c ∷ p) = took c p

-- One byte that must pass a test.
unfoldable pub expect : (ℕ → Bool) → Scan (Unit {0})
expect test [] = overrun
expect test (c ∷ p) = if test c then took tt p else rejected

abbrev pub is : ℕ → ℕ → Bool
is c d = d == c

-- The sets of characters, as the tests `strchr(set, c) != NULL` for a `c` that is not null.
abbrev pub lower_alnum : ℕ → Bool
lower_alnum c = is_lower c || is_digit c

abbrev pub chat_set : ℕ → Bool
chat_set c = c == b'n' || (c == b'o' || (c == b'k' || c == b','))

-- `in_set`: the first `n` bytes
unfoldable pub in_set : ℕ → (ℕ → Bool) → Scan (Unit {0})
in_set zero set p = took tt p
in_set (suc n) set [] = overrun
in_set (suc n) set (c ∷ p) =
    let rest = in_set n set p in if c == 0 || not (set c) then rejected else rest

-- `in_range`, with `seen` bytes behind and `n` at most to come; `strchr` finds the null of the set, so
-- a null passes for a member.
unfoldable pub in_range_from : ℕ → ℕ → ℕ → (ℕ → Bool) → Scan (Unit {0})
in_range_from seen zero lower set p = took tt p
in_range_from seen (suc n) lower set [] = overrun
in_range_from seen (suc n) lower set (c ∷ p) =
    let rest = in_range_from (seen + 1) n lower set p in
    if c == 0 || set c then rest else if leb (seen + 1) lower then rejected else took tt (c ∷ p)

unfoldable pub in_range : ℕ → ℕ → (ℕ → Bool) → Scan (Unit {0})
unfolding in_range_from
in_range upper lower set = in_range_from 0 upper lower set

-- The test at `s == s_end`: one more byte, which must be the end of the field.
unfoldable pub at_limit : Bytes → ℕ → Scan Bytes
at_limit field end_fld [] = overrun
at_limit field end_fld (c ∷ p) = if c == end_fld then took field p else rejected

-- At the end of the field, with `n` bytes left before `s_end`: a field with no byte is refused, and
-- where the step over the end has reached `s_end` the test there is made too.
unfoldable pub at_end_fld : Bytes → ℕ → ℕ → Scan Bytes
unfolding at_limit
at_end_fld [] n end_fld p = rejected
at_end_fld (x ∷ xs) zero end_fld p = at_limit ((x ∷ xs) ++ end_fld ∷ []) end_fld p
at_end_fld (x ∷ xs) (suc n) end_fld p = took (x ∷ xs) p

-- `scan_set`, with `n` bytes to come before `s_end`. The value is what lies between the pointers
-- before and after, but for the last byte.
unfoldable pub scan_set_from : Bytes → ℕ → (ℕ → Bool) → ℕ → Scan Bytes
unfolding at_limit at_end_fld
scan_set_from field zero set end_fld p = at_limit field end_fld p
scan_set_from field (suc n) set end_fld [] = overrun
scan_set_from field (suc n) set end_fld (c ∷ p) =
    let rest = scan_set_from (field ++ c ∷ []) n set end_fld p in
    if c == end_fld
    then at_end_fld field n end_fld p
    else if c == 0
    then rejected
    else if not (is_ascii c)
    then rejected
    else if set c
    then rest
    else rejected

unfoldable pub scan_set : ℕ → (ℕ → Bool) → ℕ → Scan Bytes
unfolding scan_set_from
scan_set limit set end_fld = scan_set_from [] limit set end_fld
