-- ===== src/Brr/Numbers.antt =====
-- The frisker takes the byte count and the wall duration of a record.
use blobio.Base.{
  ℕ, zero, suc, ◌+◌, ◌-◌, ◌*◌, ◌/◌, ◌%◌, ◌≤◌, ◌<◌, ◌≡◌, refl, ◌∙◌, inl, inr, true, false, [], ◌∷◌,
  ◌++◌, Bytes, All, All-append, length, length-append, ltb, is_digit, is_ascii, Bool-cases, drop,
  arith,
}
use blobio.Frisk.Scan.{Scan, took, ◌>>◌, expect, is, in_range, scan_set}
use blobio.Frisk.Fields.{
  decimal, decimal_from, at_most, scan_byte_count, scan_wall_duration, llong_max,
}
use blobio.Frisk.ScanSet.{InField}
use blobio.Brr.Format.{padded, decimal_text}
use blobio.Brr.Stamped.{
  IsDigit, printed-IsDigit, in_range-padded, bind_took, expect_passes, is_self,
}
use blobio.Brr.Taken.{field_taken}

-- The first number with more than so many digits.
unfoldable pub ten_to : ℕ → ℕ
ten_to zero = 1
ten_to (suc n) = 10 * ten_to n

decimal_from-append :
    (acc : ℕ) (xs : Bytes) (n : ℕ)
    → All IsDigit xs
    → decimal_from acc (xs ++ (b'0' + n % 10) ∷ []) ≡ decimal_from acc xs * 10 + n % 10
decimal_from-append acc [] n h = rw (printed-IsDigit n) (omega arith)
decimal_from-append acc (c ∷ xs) n (h, hs) =
    rw h (decimal_from-append (acc * 10 + (c - b'0')) xs n hs)

pub decimal_text-digits : (d n : ℕ) → All IsDigit (decimal_text d n)
unfolding decimal_text
decimal_text-digits zero n = tt
decimal_text-digits (suc d) n = elim (Bool-cases (ltb n 10)) [
  | inl small ↦ rw (small, decimal_text) (printed-IsDigit n, tt)
  | inr large ↦
      rw (large, decimal_text)
        (All-append IsDigit (decimal_text d (n / 10)) ((b'0' + n % 10) ∷ [])
          (decimal_text-digits d (n / 10)) (printed-IsDigit n, tt))
]

decimal-decimal_text : (d n : ℕ) → n < ten_to d → decimal (decimal_text d n) ≡ n
unfolding decimal_text ten_to
decimal-decimal_text zero n h = omega (arith, h)
decimal-decimal_text (suc d) n h = elim (Bool-cases (ltb n 10)) [
  | inl small ↦ rw (small, printed-IsDigit n) (ground arith)
  | inr large ↦ rw (large) (
      decimal_from-append 0 (decimal_text d (n / 10)) n (decimal_text-digits d (n / 10))
      ∙ rw (decimal-decimal_text d (n / 10) (omega (arith, h))) (omega arith))
]

small_one : (n : ℕ) → n < ten_to 1 → ltb n 10 ≡ true
unfolding ten_to
small_one n h = ground arith

length-last :
    (d n : ℕ)
    → length (decimal_text d (n / 10) ++ (b'0' + n % 10) ∷ [])
      ≡ length (decimal_text d (n / 10)) + 1
length-last d n = length-append (decimal_text d (n / 10)) ((b'0' + n % 10) ∷ [])

-- A number below `ten_to k` is printed with `k` digits at most.
pub length-decimal_text : (d k n : ℕ) → n < ten_to k → 0 < k → length (decimal_text d n) ≤ k
unfolding decimal_text ten_to
length-decimal_text zero k n h some_k = omega arith
length-decimal_text (suc d) zero n h some_k = absurd (omega arith)
length-decimal_text (suc d) (suc zero) n h some_k = rw (small_one n h) (omega arith)
length-decimal_text (suc d) (suc (suc k)) n h some_k = elim (Bool-cases (ltb n 10)) [
  | inl small ↦ rw (small) (omega arith)
  | inr large ↦ rw (large) (
      omega (
        arith,
        length-last d n,
        length-decimal_text d (suc k) (n / 10) (omega (arith, h)) (omega arith),
      ))
]

digit-InField : (end_fld c : ℕ) → is_digit end_fld ≡ false → IsDigit c → InField is_digit end_fld c
unfolding is_digit is_ascii
digit-InField end_fld c apart h = record {
  no_end = ground arith;
  no_null = ground arith;
  ascii = ground arith;
  in_set = h;
}

All-digits :
    (end_fld : ℕ) (xs : Bytes)
    → is_digit end_fld ≡ false
    → All IsDigit xs
    → All (InField is_digit end_fld) xs
All-digits end_fld [] apart h = tt
All-digits end_fld (c ∷ xs) apart (h, hs) =
    (digit-InField end_fld c apart h, All-digits end_fld xs apart hs)

digits_taken :
    (end_fld limit : ℕ) (v : Bytes) (d : ℕ) (p : Bytes)
    → is_digit end_fld ≡ false
    → All IsDigit v
    → 0 < length v
    → length v + 2 ≤ limit
    → scan_set limit is_digit end_fld (v ++ end_fld ∷ d ∷ p) ≡ took v (d ∷ p)
digits_taken end_fld limit [] d p apart h some_v room = absurd (omega (arith, some_v))
digits_taken end_fld limit (x ∷ u) d p apart h some_v room =
    field_taken is_digit end_fld limit x u (limit - length (x ∷ u)) d p
      (All-digits end_fld (x ∷ u) apart h) (omega arith) (ground arith)

decimal_text_some : (d n : ℕ) → 0 < length (decimal_text (suc d) n)
unfolding decimal_text
decimal_text_some d n = elim (Bool-cases (ltb n 10)) [
  | inl small ↦ rw (small) (omega arith)
  | inr large ↦ rw (large) (omega (arith, length-last d n))
]

-- A number of at most `k` digits, in a field with room for two characters more.
number_taken :
    (end_fld limit digits k n c : ℕ) (p : Bytes)
    → is_digit end_fld ≡ false
    → n < ten_to (suc k)
    → suc k + 2 ≤ limit
    → scan_set limit is_digit end_fld (decimal_text (suc digits) n ++ end_fld ∷ c ∷ p)
      ≡ took (decimal_text (suc digits) n) (c ∷ p)
number_taken end_fld limit digits k n c p apart small room =
    digits_taken end_fld limit (decimal_text (suc digits) n) c p apart
      (decimal_text-digits (suc digits) n) (decimal_text_some digits n)
      (omega (arith, length-decimal_text (suc digits) (suc k) n small (omega arith)))

at_most_taken :
    (limit digits n : ℕ) (p : Bytes)
    → n < ten_to digits
    → n ≤ limit
    → at_most limit (decimal_text digits n) p ≡ took tt p
unfolding at_most
at_most_taken limit digits n p small low =
    let below : ltb limit n ≡ false = ground arith in
    rw (decimal-decimal_text digits n small, below) refl

pub scan_byte_count_taken :
    (n c : ℕ) (p : Bytes)
    → n < ten_to 18
    → scan_byte_count (decimal_text 20 n ++ b'\t' ∷ c ∷ p) ≡ took tt (c ∷ p)
unfolding scan_byte_count ten_to is_digit
scan_byte_count_taken n c p small =
    bind_took (scan_set 20 is_digit b'\t') (at_most llong_max) (decimal_text 20 n ++ b'\t' ∷ c ∷ p)
      (c ∷ p) (decimal_text 20 n) (number_taken b'\t' 20 19 17 n c p refl small (omega arith))
    ∙ at_most_taken llong_max 20 n (c ∷ p) (omega (arith, small)) (omega (arith, small))

-- A duration below a hundred million seconds.
pub scan_wall_duration_taken :
    (sec nsec : ℕ) (p : Bytes)
    → sec < ten_to 8
    → scan_wall_duration (decimal_text 19 sec ++ b'.' ∷ (padded 9 nsec ++ b'\n' ∷ p)) ≡ took tt p
unfolding scan_wall_duration ten_to is_digit padded
scan_wall_duration_taken sec nsec p small =
    let fraction = padded 9 nsec ++ b'\n' ∷ p in
    let top = nsec / 10 / 10 / 10 / 10 / 10 / 10 / 10 / 10 in
    let seconds = decimal_text 19 sec in
    let tail : Scan (Unit {0}) = in_range 9 1 is_digit >> expect (is b'\n') in
    bind_took (scan_set 10 is_digit b'.') (λ v. (at_most 2147483647 v >> tail))
      (seconds ++ b'.' ∷ fraction) fraction seconds
      (number_taken b'.' 10 18 7 sec (b'0' + top % 10) (drop 1 fraction) refl small (omega arith))
    ∙ bind_took (at_most 2147483647 seconds) (λ _. tail) fraction fraction tt
        (at_most_taken 2147483647 19 sec fraction (omega (arith, small)) (omega (arith, small)))
    ∙ bind_took (in_range 9 1 is_digit) (λ _. expect (is b'\n')) fraction (b'\n' ∷ p) tt
        (in_range-padded nsec (b'\n' ∷ p))
    ∙ expect_passes (is b'\n') b'\n' p (is_self b'\n')
