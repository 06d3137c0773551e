-- ===== src/Brr/Stamped.antt =====
-- The frisker takes the start time of a record.
use blobio.Base.{
  ℕ, zero, suc, ◌+◌, ◌*◌, ◌/◌, ◌%◌, ◌≤◌, ◌<◌, ◌≡◌, refl, ap, ◌∙◌, Bool, true, false, [], ◌∷◌, ◌++◌,
  Bytes, codes, All, All-append, length, length-append, ◌==◌, is_digit, arith,
}
use blobio.Frisk.Scan.{
  Scan, Scanned, took, rejected, died, overrun, ◌>>=◌, ◌>>◌, expect, is, in_set, in_range,
  in_range_from,
}
use blobio.Frisk.Fields.{scan_rfc399nano, scan_zone, between}
use blobio.Brr.Format.{Stamp, padded, stamp_text}

abbrev pub IsDigit : ℕ → Type 0
IsDigit c = is_digit c ≡ true

pub printed-IsDigit : (n : ℕ) → IsDigit (b'0' + n % 10)
unfolding is_digit
printed-IsDigit n = ground arith

pub padded-digits : (w n : ℕ) → All IsDigit (padded w n)
unfolding padded
padded-digits zero n = tt
padded-digits (suc w) n =
    All-append IsDigit (padded w (n / 10)) ((b'0' + n % 10) ∷ []) (padded-digits w (n / 10))
      (printed-IsDigit n, tt)

pub length-padded : (w n : ℕ) → length (padded w n) ≡ w
unfolding padded
length-padded zero n = refl
length-padded (suc w) n =
    omega
      (arith, length-append (padded w (n / 10)) ((b'0' + n % 10) ∷ []), length-padded w (n / 10))

digit_no_null : (c : ℕ) → IsDigit c → (c == 0) ≡ false
unfolding is_digit
digit_no_null c h = ground arith

in_set_digits : (xs p : Bytes) → All IsDigit xs → in_set (length xs) is_digit (xs ++ p) ≡ took tt p
unfolding in_set
in_set_digits [] p h = refl
in_set_digits (c ∷ xs) p (h, hs) = rw (digit_no_null c h, h, in_set_digits xs p hs) refl

in_range_digits :
    (seen : ℕ) (xs p : Bytes)
    → All IsDigit xs
    → in_range_from seen (length xs) 1 is_digit (xs ++ p) ≡ took tt p
unfolding in_range_from
in_range_digits seen [] p h = refl
in_range_digits seen (c ∷ xs) p (h, hs) =
    rw (digit_no_null c h, h, in_range_digits (seen + 1) xs p hs) refl

pub in_range-padded : (n : ℕ) (p : Bytes) → in_range 9 1 is_digit (padded 9 n ++ p) ≡ took tt p
unfolding in_range padded
in_range-padded n p = in_range_digits 0 (padded 9 n) p (padded-digits 9 n)

pub expect_passes :
    (test : ℕ → Bool) (c : ℕ) (p : Bytes) → test c ≡ true → expect test (c ∷ p) ≡ took tt p
unfolding expect
expect_passes test c p h = rw h refl

pub bind_took :
    {A B : Type 0} (m : Scan A) (f : A → Scan B) (p q : Bytes) (a : A)
    → m p ≡ took a q
    → (m >>= f) p ≡ f a q
bind_took {A} {B} m f p q a e =
    ap
      (λ (r : Scanned A). elim r as (λ r. Scanned B) [
        | took a q ↦ f a q
        | rejected ↦ rejected
        | died ↦ died
        | overrun ↦ overrun
      ])
      e

-- A byte that passes its test, in front of what is still to be scanned.
pub expect_then :
    {B : Type 0} (test : ℕ → Bool) (k : Scan B) (c : ℕ) (p : Bytes)
    → test c ≡ true
    → (expect test >> k) (c ∷ p) ≡ k p
expect_then test k c p h = bind_took (expect test) (λ _. k) (c ∷ p) p tt (expect_passes test c p h)

pub is_self : (c : ℕ) → is c c ≡ true
is_self c = ground arith

-- A stamp that the frisker takes: a year from 2000 to 5999, and no leap second.
pub record IsStamp (t : Stamp) : Type 0 where
  pub year_low : 2000 ≤ t.year
  pub year_high : t.year < 6000
  pub month : t.month ≤ 12
  pub day : t.day ≤ 31
  pub hour : t.hour < 24
  pub minute : t.minute < 60
  pub second : t.second < 60
  pub nsec : t.nsec < 1000000000

zone_taken : (p : Bytes) → scan_zone (codes "+00:00" ++ p) ≡ took tt p
unfolding scan_zone expect in_set is_digit
zone_taken p = refl

-- A number below a hundred, of which the first digit is at most `top`.
two_digits :
    (top n : ℕ) → n < (top + 1) * 10 → between b'0' (b'0' + top) (b'0' + n / 10 % 10) ≡ true
two_digits top n h = ground arith

-- Two digits of a number, the first at most `top`, and what separates them from the rest.
abbrev two_scanned : {B : Type 0} → ℕ → ℕ → Scan B → Scan B
two_scanned top sep k = do expect (between b'0' (b'0' + top)); expect is_digit; expect (is sep); k

two_taken :
    {B : Type 0} (top sep n : ℕ) (k : Scan B) (p : Bytes)
    → n < (top + 1) * 10
    → two_scanned top sep k (padded 2 n ++ sep ∷ p) ≡ k p
unfolding padded
two_taken {B} top sep n k p h =
    let after : Scan B = expect (is sep) >> k in
    expect_then (between b'0' (b'0' + top)) (expect is_digit >> after) (b'0' + n / 10 % 10)
      ((b'0' + n % 10) ∷ sep ∷ p) (two_digits top n h)
    ∙ expect_then is_digit after (b'0' + n % 10) (sep ∷ p) (printed-IsDigit n)
    ∙ expect_then (is sep) k sep p (is_self sep)

abbrev after_point : Scan (Unit {0})
after_point = do in_range 9 1 is_digit; scan_zone; expect (is b'\t')

after_point_taken :
    (n : ℕ) (p : Bytes) → after_point (padded 9 n ++ (codes "+00:00" ++ b'\t' ∷ p)) ≡ took tt p
after_point_taken n p =
    bind_took (in_range 9 1 is_digit) (λ _. (scan_zone >> expect (is b'\t')))
      (padded 9 n ++ (codes "+00:00" ++ b'\t' ∷ p)) (codes "+00:00" ++ b'\t' ∷ p) tt
      (in_range-padded n (codes "+00:00" ++ b'\t' ∷ p))
    ∙ bind_took scan_zone (λ _. expect (is b'\t')) (codes "+00:00" ++ b'\t' ∷ p) (b'\t' ∷ p) tt
        (zone_taken (b'\t' ∷ p))
    ∙ expect_passes (is b'\t') b'\t' p (is_self b'\t')

year_digit : (n : ℕ) → 2000 ≤ n → n < 6000 → between b'2' b'5' (b'0' + n / 10 / 10 / 10 % 10) ≡ true
year_digit n low high = ground arith

year_taken :
    {B : Type 0} (n : ℕ) (k : Scan B) (p : Bytes)
    → 2000 ≤ n
    → n < 6000
    → (expect (between b'2' b'5') >> (in_set 3 is_digit >> (expect (is b'-') >> k)))
        (padded 4 n ++ b'-' ∷ p)
      ≡ k p
unfolding padded
year_taken {B} n k p low high =
    let after : Scan B = expect (is b'-') >> k in
    let d2 = b'0' + n / 10 / 10 % 10 in
    let d1 = b'0' + n / 10 % 10 in
    let d0 = b'0' + n % 10 in
    expect_then (between b'2' b'5') (in_set 3 is_digit >> after) (b'0' + n / 10 / 10 / 10 % 10)
      (d2 ∷ d1 ∷ d0 ∷ b'-' ∷ p) (year_digit n low high)
    ∙ bind_took (in_set 3 is_digit) (λ _. after) (d2 ∷ d1 ∷ d0 ∷ b'-' ∷ p) (b'-' ∷ p) tt
        (in_set_digits (d2 ∷ d1 ∷ d0 ∷ []) (b'-' ∷ p)
          (printed-IsDigit (n / 10 / 10), (printed-IsDigit (n / 10), (printed-IsDigit n, tt))))
    ∙ expect_then (is b'-') k b'-' p (is_self b'-')

pub scan_rfc399nano-stamp_text :
    (t : Stamp) (p : Bytes) → IsStamp t → scan_rfc399nano (stamp_text t ++ b'\t' ∷ p) ≡ took tt p
unfolding scan_rfc399nano stamp_text padded
scan_rfc399nano-stamp_text t p h =
    let fraction = padded 9 t.nsec ++ (codes "+00:00" ++ b'\t' ∷ p) in
    let seconds = padded 2 t.second ++ b'.' ∷ fraction in
    let minutes = padded 2 t.minute ++ b':' ∷ seconds in
    let hours = padded 2 t.hour ++ b':' ∷ minutes in
    let days = padded 2 t.day ++ b'T' ∷ hours in
    let months = padded 2 t.month ++ b'-' ∷ days in
    let k5 = two_scanned 5 b'.' after_point in
    let k4 = two_scanned 5 b':' k5 in
    let k3 = two_scanned 2 b':' k4 in
    let k2 = two_scanned 3 b'T' k3 in
    let k1 = two_scanned 1 b'-' k2 in
    year_taken t.year k1 months h.year_low h.year_high
    ∙ two_taken 1 b'-' t.month k2 days (omega (arith, h.month))
    ∙ two_taken 3 b'T' t.day k3 hours (omega (arith, h.day))
    ∙ two_taken 2 b':' t.hour k4 minutes (omega (arith, h.hour))
    ∙ two_taken 5 b':' t.minute k5 seconds (omega (arith, h.minute))
    ∙ two_taken 5 b'.' t.second after_point fraction (omega (arith, h.second))
    ∙ after_point_taken t.nsec p
