-- ===== src/Udig/Hex.antt =====
-- Twenty bytes and their forty hexadecimal digits.
use blobio.Base.{
  ℕ, zero, suc, ◌+◌, ◌*◌, ◌/◌, ◌%◌, ◌<◌, ◌≡◌, refl, ap, Option, none, some, [], ◌∷◌, Bytes, All,
  length, arith,
}
use blobio.Udig.{hex_nibble, join_nibbles, cons_byte, hex2dig, nib2hex, dig2hex40}

abbrev pub IsByte : ℕ → Type 0
IsByte b = b < 256

-- A digest of `n` bytes.
pub record IsDigest (n : ℕ) (d : Bytes) : Type 0 where
  pub size : length d ≡ n
  pub bytes : All IsByte d

hex_nibble-nib2hex : (n : ℕ) → n < 16 → hex_nibble (nib2hex n) ≡ some n
unfolding hex_nibble nib2hex
hex_nibble-nib2hex n lt = ground arith

hex_nibble-inv : (c n : ℕ) → hex_nibble c ≡ some n → (n < 16) × (nib2hex n ≡ c)
unfolding hex_nibble nib2hex
hex_nibble-inv c n h = ground arith

join_nibbles-inv :
    (a b : Option ℕ) (d : ℕ)
    → join_nibbles a b ≡ some d
    → (h : ℕ) × (l : ℕ) × (a ≡ some h) × (b ≡ some l) × (d ≡ h * 16 + l)
join_nibbles-inv none b d e = cc
join_nibbles-inv (some h) none d e = cc
join_nibbles-inv (some h) (some l) d e = (h, l, refl, refl, cc)

cons_byte-inv :
    (a : Option ℕ) (r : Option Bytes) (ds : Bytes)
    → cons_byte a r ≡ some ds
    → (b : ℕ) × (rest : Bytes) × (a ≡ some b) × (r ≡ some rest) × (ds ≡ b ∷ rest)
cons_byte-inv none r ds e = cc
cons_byte-inv (some b) none ds e = cc
cons_byte-inv (some b) (some rest) ds e = (b, rest, refl, refl, cc)

nibbles-byte :
    (d : ℕ)
    → IsByte d
    → join_nibbles (hex_nibble (nib2hex (d / 16 % 16))) (hex_nibble (nib2hex (d % 16))) ≡ some d
nibbles-byte d lt =
    rw (hex_nibble-nib2hex (d / 16 % 16) (omega arith), hex_nibble-nib2hex (d % 16) (omega arith))
      (ap some (omega arith))

nibbles_inv :
    (high low d : ℕ)
    → join_nibbles (hex_nibble high) (hex_nibble low) ≡ some d
    → IsByte d × (nib2hex (d / 16 % 16) ≡ high) × (nib2hex (d % 16) ≡ low)
nibbles_inv high low d e =
    let (h, l, eh, el, ed) = join_nibbles-inv (hex_nibble high) (hex_nibble low) d e in
    let (hb, hh) = hex_nibble-inv high h eh in
    let (lb, ll) = hex_nibble-inv low l el in
    let top : d / 16 % 16 ≡ h = omega arith in
    let bottom : d % 16 ≡ l = omega arith in (omega arith, rw top hh, rw bottom ll)

pub hex2dig-dig2hex40 : (n : ℕ) (d : Bytes) → IsDigest n d → hex2dig n (dig2hex40 d) ≡ some d
unfolding hex2dig dig2hex40
hex2dig-dig2hex40 zero [] h = refl
hex2dig-dig2hex40 zero (b ∷ d) h = absurd (omega (arith, h.size))
hex2dig-dig2hex40 (suc n) [] h = absurd (omega (arith, h.size))
hex2dig-dig2hex40 (suc n) (b ∷ d) h =
    let tail : IsDigest n d = record { size = omega (arith, h.size); bytes = h.bytes.1 } in
    rw (nibbles-byte b h.bytes.0, hex2dig-dig2hex40 n d tail) refl

pub hex2dig-inv :
    (n : ℕ) (text d : Bytes) → hex2dig n text ≡ some d → IsDigest n d × (dig2hex40 d ≡ text)
unfolding hex2dig dig2hex40
hex2dig-inv zero [] d h = let nil : d ≡ [] = cc in rw nil (record { size = refl; bytes = tt }, refl)
hex2dig-inv zero (c ∷ text) d h = cc
hex2dig-inv (suc n) [] d h = cc
hex2dig-inv (suc n) (high ∷ []) d h = cc
hex2dig-inv (suc n) (high ∷ low ∷ text) d h =
    let (b, rest, eb, er, ed) =
      cons_byte-inv (join_nibbles (hex_nibble high) (hex_nibble low)) (hex2dig n text) d h in
    let (lt, eh, el) = nibbles_inv high low b eb in
    let (tail, et) = hex2dig-inv n text rest er in
    rw ed (record { size = ap suc tail.size; bytes = (lt, tail.bytes) }, rw (eh, el, et) refl)
