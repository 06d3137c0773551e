-- ===== src/Udig/Lexical.antt =====
-- The order of the generic udigs is the order of their texts.
use blobio.Base.{ℕ, ◌/◌, ◌%◌, ◌<◌, ◌≡◌, refl, [], ◌∷◌, ◌++◌, Bytes, All, arith, ◌∙◌, ap, sym}
use Prim.Native.Nat.{compare}
use blobio.Udig.{Udig, Datum, datum, nib2hex, dig2hex40, udig_out}
use blobio.Udig.Compare.{memcmp, udig_compare}
use blobio.Udig.Hex.{IsByte}
use blobio.Udig.RoundTrip.{IsType, is_sha, is_bc160, is_btc20, IsUdig, name, algorithm_out-name}

compare-nib2hex : (m n : ℕ) → m < 16 → n < 16 → compare (nib2hex m) (nib2hex n) ≡ compare m n
unfolding nib2hex
compare-nib2hex m n hm hn = ground arith

memcmp_byte :
    (x y : ℕ) (s t : Bytes)
    → IsByte x
    → IsByte y
    → memcmp (x / 16 % 16 ∷ x % 16 ∷ s) (y / 16 % 16 ∷ y % 16 ∷ t) ≡ memcmp (x ∷ s) (y ∷ t)
unfolding memcmp
memcmp_byte x y s t hx hy = ground arith

memcmp-nib2hex :
    (k l m n : ℕ) (s t : Bytes)
    → k < 16
    → l < 16
    → m < 16
    → n < 16
    → memcmp (nib2hex k ∷ nib2hex l ∷ s) (nib2hex m ∷ nib2hex n ∷ t)
      ≡ memcmp (k ∷ l ∷ s) (m ∷ n ∷ t)
unfolding memcmp
memcmp-nib2hex k l m n s t hk hl hm hn =
    rw (compare-nib2hex k m hk hm, compare-nib2hex l n hl hn) refl

memcmp-dig2hex40 :
    (a b : Bytes) → All IsByte a → All IsByte b → memcmp (dig2hex40 a) (dig2hex40 b) ≡ memcmp a b
unfolding dig2hex40 memcmp
memcmp-dig2hex40 [] [] ha hb = refl
memcmp-dig2hex40 [] (y ∷ b) ha hb = refl
memcmp-dig2hex40 (x ∷ a) [] ha hb = refl
memcmp-dig2hex40 (x ∷ a) (y ∷ b) ha hb =
    let (hx, hs) = ha in
    let (hy, ht) = hb in
    memcmp-nib2hex (x / 16 % 16) (x % 16) (y / 16 % 16) (y % 16) (dig2hex40 a) (dig2hex40 b)
      (omega arith) (omega arith) (omega arith) (omega arith)
    ∙ memcmp_byte x y (dig2hex40 a) (dig2hex40 b) hx hy
    ∙ rw (memcmp-dig2hex40 a b hs ht) refl

-- `s` is the text of `u`.
pub udig_out-text :
    (u : Udig) (s : Bytes) (h : IsUdig u)
    → udig_out u ≡ datum s
    → s ≡ name h.type ++ b':' ∷ dig2hex40 u.digest
unfolding udig_out
udig_out-text u s h e =
    let known : Path (Datum Bytes) (datum (name h.type ++ b':' ∷ dig2hex40 u.digest)) (datum s) =
      rw (algorithm_out-name h.type) at e in
    cc

udig_compare-name :
    (u v : Udig) (tu : IsType u.algorithm_type) (tv : IsType v.algorithm_type)
    → memcmp (dig2hex40 u.digest) (dig2hex40 v.digest) ≡ memcmp u.digest v.digest
    → udig_compare u v
      ≡ datum (memcmp (name tu ++ b':' ∷ dig2hex40 u.digest) (name tv ++ b':' ∷ dig2hex40 v.digest))
unfolding udig_compare memcmp
udig_compare-name u v is_sha is_sha h = ap datum (sym h)
udig_compare-name u v is_sha is_bc160 h = refl
udig_compare-name u v is_sha is_btc20 h = refl
udig_compare-name u v is_bc160 is_sha h = refl
udig_compare-name u v is_bc160 is_bc160 h = ap datum (sym h)
udig_compare-name u v is_bc160 is_btc20 h = refl
udig_compare-name u v is_btc20 is_sha h = refl
udig_compare-name u v is_btc20 is_bc160 h = refl
udig_compare-name u v is_btc20 is_btc20 h = ap datum (sym h)

-- The sign of `_udig_cmp` on two udigs, each with a type byte of the three algorithms and twenty bytes
-- of digest, is the sign of the comparison of their texts byte by byte.
pub udig_compare-udig_out :
    (u v : Udig) (s t : Bytes)
    → IsUdig u
    → IsUdig v
    → udig_out u ≡ datum s
    → udig_out v ≡ datum t
    → udig_compare u v ≡ datum (memcmp s t)
udig_compare-udig_out u v s t hu hv es et =
    rw (udig_out-text u s hu es, udig_out-text v t hv et)
      (udig_compare-name u v hu.type hv.type
        (memcmp-dig2hex40 u.digest v.digest hu.digest.bytes hv.digest.bytes))
