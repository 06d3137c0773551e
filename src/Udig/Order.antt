-- ===== src/Udig/Order.antt =====
-- The operators of the generic udigs as one order.
use blobio.Base.{◌≡◌, ◌↔◌, refl, Bool, true, false, [], ◌∷◌, Bytes, arith}
use Prim.Native.Nat.{Ordering}
use blobio.Udig.{Udig, Datum, datum}
use blobio.Udig.Compare.{memcmp, test, is_lt}
use blobio.Udig.Operators.{udig_eq, udig_lt, udig_gt}
use blobio.Udig.RoundTrip.{IsUdig, udig_in-udig_out}
use blobio.Udig.Lexical.{udig_compare-udig_out}

memcmp_eq : (a b : Bytes) → (memcmp a b ≡ Ordering.eq) ↔ (a ≡ b)
unfolding memcmp
memcmp_eq [] [] = ground arith
memcmp_eq [] (y ∷ b) = ground arith
memcmp_eq (x ∷ a) [] = ground arith
memcmp_eq (x ∷ a) (y ∷ b) = ground (arith, memcmp_eq a b)

memcmp_trans :
    (a b c : Bytes) → memcmp a b ≡ Ordering.lt → memcmp b c ≡ Ordering.lt → memcmp a c ≡ Ordering.lt
unfolding memcmp
memcmp_trans [] [] c h k = cc
memcmp_trans [] (y ∷ b) [] h k = cc
memcmp_trans [] (y ∷ b) (z ∷ c) h k = refl
memcmp_trans (x ∷ a) [] c h k = cc
memcmp_trans (x ∷ a) (y ∷ b) [] h k = cc
memcmp_trans (x ∷ a) (y ∷ b) (z ∷ c) h k = ground (arith, memcmp_trans a b c)

memcmp_flip : (a b : Bytes) → memcmp a b ≡ Ordering.lt → memcmp b a ≡ Ordering.gt
unfolding memcmp
memcmp_flip [] [] h = cc
memcmp_flip [] (y ∷ b) h = refl
memcmp_flip (x ∷ a) [] h = cc
memcmp_flip (x ∷ a) (y ∷ b) h = ground (arith, memcmp_flip a b)

less : (o : Ordering) → Path (Datum Bool) (test is_lt (datum o)) (datum true) → o ≡ Ordering.lt
less Ordering.lt e = refl
less Ordering.eq e = cc
less Ordering.gt e = cc

-- For three udigs, each with a type byte of the three algorithms and twenty bytes of digest: where
-- `udig_lt` holds of the first and the second and of the second and the third, it holds of the first
-- and the third, for which `udig_eq` does not hold, and `udig_gt` holds of the third and the first.
pub udig_lt_trans :
    (u v w : Udig)
    → IsUdig u
    → IsUdig v
    → IsUdig w
    → udig_lt u v ≡ datum true
    → udig_lt v w ≡ datum true
    → (udig_lt u w ≡ datum true) × (udig_eq u w ≡ datum false) × (udig_gt w u ≡ datum true)
unfolding udig_lt udig_eq udig_gt
udig_lt_trans u v w hu hv hw uv vw =
    let (a, ea, _) = udig_in-udig_out u hu in
    let (b, eb, _) = udig_in-udig_out v hv in
    let (c, ec, _) = udig_in-udig_out w hw in
    let ab = less (memcmp a b) (rw (udig_compare-udig_out u v a b hu hv ea eb) at uv) in
    let bc = less (memcmp b c) (rw (udig_compare-udig_out v w b c hv hw eb ec) at vw) in
    let ac = memcmp_trans a b c ab bc in
    rw
      (
        udig_compare-udig_out u w a c hu hw ea ec,
        udig_compare-udig_out w u c a hw hu ec ea,
        ac,
        memcmp_flip a c ac,
      )
      (refl, refl, refl)
