-- ===== src/Udig/Casts.antt =====
-- The operators of a digest of one algorithm are the generic operators after its cast.
use blobio.Base.{◌≡◌, refl, true, false, Bytes}
use blobio.Udig.{Udig, datum}
use blobio.Udig.Compare.{
  udig_compare, sha_compare_udig, udig_compare_sha, bc160_compare_udig, udig_compare_bc160,
  btc20_compare_udig, udig_compare_btc20,
}
use blobio.Udig.Query.{udig_sha_cast, udig_bc160_cast, udig_btc20_cast, udig_is_bc160}
use blobio.Udig.Operators.{
  udig_sha_eq, udig_sha_ne, udig_sha_gt, udig_sha_ge, udig_sha_lt, udig_sha_le, udig_sha_cmp,
  udig_bc160_eq, udig_bc160_ne, udig_bc160_gt, udig_bc160_ge, udig_bc160_lt, udig_bc160_le,
  udig_bc160_cmp, udig_btc20_eq, udig_btc20_ne, udig_btc20_gt, udig_btc20_ge, udig_btc20_lt,
  udig_btc20_le, udig_btc20_cmp, udig_eq, udig_ne, udig_gt, udig_ge, udig_lt, udig_le, udig_cmp,
}
use blobio.Udig.CrossOperators.{
  udig_sha_eq_udig, udig_eq_sha, udig_sha_ne_udig, udig_ne_sha, udig_sha_gt_udig, udig_gt_sha,
  udig_sha_ge_udig, udig_ge_sha, udig_sha_lt_udig, udig_lt_sha, udig_sha_le_udig, udig_le_sha,
  udig_sha_cmp_udig, udig_cmp_sha, udig_bc160_eq_udig, udig_eq_bc160, udig_bc160_ne_udig,
  udig_ne_bc160, udig_bc160_gt_udig, udig_gt_bc160, udig_bc160_ge_udig, udig_ge_bc160,
  udig_bc160_lt_udig, udig_lt_bc160, udig_bc160_le_udig, udig_le_bc160, udig_bc160_cmp_udig,
  udig_cmp_bc160, udig_btc20_eq_udig, udig_eq_btc20, udig_btc20_ne_udig, udig_ne_btc20,
  udig_btc20_gt_udig, udig_gt_btc20, udig_btc20_ge_udig, udig_ge_btc20, udig_btc20_lt_udig,
  udig_lt_btc20, udig_btc20_le_udig, udig_le_btc20, udig_btc20_cmp_udig, udig_cmp_btc20,
}
use blobio.Udig.RoundTrip.{IsType, is_sha, is_bc160, is_btc20}
use blobio.Udig.Answers.{
  generic, sha_sha, bc160_bc160, btc20_btc20, sha_udig, udig_sha, bc160_udig, udig_bc160,
  btc20_udig, udig_btc20,
}

-- The seven operators on two digests of one algorithm answer what the generic ones answer on the two
-- casts, for each of the three algorithms.
pub typed_operators-cast :
    (a b : Bytes)
    → (sha_sha a b ≡ generic (udig_sha_cast a) (udig_sha_cast b))
      × (bc160_bc160 a b ≡ generic (udig_bc160_cast a) (udig_bc160_cast b))
      × (btc20_btc20 a b ≡ generic (udig_btc20_cast a) (udig_btc20_cast b))
unfolding udig_sha_cast udig_bc160_cast udig_btc20_cast udig_compare udig_sha_eq udig_sha_ne
    udig_sha_gt udig_sha_ge udig_sha_lt udig_sha_le udig_sha_cmp udig_bc160_eq udig_bc160_ne
    udig_bc160_gt udig_bc160_ge udig_bc160_lt udig_bc160_le udig_bc160_cmp udig_btc20_eq
    udig_btc20_ne udig_btc20_gt udig_btc20_ge udig_btc20_lt udig_btc20_le udig_btc20_cmp udig_eq
    udig_ne udig_gt udig_ge udig_lt udig_le udig_cmp
typed_operators-cast a b = (refl, refl, refl)

-- On a digest and a udig with a type byte of the three algorithms, in five of the six pairs of types
-- the seven operators answer what the generic ones answer on the cast: a sha, a bc160 or a btc20 with
-- a udig, and a udig with a sha or a btc20. In the sixth they
-- do where the udig is the cast of a bc160.
pub cross_operators-cast :
    (d e : Bytes) (u : Udig)
    → IsType u.algorithm_type
    → (sha_udig d u ≡ generic (udig_sha_cast d) u)
      × (bc160_udig d u ≡ generic (udig_bc160_cast d) u)
      × (btc20_udig d u ≡ generic (udig_btc20_cast d) u)
      × (udig_sha u d ≡ generic u (udig_sha_cast d))
      × (udig_btc20 u d ≡ generic u (udig_btc20_cast d))
      × (udig_bc160 (udig_bc160_cast e) d ≡ generic (udig_bc160_cast e) (udig_bc160_cast d))
unfolding udig_sha_cast udig_bc160_cast udig_btc20_cast udig_compare sha_compare_udig
    udig_compare_sha bc160_compare_udig udig_compare_bc160 btc20_compare_udig udig_compare_btc20
    udig_eq udig_ne udig_gt udig_ge udig_lt udig_le udig_cmp udig_sha_eq_udig udig_eq_sha
    udig_sha_ne_udig udig_ne_sha udig_sha_gt_udig udig_gt_sha udig_sha_ge_udig udig_ge_sha
    udig_sha_lt_udig udig_lt_sha udig_sha_le_udig udig_le_sha udig_sha_cmp_udig udig_cmp_sha
    udig_bc160_eq_udig udig_eq_bc160 udig_bc160_ne_udig udig_ne_bc160 udig_bc160_gt_udig
    udig_gt_bc160 udig_bc160_ge_udig udig_ge_bc160 udig_bc160_lt_udig udig_lt_bc160
    udig_bc160_le_udig udig_le_bc160 udig_bc160_cmp_udig udig_cmp_bc160 udig_btc20_eq_udig
    udig_eq_btc20 udig_btc20_ne_udig udig_ne_btc20 udig_btc20_gt_udig udig_gt_btc20
    udig_btc20_ge_udig udig_ge_btc20 udig_btc20_lt_udig udig_lt_btc20 udig_btc20_le_udig
    udig_le_btc20 udig_btc20_cmp_udig udig_cmp_btc20
cross_operators-cast d e u is_sha = (refl, refl, refl, refl, refl, refl)
cross_operators-cast d e u is_bc160 = (refl, refl, refl, refl, refl, refl)
cross_operators-cast d e u is_btc20 = (refl, refl, refl, refl, refl, refl)

-- On a sha or a btc20 udig and a bc160, the operators say that the udig is less than the bc160 and that
-- the bc160 is less than the udig, where the generic ones say on the cast that the udig is greater.
pub bc160_less_both_ways :
    (u : Udig) (d : Bytes)
    → IsType u.algorithm_type
    → udig_is_bc160 u ≡ false
    → (udig_lt_bc160 u d ≡ datum true)
      × (udig_bc160_lt_udig d u ≡ datum true)
      × (udig_gt u (udig_bc160_cast d) ≡ datum true)
unfolding udig_bc160_cast udig_compare udig_compare_bc160 bc160_compare_udig udig_is_bc160 udig_gt
    udig_lt_bc160 udig_bc160_lt_udig
bc160_less_both_ways u d is_sha h = (refl, refl, refl)
bc160_less_both_ways u d is_bc160 h = cc
bc160_less_both_ways u d is_btc20 h = (refl, refl, refl)
