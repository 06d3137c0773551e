-- ===== src/Udig/CrossOperators.antt =====
-- The operators between a generic udig and a digest of one algorithm, seven for each order.
use blobio.Base.{Bool, Bytes}
use Prim.Native.Nat.{Ordering}
use blobio.Udig.{Udig, Datum}
use blobio.Udig.Compare.{
  sha_compare_udig, udig_compare_sha, bc160_compare_udig, udig_compare_bc160, btc20_compare_udig,
  udig_compare_btc20, is_eq, is_ne, is_gt, is_ge, is_lt, is_le, test,
}

unfoldable pub udig_sha_eq_udig : Bytes → Udig → Datum Bool
unfolding sha_compare_udig
udig_sha_eq_udig a b = test is_eq (sha_compare_udig a b)

unfoldable pub udig_sha_ne_udig : Bytes → Udig → Datum Bool
unfolding sha_compare_udig
udig_sha_ne_udig a b = test is_ne (sha_compare_udig a b)

unfoldable pub udig_sha_gt_udig : Bytes → Udig → Datum Bool
unfolding sha_compare_udig
udig_sha_gt_udig a b = test is_gt (sha_compare_udig a b)

unfoldable pub udig_sha_ge_udig : Bytes → Udig → Datum Bool
unfolding sha_compare_udig
udig_sha_ge_udig a b = test is_ge (sha_compare_udig a b)

unfoldable pub udig_sha_lt_udig : Bytes → Udig → Datum Bool
unfolding sha_compare_udig
udig_sha_lt_udig a b = test is_lt (sha_compare_udig a b)

unfoldable pub udig_sha_le_udig : Bytes → Udig → Datum Bool
unfolding sha_compare_udig
udig_sha_le_udig a b = test is_le (sha_compare_udig a b)

unfoldable pub udig_sha_cmp_udig : Bytes → Udig → Datum Ordering
unfolding sha_compare_udig
udig_sha_cmp_udig a b = sha_compare_udig a b

unfoldable pub udig_eq_sha : Udig → Bytes → Datum Bool
unfolding udig_compare_sha
udig_eq_sha a b = test is_eq (udig_compare_sha a b)

unfoldable pub udig_ne_sha : Udig → Bytes → Datum Bool
unfolding udig_compare_sha
udig_ne_sha a b = test is_ne (udig_compare_sha a b)

unfoldable pub udig_gt_sha : Udig → Bytes → Datum Bool
unfolding udig_compare_sha
udig_gt_sha a b = test is_gt (udig_compare_sha a b)

unfoldable pub udig_ge_sha : Udig → Bytes → Datum Bool
unfolding udig_compare_sha
udig_ge_sha a b = test is_ge (udig_compare_sha a b)

unfoldable pub udig_lt_sha : Udig → Bytes → Datum Bool
unfolding udig_compare_sha
udig_lt_sha a b = test is_lt (udig_compare_sha a b)

unfoldable pub udig_le_sha : Udig → Bytes → Datum Bool
unfolding udig_compare_sha
udig_le_sha a b = test is_le (udig_compare_sha a b)

unfoldable pub udig_cmp_sha : Udig → Bytes → Datum Ordering
unfolding udig_compare_sha
udig_cmp_sha a b = udig_compare_sha a b

unfoldable pub udig_bc160_eq_udig : Bytes → Udig → Datum Bool
unfolding bc160_compare_udig
udig_bc160_eq_udig a b = test is_eq (bc160_compare_udig a b)

unfoldable pub udig_bc160_ne_udig : Bytes → Udig → Datum Bool
unfolding bc160_compare_udig
udig_bc160_ne_udig a b = test is_ne (bc160_compare_udig a b)

unfoldable pub udig_bc160_gt_udig : Bytes → Udig → Datum Bool
unfolding bc160_compare_udig
udig_bc160_gt_udig a b = test is_gt (bc160_compare_udig a b)

unfoldable pub udig_bc160_ge_udig : Bytes → Udig → Datum Bool
unfolding bc160_compare_udig
udig_bc160_ge_udig a b = test is_ge (bc160_compare_udig a b)

unfoldable pub udig_bc160_lt_udig : Bytes → Udig → Datum Bool
unfolding bc160_compare_udig
udig_bc160_lt_udig a b = test is_lt (bc160_compare_udig a b)

unfoldable pub udig_bc160_le_udig : Bytes → Udig → Datum Bool
unfolding bc160_compare_udig
udig_bc160_le_udig a b = test is_le (bc160_compare_udig a b)

unfoldable pub udig_bc160_cmp_udig : Bytes → Udig → Datum Ordering
unfolding bc160_compare_udig
udig_bc160_cmp_udig a b = bc160_compare_udig a b

unfoldable pub udig_eq_bc160 : Udig → Bytes → Datum Bool
unfolding udig_compare_bc160
udig_eq_bc160 a b = test is_eq (udig_compare_bc160 a b)

unfoldable pub udig_ne_bc160 : Udig → Bytes → Datum Bool
unfolding udig_compare_bc160
udig_ne_bc160 a b = test is_ne (udig_compare_bc160 a b)

unfoldable pub udig_gt_bc160 : Udig → Bytes → Datum Bool
unfolding udig_compare_bc160
udig_gt_bc160 a b = test is_gt (udig_compare_bc160 a b)

unfoldable pub udig_ge_bc160 : Udig → Bytes → Datum Bool
unfolding udig_compare_bc160
udig_ge_bc160 a b = test is_ge (udig_compare_bc160 a b)

unfoldable pub udig_lt_bc160 : Udig → Bytes → Datum Bool
unfolding udig_compare_bc160
udig_lt_bc160 a b = test is_lt (udig_compare_bc160 a b)

unfoldable pub udig_le_bc160 : Udig → Bytes → Datum Bool
unfolding udig_compare_bc160
udig_le_bc160 a b = test is_le (udig_compare_bc160 a b)

unfoldable pub udig_cmp_bc160 : Udig → Bytes → Datum Ordering
unfolding udig_compare_bc160
udig_cmp_bc160 a b = udig_compare_bc160 a b

unfoldable pub udig_btc20_eq_udig : Bytes → Udig → Datum Bool
unfolding btc20_compare_udig
udig_btc20_eq_udig a b = test is_eq (btc20_compare_udig a b)

unfoldable pub udig_btc20_ne_udig : Bytes → Udig → Datum Bool
unfolding btc20_compare_udig
udig_btc20_ne_udig a b = test is_ne (btc20_compare_udig a b)

unfoldable pub udig_btc20_gt_udig : Bytes → Udig → Datum Bool
unfolding btc20_compare_udig
udig_btc20_gt_udig a b = test is_gt (btc20_compare_udig a b)

unfoldable pub udig_btc20_ge_udig : Bytes → Udig → Datum Bool
unfolding btc20_compare_udig
udig_btc20_ge_udig a b = test is_ge (btc20_compare_udig a b)

unfoldable pub udig_btc20_lt_udig : Bytes → Udig → Datum Bool
unfolding btc20_compare_udig
udig_btc20_lt_udig a b = test is_lt (btc20_compare_udig a b)

unfoldable pub udig_btc20_le_udig : Bytes → Udig → Datum Bool
unfolding btc20_compare_udig
udig_btc20_le_udig a b = test is_le (btc20_compare_udig a b)

unfoldable pub udig_btc20_cmp_udig : Bytes → Udig → Datum Ordering
unfolding btc20_compare_udig
udig_btc20_cmp_udig a b = btc20_compare_udig a b

unfoldable pub udig_eq_btc20 : Udig → Bytes → Datum Bool
unfolding udig_compare_btc20
udig_eq_btc20 a b = test is_eq (udig_compare_btc20 a b)

unfoldable pub udig_ne_btc20 : Udig → Bytes → Datum Bool
unfolding udig_compare_btc20
udig_ne_btc20 a b = test is_ne (udig_compare_btc20 a b)

unfoldable pub udig_gt_btc20 : Udig → Bytes → Datum Bool
unfolding udig_compare_btc20
udig_gt_btc20 a b = test is_gt (udig_compare_btc20 a b)

unfoldable pub udig_ge_btc20 : Udig → Bytes → Datum Bool
unfolding udig_compare_btc20
udig_ge_btc20 a b = test is_ge (udig_compare_btc20 a b)

unfoldable pub udig_lt_btc20 : Udig → Bytes → Datum Bool
unfolding udig_compare_btc20
udig_lt_btc20 a b = test is_lt (udig_compare_btc20 a b)

unfoldable pub udig_le_btc20 : Udig → Bytes → Datum Bool
unfolding udig_compare_btc20
udig_le_btc20 a b = test is_le (udig_compare_btc20 a b)

unfoldable pub udig_cmp_btc20 : Udig → Bytes → Datum Ordering
unfolding udig_compare_btc20
udig_cmp_btc20 a b = udig_compare_btc20 a b
