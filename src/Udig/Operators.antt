-- ===== src/Udig/Operators.antt =====
-- The operators of the types udig_sha, udig_bc160, udig_btc20 and udig, seven for each.
use blobio.Base.{Bool, Bytes}
use Prim.Native.Nat.{Ordering}
use blobio.Udig.{Udig, Datum}
use blobio.Udig.Compare.{memcmp, udig_compare, is_eq, is_ne, is_gt, is_ge, is_lt, is_le, test}

unfoldable pub udig_sha_eq : Bytes → Bytes → Bool
unfolding memcmp
udig_sha_eq a b = is_eq (memcmp a b)

unfoldable pub udig_sha_ne : Bytes → Bytes → Bool
unfolding memcmp
udig_sha_ne a b = is_ne (memcmp a b)

unfoldable pub udig_sha_gt : Bytes → Bytes → Bool
unfolding memcmp
udig_sha_gt a b = is_gt (memcmp a b)

unfoldable pub udig_sha_ge : Bytes → Bytes → Bool
unfolding memcmp
udig_sha_ge a b = is_ge (memcmp a b)

unfoldable pub udig_sha_lt : Bytes → Bytes → Bool
unfolding memcmp
udig_sha_lt a b = is_lt (memcmp a b)

unfoldable pub udig_sha_le : Bytes → Bytes → Bool
unfolding memcmp
udig_sha_le a b = is_le (memcmp a b)

unfoldable pub udig_sha_cmp : Bytes → Bytes → Ordering
unfolding memcmp
udig_sha_cmp a b = memcmp a b

unfoldable pub udig_bc160_eq : Bytes → Bytes → Bool
unfolding memcmp
udig_bc160_eq a b = is_eq (memcmp a b)

unfoldable pub udig_bc160_ne : Bytes → Bytes → Bool
unfolding memcmp
udig_bc160_ne a b = is_ne (memcmp a b)

unfoldable pub udig_bc160_gt : Bytes → Bytes → Bool
unfolding memcmp
udig_bc160_gt a b = is_gt (memcmp a b)

unfoldable pub udig_bc160_ge : Bytes → Bytes → Bool
unfolding memcmp
udig_bc160_ge a b = is_ge (memcmp a b)

unfoldable pub udig_bc160_lt : Bytes → Bytes → Bool
unfolding memcmp
udig_bc160_lt a b = is_lt (memcmp a b)

unfoldable pub udig_bc160_le : Bytes → Bytes → Bool
unfolding memcmp
udig_bc160_le a b = is_le (memcmp a b)

unfoldable pub udig_bc160_cmp : Bytes → Bytes → Ordering
unfolding memcmp
udig_bc160_cmp a b = memcmp a b

unfoldable pub udig_btc20_eq : Bytes → Bytes → Bool
unfolding memcmp
udig_btc20_eq a b = is_eq (memcmp a b)

unfoldable pub udig_btc20_ne : Bytes → Bytes → Bool
unfolding memcmp
udig_btc20_ne a b = is_ne (memcmp a b)

unfoldable pub udig_btc20_gt : Bytes → Bytes → Bool
unfolding memcmp
udig_btc20_gt a b = is_gt (memcmp a b)

unfoldable pub udig_btc20_ge : Bytes → Bytes → Bool
unfolding memcmp
udig_btc20_ge a b = is_ge (memcmp a b)

unfoldable pub udig_btc20_lt : Bytes → Bytes → Bool
unfolding memcmp
udig_btc20_lt a b = is_lt (memcmp a b)

unfoldable pub udig_btc20_le : Bytes → Bytes → Bool
unfolding memcmp
udig_btc20_le a b = is_le (memcmp a b)

unfoldable pub udig_btc20_cmp : Bytes → Bytes → Ordering
unfolding memcmp
udig_btc20_cmp a b = memcmp a b

unfoldable pub udig_eq : Udig → Udig → Datum Bool
unfolding udig_compare
udig_eq a b = test is_eq (udig_compare a b)

unfoldable pub udig_ne : Udig → Udig → Datum Bool
unfolding udig_compare
udig_ne a b = test is_ne (udig_compare a b)

unfoldable pub udig_gt : Udig → Udig → Datum Bool
unfolding udig_compare
udig_gt a b = test is_gt (udig_compare a b)

unfoldable pub udig_ge : Udig → Udig → Datum Bool
unfolding udig_compare
udig_ge a b = test is_ge (udig_compare a b)

unfoldable pub udig_lt : Udig → Udig → Datum Bool
unfolding udig_compare
udig_lt a b = test is_lt (udig_compare a b)

unfoldable pub udig_le : Udig → Udig → Datum Bool
unfolding udig_compare
udig_le a b = test is_le (udig_compare a b)

unfoldable pub udig_cmp : Udig → Udig → Datum Ordering
unfolding udig_compare
udig_cmp a b = udig_compare a b
