-- ===== src/Udig/Compare.antt =====
-- The comparisons that the operators of the udig types share, by the sign of their result.
use blobio.Base.{Bool, true, false, [], ◌∷◌, Bytes, ◌&&◌, ◌||◌, ◌==◌, if◌then◌else◌}
use Prim.Native.Nat.{compare, Ordering}
use blobio.Udig.{
  Udig, Datum, datum, ereport, panic, corrupted_type, udig_sha_type, udig_bc160_type,
  udig_btc20_type,
}

abbrev pub first_difference : Ordering → Ordering → Ordering
first_difference Ordering.lt rest = Ordering.lt
first_difference Ordering.gt rest = Ordering.gt
first_difference Ordering.eq rest = rest

-- The sign of `memcmp` on two digests of one length.
unfoldable pub memcmp : Bytes → Bytes → Ordering
memcmp [] [] = Ordering.eq
memcmp [] (y ∷ b) = Ordering.lt
memcmp (x ∷ a) [] = Ordering.gt
memcmp (x ∷ a) (y ∷ b) = first_difference (compare x y) (memcmp a b)

-- `_udig_cmp`
unfoldable pub udig_compare : Udig → Udig → Datum Ordering
unfolding memcmp
udig_compare a b =
    if a.algorithm_type == b.algorithm_type
    then datum (memcmp a.digest b.digest)
    else if a.algorithm_type == udig_btc20_type && b.algorithm_type == udig_sha_type
    then datum Ordering.lt
    else if a.algorithm_type == udig_btc20_type && b.algorithm_type == udig_bc160_type
    then datum Ordering.gt
    else if a.algorithm_type == udig_sha_type
    then datum Ordering.gt
    else if a.algorithm_type == udig_bc160_type
    then datum Ordering.lt
    else ereport panic corrupted_type

-- `_udig_sha_cmp_udig`
unfoldable pub sha_compare_udig : Bytes → Udig → Datum Ordering
unfolding memcmp
sha_compare_udig a b =
    if b.algorithm_type == udig_sha_type
    then datum (memcmp a b.digest)
    else if b.algorithm_type == udig_btc20_type || b.algorithm_type == udig_bc160_type
    then datum Ordering.gt
    else ereport panic corrupted_type

-- `_udig_cmp_sha`
unfoldable pub udig_compare_sha : Udig → Bytes → Datum Ordering
unfolding memcmp
udig_compare_sha a b =
    if a.algorithm_type == udig_sha_type
    then datum (memcmp a.digest b)
    else if a.algorithm_type == udig_btc20_type || a.algorithm_type == udig_bc160_type
    then datum Ordering.lt
    else ereport panic corrupted_type

-- `_udig_bc160_cmp_udig`
unfoldable pub bc160_compare_udig : Bytes → Udig → Datum Ordering
unfolding memcmp
bc160_compare_udig a b =
    if b.algorithm_type == udig_sha_type || b.algorithm_type == udig_btc20_type
    then datum Ordering.lt
    else if b.algorithm_type == udig_bc160_type
    then datum (memcmp a b.digest)
    else ereport panic corrupted_type

-- `_udig_cmp_bc160`
unfoldable pub udig_compare_bc160 : Udig → Bytes → Datum Ordering
unfolding memcmp
udig_compare_bc160 a b =
    if a.algorithm_type == udig_btc20_type || a.algorithm_type == udig_sha_type
    then datum Ordering.lt
    else if a.algorithm_type == udig_bc160_type
    then datum (memcmp a.digest b)
    else ereport panic corrupted_type

-- `_udig_btc20_cmp_udig`
unfoldable pub btc20_compare_udig : Bytes → Udig → Datum Ordering
unfolding memcmp
btc20_compare_udig a b =
    if b.algorithm_type == udig_btc20_type
    then datum (memcmp a b.digest)
    else if b.algorithm_type == udig_sha_type
    then datum Ordering.lt
    else if b.algorithm_type == udig_bc160_type
    then datum Ordering.gt
    else ereport panic corrupted_type

-- `_udig_cmp_btc20`
unfoldable pub udig_compare_btc20 : Udig → Bytes → Datum Ordering
unfolding memcmp
udig_compare_btc20 a b =
    if a.algorithm_type == udig_btc20_type
    then datum (memcmp a.digest b)
    else if a.algorithm_type == udig_sha_type
    then datum Ordering.gt
    else if a.algorithm_type == udig_bc160_type
    then datum Ordering.lt
    else ereport panic corrupted_type

-- The tests of the operators on the result of a comparison.
abbrev pub is_eq : Ordering → Bool
is_eq o = elim o [ Ordering.eq ↦ true | _ ↦ false ]

abbrev pub is_ne : Ordering → Bool
is_ne o = elim o [ Ordering.eq ↦ false | _ ↦ true ]

abbrev pub is_gt : Ordering → Bool
is_gt o = elim o [ Ordering.gt ↦ true | _ ↦ false ]

abbrev pub is_ge : Ordering → Bool
is_ge o = elim o [ Ordering.lt ↦ false | _ ↦ true ]

abbrev pub is_lt : Ordering → Bool
is_lt o = elim o [ Ordering.lt ↦ true | _ ↦ false ]

abbrev pub is_le : Ordering → Bool
is_le o = elim o [ Ordering.gt ↦ false | _ ↦ true ]

abbrev pub test : (Ordering → Bool) → Datum Ordering → Datum Bool
test p (ereport level why) = ereport level why
test p (datum o) = datum (p o)
