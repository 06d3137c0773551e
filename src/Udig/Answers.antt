-- ===== src/Udig/Answers.antt =====
-- The operators of a digest of one algorithm are the generic operators after its cast.
use blobio.Base.{Bool, Bytes}
use Prim.Native.Nat.{Ordering}
use blobio.Udig.{Udig, Datum, datum}
use blobio.Udig.Operators.{
  udig_sha_eq, udig_sha_ne, udig_sha_gt, udig_sha_ge, udig_sha_lt, udig_sha_le, udig_sha_cmp,
  udig_bc160_eq, udig_bc160_ne, udig_bc160_gt, udig_bc160_ge, udig_bc160_lt, udig_bc160_le,
  udig_bc160_cmp, udig_btc20_eq, udig_btc20_ne, udig_btc20_gt, udig_btc20_ge, udig_btc20_lt,
  udig_btc20_le, udig_btc20_cmp, udig_eq, udig_ne, udig_gt, udig_ge, udig_lt, udig_le, udig_cmp,
}
use blobio.Udig.CrossOperators.{
  udig_sha_eq_udig, udig_eq_sha, udig_sha_ne_udig, udig_ne_sha, udig_sha_gt_udig, udig_gt_sha,
  udig_sha_ge_udig, udig_ge_sha, udig_sha_lt_udig, udig_lt_sha, udig_sha_le_udig, udig_le_sha,
  udig_sha_cmp_udig, udig_cmp_sha, udig_bc160_eq_udig, udig_eq_bc160, udig_bc160_ne_udig,
  udig_ne_bc160, udig_bc160_gt_udig, udig_gt_bc160, udig_bc160_ge_udig, udig_ge_bc160,
  udig_bc160_lt_udig, udig_lt_bc160, udig_bc160_le_udig, udig_le_bc160, udig_bc160_cmp_udig,
  udig_cmp_bc160, udig_btc20_eq_udig, udig_eq_btc20, udig_btc20_ne_udig, udig_ne_btc20,
  udig_btc20_gt_udig, udig_gt_btc20, udig_btc20_ge_udig, udig_ge_btc20, udig_btc20_lt_udig,
  udig_lt_btc20, udig_btc20_le_udig, udig_le_btc20, udig_btc20_cmp_udig, udig_cmp_btc20,
}

-- What the seven operators of one pair of types answer.
pub record Answers : Type 0 where
  pub eq : Datum Bool
  pub ne : Datum Bool
  pub gt : Datum Bool
  pub ge : Datum Bool
  pub lt : Datum Bool
  pub le : Datum Bool
  pub cmp : Datum Ordering

abbrev pub generic : Udig → Udig → Answers
generic a b = record {
  eq = udig_eq a b;
  ne = udig_ne a b;
  gt = udig_gt a b;
  ge = udig_ge a b;
  lt = udig_lt a b;
  le = udig_le a b;
  cmp = udig_cmp a b;
}

abbrev pub sha_sha : Bytes → Bytes → Answers
sha_sha a b = record {
  eq = datum (udig_sha_eq a b);
  ne = datum (udig_sha_ne a b);
  gt = datum (udig_sha_gt a b);
  ge = datum (udig_sha_ge a b);
  lt = datum (udig_sha_lt a b);
  le = datum (udig_sha_le a b);
  cmp = datum (udig_sha_cmp a b);
}

abbrev pub sha_udig : Bytes → Udig → Answers
sha_udig a b = record {
  eq = udig_sha_eq_udig a b;
  ne = udig_sha_ne_udig a b;
  gt = udig_sha_gt_udig a b;
  ge = udig_sha_ge_udig a b;
  lt = udig_sha_lt_udig a b;
  le = udig_sha_le_udig a b;
  cmp = udig_sha_cmp_udig a b;
}

abbrev pub udig_sha : Udig → Bytes → Answers
udig_sha a b = record {
  eq = udig_eq_sha a b;
  ne = udig_ne_sha a b;
  gt = udig_gt_sha a b;
  ge = udig_ge_sha a b;
  lt = udig_lt_sha a b;
  le = udig_le_sha a b;
  cmp = udig_cmp_sha a b;
}

abbrev pub bc160_bc160 : Bytes → Bytes → Answers
bc160_bc160 a b = record {
  eq = datum (udig_bc160_eq a b);
  ne = datum (udig_bc160_ne a b);
  gt = datum (udig_bc160_gt a b);
  ge = datum (udig_bc160_ge a b);
  lt = datum (udig_bc160_lt a b);
  le = datum (udig_bc160_le a b);
  cmp = datum (udig_bc160_cmp a b);
}

abbrev pub bc160_udig : Bytes → Udig → Answers
bc160_udig a b = record {
  eq = udig_bc160_eq_udig a b;
  ne = udig_bc160_ne_udig a b;
  gt = udig_bc160_gt_udig a b;
  ge = udig_bc160_ge_udig a b;
  lt = udig_bc160_lt_udig a b;
  le = udig_bc160_le_udig a b;
  cmp = udig_bc160_cmp_udig a b;
}

abbrev pub udig_bc160 : Udig → Bytes → Answers
udig_bc160 a b = record {
  eq = udig_eq_bc160 a b;
  ne = udig_ne_bc160 a b;
  gt = udig_gt_bc160 a b;
  ge = udig_ge_bc160 a b;
  lt = udig_lt_bc160 a b;
  le = udig_le_bc160 a b;
  cmp = udig_cmp_bc160 a b;
}

abbrev pub btc20_btc20 : Bytes → Bytes → Answers
btc20_btc20 a b = record {
  eq = datum (udig_btc20_eq a b);
  ne = datum (udig_btc20_ne a b);
  gt = datum (udig_btc20_gt a b);
  ge = datum (udig_btc20_ge a b);
  lt = datum (udig_btc20_lt a b);
  le = datum (udig_btc20_le a b);
  cmp = datum (udig_btc20_cmp a b);
}

abbrev pub btc20_udig : Bytes → Udig → Answers
btc20_udig a b = record {
  eq = udig_btc20_eq_udig a b;
  ne = udig_btc20_ne_udig a b;
  gt = udig_btc20_gt_udig a b;
  ge = udig_btc20_ge_udig a b;
  lt = udig_btc20_lt_udig a b;
  le = udig_btc20_le_udig a b;
  cmp = udig_btc20_cmp_udig a b;
}

abbrev pub udig_btc20 : Udig → Bytes → Answers
udig_btc20 a b = record {
  eq = udig_eq_btc20 a b;
  ne = udig_ne_btc20 a b;
  gt = udig_gt_btc20 a b;
  ge = udig_ge_btc20 a b;
  lt = udig_lt_btc20 a b;
  le = udig_le_btc20 a b;
  cmp = udig_cmp_btc20 a b;
}
