-- ===== src/Udig/RoundTrip.antt =====
-- The text of a udig and its data.
use blobio.Base.{
  ℕ, zero, suc, ◌≡◌, refl, inl, inr, true, Option, none, some, [], ◌∷◌, ◌++◌, Bytes, ◌==◌, is_graph,
  bytes_eq, bytes_eq_iff, Bool-cases, ==_iff,
}
use blobio.Udig.{
  Udig, Datum, ◌>>=◌, datum, ereport, error, unknown_algorithm, udig_sha_type, udig_bc160_type,
  udig_btc20_type, sha, bc160, btc20, Scanned, not_graphic, no_colon, scanned, prefix,
  scan_algorithm, parse_algorithm, after_loop, or_invalid, type_byte, digest_in, hex2dig20,
  dig2hex40, udig_in, algorithm_out, udig_out,
}
use mathlib.Core.Path.{subst}
use blobio.Udig.Hex.{IsDigest, hex2dig-dig2hex40, hex2dig-inv}

-- The type byte is one of the three, and the digest has twenty bytes.
pub data IsType : ℕ → Type 0 where
  is_sha : IsType udig_sha_type
  is_bc160 : IsType udig_bc160_type
  is_btc20 : IsType udig_btc20_type

pub record IsUdig (u : Udig) : Type 0 where
  pub type : IsType u.algorithm_type
  pub digest : IsDigest 20 u.digest

digest_in-dig2hex40 : (d : Bytes) → IsDigest 20 d → digest_in (dig2hex40 d) ≡ datum d
unfolding digest_in hex2dig20
digest_in-dig2hex40 d h = rw (hex2dig-dig2hex40 20 d h) refl

-- The name that stands before the colon.
abbrev pub name : {type : ℕ} → IsType type → Bytes
name is_sha = sha
name is_bc160 = bc160
name is_btc20 = btc20

pub algorithm_out-name : {type : ℕ} (t : IsType type) → algorithm_out type ≡ datum (name t)
unfolding algorithm_out
algorithm_out-name is_sha = refl
algorithm_out-name is_bc160 = refl
algorithm_out-name is_btc20 = refl

parse_algorithm-name :
    {type : ℕ} (t : IsType type) (u : Bytes)
    → parse_algorithm (name t ++ b':' ∷ u) ≡ datum (name t, u)
unfolding parse_algorithm scan_algorithm prefix is_graph
parse_algorithm-name is_sha u = refl
parse_algorithm-name is_bc160 u = refl
parse_algorithm-name is_btc20 u = refl

type_byte-name : {type : ℕ} (t : IsType type) → type_byte (name t) ≡ datum type
unfolding type_byte bytes_eq
type_byte-name is_sha = refl
type_byte-name is_bc160 = refl
type_byte-name is_btc20 = refl

-- What `udig_out` writes of a udig with a type byte of the three algorithms and twenty bytes of digest,
-- `udig_in` reads back as that udig.
pub udig_in-udig_out :
    (u : Udig) → IsUdig u → (text : Bytes) × (udig_out u ≡ datum text) × (udig_in text ≡ datum u)
unfolding udig_out udig_in
udig_in-udig_out u h = (
  name h.type ++ b':' ∷ dig2hex40 u.digest,
  rw (algorithm_out-name h.type) refl,
  rw
      (
        parse_algorithm-name h.type (dig2hex40 u.digest),
        type_byte-name h.type,
        digest_in-dig2hex40 u.digest h.digest,
      )
      refl,
)

>>=-inv {ℓ κ} :
    {A : Type ℓ} {B : Type κ} (x : Datum A) (f : A → Datum B) (b : B)
    → x >>= f ≡ datum b
    → (a : A) × (x ≡ datum a) × (f a ≡ datum b)
>>=-inv (ereport level why) f b e = cc
>>=-inv (datum a) f b e = (a, refl, e)

prefix-inv :
    (c : ℕ) (s : Scanned) (a8 u : Bytes)
    → prefix c s ≡ scanned a8 u
    → (rest : Bytes) × (s ≡ scanned rest u) × (a8 ≡ c ∷ rest)
unfolding prefix
prefix-inv c not_graphic a8 u e = cc
prefix-inv c no_colon a8 u e = cc
prefix-inv c (scanned rest v) a8 u e = (rest, cc, cc)

pub scan_algorithm-inv :
    (n : ℕ) (text a8 u : Bytes) → scan_algorithm n text ≡ scanned a8 u → text ≡ a8 ++ b':' ∷ u
unfolding scan_algorithm
scan_algorithm-inv zero text a8 u e = cc
scan_algorithm-inv (suc n) [] a8 u e = cc
scan_algorithm-inv (suc n) (c ∷ text) a8 u e = elim (Bool-cases (is_graph c)) [
  | inr dark ↦ absurd (let no : not_graphic ≡ scanned a8 u = rw dark at e in cc)
  | inl graphic ↦ elim (Bool-cases (c == b':')) [
    | inl colon ↦
        let found : scanned [] text ≡ scanned a8 u = rw (graphic, colon) at e in
        let none_before : a8 ≡ [] = cc in
        let after : text ≡ u = cc in
        let here : c ≡ b':' = (==_iff c b':').0 colon in rw (none_before, after, here) refl
    | inr other ↦
        let (rest, er, ea) = prefix-inv c (scan_algorithm n text) a8 u (rw (graphic, other) at e) in
        rw (ea, scan_algorithm-inv n text rest u er) refl
  ]
]

after_loop-inv :
    (text : Bytes) (s : Scanned) (a8 u : Bytes)
    → after_loop text s ≡ datum (a8, u)
    → s ≡ scanned a8 u
after_loop-inv text not_graphic a8 u e = cc
after_loop-inv [] no_colon a8 u e = cc
after_loop-inv (c ∷ text) no_colon a8 u e = cc
after_loop-inv text (scanned b v) a8 u e = cc

parse_algorithm-inv :
    (text a8 u : Bytes) → parse_algorithm text ≡ datum (a8, u) → text ≡ a8 ++ b':' ∷ u
unfolding parse_algorithm
parse_algorithm-inv text a8 u e =
    scan_algorithm-inv 8 text a8 u (after_loop-inv text (scan_algorithm 8 text) a8 u e)

found-IsType :
    {found : ℕ} (t : IsType found) (a8 : Bytes) (type : ℕ)
    → bytes_eq a8 (name t) ≡ true
    → Path (Datum ℕ) (datum found) (datum type)
    → (t : IsType type) × (a8 ≡ name t)
found-IsType {found} t a8 type same e =
    let type_found : found ≡ type = cc in
    subst (λ type. (t : IsType type) × (a8 ≡ name t)) type_found
      (t, (bytes_eq_iff a8 (name t)).0 same)

type_byte-inv :
    (a8 : Bytes) (type : ℕ) → type_byte a8 ≡ datum type → (t : IsType type) × (a8 ≡ name t)
unfolding type_byte
type_byte-inv a8 type e = elim (Bool-cases (bytes_eq a8 btc20)) [
  | inl b ↦ found-IsType is_btc20 a8 type b (rw b at e)
  | inr not_btc20 ↦ elim (Bool-cases (bytes_eq a8 sha)) [
    | inl s ↦ found-IsType is_sha a8 type s (rw (not_btc20, s) at e)
    | inr not_sha ↦ elim (Bool-cases (bytes_eq a8 bc160)) [
      | inl b ↦ found-IsType is_bc160 a8 type b (rw (not_btc20, not_sha, b) at e)
      | inr not_bc160 ↦ absurd (
          let no : Path (Datum ℕ) (ereport error unknown_algorithm) (datum type) =
            rw (not_btc20, not_sha, not_bc160) at e in
          cc)
    ]
  ]
]

or_invalid-inv : (o : Option Bytes) (d : Bytes) → or_invalid o ≡ datum d → o ≡ some d
or_invalid-inv none d e = cc
or_invalid-inv (some d20) d e = cc

digest_in-inv : (u d : Bytes) → digest_in u ≡ datum d → IsDigest 20 d × (dig2hex40 d ≡ u)
unfolding digest_in hex2dig20
digest_in-inv u d e = hex2dig-inv 20 u d (or_invalid-inv (hex2dig20 u) d e)

udig_out-scanned :
    {type : ℕ} (text a8 v d : Bytes) (t : IsType type)
    → text ≡ a8 ++ b':' ∷ v
    → a8 ≡ name t
    → dig2hex40 d ≡ v
    → udig_out (record { algorithm_type = type; digest = d }) ≡ datum text
unfolding udig_out
udig_out-scanned text a8 v d t whole named hex = rw (algorithm_out-name t, whole, named, hex) refl

-- A text that `udig_in` accepts is the text that `udig_out` writes for the result, which has a type
-- byte of the three algorithms and twenty bytes of digest.
pub udig_out-udig_in :
    (text : Bytes) (u : Udig) → udig_in text ≡ datum u → (udig_out u ≡ datum text) × IsUdig u
unfolding udig_out udig_in
udig_out-udig_in text u e =
    let ((a8, v), parsed, e1) = >>=-inv (parse_algorithm text) _ u e in
    let (type, typed, e2) = >>=-inv (type_byte a8) _ u e1 in
    let (d, digested, e3) = >>=-inv (digest_in v) _ u e2 in
    let (t, named) = type_byte-inv a8 type typed in
    let (size, hex) = digest_in-inv v d digested in
    let same : Path Udig (record { algorithm_type = type; digest = d }) u = cc in
    let made : IsUdig (record { algorithm_type = type; digest = d }) = record {
      type = t;
      digest = size;
    } in
    let printed = udig_out-scanned text a8 v d t (parse_algorithm-inv text a8 v parsed) named hex in
    subst (λ w. (udig_out w ≡ datum text) × IsUdig w) same (printed, made)
