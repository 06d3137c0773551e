-- ===== src/Udig/CanCast.antt =====
-- Which texts `udig_can_cast` accepts.
use blobio.Base.{
  ℕ, zero, suc, ◌≤◌, ◌≡◌, refl, Bool, true, false, not, ◌&&◌, [], ◌∷◌, ◌++◌, Bytes, All, length,
  ◌==◌, is_graph, bytes_eq, bytes_eq_iff, Bool-cases, inl, inr, arith, ap,
}
use blobio.Udig.{
  Udig, Datum, datum, scanned, prefix, scan_algorithm, hex2dig20, dig2hex40, udig_in, sha, bc160,
  btc20, udig_btc20_type,
}
use blobio.Udig.Query.{udig_can_cast, can_cast_scanned, can_cast_name, udig_is_btc20}
use blobio.Udig.Hex.{IsDigest, hex2dig-dig2hex40}
use blobio.Udig.RoundTrip.{IsType, is_sha, is_bc160, is_btc20, udig_out-udig_in, name}
use blobio.Udig.Lexical.{udig_out-text}

-- A byte that may stand in the name of an algorithm.
abbrev IsNameByte : ℕ → Type 0
IsNameByte c = (is_graph c ≡ true) × ((c == b':') ≡ false)

scan_algorithm-name :
    (n : ℕ) (a8 u : Bytes)
    → suc (length a8) ≤ n
    → All IsNameByte a8
    → scan_algorithm n (a8 ++ b':' ∷ u) ≡ scanned a8 u
unfolding scan_algorithm prefix is_graph
scan_algorithm-name zero a8 u short h = absurd (omega arith)
scan_algorithm-name (suc n) [] u short h = refl
scan_algorithm-name (suc n) (c ∷ a8) u short ((graphic, other), h) =
    rw (graphic, other, scan_algorithm-name n a8 u (omega arith) h) refl

can_cast_name_lem : (a8 : Bytes) → can_cast_name a8 ≡ not (bytes_eq btc20 a8)
unfolding can_cast_name bytes_eq
can_cast_name_lem a8 = elim (Bool-cases (bytes_eq btc20 a8)) [
  | inl same ↦ rw⁻¹ ((bytes_eq_iff btc20 a8).0 same) refl
  | inr other ↦ rw other refl
]

and_true : (b : Bool) → (b && true) ≡ b
and_true b = ground arith

accepted :
    (a8 : Bytes)
    → Path (Datum Bool) (datum (can_cast_name a8 && true)) (datum (not (bytes_eq btc20 a8)))
accepted a8 = rw (can_cast_name_lem a8) (ap datum (and_true (not (bytes_eq btc20 a8))))

-- A name of at most seven graphic bytes other than the colon, before a colon and the hexadecimal digits
-- of twenty bytes, can be cast where the name is not btc20.
pub udig_can_cast_name :
    (a8 d : Bytes)
    → suc (length a8) ≤ 8
    → All IsNameByte a8
    → IsDigest 20 d
    → udig_can_cast (a8 ++ b':' ∷ dig2hex40 d) ≡ datum (not (bytes_eq btc20 a8))
unfolding udig_can_cast can_cast_scanned hex2dig20
udig_can_cast_name a8 d short named size =
    rw (scan_algorithm-name 8 a8 (dig2hex40 d) short named, hex2dig-dig2hex40 20 d size)
      (accepted a8)

can_cast-type :
    {type : ℕ} (d : Bytes) (t : IsType type)
    → IsDigest 20 d
    → udig_can_cast (name t ++ b':' ∷ dig2hex40 d) ≡ datum (not (type == udig_btc20_type))
unfolding is_graph bytes_eq
can_cast-type d is_sha h =
    udig_can_cast_name sha d (omega arith) ((refl, refl), ((refl, refl), ((refl, refl), tt))) h
can_cast-type d is_bc160 h =
    udig_can_cast_name bc160 d (omega arith)
      ((refl, refl), ((refl, refl), ((refl, refl), ((refl, refl), ((refl, refl), tt))))) h
can_cast-type d is_btc20 h =
    udig_can_cast_name btc20 d (omega arith)
      ((refl, refl), ((refl, refl), ((refl, refl), ((refl, refl), ((refl, refl), tt))))) h

-- A text that `udig_in` accepts can be cast where it is no btc20, and only there.
pub udig_can_cast-udig_in :
    (text : Bytes) (u : Udig)
    → udig_in text ≡ datum u
    → udig_can_cast text ≡ datum (not (udig_is_btc20 u))
unfolding udig_is_btc20
udig_can_cast-udig_in text u e =
    let (printed, whole) = udig_out-udig_in text u e in
    rw (udig_out-text u text whole printed) (can_cast-type u.digest whole.type whole.digest)
