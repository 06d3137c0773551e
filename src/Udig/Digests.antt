-- ===== src/Udig/Digests.antt =====
-- The types udig_sha, udig_bc160 and udig_btc20: a digest alone. And the digest and the hash of a udig.
use blobio.Base.{
  ℕ, ◌≡◌, refl, sym, ap, ◌∙◌, [], ◌∷◌, ◌++◌, Bytes, length, take, drop, append-nil,
  take-append_self,
}
use blobio.Udig.{Udig, Datum, datum, digest_in, hex2dig20, dig2hex40}
use blobio.Udig.Hex.{IsDigest, hex2dig-dig2hex40}

unfoldable pub udig_sha_in : Bytes → Datum Bytes
unfolding digest_in
udig_sha_in hex40 = digest_in hex40

unfoldable pub udig_bc160_in : Bytes → Datum Bytes
unfolding digest_in
udig_bc160_in hex40 = digest_in hex40

unfoldable pub udig_btc20_in : Bytes → Datum Bytes
unfolding digest_in
udig_btc20_in hex40 = digest_in hex40

unfoldable pub udig_sha_out : Bytes → Bytes
unfolding dig2hex40
udig_sha_out d20 = dig2hex40 (take 20 d20)

unfoldable pub udig_bc160_out : Bytes → Bytes
unfolding dig2hex40
udig_bc160_out d20 = dig2hex40 (take 20 d20)

unfoldable pub udig_btc20_out : Bytes → Bytes
unfolding dig2hex40
udig_btc20_out d20 = dig2hex40 (take 20 d20)

-- The bytea results, by their data.
unfoldable pub udig_sha_digest : Bytes → Bytes
udig_sha_digest d20 = take 20 d20

unfoldable pub udig_bc160_digest : Bytes → Bytes
udig_bc160_digest d20 = take 20 d20

unfoldable pub udig_btc20_digest : Bytes → Bytes
udig_btc20_digest d20 = take 20 d20

unfoldable pub udig_digest : Udig → Bytes
udig_digest u = take 20 u.digest

-- `hash_any` is PostgreSQL's.
module _ (hash_any : Bytes → ℕ) where
  unfoldable pub udig_sha_hash : Bytes → ℕ
  udig_sha_hash a = hash_any (take 20 a)

  unfoldable pub udig_bc160_hash : Bytes → ℕ
  udig_bc160_hash a = hash_any (take 20 a)

  unfoldable pub udig_btc20_hash : Bytes → ℕ
  udig_btc20_hash a = hash_any (take 20 a)

  -- `a` is the address of the header of the datum, which stands before its data.
  unfoldable pub udig_hash : Bytes → Udig → ℕ
  udig_hash header u = hash_any (take 20 (drop 1 (header ++ u.algorithm_type ∷ u.digest)))

take_prefix : (n : ℕ) (d e : Bytes) → length d ≡ n → take n (d ++ e) ≡ d
take_prefix n d e size =
    let whole : take (length d) (d ++ e) ≡ d = take-append_self d e in rw size at whole

take_self : (n : ℕ) (d : Bytes) → length d ≡ n → take n d ≡ d
take_self n d size = sym (ap (take n) (append-nil d)) ∙ take_prefix n d [] size

-- Each of the three types reads back the text of its digest of twenty bytes, which is also the text of
-- its bytea.
pub digests_round_trip :
    (d : Bytes)
    → IsDigest 20 d
    → (udig_sha_in (udig_sha_out d) ≡ datum (udig_sha_digest d))
      × (udig_bc160_in (udig_bc160_out d) ≡ datum (udig_bc160_digest d))
      × (udig_btc20_in (udig_btc20_out d) ≡ datum (udig_btc20_digest d))
unfolding udig_sha_in udig_bc160_in udig_btc20_in udig_sha_out udig_bc160_out udig_btc20_out
    udig_sha_digest udig_bc160_digest udig_btc20_digest digest_in hex2dig20
digests_round_trip d h = rw (take_self 20 d h.size, hex2dig-dig2hex40 20 d h) (refl, refl, refl)

-- With a header of four bytes, the hash of a udig does not depend on its digest beyond 16 bytes.
pub udig_hash_tail :
    (hash_any : Bytes → ℕ) (type h0 h1 h2 h3 : ℕ) (d e f : Bytes)
    → length d ≡ 16
    → let header = h0 ∷ h1 ∷ h2 ∷ h3 ∷ [] in
      udig_hash hash_any header (record { algorithm_type = type; digest = d ++ e })
      ≡ udig_hash hash_any header (record { algorithm_type = type; digest = d ++ f })
unfolding udig_hash
udig_hash_tail hash_any type h0 h1 h2 h3 d e f size =
    rw (take_prefix 16 d e size, take_prefix 16 d f size) refl
