-- ===== src/Tests/Udig.antt =====
-- Udigs of PostgreSQL on concrete texts.
use blobio.Base.{
  ◌≡◌, refl, true, false, some, [], ◌++◌, Bytes, codes, is_graph, bytes_eq, All, ◌==◌,
}
use blobio.Udig.{
  Udig, datum, ereport, error, unknown_algorithm, can_not_parse, empty_udig, invalid_digest,
  udig_in, udig_out, dig2hex40, nib2hex, hex2dig, hex_nibble, hex2dig20, digest_in, parse_algorithm,
  scan_algorithm, prefix, type_byte, algorithm_out,
}
use blobio.Udig.Compare.{memcmp, udig_compare}
use blobio.Udig.Query.{
  udig_bc160_cast, udig_sha_cast, udig_btc20_cast, udig_is_bc160, empty_sha, empty_bc160,
  empty_btc20,
}
use blobio.Udig.Operators.{udig_lt}
use blobio.Udig.Hex.{hex2dig-inv}
use blobio.Udig.RoundTrip.{is_sha, is_bc160, is_btc20, IsUdig, udig_in-udig_out, udig_out-udig_in}
use blobio.Udig.Lexical.{udig_compare-udig_out}
use blobio.Udig.Answers.{
  generic, sha_udig, udig_sha, bc160_udig, udig_bc160, btc20_udig, udig_btc20,
}
use blobio.Udig.Casts.{cross_operators-cast}

-- The udigs of the empty blob.
abbrev sha_of_empty : Udig
sha_of_empty = record { algorithm_type = 1; digest = empty_sha }

abbrev bc160_of_empty : Udig
bc160_of_empty = record { algorithm_type = 2; digest = empty_bc160 }

abbrev btc20_of_empty : Udig
btc20_of_empty = record { algorithm_type = 3; digest = empty_btc20 }

abbrev sha_hex : Bytes
sha_hex = codes "da39a3ee5e6b4b0d3255bfef95601890afd80709"

abbrev bc160_hex : Bytes
bc160_hex = codes "b472a266d0bd89c13706a4132ccfb16f7c3b9fcb"

abbrev btc20_hex : Bytes
btc20_hex = codes "fd7b15dc5dc2039556693555c2b81b36c8deec15"

abbrev sha_text : Bytes
sha_text = codes "sha:" ++ sha_hex

hex_digits :
    (hex2dig 20 sha_hex ≡ some empty_sha)
    × (hex2dig 20 bc160_hex ≡ some empty_bc160)
    × (hex2dig 20 btc20_hex ≡ some empty_btc20)
unfolding hex2dig hex_nibble
hex_digits = (refl, refl, refl)

sha_of_empty-IsUdig : IsUdig sha_of_empty
sha_of_empty-IsUdig = record {
  type = is_sha;
  digest = (hex2dig-inv 20 sha_hex empty_sha hex_digits.0).0;
}

bc160_of_empty-IsUdig : IsUdig bc160_of_empty
bc160_of_empty-IsUdig = record {
  type = is_bc160;
  digest = (hex2dig-inv 20 bc160_hex empty_bc160 hex_digits.1).0;
}

btc20_of_empty-IsUdig : IsUdig btc20_of_empty
btc20_of_empty-IsUdig = record {
  type = is_btc20;
  digest = (hex2dig-inv 20 btc20_hex empty_btc20 hex_digits.2).0;
}

bc160_of_empty-text : udig_out bc160_of_empty ≡ datum (codes "bc160:" ++ bc160_hex)
unfolding udig_out algorithm_out dig2hex40 nib2hex
bc160_of_empty-text = refl

sha_of_empty-text : udig_out sha_of_empty ≡ datum sha_text
unfolding udig_out algorithm_out dig2hex40 nib2hex
sha_of_empty-text = refl

sha_text-in : udig_in sha_text ≡ datum sha_of_empty
unfolding udig_in parse_algorithm scan_algorithm prefix type_byte digest_in hex2dig20 hex2dig
    hex_nibble is_graph bytes_eq
sha_text-in = refl

-- Names that are too long, unknown or empty.
refused_texts :
    (udig_in (codes "sha256:00") ≡ ereport error unknown_algorithm)
    × (udig_in (codes "sha-1024:00") ≡ ereport error can_not_parse)
    × (udig_in [] ≡ ereport error empty_udig)
    × (udig_in (codes "sha:DA") ≡ ereport error invalid_digest)
unfolding udig_in parse_algorithm scan_algorithm prefix type_byte digest_in hex2dig20 hex2dig
    hex_nibble is_graph bytes_eq
refused_texts = (refl, refl, refl, refl)

udig_in-udig_out_example :
    (text : Bytes) × (udig_out bc160_of_empty ≡ datum text) × (udig_in text ≡ datum bc160_of_empty)
udig_in-udig_out_example = udig_in-udig_out bc160_of_empty bc160_of_empty-IsUdig

udig_out-udig_in_example : (udig_out sha_of_empty ≡ datum sha_text) × IsUdig sha_of_empty
udig_out-udig_in_example = udig_out-udig_in sha_text sha_of_empty sha_text-in

udig_compare-udig_out_example :
    udig_compare bc160_of_empty sha_of_empty ≡ datum (memcmp (codes "bc160:" ++ bc160_hex) sha_text)
udig_compare-udig_out_example =
    udig_compare-udig_out bc160_of_empty sha_of_empty (codes "bc160:" ++ bc160_hex) sha_text
      bc160_of_empty-IsUdig sha_of_empty-IsUdig bc160_of_empty-text sha_of_empty-text

bc160_below_btc20 : udig_lt bc160_of_empty btc20_of_empty ≡ datum true
unfolding udig_lt udig_compare
bc160_below_btc20 = refl

btc20_below_sha : udig_lt btc20_of_empty sha_of_empty ≡ datum true
unfolding udig_lt udig_compare
btc20_below_sha = refl

cross_operators-cast_example :
    (sha_udig empty_sha btc20_of_empty ≡ generic (udig_sha_cast empty_sha) btc20_of_empty)
    × (bc160_udig empty_sha btc20_of_empty ≡ generic (udig_bc160_cast empty_sha) btc20_of_empty)
    × (btc20_udig empty_sha btc20_of_empty ≡ generic (udig_btc20_cast empty_sha) btc20_of_empty)
    × (udig_sha btc20_of_empty empty_sha ≡ generic btc20_of_empty (udig_sha_cast empty_sha))
    × (udig_btc20 btc20_of_empty empty_sha ≡ generic btc20_of_empty (udig_btc20_cast empty_sha))
    × (udig_bc160 (udig_bc160_cast empty_bc160) empty_sha
        ≡ generic (udig_bc160_cast empty_bc160) (udig_bc160_cast empty_sha))
cross_operators-cast_example = cross_operators-cast empty_sha empty_bc160 btc20_of_empty is_btc20

sha_no_bc160 : udig_is_bc160 sha_of_empty ≡ false
unfolding udig_is_bc160
sha_no_bc160 = refl

-- An algorithm that `udig_in` does not know.
md5_named : All (λ c. (is_graph c ≡ true) × ((c == b':') ≡ false)) (codes "md5")
unfolding is_graph
md5_named = ((refl, refl), ((refl, refl), ((refl, refl), tt)))
