-- ===== src/Tests/Frisk.antt =====
-- cli/bio-frisk-brr.c on small inputs.
use blobio.Base.{
  ◌≡◌, refl, Bool, true, [], ◌∷◌, ◌++◌, Bytes, codes, arith, is_ascii, is_digit, is_lower, is_graph,
}
use blobio.Verbs.{get, put, eat, take, give, absent}
use blobio.Frisk.Scan.{rejected}
use blobio.Frisk.Fields.{scan_verb}
use blobio.Frisk.Stream.{scan_record}
use blobio.Frisk.Records.{Line, Accepted}
use blobio.Frisk.Chats.{EndsWell, handlers-EndWell}
use blobio.Tests.Verbs.{plain, plain-IsQuiet, fresh_request}

abbrev any_udig : Bytes → Bool
any_udig u = true

-- `bio4d` logs a `cat`, and the scanner does not take it.
refuses_cat : scan_verb (codes "cat\tsha:59a0") ≡ rejected
unfolding scan_verb
refuses_cat = refl

abbrev record_body : Bytes
record_body =
    codes
      "2022-10-17T12:49:25.123456789+00:00\ttcp4~127.0.0.1:1797;127.0.0.1:57154\teat\tbtc20:2da64d5c2b0f4e07c4b5cf6f7d5d9b0f7c0d2a11\tok\t0\t0.000000042"

record_Accepted : Accepted any_udig (record_body ++ b'\n' ∷ [])
unfolding scan_record is_ascii is_digit is_lower is_graph
record_Accepted tail = (0 ∷ tail, refl)

record_Line : Line record_body
record_Line = record { no_newline = ground arith; fits = omega arith }

handlers-EndWell_example :
    EndsWell (codes "get") (get plain (codes "59a0") fresh_request)
    × EndsWell (codes "eat") (eat plain fresh_request)
    × EndsWell (codes "put") (put plain fresh_request)
    × EndsWell (codes "take") (take plain absent (0 ∷ 0 ∷ 0 ∷ 0 ∷ []) [] fresh_request)
    × EndsWell (codes "give") (give plain (0 ∷ 0 ∷ 0 ∷ 0 ∷ []) [] fresh_request)
handlers-EndWell_example =
    handlers-EndWell plain fresh_request (codes "59a0") (0 ∷ 0 ∷ 0 ∷ 0 ∷ []) [] absent plain-IsQuiet
      refl (λ e. cc e)
