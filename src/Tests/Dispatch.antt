-- ===== src/Tests/Dispatch.antt =====
-- A get of a digest, from the bytes of the client to the handler.
use blobio.Base.{ℕ, ◌≡◌, refl, false, Option, some, [], ◌∷◌, Bytes, codes, bytes_eq}
use blobio.Request.{some_bytes, request}
use blobio.Verbs.{DigestModule}
use blobio.Dispatch.{fired, to_get, to_wrap, callback_of, bio4d, serve}
use blobio.Dispatch.Fires.{Fired, bio4d-Fired, serve-request-line}
use blobio.Tests.Verbs.{plain}
use blobio.Tests.Request.{get_request, shaped}

abbrev table : Bytes → Option DigestModule
table a = some plain

abbrev opens : DigestModule → ℕ
opens mp = 0

-- A wrap may come with a digest, which is then the server's algorithm's.
wrap_with_digest :
    bio4d table opens (codes "sha") (codes "wrap") [] (codes "59a0")
    ≡ fired to_wrap plain (codes "sha") (codes "59a0")
unfolding bio4d callback_of bytes_eq
wrap_with_digest = refl

bio4d-Fired_example :
    Fired table opens
      (codes "wrap")
      (codes "sha")
      (codes "59a0")
      (fired to_wrap plain (codes "sha") (codes "59a0"))
unfolding bytes_eq
bio4d-Fired_example =
    bio4d-Fired table opens (codes "sha") (codes "wrap") [] (codes "59a0") to_wrap plain
      (codes "sha") (codes "59a0") wrap_with_digest

known_get : callback_of (codes "get") ≡ some to_get
unfolding callback_of bytes_eq
known_get = refl

serve-request-line_example :
    serve table opens (codes "sha") (request (some_bytes b'g' (codes "et sha:59a0\n") ∷ []))
    ≡ some (fired to_get plain (codes "sha") (codes "59a0"))
unfolding bytes_eq
serve-request-line_example =
    serve-request-line table opens (codes "sha") get_request false [] b'g' (codes "et sha:59a0\n")
      [] to_get plain shaped refl known_get refl refl refl refl refl refl
