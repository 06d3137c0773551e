-- ===== src/Tests/Request.antt =====
-- The parser of requests on small inputs.
use blobio.Base.{◌≡◌, refl, [], ◌∷◌, codes, is_alpha, is_alnum, is_graph}
use blobio.Request.{Parser, scan_digest, request, some_bytes, go, die_no, big_verb}
use blobio.Request.Shape.{IsShaped, request-IsShaped}
use blobio.Request.Chunks.{forget, chunk_reads, request_same_bytes}

abbrev pub get_request : Parser
get_request = record {
  state = scan_digest;
  verb = codes "get";
  algorithm = codes "sha";
  digest = codes "59a0";
}

get_run : request (some_bytes b'g' (codes "et sha:59a0\nx") ∷ []) ≡ go get_request (codes "x")
unfolding request is_alpha is_alnum is_graph
get_run = refl

big_run : request (some_bytes b'g' (codes "etters\n") ∷ []) ≡ die_no big_verb
unfolding request is_alpha
big_run = refl

pub shaped : IsShaped get_request
shaped =
    request-IsShaped (some_bytes b'g' (codes "et sha:59a0\nx") ∷ []) get_request (codes "x") get_run

request-IsShaped_example : IsShaped get_request
request-IsShaped_example =
    request-IsShaped (some_bytes b'g' (codes "et sha:59a0\nx") ∷ []) get_request (codes "x") get_run

request_same_bytes_example :
    forget (request (chunk_reads ((b'g', codes "et sha:59a0\n") ∷ [])))
    ≡ forget (request (chunk_reads ((b'g', codes "et") ∷ (b' ', codes "sha:59a0\n") ∷ [])))
request_same_bytes_example =
    request_same_bytes ((b'g', codes "et sha:59a0\n") ∷ [])
      ((b'g', codes "et") ∷ (b' ', codes "sha:59a0\n") ∷ []) refl
