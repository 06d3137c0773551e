-- ===== src/Tests/Client.antt =====
-- Requests and replies of the client on concrete bytes.
use blobio.Base.{◌≡◌, refl, false, List, [], ◌∷◌, ◌++◌, codes, arith}
use blobio.Chat
use blobio.Client.{OkNo, ok, no, unreadable, read_ok_no, make_request}
use blobio.Client.Requests.{request-make_request}
use blobio.Client.Replies.{read_ok_no_pieces}
use blobio.Request.{go, request}
use blobio.Request.Chunks.{Chunk, chunk_reads, joined, forget}
use blobio.Request.RoundTrip.{entered}
use blobio.Tests.Request.{get_request, shaped}

abbrev get_chunks : List Chunk
get_chunks = (b'g', codes "et") ∷ (b' ', codes "sha:59a0\n") ∷ []

get_sent : joined get_chunks ≡ make_request (codes "get") (codes "sha") (codes "59a0")
unfolding make_request
get_sent = refl

request-make_request_example :
    forget (request (chunk_reads get_chunks))
    ≡ go (entered (codes "get") (codes "sha") (codes "59a0") false) []
request-make_request_example =
    request-make_request get_request get_chunks shaped (omega arith) (omega arith) (omega arith)
      (omega arith) get_sent

wrap_request : make_request (codes "wrap") [] [] ≡ codes "wrap\n"
unfolding make_request
wrap_request = refl

read_ok_no_pieces_example :
    let read : List Chat.Read → OkNo = λ first. (read_ok_no (0 ∷ 0 ∷ b'\n' ∷ []) (first ++ [])).0 in
    (read (Chat.bytes (codes "ok\n") ∷ []) ≡ ok)
    × (read (Chat.bytes (codes "no\n") ∷ []) ≡ no)
    × (read (Chat.bytes (codes "ok") ∷ Chat.bytes (codes "\n") ∷ []) ≡ unreadable)
    × (read (Chat.bytes (codes "no") ∷ Chat.bytes (codes "\n") ∷ []) ≡ unreadable)
    × (read (Chat.bytes (codes "o") ∷ Chat.bytes (codes "k\n") ∷ []) ≡ unreadable)
    × (read (Chat.bytes (codes "n") ∷ Chat.bytes (codes "o\n") ∷ []) ≡ unreadable)
    × (read (Chat.bytes (codes "o") ∷ Chat.bytes (codes "k") ∷ Chat.bytes (codes "\n") ∷ [])
        ≡ unreadable)
    × (read (Chat.bytes (codes "n") ∷ Chat.bytes (codes "o") ∷ Chat.bytes (codes "\n") ∷ [])
        ≡ unreadable)
read_ok_no_pieces_example = read_ok_no_pieces 0 0 b'\n' []
