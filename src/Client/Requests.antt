-- ===== src/Client/Requests.antt =====
-- The server reads the request that the client makes.
use blobio.Base.{
  ℕ, ◌≤◌, ◌<◌, ◌≡◌, refl, ap, sym, ◌∙◌, false, List, [], ◌∷◌, ◌++◌, Bytes, All, length, append-nil,
  arith, is_alpha, ◌==◌, append_assoc,
}
use blobio.Client.{make_request}
use blobio.Request.{Parser, go, request}
use blobio.Request.Shape.{IsShaped, IsAlpha}
use blobio.Request.Chunks.{Chunk, chunk_reads, joined, forget, request_same_bytes}
use blobio.Request.RoundTrip.{request_line, entered, request-line}

letter : (c : ℕ) → IsAlpha c → (c == 0) ≡ false
unfolding is_alpha
letter c h = ground arith

make_request-request_line :
    (verb algorithm digest : Bytes)
    → 3 ≤ length verb
    → length verb ≤ 4
    → All IsAlpha verb
    → 0 < length algorithm
    → 0 < length digest
    → make_request verb algorithm digest ≡ request_line verb algorithm digest false []
unfolding make_request
make_request-request_line (a ∷ b ∷ c ∷ []) (x ∷ algorithm) (y ∷ digest) three four alpha ha hd =
    ap (λ l. a ∷ b ∷ c ∷ b' ' ∷ x ∷ l) (append_assoc algorithm (b':' ∷ y ∷ digest) (b'\n' ∷ []))
make_request-request_line (a ∷ b ∷ c ∷ d ∷ []) (x ∷ algorithm) (y ∷ digest) three four alpha ha hd =
    rw (letter d alpha.1.1.1.0) (
      ap (λ l. a ∷ b ∷ c ∷ d ∷ b' ' ∷ x ∷ l)
        (append_assoc algorithm (b':' ∷ y ∷ digest) (b'\n' ∷ [])))
make_request-request_line verb [] digest three four alpha ha hd = absurd (omega arith)
make_request-request_line verb (x ∷ algorithm) [] three four alpha ha hd = absurd (omega arith)
make_request-request_line [] (x ∷ algorithm) (y ∷ digest) three four alpha ha hd =
    absurd (omega arith)
make_request-request_line (a ∷ []) (x ∷ algorithm) (y ∷ digest) three four alpha ha hd =
    absurd (omega arith)
make_request-request_line (a ∷ b ∷ []) (x ∷ algorithm) (y ∷ digest) three four alpha ha hd =
    absurd (omega arith)
make_request-request_line (a ∷ b ∷ c ∷ d ∷ e ∷ verb) (x ∷ algorithm) (y ∷ digest) three four alpha
      ha hd =
    absurd (omega arith)

request_line_first :
    (verb algorithm digest : Bytes)
    → 0 < length verb
    → (c : ℕ) × (cs : Bytes) × (request_line verb algorithm digest false [] ≡ c ∷ cs)
request_line_first [] algorithm digest h = absurd (omega arith)
request_line_first (c ∷ verb) algorithm digest h =
    (c, verb ++ (b' ' ∷ (algorithm ++ (b':' ∷ (digest ++ b'\n' ∷ [])))), refl)

-- The line of a shape that the parser takes, by its first byte.
one_read :
    (p : Parser)
    → IsShaped p
    → 0 < length p.verb
    → (ks : List Chunk) → joined ks ≡ request_line p.verb p.algorithm p.digest false []
    → forget (request (chunk_reads ks)) ≡ go (entered p.verb p.algorithm p.digest false) []
one_read p shaped some_verb ks same =
    let line = request_line p.verb p.algorithm p.digest false [] in
    let (c, cs, first) = request_line_first p.verb p.algorithm p.digest some_verb in
    request_same_bytes ks ((c, cs) ∷ []) (same ∙ first ∙ sym (append-nil (c ∷ cs)))
    ∙ ap forget (request-line p false [] c cs [] shaped first)

-- What `make_request` writes for a verb of three or four letters, an algorithm and a digest of the
-- shapes that the server takes, the server reads as this verb, algorithm and digest, with nothing left
-- over, in whatever chunks it arrives.
pub request-make_request :
    (p : Parser) (ks : List Chunk)
    → IsShaped p
    → 3 ≤ length p.verb
    → length p.verb ≤ 4
    → 0 < length p.algorithm
    → 0 < length p.digest
    → joined ks ≡ make_request p.verb p.algorithm p.digest
    → forget (request (chunk_reads ks)) ≡ go (entered p.verb p.algorithm p.digest false) []
request-make_request p ks shaped three four ha hd sent = one_read p shaped (omega arith) ks (
    sent ∙ make_request-request_line p.verb p.algorithm p.digest three four shaped.verb_alpha ha hd)
