-- ===== src/Request/RoundTrip.antt =====
-- A request line that a client prints is read back.
use blobio.Base.{
  ℕ, ◌+◌, ◌≤◌, ◌≡◌, refl, ap, sym, ◌∙◌, Bool, true, false, List, [], ◌∷◌, ◌++◌, append_assoc,
  append-nil, Bytes, length, length-append, All, arith, if◌then◌else◌, is_alpha, is_alnum, is_graph,
}
use blobio.Request.{
  scan_verb, scan_algorithm, scan_new_line, scan_digest, Parser, next, go, done, after, step_in,
  feed, Read, some_bytes, continue, reads, request, initial,
}
use blobio.Request.Shape.{IsAlpha, IsAlnum, IsGraph, StartsAlpha, IsShaped}

step_verb :
    (p : Parser) (c : ℕ)
    → p.state ≡ scan_verb
    → IsAlpha c
    → length p.verb + 1 ≤ 5
    → step_in p.state p c ≡ next (record p { verb = p.verb ++ c ∷ [] })
unfolding step_in is_alpha
step_verb p c at alpha fits = ground arith

step_algorithm :
    (p : Parser) (c : ℕ)
    → p.state ≡ scan_algorithm
    → IsAlnum c
    → (length p.algorithm ≡ 0 → IsAlpha c)
    → length p.algorithm + 1 ≤ 8
    → step_in p.state p c ≡ next (record p { algorithm = p.algorithm ++ c ∷ [] })
unfolding step_in is_alnum
step_algorithm p c at alnum first fits = ground arith

step_digest :
    (p : Parser) (c : ℕ)
    → p.state ≡ scan_digest
    → IsGraph c
    → length p.digest + 1 ≤ 128
    → step_in p.state p c ≡ next (record p { digest = p.digest ++ c ∷ [] })
unfolding step_in is_graph
step_digest p c at graph fits = ground arith

feed_verb :
    (v : Bytes) (p : Parser) (rest : Bytes)
    → p.state ≡ scan_verb
    → All IsAlpha v
    → length p.verb + length v ≤ 5
    → feed p (v ++ rest) ≡ feed (record p { verb = p.verb ++ v }) rest
unfolding feed after
feed_verb [] p rest at alpha fits = rw append-nil
feed_verb (c ∷ v) p rest at alpha fits = rw (step_verb p c at alpha.0 (omega arith)) (
    feed_verb v (record p { verb = p.verb ++ c ∷ [] }) rest at alpha.1
      (omega (arith, length-append p.verb (c ∷ [])))
    ∙ rw append_assoc)

feed_algorithm :
    (a : Bytes) (p : Parser) (rest : Bytes)
    → p.state ≡ scan_algorithm
    → All IsAlnum a
    → (length p.algorithm ≡ 0 → StartsAlpha a)
    → length p.algorithm + length a ≤ 8
    → feed p (a ++ rest) ≡ feed (record p { algorithm = p.algorithm ++ a }) rest
unfolding feed after
feed_algorithm [] p rest at alnum first fits = rw append-nil
feed_algorithm (c ∷ a) p rest at alnum first fits =
    let some_now : length (p.algorithm ++ c ∷ []) ≡ length p.algorithm + 1 =
      omega (arith, length-append p.algorithm (c ∷ [])) in
    rw (step_algorithm p c at alnum.0 first (omega arith)) (
      feed_algorithm a (record p { algorithm = p.algorithm ++ c ∷ [] }) rest at alnum.1
        (λ none. absurd (omega arith)) (omega arith)
      ∙ rw append_assoc)

feed_digest :
    (d : Bytes) (p : Parser) (rest : Bytes)
    → p.state ≡ scan_digest
    → All IsGraph d
    → length p.digest + length d ≤ 128
    → feed p (d ++ rest) ≡ feed (record p { digest = p.digest ++ d }) rest
unfolding feed after
feed_digest [] p rest at graph fits = rw append-nil
feed_digest (c ∷ d) p rest at graph fits = rw (step_digest p c at graph.0 (omega arith)) (
    feed_digest d (record p { digest = p.digest ++ c ∷ [] }) rest at graph.1
      (omega (arith, length-append p.digest (c ∷ [])))
    ∙ rw append_assoc)

-- `\n`, or `\r\n`
abbrev pub line_end : Bool → Bytes → Bytes
line_end false rest = b'\n' ∷ rest
line_end true rest = b'\r' ∷ b'\n' ∷ rest

-- The line of a request with a udig, and what follows it.
abbrev pub request_line : Bytes → Bytes → Bytes → Bool → Bytes → Bytes
request_line verb algorithm digest crlf rest =
    verb ++ (b' ' ∷ (algorithm ++ (b':' ∷ (digest ++ line_end crlf rest))))

abbrev pub entered : Bytes → Bytes → Bytes → Bool → Parser
entered verb algorithm digest crlf = record {
  state = if crlf then scan_new_line else scan_digest;
  verb = verb;
  algorithm = algorithm;
  digest = digest;
}

feed_end :
    (p : Parser) (crlf : Bool) (rest : Bytes)
    → p.state ≡ scan_digest
    → feed p (line_end crlf rest)
      ≡ done (go (record p { state = if crlf then scan_new_line else scan_digest }) rest)
unfolding feed after step_in
feed_end p false rest at = ground arith
feed_end p true rest at = ground arith

feed_line :
    (p : Parser) (crlf : Bool) (rest : Bytes)
    → IsShaped p
    → feed initial (request_line p.verb p.algorithm p.digest crlf rest)
      ≡ done (go (entered p.verb p.algorithm p.digest crlf) rest)
unfolding feed after step_in
feed_line p crlf rest h =
    let a = record initial { verb = p.verb; state = scan_algorithm } in
    let d = record a { algorithm = p.algorithm; state = scan_digest } in
    feed_verb p.verb initial _ refl h.verb_alpha (omega (arith, h.verb_fits))
    ∙ feed_algorithm p.algorithm a _ refl h.algorithm_alnum (λ none. h.algorithm_starts)
        (omega (arith, h.algorithm_fits))
    ∙ feed_digest p.digest d _ refl h.digest_graph (omega (arith, h.digest_fits))
    ∙ feed_end (record d { digest = p.digest }) crlf rest refl

-- A line `verb algorithm:digest` with fields that fit, ended by a newline or by a carriage return
-- and a newline, reaches `bio4d` with these fields, and the bytes behind the line are what is left.
pub request-line :
    (p : Parser) (crlf : Bool) (rest : Bytes) (c : ℕ) (cs : Bytes) (rs : List Read)
    → IsShaped p
    → request_line p.verb p.algorithm p.digest crlf rest ≡ c ∷ cs
    → request (some_bytes c cs ∷ rs) ≡ go (entered p.verb p.algorithm p.digest crlf) rest
unfolding request reads continue
request-line p crlf rest c cs rs h line =
    ap (λ (b : Bytes). continue (feed initial b) (λ q. reads q rs)) (sym line)
    ∙ rw (feed_line p crlf rest h)
