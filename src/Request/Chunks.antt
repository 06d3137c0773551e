-- ===== src/Request/Chunks.antt =====
-- How the network cuts the request into chunks does not matter.
use blobio.Base.{ℕ, ◌≡◌, refl, ap, sym, ◌∙◌, List, [], ◌∷◌, ◌++◌, Bytes}
use blobio.Request.{
  Parser, Next, next, enter, refuse, no_new_line, Outcome, go, die_no, die_no_new_line, incomplete,
  Fed, wait, done, after, step_in, feed, Read, some_bytes, ended, continue, reads, request, initial,
}

-- What is left over after the newline, with the bytes that come later.
abbrev pub leave_over : Outcome → Bytes → Outcome
leave_over (go p left) later = go p (left ++ later)
leave_over o later = o

abbrev feed_more : Fed → Bytes → Fed
feed_more (wait p) later = feed p later
feed_more (done o) later = done (leave_over o later)

after-feed_more :
    (n : Next) (f g : Parser → Fed) (b later : Bytes)
    → ((q : Parser) → f q ≡ feed_more (g q) later)
    → after n f (b ++ later) ≡ feed_more (after n g b) later
unfolding after
after-feed_more (next p) f g b later h = h p
after-feed_more (enter p) f g b later h = refl
after-feed_more (refuse why) f g b later h = refl
after-feed_more no_new_line f g b later h = refl

feed-append :
    (b : Bytes) (p : Parser) (later : Bytes) → feed p (b ++ later) ≡ feed_more (feed p b) later
unfolding feed
feed-append [] p later = refl
feed-append (c ∷ b) p later =
    after-feed_more (step_in p.state p c) (λ q. feed q (b ++ later)) (λ q. feed q b) b later
      (λ q. feed-append b q later)

-- The outcome, whatever is left in the buffer.
abbrev pub forget : Outcome → Outcome
forget (go p left) = go p []
forget o = o

-- Chunks with at least one byte, as the client's bytes arrive.
abbrev pub Chunk : Type 0
Chunk = ℕ × Bytes

abbrev pub chunk_reads : List Chunk → List Read
chunk_reads [] = []
chunk_reads ((c, cs) ∷ ks) = some_bytes c cs ∷ chunk_reads ks

abbrev pub joined : List Chunk → Bytes
joined [] = []
joined ((c, cs) ∷ ks) = (c ∷ cs) ++ joined ks

abbrev settle : Fed → Outcome
settle (wait p) = ended p.state p.verb
settle (done o) = o

forget-leave_over : (o : Outcome) (later : Bytes) → forget (leave_over o later) ≡ forget o
forget-leave_over (go p left) later = refl
forget-leave_over (die_no why) later = refl
forget-leave_over die_no_new_line later = refl
forget-leave_over incomplete later = refl

continue-settle :
    (f : Fed) (rest : Parser → Outcome) (later : Bytes)
    → ((q : Parser) → forget (rest q) ≡ forget (settle (feed q later)))
    → forget (continue f rest) ≡ forget (settle (feed_more f later))
unfolding continue
continue-settle (wait p) rest later h = h p
continue-settle (done o) rest later h = sym (forget-leave_over o later)

reads-settle :
    (ks : List Chunk) (p : Parser)
    → forget (reads p (chunk_reads ks)) ≡ forget (settle (feed p (joined ks)))
unfolding reads
reads-settle [] p = unfold feed in refl
reads-settle ((c, cs) ∷ ks) p =
    continue-settle (feed p (c ∷ cs)) (λ q. reads q (chunk_reads ks)) (joined ks)
      (λ q. reads-settle ks q)
    ∙ ap (λ f. forget (settle f)) (sym (feed-append (c ∷ cs) p (joined ks)))

-- Two ways to cut the same bytes into chunks have the same outcome, up to what is left unread in the
-- last buffer.
pub request_same_bytes :
    (ks ls : List Chunk)
    → joined ks ≡ joined ls
    → forget (request (chunk_reads ks)) ≡ forget (request (chunk_reads ls))
unfolding request
request_same_bytes ks ls same =
    reads-settle ks initial
    ∙ ap (λ b. forget (settle (feed initial b))) same
    ∙ sym (reads-settle ls initial)
