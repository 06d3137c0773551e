-- ===== src/Request/Shape.antt =====
-- What reaches `bio4d` fits its buffers and has the right characters.
use blobio.Base.{
  ℕ, ◌≤◌, ◌≡◌, refl, true, List, [], ◌∷◌, ◌++◌, Bytes, length, length-append, All, All-append,
  arith, is_alpha, is_alnum, is_graph,
}
use blobio.Request.{
  State, scan_verb, scan_algorithm, scan_new_line, scan_digest, Parser, Next, next, enter, refuse,
  no_new_line, Outcome, go, Fed, wait, done, after, step_in, feed, Read, some_bytes, end_of_file,
  failed, ended, continue, reads, request, initial,
}

abbrev pub IsAlpha : ℕ → Type 0
IsAlpha c = is_alpha c ≡ true

abbrev pub IsAlnum : ℕ → Type 0
IsAlnum c = is_alnum c ≡ true

abbrev pub IsGraph : ℕ → Type 0
IsGraph c = is_graph c ≡ true

abbrev pub StartsAlpha : Bytes → Type 0
StartsAlpha [] = Unit
StartsAlpha (c ∷ cs) = IsAlpha c

-- No buffer overflows: verb[6], algorithm[9] and digest[129] have room for these and a null.
pub record IsShaped (p : Parser) : Type 0 where
  pub verb_fits : length p.verb ≤ 5
  pub verb_alpha : All IsAlpha p.verb
  pub algorithm_fits : length p.algorithm ≤ 8
  pub algorithm_alnum : All IsAlnum p.algorithm
  pub algorithm_starts : StartsAlpha p.algorithm
  pub digest_fits : length p.digest ≤ 128
  pub digest_graph : All IsGraph p.digest

abbrev ShapedNext : Next → Type 0
ShapedNext (next p) = IsShaped p
ShapedNext (enter p) = IsShaped p
ShapedNext _ = Unit

StartsAlpha-concat :
    (u : Bytes) (c : ℕ) → StartsAlpha u → (length u ≡ 0 → IsAlpha c) → StartsAlpha (u ++ c ∷ [])
StartsAlpha-concat [] c s h = h refl
StartsAlpha-concat (x ∷ u) c s h = s

step_in-IsShaped : (st : State) (p : Parser) (c : ℕ) → IsShaped p → ShapedNext (step_in st p c)
unfolding step_in
step_in-IsShaped scan_verb p c h =
    ground (arith, length-append p.verb (c ∷ []), All-append IsAlpha p.verb (c ∷ []) h.verb_alpha)
step_in-IsShaped scan_algorithm p c h = ground (
  arith,
  length-append p.algorithm (c ∷ []),
  All-append IsAlnum p.algorithm (c ∷ []) h.algorithm_alnum,
  StartsAlpha-concat p.algorithm c h.algorithm_starts,
)
step_in-IsShaped scan_new_line p c h = ground arith
step_in-IsShaped scan_digest p c h =
    ground
      (arith, length-append p.digest (c ∷ []), All-append IsGraph p.digest (c ∷ []) h.digest_graph)

abbrev pub ShapedOutcome : Outcome → Type 0
ShapedOutcome (go p b) = IsShaped p
ShapedOutcome _ = Unit

abbrev ShapedFed : Fed → Type 0
ShapedFed (wait p) = IsShaped p
ShapedFed (done o) = ShapedOutcome o

after-IsShaped :
    (n : Next) (rest : Parser → Fed) (b : Bytes)
    → ShapedNext n
    → ((q : Parser) → IsShaped q → ShapedFed (rest q))
    → ShapedFed (after n rest b)
unfolding after
after-IsShaped (next p) rest b h k = k p h
after-IsShaped (enter p) rest b h k = h
after-IsShaped (refuse why) rest b h k = tt
after-IsShaped no_new_line rest b h k = tt

feed-IsShaped : (b : Bytes) (p : Parser) → IsShaped p → ShapedFed (feed p b)
unfolding feed
feed-IsShaped [] p h = h
feed-IsShaped (c ∷ b) p h =
    after-IsShaped (step_in p.state p c) (λ q. feed q b) b (step_in-IsShaped p.state p c h)
      (λ q k. feed-IsShaped b q k)

continue-IsShaped :
    (f : Fed) (rest : Parser → Outcome)
    → ShapedFed f
    → ((q : Parser) → IsShaped q → ShapedOutcome (rest q))
    → ShapedOutcome (continue f rest)
unfolding continue
continue-IsShaped (wait p) rest h k = k p h
continue-IsShaped (done o) rest h k = h

ended-IsShaped : (st : State) (v : Bytes) → ShapedOutcome (ended st v)
unfolding ended
ended-IsShaped scan_verb [] = tt
ended-IsShaped _ _ = tt

reads-IsShaped : (rs : List Read) (p : Parser) → IsShaped p → ShapedOutcome (reads p rs)
unfolding reads
reads-IsShaped [] p h = ended-IsShaped p.state p.verb
reads-IsShaped (end_of_file ∷ rs) p h = ended-IsShaped p.state p.verb
reads-IsShaped (failed ∷ rs) p h = tt
reads-IsShaped (some_bytes c cs ∷ rs) p h =
    continue-IsShaped (feed p (c ∷ cs)) (λ q. reads q rs) (feed-IsShaped (c ∷ cs) p h)
      (λ q k. reads-IsShaped rs q k)

-- Whatever a client sends, in whatever chunks, a verb that reaches `bio4d` has at most 5 letters, an
-- algorithm at most 8 letters or digits, the first a letter, and a digest at most 128 graphic
-- characters: no buffer overflows.
pub request-IsShaped :
    (rs : List Read) (p : Parser) (left : Bytes) → request rs ≡ go p left → IsShaped p
unfolding request
request-IsShaped rs p left h = rw h at (
    reads-IsShaped rs initial (record {
      verb_fits = omega arith;
      verb_alpha = tt;
      algorithm_fits = omega arith;
      algorithm_alnum = tt;
      algorithm_starts = tt;
      digest_fits = omega arith;
      digest_graph = tt;
    }))
