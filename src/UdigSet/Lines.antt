-- ===== src/UdigSet/Lines.antt =====
-- The lines that `blob2udig_set` accepts, and what it makes of them.
use blobio.Base.{
  ℕ, ◌+◌, ◌-◌, ◌<◌, ◌≤◌, ◌≡◌, ◌≢◌, refl, ◌∙◌, true, false, List, [], ◌∷◌, ◌++◌, Bytes, arith,
  length, take, take-append_self, length-append, append_assoc, append-nil, All, is_graph,
}
use blobio.BlobSet.{HashSet, link, blob_set_exists, blob_set_put}
use blobio.BlobSet.Membership.{for_each_level-link, put_fresh}
use blobio.UdigSet.{
  parsed, ◌>>=◌, new_udig, in_algorithm, in_digest, Scan, initial, step_in, put_udig, finish, scan,
  last_is_newline, blob2udig_set,
}

-- A byte of an algorithm's name, behind the first.
abbrev pub IsNameByte : ℕ → Type 0
IsNameByte c = (is_graph c ≡ true) × (c ≢ b':')

abbrev pub IsGraph : ℕ → Type 0
IsGraph c = is_graph c ≡ true

-- The parser takes names of at most seven bytes, the first from `a` to `y`.
pub data IsName : Bytes → Type 0 where
  name :
      (c : ℕ) (cs : Bytes)
      → b'a' ≤ c
      → c < b'z'
      → All IsNameByte cs
      → length cs ≤ 6
      → IsName (c ∷ cs)

pub name_short : (a : Bytes) → IsName a → length a ≤ 7
name_short _ (name c cs lo hi h short) = omega arith

pub record Line : Type 0 where
  pub algorithm : Bytes
  pub digest : Bytes
  pub is_name : IsName algorithm
  pub is_graph : All IsGraph digest

abbrev pub udig_of : Line → Bytes
udig_of l = l.algorithm ++ (b':' ∷ l.digest)

-- The blob with these lines.
abbrev pub unlines : List Line → Bytes
unlines [] = []
unlines (l ∷ ls) = udig_of l ++ (b'\n' ∷ unlines ls)

-- No line is in the set, or twice.
abbrev pub Fresh : HashSet → List Line → Type 0
Fresh s [] = Unit
Fresh s (l ∷ ls) = (blob_set_exists s (udig_of l) ≡ false) × Fresh (link s (udig_of l)) ls

abbrev pub put_lines : HashSet → List Line → HashSet
put_lines s [] = s
put_lines s (l ∷ ls) = put_lines (link s (udig_of l)) ls

abbrev pub put_names : HashSet → List Line → HashSet
put_names s [] = s
put_names s (l ∷ ls) = put_names (blob_set_put s l.algorithm).0 ls

-- One step on a byte of a name, on the colon and on a byte of a digest.
step_name :
    (p : Scan) (c : ℕ)
    → p.state ≡ in_algorithm
    → IsNameByte c
    → length p.udig ≤ 7
    → step_in p.state p c ≡ parsed (record p { udig = p.udig ++ c ∷ [] })
unfolding step_in
step_name p c at graph short = ground (arith, length-append p.udig (c ∷ []))

step_colon :
    (p : Scan)
    → p.state ≡ in_algorithm
    → length p.udig ≤ 7
    → step_in p.state p b':'
      ≡ parsed (record p {
        udig = p.udig ++ b':' ∷ [];
        state = in_digest;
        digest_start = length p.udig + 2;
      })
unfolding step_in
step_colon p at short = ground (arith, length-append p.udig (b':' ∷ []))

step_digest :
    (p : Scan) (c : ℕ)
    → p.state ≡ in_digest
    → p.digest_start ≤ 128
    → IsGraph c
    → step_in p.state p c ≡ parsed (record p { udig = p.udig ++ c ∷ [] })
unfolding step_in is_graph
step_digest p c at small graph = ground arith

step_newline :
    (p : Scan)
    → p.state ≡ in_digest
    → p.digest_start ≤ 128
    → step_in p.state p b'\n' ≡ put_udig (record p { line_count = p.line_count + 1 })
unfolding step_in
step_newline p at small = ground arith

run_name :
    (p : Scan) (a rest : Bytes)
    → p.state ≡ in_algorithm
    → All IsNameByte a
    → length p.udig + length a ≤ 7
    → scan p (a ++ (b':' ∷ rest))
      ≡ scan
          (record p {
            state = in_digest;
            udig = (p.udig ++ a) ++ b':' ∷ [];
            digest_start = length (p.udig ++ a) + 2;
          })
          rest
unfolding scan
run_name p [] rest at graph short = rw (step_colon p at (omega arith), append-nil)
run_name p (c ∷ a) rest at graph short = rw (step_name p c at graph.0 (omega arith)) (
    run_name (record p { udig = p.udig ++ c ∷ [] }) a rest at graph.1
      (omega (arith, length-append p.udig (c ∷ [])))
    ∙ simp append_assoc)

run_digest :
    (p : Scan) (d rest : Bytes)
    → p.state ≡ in_digest
    → p.digest_start ≤ 128
    → All IsGraph d
    → scan p (d ++ (b'\n' ∷ rest)) ≡ (
        put_udig (record p { udig = p.udig ++ d; line_count = p.line_count + 1 }) >>= λ q.
        scan q rest)
unfolding scan
run_digest p [] rest at small graph = rw (step_newline p at small, append-nil)
run_digest p (c ∷ d) rest at small graph =
    rw (step_digest p c at small graph.0)
      (run_digest (record p { udig = p.udig ++ c ∷ [] }) d rest at small graph.1 ∙ rw append_assoc)

step_first :
    (p : Scan) (c : ℕ)
    → p.state ≡ new_udig
    → b'a' ≤ c
    → c < b'z'
    → step_in p.state p c ≡ parsed (record p { udig = c ∷ []; state = in_algorithm })
unfolding step_in
step_first p c at low high = ground arith

pub put_line :
    (p : Scan)
    → p.uset.for_each_level ≡ 0
    → blob_set_exists p.uset p.udig ≡ false
    → put_udig p
      ≡ parsed (record p {
        uset = link p.uset p.udig;
        aset = (blob_set_put p.aset (take (p.digest_start - 2) p.udig)).0;
        state = new_udig;
      })
unfolding put_udig
put_line p idle fresh = rw (put_fresh p.uset p.udig idle fresh)

-- The parser after a line with the algorithm `a` and the digest `d`.
abbrev after_line : Scan → Bytes → Bytes → Scan
after_line p a d = record p {
  uset = link p.uset (a ++ (b':' ∷ d));
  aset = (blob_set_put p.aset a).0;
  udig = a ++ (b':' ∷ d);
  digest_start = length a + 2;
  line_count = p.line_count + 1;
  state = new_udig;
}

put_after_line :
    (p : Scan) (a d : Bytes)
    → p.uset.for_each_level ≡ 0
    → blob_set_exists p.uset (a ++ (b':' ∷ d)) ≡ false
    → put_udig (record p {
      udig = a ++ (b':' ∷ d);
      digest_start = length a + 2;
      line_count = p.line_count + 1;
    })
      ≡ parsed (after_line p a d)
put_after_line p a d idle fresh =
    let q : Scan = record p {
      udig = a ++ (b':' ∷ d);
      digest_start = length a + 2;
      line_count = p.line_count + 1;
    } in
    let prefix : length a + 2 - 2 ≡ length a = omega arith in
    put_line q idle fresh ∙ rw (prefix, take-append_self)

run_line :
    (p : Scan) {a : Bytes} (d rest : Bytes)
    → p.state ≡ new_udig
    → p.uset.for_each_level ≡ 0
    → IsName a
    → All IsGraph d
    → blob_set_exists p.uset (a ++ (b':' ∷ d)) ≡ false
    → scan p ((a ++ (b':' ∷ d)) ++ (b'\n' ∷ rest)) ≡ scan (after_line p a d) rest
unfolding scan
run_line p d rest at idle (name c cs low high names short) graph fresh =
    let q = record p { udig = c ∷ []; state = in_algorithm } in
    rw (append_assoc, step_first p c at low high)
      (run_name q cs (d ++ (b'\n' ∷ rest)) refl names (omega arith)
        ∙ run_digest _ d rest refl (omega arith) graph
        ∙ simp append_assoc
            (rw (put_after_line (record p { state = in_digest }) (c ∷ cs) d idle fresh)))

pub run_lines :
    (p : Scan) (ls : List Line)
    → p.state ≡ new_udig
    → p.uset.for_each_level ≡ 0
    → Fresh p.uset ls
    → scan p (unlines ls) ≡ parsed (put_lines p.uset ls, put_names p.aset ls)
unfolding scan finish
run_lines p [] at idle fresh = rw (at, finish)
run_lines p (l ∷ ls) at idle fresh =
    run_line p l.digest (unlines ls) at idle l.is_name l.is_graph fresh.0
    ∙ run_lines (after_line p l.algorithm l.digest) ls refl (for_each_level-link _ _ ∙ idle) fresh.1

last_is_newline-append :
    (xs : Bytes) (c : ℕ) (ys : Bytes) → last_is_newline (xs ++ (c ∷ ys)) ≡ last_is_newline (c ∷ ys)
unfolding last_is_newline
last_is_newline-append [] c ys = refl
last_is_newline-append (x ∷ []) c ys = refl
last_is_newline-append (x ∷ y ∷ xs) c ys = last_is_newline-append (y ∷ xs) c ys

last_is_newline-cons :
    (c : ℕ) (ys : Bytes) → last_is_newline ys ≡ true → last_is_newline (c ∷ ys) ≡ true
unfolding last_is_newline
last_is_newline-cons c [] h = cc
last_is_newline-cons c (y ∷ ys) h = h

pub last_is_newline-unlines :
    (l : Line) (ls : List Line) → last_is_newline (unlines (l ∷ ls)) ≡ true
unfolding last_is_newline
last_is_newline-unlines l [] = last_is_newline-append (udig_of l) b'\n' []
last_is_newline-unlines l (m ∷ ls) =
    last_is_newline-append (udig_of l) b'\n' (unlines (m ∷ ls))
    ∙ last_is_newline-cons b'\n' (unlines (m ∷ ls)) (last_is_newline-unlines m ls)

pub blob2udig_set-scan :
    (blob : Bytes) → last_is_newline blob ≡ true → blob2udig_set blob ≡ scan initial blob
unfolding blob2udig_set last_is_newline
blob2udig_set-scan [] h = cc
blob2udig_set-scan (c ∷ cs) h = rw h
