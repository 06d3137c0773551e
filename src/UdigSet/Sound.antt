-- ===== src/UdigSet/Sound.antt =====
-- Whatever `blob2udig_set` accepts is a list of distinct well-formed lines.
use blobio.Base.{
  ℕ, ◌+◌, ◌-◌, ◌<◌, ◌≤◌, ◌≡◌, ◌⊎◌, inl, inr, refl, ◌∙◌, ap, true, false, List, [], ◌∷◌, ◌++◌, map,
  append_assoc, Bytes, length, take, take-append_self, length-append, All, All-append, arith,
  Bool-cases, ◌==◌,
}
use blobio.BlobSet.{HashSet, link, blob_set_alloc, blob_set_exists, blob_set_put}
use blobio.BlobSet.Membership.{for_each_level-link, put_again, alloc_idle}
use blobio.UdigSet.{
  Parsed, parsed, refused, ◌>>=◌, State, new_udig, in_algorithm, in_digest, Scan, initial, step_in,
  put_udig, finish, scan, last_is_newline, blob2udig_set,
}
use blobio.UdigSet.Lines.{
  IsNameByte, IsGraph, IsName, name, Line, udig_of, unlines, Fresh, put_lines, put_names, put_line,
  blob2udig_set-scan,
}
use blobio.UdigSet.Sets.{Distinct, Distinct-of_Fresh, Holds, Holds-put_lines}

-- A name that has been begun.
data Begun : Bytes → Type 0 where
  begun : (c : ℕ) (cs : Bytes) → b'a' ≤ c → c < b'z' → All IsNameByte cs → Begun (c ∷ cs)

Begun-concat : {u : Bytes} (c : ℕ) → Begun u → IsNameByte c → Begun (u ++ c ∷ [])
Begun-concat d (begun c cs low high names) h =
    begun c (cs ++ d ∷ []) low high (All-append IsNameByte cs (d ∷ []) names (h, tt))

IsName-of_Begun : {u : Bytes} → Begun u → length u ≤ 7 → IsName u
IsName-of_Begun (begun c cs low high names) h = name c cs low high names (omega arith)

-- What each state knows of the line that is being read.
abbrev Known : State → Scan → Type 0
Known new_udig p = Unit
Known in_algorithm p = Begun p.udig
Known in_digest p =
    (a : Bytes) × (d : Bytes) × IsName a
    × All IsGraph d
    × (p.udig ≡ a ++ (b':' ∷ d))
    × (p.digest_start ≡ length a + 2)

abbrev pending : State → Scan → Bytes
pending new_udig p = []
pending _ p = p.udig

abbrev Reads : Scan → Bytes → HashSet → HashSet → Type 0
Reads p bytes uset aset =
    (ls : List Line) × (bytes ≡ unlines ls)
    × Fresh p.uset ls
    × (uset ≡ put_lines p.uset ls)
    × (aset ≡ put_names p.aset ls)

pub from_new_udig :
    (p q : Scan) (c : ℕ)
    → p.state ≡ new_udig
    → step_in p.state p c ≡ parsed q
    → (q ≡ record p { udig = c ∷ []; state = in_algorithm }) × (b'a' ≤ c) × (c < b'z')
unfolding step_in
from_new_udig p q c at h = (ground arith, ground arith, ground arith)

pub from_in_algorithm :
    (p q : Scan) (c : ℕ)
    → p.state ≡ in_algorithm
    → step_in p.state p c ≡ parsed q
    → ((c ≡ b':')
        × (q ≡ record p {
          udig = p.udig ++ c ∷ [];
          state = in_digest;
          digest_start = length p.udig + 2;
        })
        × (length p.udig ≤ 7))
      ⊎ (IsNameByte c × (q ≡ record p { udig = p.udig ++ c ∷ [] }))
unfolding step_in
from_in_algorithm p q c at h = elim (Bool-cases (c == b':')) [
  | inl colon ↦ inl (
    ground (arith, length-append p.udig (c ∷ [])),
    ground (arith, length-append p.udig (c ∷ [])),
    ground (arith, length-append p.udig (c ∷ [])),
  )
  | inr other ↦ inr ((ground arith, ground arith), ground arith)
]

pub from_in_digest :
    (p q : Scan) (c : ℕ)
    → p.state ≡ in_digest
    → step_in p.state p c ≡ parsed q
    → ((c ≡ b'\n') × (put_udig (record p { line_count = p.line_count + 1 }) ≡ parsed q))
      ⊎ (IsGraph c × (q ≡ record p { udig = p.udig ++ c ∷ [] }))
unfolding step_in
from_in_digest p q c at h = elim (Bool-cases (c == b'\n')) [
  | inl newline ↦ inl (ground arith, ground arith)
  | inr other ↦ inr (ground arith, ground arith)
]

pub from_put_udig :
    (p q : Scan)
    → p.uset.for_each_level ≡ 0
    → put_udig p ≡ parsed q
    → (blob_set_exists p.uset p.udig ≡ false)
      × (q ≡ record p {
        uset = link p.uset p.udig;
        aset = (blob_set_put p.aset (take (p.digest_start - 2) p.udig)).0;
        state = new_udig;
      })
unfolding put_udig
from_put_udig p q idle h = elim (Bool-cases (blob_set_exists p.uset p.udig)) [
  | inl old ↦ cc (put_again p.uset p.udig idle old)
  | inr fresh ↦ (fresh, cc (h, put_line p idle fresh))
]

>>=-eq-ok {ℓ κ} :
    {A : Type ℓ} {B : Type κ} (m : Parsed A) (f : A → Parsed B) {b : B}
    → (m >>= f) ≡ parsed b
    → (a : A) × (m ≡ parsed a) × (f a ≡ parsed b)
>>=-eq-ok (parsed a) f h = (a, refl, h)
>>=-eq-ok (refused e) f h = cc

ok-injective {ℓ} : {A : Type ℓ} {a b : A} → parsed a ≡ parsed b → a ≡ b
ok-injective h = cc

-- The algorithm is the part of the udig before the colon.
take_name :
    (p : Scan) (a d : Bytes)
    → p.udig ≡ a ++ (b':' ∷ d)
    → p.digest_start ≡ length a + 2
    → take (p.digest_start - 2) p.udig ≡ a
take_name p a d u start =
    let prefix : length a + 2 - 2 ≡ length a = omega arith in
    rw (start, u, prefix) (take-append_self a _)

-- The line that ends here, in front of the lines behind it.
Reads-cons :
    (p q : Scan) (a d cs : Bytes) {uset aset : HashSet}
    → IsName a
    → All IsGraph d
    → p.udig ≡ a ++ (b':' ∷ d)
    → p.digest_start ≡ length a + 2
    → blob_set_exists p.uset p.udig ≡ false
    → q.uset ≡ link p.uset p.udig
    → q.aset ≡ (blob_set_put p.aset (take (p.digest_start - 2) p.udig)).0
    → Reads q cs uset aset
    → Reads p (p.udig ++ (b'\n' ∷ cs)) uset aset
Reads-cons p q a d cs is_name graph u start fresh linked named (ls, lines, new, us, ns) = (
  record { algorithm = a; digest = d; is_name = is_name; is_graph = graph } ∷ ls,
  rw (u, lines),
  (rw u at fresh, rw u at (rw linked at new)),
  us ∙ rw (linked, u),
  ns ∙ rw (named, take_name p a d u start),
)

scan-Reads :
    (bs : Bytes) (st : State) (p : Scan) {uset aset : HashSet}
    → p.state ≡ st
    → Known st p
    → p.uset.for_each_level ≡ 0
    → scan p bs ≡ parsed (uset, aset)
    → Reads p (pending st p ++ bs) uset aset
unfolding scan finish
scan-Reads [] new_udig p at known idle h = ([], refl, tt, ground arith, ground arith)
scan-Reads [] in_algorithm p at known idle h = absurd (ground arith)
scan-Reads [] in_digest p at known idle h = absurd (ground arith)
scan-Reads (c ∷ cs) new_udig p at known idle h =
    let (q, step, later) = >>=-eq-ok (step_in p.state p c) (λ q. scan q cs) h in
    let (e, low, high) = from_new_udig p q c at step in
    scan-Reads cs in_algorithm (record p { udig = c ∷ []; state = in_algorithm }) refl
      (begun c [] low high tt) idle (rw e at later)
scan-Reads (c ∷ cs) in_algorithm p at known idle h =
    let (q, step, later) = >>=-eq-ok (step_in p.state p c) (λ q. scan q cs) h in
    elim (from_in_algorithm p q c at step) [
      | inl (colon, e, short) ↦ rw append_assoc at (
          scan-Reads cs in_digest
            (record p {
              udig = p.udig ++ c ∷ [];
              state = in_digest;
              digest_start = length p.udig + 2;
            })
            refl (p.udig, [], IsName-of_Begun known short, tt, rw colon, refl) idle (rw e at later))
      | inr (byte, e) ↦ rw append_assoc at (
          scan-Reads cs in_algorithm (record p { udig = p.udig ++ c ∷ [] }) at
            (Begun-concat c known byte) idle (rw e at later))
    ]
scan-Reads (c ∷ cs) in_digest p at (a, d, is_name, graph, u, start) idle h =
    let (q, step, later) = >>=-eq-ok (step_in p.state p c) (λ q. scan q cs) h in
    elim (from_in_digest p q c at step) [
      | inl (newline, put) ↦
          let (fresh, e) = from_put_udig (record p { line_count = p.line_count + 1 }) q idle put in
          rw newline (
            Reads-cons p q a d cs is_name graph u start fresh (ap (λ (s : Scan). s.uset) e)
              (ap (λ (s : Scan). s.aset) e)
              (scan-Reads cs new_udig q (ap (λ (s : Scan). s.state) e) tt
                (ap (λ (s : Scan). s.uset.for_each_level) e ∙ for_each_level-link _ _ ∙ idle)
                later))
      | inr (byte, e) ↦ rw append_assoc at (
          scan-Reads cs in_digest (record p { udig = p.udig ++ c ∷ [] }) at
            (
              a,
              d ++ c ∷ [],
              is_name,
              All-append IsGraph d (c ∷ []) graph (byte, tt),
              rw (u, append_assoc),
              start,
            )
            idle (rw e at later))
    ]

last_is_newline_of_ok :
    (blob : Bytes) {sets : HashSet × HashSet}
    → blob2udig_set blob ≡ parsed sets
    → last_is_newline blob ≡ true
unfolding blob2udig_set last_is_newline
last_is_newline_of_ok [] h = cc
last_is_newline_of_ok (c ∷ cs) h = ground arith

-- An accepted blob is a list of well-formed lines, none of them twice, and the two sets hold exactly
-- its udigs and their algorithms.
pub lines_of_blob2udig_set :
    (blob : Bytes) {uset aset : HashSet}
    → blob2udig_set blob ≡ parsed (uset, aset)
    → (ls : List Line) × (blob ≡ unlines ls) × Distinct (map udig_of ls) × Holds ls uset aset
lines_of_blob2udig_set blob h =
    let scanned = rw (blob2udig_set-scan blob (last_is_newline_of_ok blob h)) at h in
    let (ls, lines, new, us, ns) = scan-Reads blob new_udig initial refl tt alloc_idle scanned in
    (ls, lines, (Distinct-of_Fresh blob_set_alloc ls new).0, rw (us, ns) (Holds-put_lines ls))
