-- ===== src/UdigSet/Total.antt =====
-- On a blob with bytes in it `blob2udig_set` never panics: it answers with the sets or with an error.
use blobio.Base.{
  ℕ, ◌+◌, ◌≡◌, ◌≢◌, inl, inr, refl, ◌∙◌, ap, Bool, true, false, [], ◌∷◌, Bytes, arith, is_graph,
  Bool-cases,
}
use blobio.BlobSet.{blob_set_exists}
use blobio.BlobSet.Membership.{for_each_level-link, put_fresh, put_again, alloc_idle}
use blobio.UdigSet.{
  Error, Parsed, parsed, refused, ◌>>=◌, State, new_udig, in_algorithm, in_digest, Scan, initial,
  step_in, put_udig, finish, scan, last_is_newline, blob2udig_set, impossible_empty_blob,
  unexpected_state, put_panic,
}
use blobio.UdigSet.Sound.{from_put_udig}

abbrev pub is_panic : Error → Bool
is_panic impossible_empty_blob = true
is_panic unexpected_state = true
is_panic put_panic = true
is_panic _ = false

-- An answer that is no panic: the sets, or an error of the client's blob.
abbrev pub Answers {ℓ} : {A : Type ℓ} → Parsed A → Type 0
Answers (parsed a) = Unit
Answers (refused e) = is_panic e ≡ false

put_udig-Answers : (p : Scan) → p.uset.for_each_level ≡ 0 → Answers (put_udig p)
unfolding put_udig
put_udig-Answers p idle = elim (Bool-cases (blob_set_exists p.uset p.udig)) [
  | inl old ↦ rw (put_again p.uset p.udig idle old) refl
  | inr fresh ↦ rw (put_fresh p.uset p.udig idle fresh) tt
]

step_in-Answers :
    (st : State) (p : Scan) (c : ℕ) → p.uset.for_each_level ≡ 0 → Answers (step_in st p c)
unfolding step_in
step_in-Answers in_digest p c idle =
    ground (arith, put_udig-Answers (record p { line_count = p.line_count + 1 }) idle)
step_in-Answers _ p c idle = ground arith

Answers-bind {ℓ κ} :
    {A : Type ℓ} {B : Type κ} (m : Parsed A) (f : A → Parsed B)
    → Answers m
    → ((a : A) → m ≡ parsed a → Answers (f a))
    → Answers (m >>= f)
Answers-bind (parsed a) f h k = k a refl
Answers-bind (refused e) f h k = h

put_udig-idle :
    (p q : Scan)
    → p.uset.for_each_level ≡ 0
    → put_udig p ≡ parsed q
    → (q.uset.for_each_level ≡ 0) × (q.state ≡ new_udig)
put_udig-idle p q idle h =
    let (fresh, e) = from_put_udig p q idle h in
    (
      ap (λ (s : Scan). s.uset.for_each_level) e ∙ for_each_level-link _ _ ∙ idle,
      ap (λ (s : Scan). s.state) e,
    )

-- A step leaves no traversal open, and a newline ends a line.
step_in-idle :
    (st : State) (p q : Scan) (c : ℕ)
    → p.uset.for_each_level ≡ 0
    → step_in st p c ≡ parsed q
    → q.uset.for_each_level ≡ 0
unfolding step_in
step_in-idle in_digest p q c idle h =
    ground (arith, put_udig-idle (record p { line_count = p.line_count + 1 }) q idle)
step_in-idle _ p q c idle h = ground arith

newline_ends_line :
    (st : State) (p q : Scan)
    → p.uset.for_each_level ≡ 0
    → step_in st p b'\n' ≡ parsed q
    → q.state ≡ new_udig
unfolding step_in is_graph
newline_ends_line in_digest p q idle h =
    ground (arith, put_udig-idle (record p { line_count = p.line_count + 1 }) q idle)
newline_ends_line new_udig p q idle h = ground arith
newline_ends_line in_algorithm p q idle h = ground arith

scan-Answers :
    (c : ℕ) (cs : Bytes) (p : Scan)
    → p.uset.for_each_level ≡ 0
    → last_is_newline (c ∷ cs) ≡ true
    → Answers (scan p (c ∷ cs))
unfolding scan finish last_is_newline
scan-Answers c [] p idle h =
    Answers-bind (step_in p.state p c) (λ q. finish q.state q) (step_in-Answers p.state p c idle)
      λ q e.
        let newline : c ≡ b'\n' = ground arith in
        rw (newline_ends_line p.state p q idle (rw newline at e)) tt
scan-Answers c (d ∷ cs) p idle h =
    Answers-bind (step_in p.state p c) (λ q. scan q (d ∷ cs)) (step_in-Answers p.state p c idle)
      λ q e. scan-Answers d cs q (step_in-idle p.state p q c idle e) h

-- Whatever the bytes of a blob that is not empty, the parse ends with the sets or with an error of the
-- blob, and never with a panic.
pub blob2udig_set-Answers : (blob : Bytes) → blob ≢ [] → Answers (blob2udig_set blob)
unfolding blob2udig_set
blob2udig_set-Answers [] ne = absurd (ne refl)
blob2udig_set-Answers (c ∷ cs) ne = elim (Bool-cases (last_is_newline (c ∷ cs))) [
  | inl last ↦ rw last (scan-Answers c cs initial alloc_idle last)
  | inr missing ↦ rw missing refl
]
