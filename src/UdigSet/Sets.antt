-- ===== src/UdigSet/Sets.antt =====
-- The sets that `blob2udig_set` builds, and that it accepts every list of distinct lines.
use blobio.Base.{
  ◌≡◌, ◌≢◌, refl, ◌∙◌, ap, inl, inr, true, false, ◌||◌, List, [], ◌∷◌, map, Bytes, arith, elem,
  Bool-cases, bytes_eq, bytes_eq_iff, bytes_eq_refl,
}
use blobio.BlobSet.{HashSet, link, blob_set_alloc, blob_set_exists, blob_set_put}
use blobio.BlobSet.Membership.{put_idle, alloc_idle, exists-alloc, exists-link, exists-put}
use blobio.UdigSet.{parsed, initial, blob2udig_set}
use blobio.UdigSet.Lines.{
  Line, udig_of, unlines, Fresh, put_lines, put_names, run_lines, blob2udig_set-scan,
  last_is_newline-unlines,
}

-- What the two sets hold.
pub exists-put_lines :
    (s : HashSet) (ls : List Line) (x : Bytes)
    → blob_set_exists (put_lines s ls) x ≡ (elem x (map udig_of ls) || blob_set_exists s x)
unfolding elem
exists-put_lines s [] x = refl
exists-put_lines s (l ∷ ls) x =
    ground (arith, exists-put_lines (link s (udig_of l)) ls x, exists-link s (udig_of l) x)

pub exists-put_names :
    (s : HashSet) (ls : List Line) (x : Bytes)
    → s.for_each_level ≡ 0
    → blob_set_exists (put_names s ls) x
      ≡ (elem x (map (λ (l : Line). l.algorithm) ls) || blob_set_exists s x)
unfolding elem
exists-put_names s [] x idle = refl
exists-put_names s (l ∷ ls) x idle = ground (
  arith,
  exists-put_names (blob_set_put s l.algorithm).0 ls x (put_idle s l.algorithm idle),
  exists-put s l.algorithm x idle,
)

-- No element stands twice.
abbrev pub Distinct : List Bytes → Type 0
Distinct [] = Unit
Distinct (x ∷ xs) = (elem x xs ≡ false) × Distinct xs

ne_of_elem :
    (a x : Bytes) (xs : List Bytes) → elem a xs ≡ false → elem x xs ≡ true → bytes_eq a x ≡ false
ne_of_elem a x xs out within = elim (Bool-cases (bytes_eq a x)) [
  | inl same ↦ cc (out, within, ap (λ (y : Bytes). elem y xs) ((bytes_eq_iff a x).0 same))
  | inr differ ↦ differ
]

pub Fresh-of_Distinct :
    (s : HashSet) (ls : List Line)
    → Distinct (map udig_of ls)
    → ((x : Bytes) → elem x (map udig_of ls) ≡ true → blob_set_exists s x ≡ false)
    → Fresh s ls
unfolding elem
Fresh-of_Distinct s [] d new = tt
Fresh-of_Distinct s (l ∷ ls) d new = (
  new (udig_of l) (rw bytes_eq_refl),
  Fresh-of_Distinct (link s (udig_of l)) ls d.1 (λ x within. ground (
    arith,
    exists-link s (udig_of l) x,
    new x,
    ne_of_elem (udig_of l) x (map udig_of ls) d.0 within,
  )),
)

pub Distinct-of_Fresh :
    (s : HashSet) (ls : List Line)
    → Fresh s ls
    → Distinct (map udig_of ls)
      × ((x : Bytes) → elem x (map udig_of ls) ≡ true → blob_set_exists s x ≡ false)
unfolding elem
Distinct-of_Fresh s [] f = (tt, λ x within. cc)
Distinct-of_Fresh s (l ∷ ls) f =
    let (d, new) = Distinct-of_Fresh (link s (udig_of l)) ls f.1 in
    let u = udig_of l in
    (
      (
        elim (Bool-cases (elem u (map udig_of ls))) [
          | inl within ↦ ground (arith, new u within, exists-link s u u, bytes_eq_refl u)
          | inr out ↦ out
        ],
        d,
      ),
      λ x within. elim (Bool-cases (bytes_eq u x)) [
        | inl same ↦ cc (f.0, ap (blob_set_exists s) ((bytes_eq_iff u x).0 same))
        | inr differ ↦ ground (arith, new x, exists-link s u x)
      ],
    )

abbrev pub algorithms : List Line → List Bytes
algorithms ls = map (λ (l : Line). l.algorithm) ls

-- The sets hold exactly the udigs of these lines and their algorithms.
pub record Holds (ls : List Line) (uset aset : HashSet) : Type 0 where
  pub udigs : (x : Bytes) → blob_set_exists uset x ≡ elem x (map udig_of ls)
  pub names : (x : Bytes) → blob_set_exists aset x ≡ elem x (algorithms ls)

pub Holds-put_lines :
    (ls : List Line) → Holds ls (put_lines blob_set_alloc ls) (put_names blob_set_alloc ls)
Holds-put_lines ls = record {
  udigs = λ x. ground (arith, exists-put_lines blob_set_alloc ls x, exists-alloc x);
  names = λ x. ground (arith, exists-put_names blob_set_alloc ls x alloc_idle, exists-alloc x);
}

-- A blob that is a list of one well-formed line or more, none of them twice, is accepted, and the two sets
-- hold exactly its udigs and their algorithms.
pub blob2udig_set-unlines :
    (ls : List Line)
    → ls ≢ []
    → Distinct (map udig_of ls)
    → (uset : HashSet) × (aset : HashSet) × (blob2udig_set (unlines ls) ≡ parsed (uset, aset))
      × Holds ls uset aset
blob2udig_set-unlines [] ne d = absurd (ne refl)
blob2udig_set-unlines (l ∷ ls) ne d = (
  put_lines blob_set_alloc (l ∷ ls),
  put_names blob_set_alloc (l ∷ ls),
  blob2udig_set-scan (unlines (l ∷ ls)) (last_is_newline-unlines l ls)
      ∙ run_lines initial (l ∷ ls) refl alloc_idle
          (Fresh-of_Distinct blob_set_alloc (l ∷ ls) d (λ x _. exists-alloc x)),
  Holds-put_lines (l ∷ ls),
)
