-- ===== src/Wrap/Sets.antt =====
-- The set of udigs that a wrap writes and digests.
use blobio.Base.{
  ℕ, suc, ◌+◌, ◌-◌, ◌<◌, ◌≡◌, refl, sym, ap, ◌∙◌, inl, inr, true, Option, none, some, List, [], ◌∷◌,
  ◌++◌, Bytes, codes, length, take, drop, ltb, ◌==◌, Bool-cases, arith, All,
}
use blobio.UdigSet.Lines.{Line, IsName, IsGraph, udig_of}
use blobio.Verbs.{DigestModule}
use blobio.Wrap.{at_colon, is_brr_name, checked, by_module, extract_wrap_udig}
use blobio.Wrap.Logs.{extract, name_of_extract}

-- The modules of the table have names that a set can hold, and take only graphic characters for a
-- digest.
abbrev pub IsTable : (Bytes → Option DigestModule) → Type 0
IsTable module_get =
    (a : Bytes) (mp : DigestModule)
    → module_get a ≡ some mp
    → IsName a × ((d : Bytes) → 0 < mp.is_digest d → All IsGraph d)

-- What stands before the colon and behind it, of a string with more behind it.
abbrev with_more : Bytes → Option (Bytes × Bytes) → Option (Bytes × Bytes)
with_more more none = none
with_more more (some (a, d)) = some (a, d ++ more)

at_colon-append :
    (u more : Bytes) → at_colon more ≡ none → at_colon (u ++ more) ≡ with_more more (at_colon u)
unfolding at_colon
at_colon-append [] more h = h
at_colon-append (c ∷ u) more h = elim (Bool-cases (c == b':')) [
  | inl colon ↦ rw colon refl
  | inr other ↦ rw (other, at_colon-append u more h) (more_of (at_colon u))
]
  where
    more_of :
        (o : Option (Bytes × Bytes))
        → elim (with_more more o) [ none ↦ none | some (a, d) ↦ some (c ∷ a, d) ]
          ≡ with_more more (elim o [ none ↦ none | some (a, d) ↦ some (c ∷ a, d) ])
    more_of none = refl
    more_of (some (a, d)) = refl

abbrev halves : Option (Bytes × Bytes) → Bytes
halves none = []
halves (some (a, d)) = a ++ (b':' ∷ d)

is_colon : (c : ℕ) → (c == b':') ≡ true → c ≡ b':'
is_colon c h = ground arith

colon_splits : (u a d : Bytes) → at_colon u ≡ some (a, d) → u ≡ a ++ (b':' ∷ d)
unfolding at_colon
colon_splits [] a d h = cc
colon_splits (c ∷ u) a d h = elim (Bool-cases (c == b':')) [
  | inl colon ↦ ap (λ b. b ∷ u) (is_colon c colon) ∙ ap halves (rw colon at h)
  | inr other ↦ go (λ a' d' e. colon_splits u a' d' e) (at_colon u) refl (rw other at h)
]
  where
    go :
        ((a' d' : Bytes) → at_colon u ≡ some (a', d') → u ≡ a' ++ (b':' ∷ d'))
        → (o : Option (Bytes × Bytes)) → at_colon u ≡ o
        → Path
            (Option (Bytes × Bytes))
            (elim o [ none ↦ none | some (a', d') ↦ some (c ∷ a', d') ])
            (some (a, d))
        → c ∷ u ≡ a ++ (b':' ∷ d)
    go rest none e k = cc
    go rest (some (a', d')) e k = ap (λ l. c ∷ l) (rest a' d' e) ∙ ap halves k

drop-prefix : (a d : Bytes) → drop (length a + 1) (a ++ (b':' ∷ d)) ≡ d
drop-prefix [] d = refl
drop-prefix (x ∷ a) d = rw (suc_add (length a) 1) (drop-prefix a d)
  where
    suc_add : (m n : ℕ) → suc m + n ≡ suc (m + n)
    suc_add m n = omega arith

module _ (module_get : Bytes → Option DigestModule) (strcat : ℕ → Bytes → List Bytes → Bytes) where
  abbrev Inverted : Option (Bytes × Bytes) → Bytes → Bytes → Type 0
  Inverted split udig u =
      (a : Bytes) × (b : Bytes) × (mp : DigestModule) × (split ≡ some (a, b))
      × (module_get a ≡ some mp)
      × (0 < mp.is_digest (drop (length a + 1) udig))
      × (udig ≡ u)

  by_module-Inverted :
      (split : Option (Bytes × Bytes)) (udig u : Bytes)
      → by_module module_get strcat split udig ≡ some u
      → Inverted split udig u
  unfolding by_module checked
  by_module-Inverted none udig u h = cc
  by_module-Inverted (some (a, b)) udig u h = elim (Bool-cases (ltb 8 (length a))) [
    | inl long ↦ cc (rw long at h)
    | inr short ↦ go (module_get a) refl (rw short at h)
  ]
    where
      go :
          (o : Option DigestModule)
          → module_get a ≡ o
          → checked o (drop (length a + 1) udig) udig ≡ some u
          → Inverted (some (a, b)) udig u
      go none e k = cc
      go (some mp) e k = (a, b, mp, refl, e, ground (arith, k), ground (arith, k))

  extract-Inverted :
      (name u : Bytes)
      → extract module_get strcat name ≡ some u
      → Inverted (at_colon name) (take (length name - 4) name) u
  unfolding extract_wrap_udig
  extract-Inverted name u h = elim (Bool-cases (is_brr_name name)) [
    | inl brr ↦ by_module-Inverted (at_colon name) (take (length name - 4) name) u (rw brr at h)
    | inr other ↦ cc (rw other at h)
  ]

  no_colon : at_colon (codes ".brr") ≡ none
  unfolding at_colon
  no_colon = refl

  -- The digest behind the colon, without the suffix of the name.
  without_suffix :
      (o : Option (Bytes × Bytes)) (a b : Bytes)
      → with_more (codes ".brr") o ≡ some (a, b)
      → (d : Bytes) × (o ≡ some (a, d))
  without_suffix none a b h = cc
  without_suffix (some (a', d')) a b h = (d', ap (λ x. some (x, d')) (first h))
    where
      first : Path (Option (Bytes × Bytes)) (some (a', d' ++ codes ".brr")) (some (a, b)) → a' ≡ a
      first k = ap (λ (o : Option (Bytes × Bytes)). elim o [ none ↦ [] | some (x, y) ↦ x ]) k

  -- The udig of a log is a line that the parser of sets takes.
  pub line_of :
      (name u : Bytes)
      → IsTable module_get
      → extract module_get strcat name ≡ some u
      → (l : Line) × (udig_of l ≡ u)
  line_of name u table h =
      let (a, b, mp, split, found, digest, same) = extract-Inverted name u h in
      let whole = (name_of_extract module_get strcat name u h).0 in
      let (d, halved) =
        without_suffix (at_colon u) a b
          (sym (at_colon-append u (codes ".brr") no_colon) ∙ ap at_colon (sym whole) ∙ split) in
      let parts = colon_splits u a d halved in
      let (is_name, graph) = table a mp found in
      (
        record {
          algorithm = a;
          digest = d;
          is_name = is_name;
          is_graph = graph d (rw (same, parts, drop-prefix a d) at digest);
        },
        sym parts,
      )
