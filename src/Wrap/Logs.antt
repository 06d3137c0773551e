-- ===== src/Wrap/Logs.antt =====
-- The logs in the directory spool/wrap/, by their udigs.
use blobio.Base.{
  take-drop, ℕ, ◌-◌, ◌<◌, ◌≡◌, refl, sym, ap, ◌∙◌, inl, inr, Bool, true, false, not, ◌&&◌, Option,
  none, some, List, [], ◌∷◌, ◌++◌, Bytes, codes, length, take, drop, if◌then◌else◌, bytes_eq,
  bytes_eq_iff, bytes_eq_refl, elem, Bool-cases, arith,
}
use blobio.Verbs.{DigestModule}
use blobio.Wrap.{
  Entry, at_colon, is_brr_name, checked, by_module, wrap_dir, unlink, extract_wrap_udig,
}

is_brr_name_ends :
    (name : Bytes)
    → is_brr_name name ≡ true
    → (drop (length name - 4) name ≡ codes ".brr") × (length name < 141)
unfolding is_brr_name
is_brr_name_ends name h = ground (arith, bytes_eq_iff (drop (length name - 4) name) (codes ".brr"))

ne_true : (b : Bool) → (b ≡ true → ⊥) → b ≡ false
ne_true true n = absurd (n refl)
ne_true false n = refl

same_name : (a b : Bytes) → bytes_eq (wrap_dir ++ a) (wrap_dir ++ b) ≡ bytes_eq a b
unfolding bytes_eq
same_name a b = refl

module _ (module_get : Bytes → Option DigestModule) (strcat : ℕ → Bytes → List Bytes → Bytes) where
  abbrev pub extract : Bytes → Option Bytes
  extract = extract_wrap_udig module_get strcat

  by_module_eq :
      (split : Option (Bytes × Bytes)) (udig u : Bytes)
      → by_module module_get strcat split udig ≡ some u
      → udig ≡ u
  unfolding by_module checked
  by_module_eq split udig u h = ground arith

  -- A log is named by its udig, and its name is short.
  pub name_of_extract :
      (name u : Bytes) → extract name ≡ some u → (name ≡ u ++ codes ".brr") × (length name < 141)
  unfolding extract_wrap_udig is_brr_name
  name_of_extract name u h = elim (Bool-cases (is_brr_name name)) [
    | inl brr ↦
        let (ends, short) = is_brr_name_ends name brr in
        let same = by_module_eq (at_colon name) (take (length name - 4) name) u (rw brr at h) in
        (sym (take-drop (length name - 4) name) ∙ rw (ends, same) refl, short)
    | inr other ↦ cc (rw other at h)
  ]

  -- The udigs of the logs.
  abbrev pub log_of : Entry → Option Bytes
  log_of e = if e.is_regular then extract e.name else none

  abbrev pub add_log : Option Bytes → List Bytes → List Bytes
  add_log none us = us
  add_log (some u) us = u ∷ us

  abbrev pub logs : List Entry → List Bytes
  logs [] = []
  logs (e ∷ es) = add_log (log_of e) (logs es)

  -- A log with another udig has another name.
  other_name :
      (a b u v : Bytes)
      → extract a ≡ some u
      → extract b ≡ some v
      → bytes_eq a b ≡ false
      → bytes_eq u v ≡ false
  other_name a b u v ha hb ne = ne_true (bytes_eq u v) (λ same. cc (
    ne,
    (name_of_extract a u ha).0,
    (name_of_extract b v hb).0,
    (bytes_eq_iff u v).0 same,
    bytes_eq_refl a,
  ))

  extract_of_log : (e : Entry) (v : Bytes) → log_of e ≡ some v → extract e.name ≡ some v
  extract_of_log e v h = elim (Bool-cases e.is_regular) [
    | inl file ↦ rw file at h
    | inr other ↦ cc (rw other at h)
  ]

  elem-kept :
      (o : Option Bytes) (us vs : List Bytes) (u x : Bytes)
      → elem x vs ≡ (elem x us && not (bytes_eq u x))
      → ((v : Bytes) → o ≡ some v → bytes_eq v u ≡ false)
      → elem x (add_log o vs) ≡ (elem x (add_log o us) && not (bytes_eq u x))
  unfolding elem
  elem-kept none us vs u x h ne = h
  elem-kept (some v) us vs u x h ne =
      ground (arith, ne v refl, h, bytes_eq_iff v x, bytes_eq_iff u x, bytes_eq_iff v u)

  elem-dropped :
      (o : Option Bytes) (us vs : List Bytes) (u x : Bytes)
      → elem x vs ≡ (elem x us && not (bytes_eq u x))
      → ((v : Bytes) → o ≡ some v → v ≡ u)
      → elem x vs ≡ (elem x (add_log o us) && not (bytes_eq u x))
  unfolding elem
  elem-dropped none us vs u x h same = h
  elem-dropped (some v) us vs u x h same = rw (same v refl) (ground (arith, h))

  some_inj : (u v : Bytes) → Path (Option Bytes) (some u) (some v) → u ≡ v
  some_inj u v h = cc h

  -- With the file of a log unlinked, its udig is gone, and no other.
  pub elem-logs-unlink :
      (n u x : Bytes) (dir : List Entry)
      → extract n ≡ some u
      → elem x (logs (unlink (wrap_dir ++ n) dir)) ≡ (elem x (logs dir) && not (bytes_eq u x))
  unfolding unlink elem
  elem-logs-unlink n u x [] h = refl
  elem-logs-unlink n u x (e ∷ dir) h = elim (Bool-cases (bytes_eq e.name n)) [
    | inl same ↦
        rw (same_name e.name n, same)
          (elem-dropped (log_of e) (logs dir) _ u x (elem-logs-unlink n u x dir h) (λ v hv.
            some_inj v u
              (sym (extract_of_log e v hv) ∙ ap extract ((bytes_eq_iff e.name n).0 same) ∙ h)))
    | inr differ ↦
        rw (same_name e.name n, differ)
          (elem-kept (log_of e) (logs dir) _ u x (elem-logs-unlink n u x dir h)
            (λ v hv. other_name e.name n v u (extract_of_log e v hv) h differ))
  ]
