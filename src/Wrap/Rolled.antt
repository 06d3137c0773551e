-- ===== src/Wrap/Rolled.antt =====
-- Which logs are left in spool/wrap/ by a roll.
use blobio.Base.{
  ℕ, ◌<◌, ◌≡◌, ◌≢◌, refl, sym, ◌∙◌, inl, inr, true, not, ◌&&◌, ◌||◌, Option, none, some, List, [],
  ◌∷◌, ◌++◌, append-nil, Bytes, codes, length, length-append, map, bytes_eq, bytes_eq_iff, elem,
  Bool-cases, arith,
}
use blobio.BlobSet.{HashSet, blob_set_exists}
use blobio.UdigSet.{parsed, blob2udig_set}
use blobio.UdigSet.Lines.{Line, udig_of, unlines}
use blobio.UdigSet.Sets.{Distinct, blob2udig_set-unlines}
use blobio.Chat.{Request, write_ok}
use blobio.Verbs.{DigestModule, set_verb, status_roll}
use blobio.Wrap.{
  Entry, CopyStatus, copied, wrap_dir, skip_dots, extract_wrap_udig, is_brr_name, roll_log,
  roll_entry, roll_entries, roll_ok, roll_set, roll_copied, roll,
}
use blobio.Wrap.Logs.{extract, log_of, add_log, logs, name_of_extract, elem-logs-unlink}

-- `jmscott_strcat` appends the strings where the buffer has room for them and the null.
abbrev pub concat : List Bytes → Bytes
concat [] = []
concat (p ∷ ps) = p ++ concat ps

abbrev pub IsStrcat : (ℕ → Bytes → List Bytes → Bytes) → Type 0
IsStrcat strcat =
    (size : ℕ) (target : Bytes) (parts : List Bytes)
    → length (target ++ concat parts) < size
    → strcat size target parts ≡ target ++ concat parts

not_empty : (uset aset : HashSet) → blob2udig_set [] ≢ parsed (uset, aset)
unfolding blob2udig_set
not_empty uset aset e = cc e

module _ (module_get : Bytes → Option DigestModule) (strcat : ℕ → Bytes → List Bytes → Bytes)
    (appends : IsStrcat strcat) where
  path_of :
      (name : Bytes) → length name < 141 → strcat 256 [] (wrap_dir ∷ name ∷ []) ≡ wrap_dir ++ name
  path_of name short =
      appends 256 [] (wrap_dir ∷ name ∷ [])
        (rw append-nil (omega (arith, length-append wrap_dir name)))
      ∙ rw append-nil refl

  pub dots_extract : (name : Bytes) → skip_dots name ≡ true → extract module_get strcat name ≡ none
  unfolding extract_wrap_udig is_brr_name
  dots_extract name h = elim (Bool-cases (bytes_eq (codes ".") name)) [
    | inl one ↦ rw (sym ((bytes_eq_iff (codes ".") name).0 one)) refl
    | inr other ↦ rw (sym ((bytes_eq_iff (codes "..") name).0 (rw other at h))) refl
  ]

  elem-roll_log :
      (uset : HashSet) (name x : Bytes) (o : Option Bytes) (dir : List Entry)
      → extract module_get strcat name ≡ o
      → elem x (logs module_get strcat (roll_log module_get strcat uset name o dir)) ≡ (
          elem x (logs module_get strcat dir)
          && not (blob_set_exists uset x && elem x (add_log module_get strcat o [])))
  unfolding roll_log elem
  elem-roll_log uset name x none dir h = ground arith
  elem-roll_log uset name x (some u) dir h =
      let short = (name_of_extract module_get strcat name u h).1 in
      rw (path_of name short)
        (ground (arith, elem-logs-unlink module_get strcat name u x dir h, bytes_eq_iff u x))

  elem-roll_entry :
      (uset : HashSet) (x : Bytes) (e : Entry) (dir : List Entry)
      → elem x (logs module_get strcat (roll_entry module_get strcat uset e dir)) ≡ (
          elem x (logs module_get strcat dir)
          && not (blob_set_exists uset x && elem x (logs module_get strcat (e ∷ []))))
  unfolding roll_entry elem
  elem-roll_entry uset x e dir = elim (Bool-cases (skip_dots e.name)) [
    | inl dots ↦
        rw (dots, dots_extract e.name dots)
          (elim (Bool-cases e.is_regular) [
            | inl file ↦ rw file (ground arith)
            | inr other ↦ rw other (ground arith)
          ])
    | inr more ↦ rw more (elim (Bool-cases e.is_regular) [
      | inl file ↦ rw file (elem-roll_log uset e.name x (extract module_get strcat e.name) dir refl)
      | inr other ↦ rw other (ground arith)
    ])
  ]

  elem-add_log :
      (o : Option Bytes) (us : List Bytes) (x : Bytes)
      → elem x (add_log module_get strcat o us)
        ≡ (elem x (add_log module_get strcat o []) || elem x us)
  unfolding elem
  elem-add_log none us x = refl
  elem-add_log (some u) us x = ground arith

  elem-roll_entries :
      (uset : HashSet) (x : Bytes) (es dir : List Entry)
      → elem x (logs module_get strcat (roll_entries module_get strcat uset es dir)) ≡ (
          elem x (logs module_get strcat dir)
          && not (blob_set_exists uset x && elem x (logs module_get strcat es)))
  unfolding roll_entries elem
  elem-roll_entries uset x [] dir = ground arith
  elem-roll_entries uset x (e ∷ es) dir = ground (
    arith,
    elem-roll_entries uset x es (roll_entry module_get strcat uset e dir),
    elem-roll_entry uset x e dir,
    elem-add_log (log_of module_get strcat e) (logs module_get strcat es) x,
  )

  copied_set :
      (r : Request) (blob : Bytes) (listing dir : List Entry) (uset aset : HashSet)
      → blob2udig_set blob ≡ parsed (uset, aset)
      → roll_copied module_get strcat (r, copied, blob) listing dir
        ≡ ((write_ok r).0, (write_ok r).1, roll_entries module_get strcat uset listing dir)
  unfolding roll_copied roll_set roll_ok
  copied_set r [] listing dir uset aset h = absurd (not_empty uset aset h)
  copied_set r (b ∷ blob) listing dir uset aset h = rw h refl

  -- A roll of a blob of one well-formed line or more, none twice, that the module could copy, ends as `write_ok`
  -- does, and leaves of the logs in spool/wrap/ exactly those that are not both listed by `io_readdir`
  -- and named in the blob; where `strcat` appends what fits its buffer.
  pub elem-roll :
      (ls : List Line) (copy : Request → Request × CopyStatus × Bytes) (r r1 : Request)
      (listing dir : List Entry) (x : Bytes)
      → ls ≢ []
      → Distinct (map udig_of ls)
      → copy (set_verb status_roll r) ≡ (r1, copied, unlines ls)
      → ((roll module_get strcat copy listing dir r).0 ≡ (write_ok r1).0)
        × ((roll module_get strcat copy listing dir r).1 ≡ (write_ok r1).1)
        × (elem x (logs module_get strcat (roll module_get strcat copy listing dir r).2) ≡ (
            elem x (logs module_get strcat dir)
            && not (elem x (map udig_of ls) && elem x (logs module_get strcat listing))))
  unfolding roll
  elem-roll ls copy r r1 listing dir x ne d done =
      let (uset, aset, read, held) = blob2udig_set-unlines ls ne d in
      rw (done, copied_set r1 (unlines ls) listing dir uset aset read)
        (refl, refl, rw (sym (held.udigs x)) (elem-roll_entries uset x listing dir))
