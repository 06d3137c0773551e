-- ===== src/FsSha/Found.antt =====
-- What `lookup` finds behind the operations on a file system.
use blobio.Base.{
  ◌≡◌, ◌≢◌, refl, sym, inl, inr, false, none, some, [], ◌∷◌, Bytes, bytes_eq, bytes_eq_iff,
  bytes_eq_refl, Bool-cases,
}
use blobio.FsSha.Disk.{Files, lookup, unlink, rename}
use blobio.FsSha.Kept.{rename_made, unlink_made}

not_same : (p q : Bytes) → q ≢ p → bytes_eq p q ≡ false
not_same p q other = elim (Bool-cases (bytes_eq p q)) [
  | inl same ↦ absurd (other (sym ((bytes_eq_iff p q).0 same)))
  | inr differs ↦ differs
]

pub lookup_made : (p file : Bytes) (fs : Files) → lookup p ((p, file) ∷ fs) ≡ some file
unfolding lookup
lookup_made p file fs = rw (bytes_eq_refl p) refl

pub lookup_passed :
    (p q file : Bytes) (fs : Files) → q ≢ p → lookup q ((p, file) ∷ fs) ≡ lookup q fs
unfolding lookup
lookup_passed p q file fs other = rw (not_same p q other) refl

pub lookup-unlink : (p : Bytes) (fs : Files) → lookup p (unlink p fs) ≡ none
unfolding lookup unlink
lookup-unlink p [] = refl
lookup-unlink p ((q, file) ∷ fs) = elim (Bool-cases (bytes_eq q p)) [
  | inl same ↦ rw same (lookup-unlink p fs)
  | inr other ↦ rw (other, other) (lookup-unlink p fs)
]

pub lookup-unlink_other : (p q : Bytes) (fs : Files) → q ≢ p → lookup q (unlink p fs) ≡ lookup q fs
unfolding lookup unlink
lookup-unlink_other p q [] other = refl
lookup-unlink_other p q ((r, file) ∷ fs) other = elim (Bool-cases (bytes_eq r p)) [
  | inl same ↦
      let is : r ≡ p = (bytes_eq_iff r p).0 same in
      rw (same, not_same r q (λ e. other (rw is at e))) (lookup-unlink_other p q fs other)
  | inr differs ↦ rw differs (elim (Bool-cases (bytes_eq r q)) [
    | inl same ↦ rw same refl
    | inr next ↦ rw next (lookup-unlink_other p q fs other)
  ])
]

-- A temporary file that is written and renamed, and unlinked where it is still there.
abbrev pub moved : Bytes → Bytes → Bytes → Files → Files
moved tmp path file fs = unlink tmp (rename tmp path ((tmp, file) ∷ fs))

pub lookup-moved :
    (tmp path file : Bytes) (fs : Files)
    → path ≢ tmp
    → lookup path (moved tmp path file fs) ≡ some file
lookup-moved tmp path file fs apart =
    rw
      (
        rename_made tmp path file fs,
        lookup-unlink_other tmp path ((path, file) ∷ unlink path (unlink tmp fs)) apart,
      )
      (lookup_made path file (unlink path (unlink tmp fs)))

pub lookup-moved_other :
    (tmp path q file : Bytes) (fs : Files)
    → q ≢ path
    → q ≢ tmp
    → lookup q (moved tmp path file fs) ≡ lookup q fs
lookup-moved_other tmp path q file fs not_path not_tmp =
    rw
      (
        rename_made tmp path file fs,
        lookup-unlink_other tmp q ((path, file) ∷ unlink path (unlink tmp fs)) not_tmp,
        lookup_passed path q file (unlink path (unlink tmp fs)) not_path,
        lookup-unlink_other path q (unlink tmp fs) not_path,
      )
      (lookup-unlink_other tmp q fs not_tmp)

-- One that is written and only unlinked.
pub lookup-discarded :
    (tmp q file : Bytes) (fs : Files)
    → q ≢ tmp
    → lookup q (unlink tmp ((tmp, file) ∷ fs)) ≡ lookup q fs
lookup-discarded tmp q file fs not_tmp =
    rw (unlink_made tmp file fs) (lookup-unlink_other tmp q fs not_tmp)
