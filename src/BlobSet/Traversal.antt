-- ===== src/BlobSet/Traversal.antt =====
-- `blob_set_for_each` with a callback that never stops it visits every element once.
use blobio.Base.{
  ℕ, zero, suc, ◌+◌, ◌<◌, ◌≡◌, ap, ◌-◌, inl, inr, false, ◌&&◌, List, [], ◌∷◌, ◌++◌, Bytes, arith,
  ◌==◌, if◌then◌else◌, Bool-cases, bytes_eq, bytes_eq_iff,
}
use blobio.BlobSet.{
  HashSet, djb, slot, link, blob_set_alloc, blob_set_exists, blob_set_put, blob_set_for_each,
  chain_exists,
}
use blobio.BlobSet.Membership.{exists-link}

-- How often a byte string stands in a list.
abbrev pub count : Bytes → List Bytes → ℕ
count x [] = 0
count x (y ∷ ys) = (if bytes_eq y x then 1 else 0) + count x ys

abbrev holds : HashSet → ℕ → Bytes → ℕ
holds s i x = if slot s x == i && blob_set_exists s x then 1 else 0

-- Each element stands once, in the chain of its slot.
pub record IsHashed (s : HashSet) : Type 0 where
  pub size_pos : 0 < s.size
  pub once : (i : ℕ) (x : Bytes) → count x (s.table i) ≡ holds s i x

-- the callback that notes what it is called with
abbrev pub collect : HashSet → Bytes → List Bytes → List Bytes × ℕ
collect s e seen = (seen ++ e ∷ [], 0)

abbrev pub visited : HashSet → List Bytes
visited s = (blob_set_for_each collect s []).1

chains : ℕ → ℕ → (ℕ → List Bytes) → List Bytes
chains zero i table = []
chains (suc n) i table = table i ++ chains n (i + 1) table

-- The traversal leaves the set as it was, and a put by the callback is refused.
pub for_each-restores {ℓ} :
    {S : Type ℓ} (callback : HashSet → Bytes → S → S × ℕ) (s : HashSet) (context : S)
    → (blob_set_for_each callback s context).0 ≡ s
unfolding blob_set_for_each
for_each-restores callback s context =
    let level : s.for_each_level + 1 - 1 ≡ s.for_each_level = omega arith in
    λ i. record s { for_each_level = level i }

pub IsHashed-alloc : IsHashed blob_set_alloc
unfolding blob_set_alloc blob_set_exists chain_exists
IsHashed-alloc = record { size_pos = omega arith; once = λ i x. ground arith }

once-link :
    (s : HashSet) (e : Bytes) (i : ℕ) (x : Bytes)
    → IsHashed s
    → blob_set_exists s e ≡ false
    → count x ((link s e).table i) ≡ holds (link s e) i x
once-link s e i x h fresh = elim (Bool-cases (bytes_eq e x)) [
  | inl same ↦
      let e≡x = (bytes_eq_iff e x).0 same in
      rw (exists-link, same)
        (unfold link slot in
          ground (arith, h.once i x, fresh, ap (blob_set_exists s) e≡x, ap djb e≡x))
  | inr differ ↦ rw (exists-link, differ) (unfold link slot in ground (arith, h.once i x))
]

IsHashed-link :
    (s : HashSet) (e : Bytes) → IsHashed s → blob_set_exists s e ≡ false → IsHashed (link s e)
IsHashed-link s e h fresh = record {
  size_pos = unfold link in h.size_pos;
  once = λ i x. once-link s e i x h fresh;
}

pub IsHashed-put : (s : HashSet) (e : Bytes) → IsHashed s → IsHashed (blob_set_put s e).0
unfolding blob_set_put
IsHashed-put s e h = elim (Bool-cases (blob_set_exists s e)) [
  | inl old ↦ rw old (ground (arith, h))
  | inr fresh ↦ rw fresh (ground (arith, h, IsHashed-link s e h fresh))
]
