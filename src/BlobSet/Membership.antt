-- ===== src/BlobSet/Membership.antt =====
-- `blob_set_put` and `blob_set_exists` implement a mathematical set of byte strings.
use blobio.Base.{
  ◌≡◌, refl, ap, inl, inr, true, false, ◌&&◌, ◌||◌, List, [], ◌∷◌, Bytes, length, arith, ltb, ◌==◌,
  if◌then◌else◌, Bool-cases, bytes_eq, bytes_eq_iff, elem,
}
use blobio.BlobSet.{
  HashSet, memcmp_eq, chain_exists, slot, link, blob_set_alloc, blob_set_exists, blob_set_put,
  added, already_exists, panicked,
}

-- The test of a chain's element is equality of byte strings.
memcmp_eq-bytes_eq :
    (v e : Bytes) → (length e == length v && memcmp_eq (length e) v e) ≡ bytes_eq v e
unfolding memcmp_eq bytes_eq
memcmp_eq-bytes_eq [] [] = refl
memcmp_eq-bytes_eq [] (y ∷ e) = ground arith
memcmp_eq-bytes_eq (x ∷ v) [] = ground arith
memcmp_eq-bytes_eq (x ∷ v) (y ∷ e) = ground (arith, memcmp_eq-bytes_eq v e)

chain_exists-elem : (chain : List Bytes) (e : Bytes) → chain_exists chain e ≡ elem e chain
unfolding chain_exists elem
chain_exists-elem [] e = refl
chain_exists-elem (v ∷ next) e = ground (arith, memcmp_eq-bytes_eq v e, chain_exists-elem next e)

pub exists-elem : (s : HashSet) (e : Bytes) → blob_set_exists s e ≡ elem e (s.table (slot s e))
unfolding blob_set_exists
exists-elem s e = chain_exists-elem (s.table (slot s e)) e

-- Nothing is in a fresh set.
pub exists-alloc : (x : Bytes) → blob_set_exists blob_set_alloc x ≡ false
unfolding blob_set_exists blob_set_alloc
exists-alloc x = refl

-- `blob_set_put` says what the set was: `already_exists` exactly for its elements.
pub put_status :
    (s : HashSet) (e : Bytes)
    → (blob_set_put s e).1 ≡ (
        if ltb 0 s.for_each_level
        then panicked
        else if blob_set_exists s e
        then already_exists
        else added)
unfolding blob_set_put
put_status s e = ground arith

-- The chain that an element is looked for in, after another was linked in.
chain-link :
    (s : HashSet) (e x : Bytes)
    → (link s e).table (slot (link s e) x)
      ≡ (if slot s e == slot s x then e ∷ s.table (slot s x) else s.table (slot s x))
unfolding link slot
chain-link s e x = ground arith

-- Elements of different slots are different.
bytes_eq_of_slot_ne :
    (s : HashSet) (e x : Bytes) → (slot s e == slot s x) ≡ false → bytes_eq e x ≡ false
bytes_eq_of_slot_ne s e x other = elim (Bool-cases (bytes_eq e x)) [
  | inl same ↦ ground (arith, ap (slot s) ((bytes_eq_iff e x).0 same))
  | inr differ ↦ differ
]

-- What was linked in is there, and nothing else is new: the other chains are untouched.
pub exists-link :
    (s : HashSet) (e x : Bytes)
    → blob_set_exists (link s e) x ≡ (bytes_eq e x || blob_set_exists s x)
unfolding elem
exists-link s e x =
    rw (exists-elem, exists-elem, chain-link)
      (elim (Bool-cases (slot s e == slot s x)) [
        | inl same ↦ rw same
        | inr other ↦ rw (other, bytes_eq_of_slot_ne s e x other)
      ])

exists_of_bytes_eq :
    (s : HashSet) (e x : Bytes)
    → blob_set_exists s e ≡ true
    → (bytes_eq e x || blob_set_exists s x) ≡ blob_set_exists s x
exists_of_bytes_eq s e x old = elim (Bool-cases (bytes_eq e x)) [
  | inl same ↦ cc (old, same, ap (blob_set_exists s) ((bytes_eq_iff e x).0 same))
  | inr differ ↦ rw differ
]

-- After a put outside a traversal the set is the old one with the element.
pub exists-put :
    (s : HashSet) (e x : Bytes)
    → s.for_each_level ≡ 0
    → blob_set_exists (blob_set_put s e).0 x ≡ (bytes_eq e x || blob_set_exists s x)
unfolding blob_set_put
exists-put s e x idle = elim (Bool-cases (blob_set_exists s e)) [
  | inl old ↦ ground (arith, old, exists_of_bytes_eq s e x old)
  | inr new ↦ ground (arith, new, exists-link s e x)
]

pub put_fresh :
    (s : HashSet) (e : Bytes)
    → s.for_each_level ≡ 0
    → blob_set_exists s e ≡ false
    → blob_set_put s e ≡ (link s e, added)
unfolding blob_set_put
put_fresh s e idle fresh = ground arith

pub put_again :
    (s : HashSet) (e : Bytes)
    → s.for_each_level ≡ 0
    → blob_set_exists s e ≡ true
    → blob_set_put s e ≡ (s, already_exists)
unfolding blob_set_put
put_again s e idle old = ground arith

pub for_each_level-link : (s : HashSet) (e : Bytes) → (link s e).for_each_level ≡ s.for_each_level
unfolding link
for_each_level-link s e = refl

pub put_idle :
    (s : HashSet) (e : Bytes) → s.for_each_level ≡ 0 → (blob_set_put s e).0.for_each_level ≡ 0
unfolding blob_set_put link
put_idle s e idle = ground arith

pub alloc_idle : blob_set_alloc.for_each_level ≡ 0
unfolding blob_set_alloc
alloc_idle = refl
