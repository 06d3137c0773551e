-- ===== src/BlobSet.antt =====
-- The set of small blobs in memory of bio4d/blob_set.c: a hash table with chains.
pub mod Membership
pub mod Traversal
use blobio.Base.{
  ℕ, zero, suc, ◌+◌, ◌-◌, ◌*◌, ◌%◌, ◌^◌, Bool, true, false, ◌&&◌, List, [], ◌∷◌, Bytes, length, ltb,
  ◌==◌, if◌then◌else◌,
}

-- `HASH_TABLE_SIZE`
abbrev pub hash_table_size : ℕ
hash_table_size = 99991

-- The loop of `djb`: `unsigned int` wraps at 2^32.
djb_from : ℕ → Bytes → ℕ
djb_from hash [] = hash
djb_from hash (p ∷ buf) = djb_from ((hash * 32 % 2 ^ 32 + hash + p) % 2 ^ 32) buf

unfoldable pub djb : Bytes → ℕ
unfolding djb_from
djb buf = djb_from 5381 buf

-- `struct hash_set`. A chain is the list of its elements' values, the newest first; the field
-- `size` of an element is the length of its value.
pub record HashSet : Type 0 where
  pub size : ℕ
  pub table : ℕ → List Bytes
  pub for_each_level : ℕ

unfoldable pub blob_set_alloc : HashSet
blob_set_alloc = record { size = hash_table_size; table = λ i. []; for_each_level = 0 }

-- `memcmp(a, b, n) == 0`
memcmp_eq : ℕ → Bytes → Bytes → Bool
memcmp_eq zero a b = true
memcmp_eq (suc n) (x ∷ a) (y ∷ b) = x == y && memcmp_eq n a b
memcmp_eq (suc n) _ _ = false

-- The walk down a chain.
chain_exists : List Bytes → Bytes → Bool
unfolding memcmp_eq
chain_exists [] element = false
chain_exists (v ∷ next) element =
    let rest = chain_exists next element in
    if length element == length v && memcmp_eq (length element) v element then true else rest

-- The slot of an element.
unfoldable pub slot : HashSet → Bytes → ℕ
unfolding djb
slot s element = djb element % s.size

unfoldable pub blob_set_exists : HashSet → Bytes → Bool
unfolding slot chain_exists
blob_set_exists s element = chain_exists (s.table (slot s element)) element

-- 0, 1, and the panic of a put inside a traversal
pub data Put : Type 0 where
  added already_exists panicked : Put

abbrev update : (ℕ → List Bytes) → ℕ → List Bytes → ℕ → List Bytes
update table i chain j = if i == j then chain else table j

-- The new element in front of its chain.
unfoldable pub link : HashSet → Bytes → HashSet
unfolding slot
link s element = record s {
  table = update s.table (slot s element) (element ∷ s.table (slot s element));
}

unfoldable pub blob_set_put : HashSet → Bytes → HashSet × Put
blob_set_put s element =
    if ltb 0 s.for_each_level
    then (s, panicked)
    else if blob_set_exists s element
    then (s, already_exists)
    else (link s element, added)

-- The callback sees the set, has a context as its state, and ends the traversal by a status other
-- than 0.
module _ {ℓ} {S : Type ℓ} (each_callback : Bytes → S → S × ℕ) where
  for_each_chain : List Bytes → S → S × ℕ
  for_each_chain [] context = (context, 0)
  for_each_chain (e ∷ next) context =
      let (context', status) = each_callback e context in
      let rest = for_each_chain next context' in if status == 0 then rest else (context', status)

  -- `n` slots are left, from slot `i`
  for_each_slot : ℕ → ℕ → (ℕ → List Bytes) → S → S × ℕ
  for_each_slot zero i table context = (context, 0)
  for_each_slot (suc n) i table context =
      let (context', status) = for_each_chain (table i) context in
      let rest = for_each_slot n (i + 1) table context' in
      if status == 0 then rest else (context', status)

-- The level is raised during the calls and lowered on both ways out.
module _ {ℓ} {S : Type ℓ} (each_callback : HashSet → Bytes → S → S × ℕ) where
  pub blob_set_for_each : HashSet → S → HashSet × S × ℕ
  unfolding for_each_slot for_each_chain
  blob_set_for_each s context =
      let raised = record s { for_each_level = s.for_each_level + 1 } in
      let (context', status) = for_each_slot (each_callback raised) s.size 0 s.table context in
      (record raised { for_each_level = raised.for_each_level - 1 }, context', status)
