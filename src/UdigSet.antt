-- ===== src/UdigSet.antt =====
-- The parser of a rolled udig set: `blob2udig_set` of bio4d/brr.c.
pub mod Lines
pub mod Sets
pub mod Sound
pub mod Total
use blobio.Base.{
  ℕ, ◌+◌, ◌-◌, Bool, true, false, ◌&&◌, List, [], ◌∷◌, ◌++◌, Bytes, length, take, ltb, leb, ◌==◌,
  if◌then◌else◌, is_graph,
}
use blobio.BlobSet.{HashSet, blob_set_alloc, blob_set_put, Put, added, already_exists, panicked}

abbrev pub max_digest_size : ℕ
max_digest_size = 128

abbrev pub max_algorithm_size : ℕ
max_algorithm_size = 8

-- The messages of the errors that reach `croak`, each with its line, and the panics.
pub data Error : Type 0 where
  last_not_newline duplicate_udig : Error
  empty_udig unexpected_colon first_not_lower non_graphic algorithm_too_long : ℕ → Error
  non_graphic_algorithm digest_too_long non_graphic_digest : ℕ → Error
  impossible_empty_blob unexpected_state put_panic : Error

pub data Parsed {ℓ} (A : Type ℓ) : Type ℓ where
  refused : Error → Parsed A
  parsed : A → Parsed A

infixl 5 ◌>>=◌
abbrev pub ◌>>=◌ {ℓ κ} : {A : Type ℓ} {B : Type κ} → Parsed A → (A → Parsed B) → Parsed B
refused why >>= next = refused why
parsed p >>= next = next p

-- `PUT_UDIG` is entered with `b` moved back to the null that replaced the newline, and the next
-- round reads that null.
pub data State : Type 0 where
  new_udig in_algorithm in_digest : State

-- `udig` holds the bytes from `udig_start` up to `b`, so its length is `b - udig_start`;
-- `digest_start` is counted from `udig_start` too.
pub record Scan : Type 0 where
  pub state : State
  pub udig : Bytes
  pub digest_start : ℕ
  pub line_count : ℕ
  pub uset : HashSet
  pub aset : HashSet

abbrev pub initial : Scan
initial = record {
  state = new_udig;
  udig = [];
  digest_start = 0;
  line_count = 1;
  uset = blob_set_alloc;
  aset = blob_set_alloc;
}

step_new_udig : Scan → ℕ → Parsed Scan
step_new_udig p c =
    if c == b'\n'
    then refused (empty_udig p.line_count)
    else if c == b':'
    then refused (unexpected_colon p.line_count)
    else if leb b'a' c && ltb c b'z'
    then parsed (record p { udig = c ∷ []; state = in_algorithm })
    else if is_graph c
    then refused (first_not_lower p.line_count)
    else refused (non_graphic p.line_count)

step_in_algorithm : Scan → ℕ → Parsed Scan
step_in_algorithm p c =
    let udig = p.udig ++ c ∷ [] in
    if ltb max_algorithm_size (length udig)
    then refused (algorithm_too_long p.line_count)
    else if c == b':'
    then parsed (record p { udig = udig; state = in_digest; digest_start = length udig + 1 })
    else if is_graph c
    then parsed (record p { udig = udig })
    else refused (non_graphic_algorithm p.line_count)

-- what `blob_set_put(uset, …)` answered
put_status : Scan → HashSet × Put → Parsed Scan
put_status p (uset, already_exists) = refused duplicate_udig
put_status p (uset, panicked) = refused put_panic
put_status p (uset, added) = parsed (record p {
  uset = uset;
  aset = (blob_set_put p.aset (take (p.digest_start - 2) p.udig)).0;
  state = new_udig;
})

pub put_udig : Scan → Parsed Scan
unfolding put_status
put_udig p = put_status p (blob_set_put p.uset p.udig)

step_in_digest : Scan → ℕ → Parsed Scan
step_in_digest p c =
    if ltb max_digest_size p.digest_start
    then refused (digest_too_long p.line_count)
    else if c == b'\n'
    then put_udig (record p { line_count = p.line_count + 1 })
    else if is_graph c
    then parsed (record p { udig = p.udig ++ c ∷ [] })
    else refused (non_graphic_digest p.line_count)

pub step_in : State → Scan → ℕ → Parsed Scan
unfolding step_new_udig step_in_algorithm step_in_digest
step_in new_udig p c = step_new_udig p c
step_in in_algorithm p c = step_in_algorithm p c
step_in in_digest p c = step_in_digest p c

-- `if (state != NEW_UDIG) panic3(…)`
pub finish : State → Scan → Parsed (HashSet × HashSet)
finish new_udig p = parsed (p.uset, p.aset)
finish _ p = refused unexpected_state

pub scan : Scan → Bytes → Parsed (HashSet × HashSet)
unfolding step_in finish
scan p [] = finish p.state p
scan p (c ∷ cs) = step_in p.state p c >>= λ q. scan q cs

pub last_is_newline : Bytes → Bool
last_is_newline [] = false
last_is_newline (c ∷ []) = c == b'\n'
last_is_newline (c ∷ d ∷ cs) = last_is_newline (d ∷ cs)

-- The sets of the udigs and of their algorithms.
unfoldable pub blob2udig_set : Bytes → Parsed (HashSet × HashSet)
unfolding scan last_is_newline put_udig
blob2udig_set [] = refused impossible_empty_blob
blob2udig_set blob = if last_is_newline blob then scan initial blob else refused last_not_newline
