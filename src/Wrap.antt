-- ===== src/Wrap.antt =====
-- The verbs wrap and roll: `extract_wrap_udig`, `roll`, `put_wrap_set` and `wrap` of bio4d/brr.c, on
pub mod Logs
pub mod Rolled
pub mod Sets
pub mod Cycle
-- the directory spool/wrap/ of frozen logs.
use blobio.Base.{
  ℕ, ◌+◌, ◌-◌, Bool, true, false, not, ◌||◌, Option, none, some, List, [], ◌∷◌, ◌++◌, Bytes, codes,
  length, take, drop, ltb, leb, ◌==◌, if◌then◌else◌, bytes_eq,
}
use blobio.BlobSet.{HashSet, blob_set_exists}
use blobio.UdigSet.{
  Error, impossible_empty_blob, unexpected_state, put_panic, Parsed, parsed, refused, blob2udig_set,
}
use blobio.Chat.{Request, Status, success, error, panic, write_ok, write_no, req_write}
use blobio.Verbs.{DigestModule, branch, return_ok, return_error, set_verb, status_wrap, status_roll}

-- One call of `io_readdir`: `d_name`, and whether `d_type` is `DT_REG`.
pub record Entry : Type 0 where
  pub name : Bytes
  pub is_regular : Bool

abbrev pub max_udig_size : ℕ
max_udig_size = 137

-- `strchr(name, ':')`: what stands before the colon and behind it.
unfoldable pub at_colon : Bytes → Option (Bytes × Bytes)
at_colon [] = none
at_colon (c ∷ cs) =
    let rest = at_colon cs in
    if c == b':' then some ([], cs) else elim rest [ none ↦ none | some (a, d) ↦ some (c ∷ a, d) ]

is_brr_name : Bytes → Bool
unfolding bytes_eq
is_brr_name name =
    let len = length name in
    if ltb len 4 || leb (max_udig_size + 4) len
    then false
    else bytes_eq (drop (len - 4) name) (codes ".brr")

-- The call of `is_digest` on what stands behind the colon.
checked : Option DigestModule → Bytes → Bytes → Option Bytes
checked none digest udig = none
checked (some mp) digest udig = if ltb 0 (mp.is_digest digest) then some udig else none

abbrev skip_dots : Bytes → Bool
skip_dots name = bytes_eq (codes ".") name || bytes_eq (codes "..") name

pub is_panic : Error → Bool
is_panic impossible_empty_blob = true
is_panic unexpected_state = true
is_panic put_panic = true
is_panic _ = false

abbrev pub wrap_dir : Bytes
wrap_dir = codes "spool/wrap/"

-- `io_unlink`; a file that is not there is no error.
unfoldable pub unlink : Bytes → List Entry → List Entry
unfolding bytes_eq
unlink path [] = []
unlink path (e ∷ dir) =
    let rest = unlink path dir in if bytes_eq (wrap_dir ++ e.name) path then rest else e ∷ rest

-- What `copy` of a module returns.
pub data CopyStatus : Type 0 where
  copied not_found copy_failed : CopyStatus

roll_no : Request → List Entry → Request × Status × List Entry
unfolding branch return_error
roll_no r dir = let (r', s) = branch (write_no r) return_error return_error in (r', s, dir)

roll_ok : Request → List Entry → Request × Status × List Entry
roll_ok r dir = let (r', s) = write_ok r in (r', s, dir)

put_wrap_set : Bytes → Bytes → Bytes
put_wrap_set set udig = (set ++ udig) ++ codes "\n"

-- `io_rename` to a path in the directory, whose file of that name it replaces.
unfoldable pub rename : Bytes → List Entry → List Entry
unfolding unlink
rename path dir = record { name = drop (length wrap_dir) path; is_regular = true } ∷ unlink path dir

-- The request and the directory after a wrap, and the set that was digested.
pub record Wrapped : Type 0 where
  pub request : Request
  pub status : Status
  pub dir : List Entry
  pub set : Bytes

-- `module_get` of bio4d/module.c finds a module by its name, and `jmscott_strcat` of libjmscott
-- appends strings to a string in a buffer of so many bytes.
module _ (module_get : Bytes → Option DigestModule) (strcat : ℕ → Bytes → List Bytes → Bytes) where
  by_module : Option (Bytes × Bytes) → Bytes → Option Bytes
  unfolding checked
  by_module none udig = none
  by_module (some (algorithm, behind)) udig =
      if ltb 8 (length algorithm)
      then none
      else checked (module_get algorithm) (drop (length algorithm + 1) udig) udig

  unfoldable pub extract_wrap_udig : Bytes → Option Bytes
  unfolding at_colon is_brr_name by_module
  extract_wrap_udig name =
      if is_brr_name name then by_module (at_colon name) (take (length name - 4) name) else none

  roll_log : HashSet → Bytes → Option Bytes → List Entry → List Entry
  unfolding unlink
  roll_log uset name none dir = dir
  roll_log uset name (some udig) dir =
      if blob_set_exists uset udig then unlink (strcat 256 [] (wrap_dir ∷ name ∷ [])) dir else dir

  roll_entry : HashSet → Entry → List Entry → List Entry
  unfolding extract_wrap_udig roll_log
  roll_entry uset e dir =
      if skip_dots e.name
      then dir
      else if not e.is_regular
      then dir
      else roll_log uset e.name (extract_wrap_udig e.name) dir

  pub roll_entries : HashSet → List Entry → List Entry → List Entry
  unfolding roll_entry
  roll_entries uset [] dir = dir
  roll_entries uset (e ∷ es) dir = roll_entries uset es (roll_entry uset e dir)

  roll_set :
      Request → List Entry → List Entry → Parsed (HashSet × HashSet) → Request × Status × List Entry
  unfolding roll_entries roll_no roll_ok is_panic
  roll_set r listing dir (parsed (uset, aset)) = roll_ok r (roll_entries uset listing dir)
  roll_set r listing dir (refused why) = if is_panic why then (r, panic, dir) else roll_no r dir

  -- What was copied into the temporary file.
  roll_copied :
      Request × CopyStatus × Bytes → List Entry → List Entry → Request × Status × List Entry
  unfolding roll_set roll_no roll_ok
  roll_copied (r, not_found, blob) listing dir = roll_no r dir
  roll_copied (r, _, []) listing dir = roll_ok r dir
  roll_copied (r, _, b ∷ blob) listing dir = roll_set r listing dir (blob2udig_set (b ∷ blob))

  -- `copy` is that of the module, `listing` what `io_readdir` returns, and `dir` the directory.
  unfoldable pub roll :
      (Request → Request × CopyStatus × Bytes)
      → List Entry
      → List Entry
      → Request
      → Request × Status × List Entry
  unfolding set_verb roll_copied
  roll copy listing dir r = roll_copied (copy (set_verb status_roll r)) listing dir

  wrap_log : Bytes → Bytes → Option Bytes → Bytes
  unfolding put_wrap_set
  wrap_log frozen set none = set
  wrap_log frozen set (some udig) = if bytes_eq udig frozen then set else put_wrap_set set udig

  wrap_entry : Bytes → Bytes → Entry → Bytes
  unfolding extract_wrap_udig wrap_log
  wrap_entry frozen set e =
      if skip_dots e.name
      then set
      else if not e.is_regular
      then set
      else wrap_log frozen set (extract_wrap_udig e.name)

  pub wrap_set : Bytes → Bytes → List Entry → Bytes
  unfolding wrap_entry
  wrap_set frozen set [] = set
  wrap_set frozen set (e ∷ es) = wrap_set frozen (wrap_entry frozen set e) es

  -- What the logger process and the module deliver: the digest of a stream, which may fail.
  -- The second digest is the client's answer, and names the set.
  wrap_answer : Request → List Entry → Bytes → Bytes → Option Bytes → Wrapped
  unfolding branch return_ok return_error
  wrap_answer r dir set name none = record { request = r; status = panic; dir = dir; set = set }
  wrap_answer r dir set name (some digest) =
      let wrap_set_udig = strcat 139 [] (name ∷ codes ":" ∷ []) ++ digest in
      let (r', s) =
        branch (write_ok r)
          (λ r1.
            branch (req_write r1 (strcat 139 wrap_set_udig (codes "\n" ∷ []))) return_ok
              return_error)
          return_error in
      record { request = r'; status = s; dir = dir; set = set }

  -- The frozen log, named by its digest, is moved into the directory; `listing` is what `io_readdir`
  -- then returns of it.
  wrap_frozen :
      (Bytes → Option Bytes)
      → Bytes
      → Request
      → (List Entry → List Entry)
      → List Entry
      → Option Bytes
      → Wrapped
  unfolding unlink wrap_set wrap_answer put_wrap_set
  wrap_frozen digest name r listing dir none = record {
    request = r;
    status = panic;
    dir = dir;
    set = [];
  }
  wrap_frozen digest name r listing dir (some d) =
      let frozen_udig = strcat 138 [] (name ∷ codes ":" ∷ []) ++ d in
      let wrap_path = strcat 153 [] (wrap_dir ∷ frozen_udig ∷ codes ".brr" ∷ []) in
      let dir' = rename wrap_path dir in
      let set = wrap_set frozen_udig (put_wrap_set [] frozen_udig) (listing dir') in
      wrap_answer r dir' set name (digest set)

  -- `frozen` is the content of the log that the logger froze.
  unfoldable pub wrap :
      (Bytes → Option Bytes)
      → Bytes
      → Bytes
      → Request
      → (List Entry → List Entry)
      → List Entry
      → Wrapped
  unfolding set_verb wrap_frozen
  wrap digest name frozen r listing dir =
      wrap_frozen digest name (set_verb status_wrap r) listing dir (digest frozen)
