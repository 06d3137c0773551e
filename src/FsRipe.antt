-- ===== src/FsRipe.antt =====
-- The digest modules bc160 and btc20: bio4d/fs_bc160.c and bio4d/fs_btc20.c, which differ in their
-- constants, in `is_digest` and in the digest. What they share with bio4d/fs_sha.c is FsSha, on their
-- `Storage`.
pub mod Bc160
pub mod Btc20
pub mod Trust
pub mod Runs
pub mod Laws
pub mod Eaten
pub mod Served
use blobio.Base.{
  ℕ, Bool, true, false, Option, none, some, List, [], ◌∷◌, ◌++◌, Bytes, codes, length, take, ltb,
  if◌then◌else◌, bytes_eq,
}
use blobio.Chat
use blobio.Chat.{Request, Status, success, error, panic, req_write}
use blobio.FsSha
use blobio.FsSha.Disk.{Files, lookup}
use blobio.FsSha.Paths.{make_path, decode_hex}
use blobio.FsSha.Hashes.{Hash, Storage}
use blobio.FsSha.{chunks, get_request, chew}
use blobio.FsSha.Copy
use blobio.FsSha.Copy.{Copy, not_found, write_failed, copied, mismatched}

-- The loop that `|=`s forty digits into twenty bytes.
unfoldable pub nib2digest : Bytes → Bytes
unfolding decode_hex
nib2digest hex_digest = decode_hex (take 40 hex_digest)

abbrev zeros20 : Bytes
zeros20 = 0 ∷ 0 ∷ 0 ∷ 0 ∷ 0 ∷ 0 ∷ 0 ∷ 0 ∷ 0 ∷ 0 ∷ 0 ∷ 0 ∷ 0 ∷ 0 ∷ 0 ∷ 0 ∷ 0 ∷ 0 ∷ 0 ∷ 0 ∷ []

-- The twenty bytes of the request, of which the other functions speak. A `wrap` has no digest yet.
unfoldable pub open_request : Bytes → Bytes → Bytes
unfolding nib2digest
open_request verb hex_digest =
    if bytes_eq verb (codes "wrap") then zeros20 else nib2digest hex_digest

-- `if (blob_write(...)) goto croak`
abbrev pub unless_croak : Request × Status → (Request → Request × Status) → Request × Status
unless_croak (r, success) next = next r
unless_croak (r, s) next = (r, s)

-- The loop of the trusted get, which takes no digest.
unfoldable pub send_trusted : List Bytes → Request → Request × Status
unfolding req_write
send_trusted [] r = (r, success)
send_trusted (chunk ∷ cs) r = unless_croak (req_write r chunk) (send_trusted cs)

-- The loop of the trusted copy. The list says of each write whether it works; where it ends, they do.
unfoldable pub copy_trusted : List Bytes → Bytes → List Bool → Bytes × Copy
copy_trusted [] out writes = (out, copied)
copy_trusted (chunk ∷ cs) out [] = copy_trusted cs (out ++ chunk) []
copy_trusted (chunk ∷ cs) out (true ∷ writes) = copy_trusted cs (out ++ chunk) writes
copy_trusted (chunk ∷ cs) out (false ∷ writes) = (out, write_failed)

-- The results 0 and 1 of an eat, its panic, and a write behind the array of a digest.
pub data Eat : Type 0 where
  eaten not_there is_corrupt overrun : Eat

module _ (s : Storage) where
  unfoldable pub get_trusted_bytes : Bytes → Request → Request × Status
  unfolding send_trusted chunks
  get_trusted_bytes file r = send_trusted (chunks (length file) file) r

  -- `trust` is `trust_fs == 1`.
  unfoldable pub get_bytes : Bool → Bytes → Bytes → Files → Request → Files × Request × Status
  unfolding get_trusted_bytes FsSha.get_bytes
  get_bytes trust digest file fs r =
      let (r', status) = get_trusted_bytes file r in
      if trust then (fs, r', status) else FsSha.get_bytes s digest file fs r

  unfoldable pub copy_trusted_opened : List Bool → Option Bytes → Bytes × Copy
  unfolding copy_trusted chunks
  copy_trusted_opened writes none = ([], not_found)
  copy_trusted_opened writes (some file) = copy_trusted (chunks (length file) file) [] writes

  unfoldable pub copy : Bool → Bytes → Files → List Bool → Bytes × Copy
  unfolding copy_trusted_opened get_request Copy.copy
  copy trust digest fs writes =
      if trust
      then copy_trusted_opened writes (get_request s digest fs)
      else Copy.copy s digest fs writes

  -- `stat` of the file of the blob.
  unfoldable pub eat_trusted : Option Bytes → Eat
  eat_trusted none = not_there
  eat_trusted (some file) = eaten

  -- `sha_digest` is an array of `size` bytes; what follows a write behind it is not defined.
  unfoldable pub eat_opened : ℕ → (Storage.Context s → Bytes) → Bytes → Option Bytes → Eat
  unfolding chew chunks decode_hex
  eat_opened size sha_digest digest none = not_there
  eat_opened size sha_digest digest (some file) =
      let ctx = chew s (chunks (length file) file) s.init in
      if ltb size (length (sha_digest ctx))
      then overrun
      else if bytes_eq (decode_hex digest) (s.final ctx)
      then eaten
      else is_corrupt

  unfoldable pub eat : ℕ → (Storage.Context s → Bytes) → Bool → Bytes → Files → Eat
  unfolding eat_trusted eat_opened get_request
  eat size sha_digest trust digest fs =
      if trust
      then eat_trusted (get_request s digest fs)
      else eat_opened size sha_digest digest (get_request s digest fs)
