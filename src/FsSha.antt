-- ===== src/FsSha.antt =====
-- The digest module sha: bio4d/fs_sha.c, with decode_hex of bio4d/req.c. The blobs are the files under
-- data/fs_sha; a file system is the list of its paths, each with the bytes of its file.
pub mod Disk
pub mod Paths
pub mod Hashes
pub mod Kept
pub mod Stored
pub mod Sent
pub mod Received
pub mod PutGet
pub mod Copy
pub mod Runs
pub mod Found
use blobio.Base.{
  ℕ, zero, suc, ◌+◌, ◌-◌, ◌*◌, ◌%◌, Bool, true, false, not, ◌&&◌, ◌||◌, Option, none, some, List,
  [], ◌∷◌, ◌++◌, Bytes, codes, length, take, drop, ltb, leb, ◌==◌, if◌then◌else◌, bytes_eq,
}
use blobio.Chat
use blobio.Chat.{Request, Status, success, error, panic, req_write}
use blobio.FsSha.Disk.{Files, lookup, unlink, rename}
use blobio.FsSha.Paths.{make_path, decode_hex, fs_sha_root, empty_ascii, is_digest}
use blobio.FsSha.Hashes.{Hash, Storage}
use blobio.Udig.{dig2hex40}

-- The module sha, whose digest is SHA1.
abbrev pub fs_sha : Hash → Storage
fs_sha sha1 = record {
  root = fs_sha_root;
  empty_ascii = empty_ascii;
  keeps_refused = false;
  is_digest = is_digest;
  Context = Hash.Context sha1;
  init = sha1.init;
  update = sha1.update;
  final = sha1.final;
}

abbrev pub chunk_size : ℕ
chunk_size = 4 * 1024

-- What `_read` gives in turn on a file: the chunk is filled, unless the file ends. A chunk takes at
-- least one byte, so as many rounds as there are bytes are enough.
unfoldable pub chunks : ℕ → Bytes → List Bytes
chunks zero file = []
chunks (suc n) [] = []
chunks (suc n) (c ∷ file) = take chunk_size (c ∷ file) ∷ chunks n (drop chunk_size (c ∷ file))

-- `none` is ENOENT. The descriptor stands for the bytes of the file, which stay when it is unlinked.
unfoldable pub get_request : Storage → Bytes → Files → Option Bytes
unfolding lookup make_path
get_request s digest files = lookup (make_path s.root digest) files

-- `if (blob_write(...)) goto croak`
abbrev pub after_write {ℓ} :
    {A : Type ℓ}
    → Request × Status
    → (Request → Request × Option A × Status)
    → Request × Option A × Status
after_write (r, success) next = next r
after_write (r, s) next = (r, none, s)

-- An open with O_EXCL and O_CREAT, which fails where the file exists.
abbrev pub unless_there {ℓ} : {A : Type ℓ} → Option Bytes → A → A → A
unless_there none there next = next
unless_there (some file) there next = there

-- How the stream of `fs_sha_put_bytes` ends, with the bytes of the temporary file: at `digested`, at
-- `croak`, or in a panic that has unlinked the file.
pub data Stream : Type 0 where
  digested croak : Bytes → Stream
  scan_refused : Stream

module _ (s : Storage) where
  -- The loop of `fs_sha_get_bytes`, with the context after it. The size that `blob_write` counts is
  -- left out.
  unfoldable pub send_chunks :
      List Bytes → Storage.Context s → Request → Request × Option (Storage.Context s) × Status
  unfolding req_write
  send_chunks [] ctx r = (r, some ctx, success)
  send_chunks (chunk ∷ cs) ctx r =
      after_write (req_write r chunk) (send_chunks cs (s.update ctx chunk))

  -- Behind the loop: where the digest does not match, the blob is zapped and the process panics.
  unfoldable pub after_send :
      Bytes → Files → Request × Option (Storage.Context s) × Status → Files × Request × Status
  unfolding make_path decode_hex unlink
  after_send digest fs (r, some ctx, success) =
      if bytes_eq (decode_hex digest) (s.final ctx)
      then (fs, r, success)
      else (unlink (make_path s.root digest) fs, r, panic)
  after_send digest fs (r, ctx, s) = (fs, r, s)

  -- `fs_sha_get_bytes`, on the file that `fs_sha_get_request` opened.
  unfoldable pub get_bytes : Bytes → Bytes → Files → Request → Files × Request × Status
  unfolding chunks send_chunks after_send
  get_bytes digest file fs r =
      after_send digest fs (send_chunks (chunks (length file) file) s.init r)

  unfoldable pub chew : List Bytes → Storage.Context s → Storage.Context s
  chew [] ctx = ctx
  chew (chunk ∷ cs) ctx = chew cs (s.update ctx chunk)

  unfoldable pub check_opened : Bytes → Option Bytes → Status
  unfolding chew chunks decode_hex
  check_opened digest none = error
  check_opened digest (some file) =
      let found = s.final (chew (chunks (length file) file) s.init) in
      if bytes_eq (decode_hex digest) found then success else panic

  -- `fs_sha_eat`
  unfoldable pub eat : Bytes → Files → Status
  unfolding check_opened get_request
  eat digest fs = check_opened digest (get_request s digest fs)

  -- Reads of the client from `again`, with the bytes that the temporary file holds so far: what it holds
  -- in the end, and whether the digest matched; it did not where `blob_read` failed or gave nothing. The
  -- chunk buffer bounds what one read may give.
  unfoldable pub put_chunks : Bytes → Storage.Context s → Bytes → List Chat.Read → Bytes × Bool
  unfolding decode_hex
  put_chunks digest ctx tmp (Chat.bytes (c ∷ cs) ∷ reads) =
      let ctx' = s.update ctx (c ∷ cs) in
      let tmp' = tmp ++ c ∷ cs in
      let rest = put_chunks digest ctx' tmp' reads in
      if bytes_eq (decode_hex digest) (s.final ctx') then (tmp', true) else rest
  put_chunks digest ctx tmp reads = (tmp, false)

  abbrev pub at_label : Bytes × Bool → Stream
  at_label (tmp, true) = digested tmp
  at_label (tmp, false) = croak tmp

  unfoldable pub put_stream : Bytes → Bytes → ℕ → List Chat.Read → Stream
  unfolding put_chunks decode_hex
  put_stream digest scan blob_size reads =
      let ctx = s.update s.init scan in
      if bytes_eq digest s.empty_ascii
      then digested []
      else if not (ltb 0 (length scan))
      then at_label (put_chunks digest s.init [] reads)
      else if not (length scan == blob_size) || ltb (chunk_size - 1) (length scan)
      then scan_refused
      else if bytes_eq (decode_hex digest) (s.final ctx)
      then digested scan
      else at_label (put_chunks digest ctx scan reads)

  -- From `digested` or `croak` to the end: the arborist renames the file, and `_unlink` lets ENOENT pass.
  unfoldable pub put_end : Bytes → Bytes → Files → Stream → Files × Status
  unfolding make_path rename unlink
  put_end digest tmp_path fs (digested tmp) =
      (unlink tmp_path (rename tmp_path (make_path s.root digest) ((tmp_path, tmp) ∷ fs)), success)
  put_end digest tmp_path fs (croak tmp) = (unlink tmp_path ((tmp_path, tmp) ∷ fs), error)
  put_end digest tmp_path fs scan_refused =
      let made = (tmp_path, []) ∷ fs in
      (if s.keeps_refused then made else unlink tmp_path made, panic)

  -- `fs_sha_put_bytes`, which panics where the temporary file exists.
  unfoldable pub put_bytes : Bytes → Bytes → ℕ → List Chat.Read → Bytes → Files → Files × Status
  unfolding put_stream put_end lookup
  put_bytes digest scan blob_size reads tmp_path fs =
      unless_there (lookup tmp_path fs) (fs, panic)
        (put_end digest tmp_path fs (put_stream digest scan blob_size reads))

  -- The loop of `fs_sha_digest` over a local stream.
  unfoldable pub digest_chunks :
      Storage.Context s → Bytes → List Chat.Read → Option (Storage.Context s × Bytes)
  digest_chunks ctx tmp [] = some (ctx, tmp)
  digest_chunks ctx tmp (Chat.end_of_file ∷ reads) = some (ctx, tmp)
  digest_chunks ctx tmp (Chat.failed ∷ reads) = none
  digest_chunks ctx tmp (Chat.bytes [] ∷ reads) = some (ctx, tmp)
  digest_chunks ctx tmp (Chat.bytes (c ∷ cs) ∷ reads) =
      digest_chunks (s.update ctx (c ∷ cs)) (tmp ++ c ∷ cs) reads

  unfoldable pub digest_end :
      Bytes → Files → Option (Storage.Context s × Bytes) → Files × Bytes × Status
  unfolding make_path rename unlink dig2hex40
  digest_end tmp_path fs none = (unlink tmp_path ((tmp_path, []) ∷ fs), [], error)
  digest_end tmp_path fs (some (ctx, tmp)) =
      let hex_digest = dig2hex40 (s.final ctx) in
      (rename tmp_path (make_path s.root hex_digest) ((tmp_path, tmp) ∷ fs), hex_digest, success)

  -- `fs_sha_digest`, with the digest that it writes into `hex_digest`. The loop that spells it is the one
  -- of `dig2hex40`.
  unfoldable pub digest_stream : List Chat.Read → Bytes → Files → Files × Bytes × Status
  unfolding digest_chunks digest_end lookup
  digest_stream reads tmp_path fs =
      unless_there (lookup tmp_path fs) (fs, [], panic)
        (digest_end tmp_path fs (digest_chunks s.init [] reads))

-- `fs_sha_take_reply`: a reply that begins with an o deletes the blob. That the arborist removes empty
-- directories leaves the files as they are.
unfoldable pub take_reply : Storage → Bytes → Bytes → Files → Files × Status
unfolding make_path unlink
take_reply s digest reply fs =
    if Chat.at reply 0 == b'o'
    then (unlink (make_path s.root digest) fs, success)
    else (fs, success)
