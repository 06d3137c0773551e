-- ===== src/FsSha/Copy.antt =====
-- `fs_sha_copy` of bio4d/fs_sha.c, which writes a blob to a local stream, and what it writes.
use blobio.FsSha.Hashes.{IsStorage, Storage, digest_of}
use blobio.Base.{
  ◌≡◌, refl, ◌∙◌, Bool, true, false, Option, none, some, List, [], ◌∷◌, ◌++◌, Bytes, length,
  if◌then◌else◌, bytes_eq, append_assoc, append-nil, arith,
}
use blobio.FsSha.Disk.{Files}
use blobio.FsSha.Paths.{decode_hex}
use blobio.FsSha.{chunks, get_request}
use blobio.FsSha.Sent.{joined, chunks-joined}

-- The results 1, -1 and 0, and the panic where the digest does not match.
pub data Copy : Type 0 where
  not_found write_failed copied mismatched : Copy

module _ (s : Storage) where
  -- The list says of each write whether it works; where it ends, they do.
  unfoldable pub copy_chunks :
      List Bytes → Storage.Context s → Bytes → List Bool → Bytes × Option (Storage.Context s)
  copy_chunks [] ctx out writes = (out, some ctx)
  copy_chunks (chunk ∷ cs) ctx out [] = copy_chunks cs (s.update ctx chunk) (out ++ chunk) []
  copy_chunks (chunk ∷ cs) ctx out (true ∷ writes) =
      copy_chunks cs (s.update ctx chunk) (out ++ chunk) writes
  copy_chunks (chunk ∷ cs) ctx out (false ∷ writes) = (out, none)

  unfoldable pub copy_end : Bytes → Bytes × Option (Storage.Context s) → Bytes × Copy
  unfolding decode_hex
  copy_end digest (out, none) = (out, write_failed)
  copy_end digest (out, some ctx) =
      if bytes_eq (decode_hex digest) (s.final ctx) then (out, copied) else (out, mismatched)

  unfoldable pub copy_opened : Bytes → List Bool → Option Bytes → Bytes × Copy
  unfolding copy_end copy_chunks chunks
  copy_opened digest writes none = ([], not_found)
  copy_opened digest writes (some file) =
      copy_end digest (copy_chunks (chunks (length file) file) s.init [] writes)

  unfoldable pub copy : Bytes → Files → List Bool → Bytes × Copy
  unfolding copy_opened get_request
  copy digest fs writes = copy_opened digest writes (get_request s digest fs)

if_pair :
    (b : Bool) (file : Bytes)
    → Path
        (Bytes × Copy)
        (if b then (file, copied) else (file, mismatched))
        (file, (if b then copied else mismatched))
if_pair true file = refl
if_pair false file = refl

module _ (s : Storage) (law : IsStorage s) where
  copy_chunks-joined :
      (cs : List Bytes) (ctx : Storage.Context s) (out : Bytes)
      → copy_chunks s cs ctx out [] ≡ (out ++ joined cs, some (s.update ctx (joined cs)))
  unfolding copy_chunks joined
  copy_chunks-joined [] ctx out = rw (append-nil out, law.update_nil ctx) refl
  copy_chunks-joined (chunk ∷ cs) ctx out =
      copy_chunks-joined cs (s.update ctx chunk) (out ++ chunk)
      ∙ rw (append_assoc out chunk (joined cs), law.update_update ctx chunk (joined cs)) refl

  copy_opened_file :
      (digest file : Bytes)
      → copy_opened s digest [] (some file)
        ≡ (file, (if bytes_eq (decode_hex digest) (digest_of s file) then copied else mismatched))
  unfolding copy_opened copy_end
  copy_opened_file digest file =
      rw
        (
          copy_chunks-joined (chunks (length file) file) s.init [],
          chunks-joined (length file) file (omega arith),
        )
        (if_pair (bytes_eq (decode_hex digest) (digest_of s file)) file)

  -- Where every write works, the whole file is written, and only a file with the digest is reported as
  -- copied.
  pub copy-file :
      (digest file : Bytes) (fs : Files)
      → get_request s digest fs ≡ some file
      → copy s digest fs []
        ≡ (file, (if bytes_eq (decode_hex digest) (digest_of s file) then copied else mismatched))
  unfolding copy
  copy-file digest file fs there = rw (there, copy) (copy_opened_file digest file)
