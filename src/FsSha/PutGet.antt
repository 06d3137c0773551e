-- ===== src/FsSha/PutGet.antt =====
-- A blob that was put can be got, and a blob that arrives is put.
use blobio.FsSha.Hashes.{IsStorage, Storage, digest_of}
use blobio.Base.{
  ℕ, ◌-◌, ◌<◌, ◌≡◌, refl, ap, sym, ◌∙◌, inl, inr, Bool, true, false, not, ◌||◌, none, some, List,
  [], ◌∷◌, ◌++◌, Bytes, length, ltb, ◌==◌, append_assoc, bytes_eq, bytes_eq_iff, bytes_eq_refl,
  Bool-cases, Option-cases,
}
use blobio.Chat
use blobio.Chat.{Request, Status, success, error, panic}
use blobio.FsSha.Disk.{Files, lookup, unlink}
use blobio.FsSha.Paths.{make_path, decode_hex}
use blobio.FsSha.{
  Stream, digested, croak, scan_refused, put_chunks, put_stream, put_end, put_bytes, get_request,
  get_bytes, chunk_size,
}
use blobio.FsSha.Kept.{rename_made}
use blobio.FsSha.Stored.{put_stream-digest, at_label-inv}
use blobio.FsSha.Sent.{online, get_bytes_online}
use blobio.FsSha.Received.{received, put_bytes-success, nothing_scanned}

module _ (s : Storage) (law : IsStorage s) where
  put_chunks-prefix :
      (digest : Bytes) (ctx : Storage.Context s) (tmp : Bytes) (reads : List Chat.Read)
      (file : Bytes)
      → put_chunks s digest ctx tmp reads ≡ (file, true)
      → (rest : Bytes) × (file ++ rest ≡ tmp ++ received reads)
  unfolding put_chunks received
  put_chunks-prefix digest ctx tmp [] file e = cc
  put_chunks-prefix digest ctx tmp (Chat.end_of_file ∷ reads) file e = cc
  put_chunks-prefix digest ctx tmp (Chat.failed ∷ reads) file e = cc
  put_chunks-prefix digest ctx tmp (Chat.bytes [] ∷ reads) file e = cc
  put_chunks-prefix digest ctx tmp (Chat.bytes (c ∷ cs) ∷ reads) file e =
      elim (Bool-cases (bytes_eq (decode_hex digest) (s.final (s.update ctx (c ∷ cs))))) [
        | inl same ↦
            let found : Path (Bytes × Bool) (tmp ++ c ∷ cs, true) (file, true) = rw same at e in
            let is_file : tmp ++ c ∷ cs ≡ file = ap (λ (p : Bytes × Bool). p.0) found in
            (
              received reads,
              ap (λ l. l ++ received reads) (sym is_file)
                  ∙ append_assoc tmp (c ∷ cs) (received reads),
            )
        | inr other ↦
            let (rest, split) =
              put_chunks-prefix digest (s.update ctx (c ∷ cs)) (tmp ++ c ∷ cs) reads file
                (rw other at e) in
            (rest, split ∙ append_assoc tmp (c ∷ cs) (received reads))
      ]

  put_stream-prefix :
      (digest scan : Bytes) (blob_size : ℕ) (reads : List Chat.Read) (file : Bytes)
      → put_stream s digest scan blob_size reads ≡ digested file
      → (rest : Bytes) × (file ++ rest ≡ scan ++ received reads)
  unfolding put_stream
  put_stream-prefix digest scan blob_size reads file e =
      elim (Bool-cases (bytes_eq digest s.empty_ascii)) [
        | inl empty ↦
            let found : digested [] ≡ digested file = rw empty at e in
            let nothing : file ≡ [] = cc in (scan ++ received reads, rw nothing refl)
        | inr full ↦ elim (Bool-cases (ltb 0 (length scan))) [
          | inr none_read ↦
              let found =
                at_label-inv s law (put_chunks s digest s.init [] reads) file
                  (rw (full, none_read) at e) in
              let (rest, split) = put_chunks-prefix digest s.init [] reads file found in
              (
                rest,
                split ∙ ap (λ l. l ++ received reads) (sym (nothing_scanned s law scan none_read)),
              )
          | inl some_read ↦
              elim (Bool-cases
                (not (length scan == blob_size) || ltb (chunk_size - 1) (length scan))) [
                  | inl bad ↦
                      absurd (
                        let no : scan_refused ≡ digested file = rw (full, some_read, bad) at e in
                        cc)
                  | inr good ↦
                      elim (Bool-cases
                        (bytes_eq (decode_hex digest) (s.final (s.update s.init scan)))) [
                          | inl whole ↦
                              let found : digested scan ≡ digested file =
                                rw (full, some_read, good, whole) at e in
                              let same : scan ≡ file = cc in
                              (received reads, ap (λ l. l ++ received reads) (sym same))
                          | inr partial ↦
                              put_chunks-prefix digest (s.update s.init scan) scan reads file (
                                at_label-inv s law
                                  (put_chunks s digest (s.update s.init scan) scan reads) file
                                  (rw (full, some_read, good, partial) at e))
                        ]
                ]
        ]
      ]

  put_end-lookup :
      (digest tmp_path file : Bytes) (fs : Files)
      → bytes_eq (make_path s.root digest) tmp_path ≡ false
      → lookup (make_path s.root digest) (put_end s digest tmp_path fs (digested file)).0
        ≡ some file
  unfolding put_end unlink lookup
  put_end-lookup digest tmp_path file fs apart =
      rw
        (
          rename_made tmp_path (make_path s.root digest) file fs,
          apart,
          bytes_eq_refl (make_path s.root digest),
        )
        refl

  put_end-success :
      (digest tmp_path : Bytes) (fs : Files) (end : Stream)
      → (put_end s digest tmp_path fs end).1 ≡ success
      → (file : Bytes) × (end ≡ digested file)
  unfolding put_end
  put_end-success digest tmp_path fs (digested file) h = (file, refl)
  put_end-success digest tmp_path fs (croak file) h = cc
  put_end-success digest tmp_path fs scan_refused h = cc

  -- Where a put answers success and its temporary file is not the path of the blob: the blob is there,
  -- and where the network works `fs_sha_get_bytes` sends its bytes, which have the digest and
  -- come first in what the client sent, and leaves the files as they are.
  pub put_bytes-get_bytes :
      (digest scan : Bytes) (blob_size : ℕ) (reads : List Chat.Read) (tmp_path : Bytes) (fs : Files)
      (chat sent : Bytes) (status : ℕ)
      → bytes_eq (make_path s.root digest) tmp_path ≡ false
      → (put_bytes s digest scan blob_size reads tmp_path fs).1 ≡ success
      → let after = (put_bytes s digest scan blob_size reads tmp_path fs).0 in
        (file : Bytes) × (get_request s digest after ≡ some file)
        × (decode_hex digest ≡ digest_of s file)
        × ((rest : Bytes) × (file ++ rest ≡ scan ++ received reads))
        × (get_bytes s digest file after (online chat sent status)
            ≡ (after, online chat (sent ++ file) status, success))
  unfolding put_bytes get_request
  put_bytes-get_bytes digest scan blob_size reads tmp_path fs chat sent status apart h =
      elim (Option-cases (lookup tmp_path fs)) [
        | inr (file, there) ↦ absurd (let no : panic ≡ success = rw (there, put_bytes) at h in cc)
        | inl free ↦
            let end = put_stream s digest scan blob_size reads in
            let (file, found) =
              put_end-success digest tmp_path fs end (rw (free, put_bytes) at h) in
            let good = put_stream-digest s law digest scan blob_size reads file found in
            let same = (bytes_eq_iff (decode_hex digest) (digest_of s file)).1 good in
            (
              file,
              rw (free, found, put_bytes) (put_end-lookup digest tmp_path file fs apart),
              good,
              put_stream-prefix digest scan blob_size reads file found,
              get_bytes_online s law digest file
                    (put_bytes s digest scan blob_size reads tmp_path fs).0 chat sent status
                  ∙ rw same refl,
            )
      ]

  -- Where the temporary file does not exist yet and is not the path of the blob, the bytes that were
  -- scanned ahead are those that the request counted and fewer than the chunk, and they and the bytes that
  -- the client sends after them are at least one and have the digest: a put answers success, in whatever
  -- pieces the bytes arrive, and afterwards the blob is there; its bytes have the digest and come first in
  -- what the client sent, and where the network works `fs_sha_get_bytes` sends them.
  pub put_bytes-received :
      (digest scan : Bytes) (blob_size : ℕ) (reads : List Chat.Read) (tmp_path : Bytes) (fs : Files)
      (chat sent : Bytes) (status : ℕ)
      → lookup tmp_path fs ≡ none
      → bytes_eq (make_path s.root digest) tmp_path ≡ false
      → length scan ≡ blob_size
      → length scan < chunk_size
      → 0 < length (scan ++ received reads)
      → decode_hex digest ≡ digest_of s (scan ++ received reads)
      → let after = (put_bytes s digest scan blob_size reads tmp_path fs).0 in
        ((put_bytes s digest scan blob_size reads tmp_path fs).1 ≡ success)
        × ((file : Bytes) × (get_request s digest after ≡ some file)
            × (decode_hex digest ≡ digest_of s file)
            × ((rest : Bytes) × (file ++ rest ≡ scan ++ received reads))
            × (get_bytes s digest file after (online chat sent status)
                ≡ (after, online chat (sent ++ file) status, success)))
  put_bytes-received digest scan blob_size reads tmp_path fs chat sent status free apart size fits
        more whole =
      let done =
        put_bytes-success s law digest scan blob_size reads tmp_path fs free size fits more whole in
      (
        done,
        put_bytes-get_bytes digest scan blob_size reads tmp_path fs chat sent status apart done,
      )
