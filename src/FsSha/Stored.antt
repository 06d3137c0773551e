-- ===== src/FsSha/Stored.antt =====
-- Every operation keeps the store well: a file under the path of a digest has that digest.
use blobio.FsSha.Hashes.{IsStorage, Storage, digest_of, IsApart}
use blobio.Base.{
  ℕ, ◌-◌, ◌≡◌, refl, ap, sym, ◌∙◌, inl, inr, Bool, true, false, not, ◌||◌, Option, none, some, List,
  [], ◌∷◌, ◌++◌, Bytes, length, ltb, ◌==◌, bytes_eq, bytes_eq_iff, Bool-cases, Option-cases, All,
  arith,
}
use blobio.Chat
use blobio.Chat.{Request, Status, success, error, panic}
use blobio.Udig.{dig2hex40}
use blobio.FsSha.Disk.{Files, lookup, unlink}
use blobio.FsSha.Paths.{make_path, decode_hex}
use blobio.FsSha.{
  Stream, digested, croak, scan_refused, put_chunks, put_stream, put_end, put_bytes, at_label,
  digest_chunks, digest_end, digest_stream, chunk_size,
}
use blobio.FsSha.Kept.{
  Kept, make_path_injective, unlink-All, rename_made, unlink_made, decode_hex-dig2hex40,
  length-dig2hex40,
}

module _ (s : Storage) (law : IsStorage s) where
  matched :
      (digest tmp : Bytes) (ctx : Storage.Context s)
      → ctx ≡ s.update s.init tmp
      → bytes_eq (decode_hex digest) (s.final ctx) ≡ true
      → decode_hex digest ≡ digest_of s tmp
  matched digest tmp ctx fed same =
      (bytes_eq_iff (decode_hex digest) (s.final ctx)).0 same ∙ ap s.final fed

  fed_more :
      (ctx : Storage.Context s) (tmp more : Bytes)
      → ctx ≡ s.update s.init tmp
      → s.update ctx more ≡ s.update s.init (tmp ++ more)
  fed_more ctx tmp more fed = rw (fed, law.update_update s.init tmp more) refl

  put_chunks-digest :
      (digest : Bytes) (ctx : Storage.Context s) (tmp : Bytes) (reads : List Chat.Read)
      (file : Bytes)
      → ctx ≡ s.update s.init tmp
      → put_chunks s digest ctx tmp reads ≡ (file, true)
      → decode_hex digest ≡ digest_of s file
  unfolding put_chunks
  put_chunks-digest digest ctx tmp [] file fed e = cc
  put_chunks-digest digest ctx tmp (Chat.end_of_file ∷ reads) file fed e = cc
  put_chunks-digest digest ctx tmp (Chat.failed ∷ reads) file fed e = cc
  put_chunks-digest digest ctx tmp (Chat.bytes [] ∷ reads) file fed e = cc
  put_chunks-digest digest ctx tmp (Chat.bytes (c ∷ cs) ∷ reads) file fed e =
      let more = fed_more ctx tmp (c ∷ cs) fed in
      elim (Bool-cases (bytes_eq (decode_hex digest) (s.final (s.update ctx (c ∷ cs))))) [
        | inl same ↦
            let found : Path (Bytes × Bool) (tmp ++ c ∷ cs, true) (file, true) = rw same at e in
            matched digest (tmp ++ c ∷ cs) (s.update ctx (c ∷ cs)) more same
            ∙ ap (λ (p : Bytes × Bool). digest_of s p.0) found
        | inr other ↦
            put_chunks-digest digest (s.update ctx (c ∷ cs)) (tmp ++ c ∷ cs) reads file more
              (rw other at e)
      ]

  pub at_label-inv :
      (end : Bytes × Bool) (file : Bytes) → at_label s end ≡ digested file → end ≡ (file, true)
  at_label-inv (tmp, true) file e = (let same : tmp ≡ file = cc in rw same refl)
  at_label-inv (tmp, false) file e = cc

  pub put_stream-digest :
      (digest scan : Bytes) (blob_size : ℕ) (reads : List Chat.Read) (file : Bytes)
      → put_stream s digest scan blob_size reads ≡ digested file
      → decode_hex digest ≡ digest_of s file
  unfolding put_stream
  put_stream-digest digest scan blob_size reads file e =
      elim (Bool-cases (bytes_eq digest s.empty_ascii)) [
        | inl empty ↦
            let found : digested [] ≡ digested file = rw empty at e in
            let nothing : [] ≡ file = cc in
            let is_empty = (bytes_eq_iff digest s.empty_ascii).0 empty in
            ap decode_hex is_empty
            ∙ sym law.empty
            ∙ ap s.final (sym (law.update_nil s.init))
            ∙ ap (digest_of s) nothing
        | inr full ↦ elim (Bool-cases (ltb 0 (length scan))) [
          | inr none_read ↦
              let found =
                at_label-inv (put_chunks s digest s.init [] reads) file
                  (rw (full, none_read) at e) in
              put_chunks-digest digest s.init [] reads file (sym (law.update_nil s.init)) found
          | inl some_read ↦
              elim (Bool-cases
                (not (length scan == blob_size) || ltb (chunk_size - 1) (length scan))) [
                  | inl bad ↦
                      absurd (
                        let no : scan_refused ≡ digested file = rw (full, some_read, bad) at e in
                        cc)
                  | inr good ↦
                      elim (Bool-cases
                        (bytes_eq (decode_hex digest) (s.final (s.update s.init scan)))) [
                          | inl whole ↦
                              let found : digested scan ≡ digested file =
                                rw (full, some_read, good, whole) at e in
                              let same : scan ≡ file = cc in
                              matched digest scan (s.update s.init scan) refl whole
                              ∙ ap (digest_of s) same
                          | inr partial ↦
                              let found =
                                at_label-inv (put_chunks s digest (s.update s.init scan) scan reads)
                                  file (rw (full, some_read, good, partial) at e) in
                              put_chunks-digest digest (s.update s.init scan) scan reads file refl
                                found
                        ]
                ]
        ]
      ]

  made_Kept :
      (digest file : Bytes)
      → length digest ≡ 40
      → decode_hex digest ≡ digest_of s file
      → Kept s (make_path s.root digest, file)
  made_Kept digest file size named h long same =
      ap decode_hex (make_path_injective s.root h digest long size (sym same)) ∙ named

  put_end-Kept :
      (digest tmp_path : Bytes) (fs : Files) (end : Stream)
      → length digest ≡ 40
      → IsApart s tmp_path
      → ((file : Bytes) → end ≡ digested file → decode_hex digest ≡ digest_of s file)
      → All (Kept s) fs
      → All (Kept s) (put_end s digest tmp_path fs end).0
  unfolding put_end
  put_end-Kept digest tmp_path fs (digested file) size apart good h =
      rw (rename_made tmp_path (make_path s.root digest) file fs) (
        unlink-All (Kept s) tmp_path
          ((make_path s.root digest, file) ∷ unlink (make_path s.root digest) (unlink tmp_path fs))
          (
            made_Kept digest file size (good file refl),
            unlink-All (Kept s) (make_path s.root digest) (unlink tmp_path fs)
                (unlink-All (Kept s) tmp_path fs h),
          ))
  put_end-Kept digest tmp_path fs (croak file) size apart good h =
      rw (unlink_made tmp_path file fs) (unlink-All (Kept s) tmp_path fs h)
  put_end-Kept digest tmp_path fs scan_refused size apart good h =
      elim (Bool-cases s.keeps_refused) [
        | inl keeps ↦ rw (keeps, put_end) ((λ d long same. absurd (apart d same)), h)
        | inr unlinks ↦
            rw (unlinks, put_end, unlink_made tmp_path [] fs) (unlink-All (Kept s) tmp_path fs h)
      ]

  pub put_bytes-Kept :
      (digest scan : Bytes) (blob_size : ℕ) (reads : List Chat.Read) (tmp_path : Bytes) (fs : Files)
      → length digest ≡ 40
      → IsApart s tmp_path
      → All (Kept s) fs
      → All (Kept s) (put_bytes s digest scan blob_size reads tmp_path fs).0
  unfolding put_bytes
  put_bytes-Kept digest scan blob_size reads tmp_path fs size apart h =
      elim (Option-cases (lookup tmp_path fs)) [
        | inr (file, there) ↦ rw (there, put_bytes) h
        | inl free ↦
            rw (free, put_bytes)
              (put_end-Kept digest tmp_path fs (put_stream s digest scan blob_size reads) size apart
                (λ file. put_stream-digest digest scan blob_size reads file) h)
      ]

  context_end :
      (ctx : Storage.Context s) (tmp : Bytes) (end : Storage.Context s) (file : Bytes)
      → ctx ≡ s.update s.init tmp
      → Path (Option (Storage.Context s × Bytes)) (some (ctx, tmp)) (some (end, file))
      → end ≡ s.update s.init file
  context_end ctx tmp end file fed e =
      let same : ctx ≡ end = cc in
      let whole : tmp ≡ file = cc in sym same ∙ fed ∙ ap (s.update s.init) whole

  digest_chunks-context :
      (ctx : Storage.Context s) (tmp : Bytes) (reads : List Chat.Read) (end : Storage.Context s)
      (file : Bytes)
      → ctx ≡ s.update s.init tmp
      → digest_chunks s ctx tmp reads ≡ some (end, file)
      → end ≡ s.update s.init file
  unfolding digest_chunks
  digest_chunks-context ctx tmp [] end file fed e = context_end ctx tmp end file fed e
  digest_chunks-context ctx tmp (Chat.end_of_file ∷ reads) end file fed e =
      context_end ctx tmp end file fed e
  digest_chunks-context ctx tmp (Chat.failed ∷ reads) end file fed e = cc
  digest_chunks-context ctx tmp (Chat.bytes [] ∷ reads) end file fed e =
      context_end ctx tmp end file fed e
  digest_chunks-context ctx tmp (Chat.bytes (c ∷ cs) ∷ reads) end file fed e =
      digest_chunks-context (s.update ctx (c ∷ cs)) (tmp ++ c ∷ cs) reads end file
        (fed_more ctx tmp (c ∷ cs) fed) e

  digest_end-Kept :
      (tmp_path : Bytes) (fs : Files) (end : Option (Storage.Context s × Bytes))
      → ((ctx : Storage.Context s) (file : Bytes)
          → end ≡ some (ctx, file)
          → ctx ≡ s.update s.init file)
      → All (Kept s) fs
      → All (Kept s) (digest_end s tmp_path fs end).0
  unfolding digest_end
  digest_end-Kept tmp_path fs none good h =
      rw (unlink_made tmp_path [] fs) (unlink-All (Kept s) tmp_path fs h)
  digest_end-Kept tmp_path fs (some (ctx, file)) good h =
      let fed = ap s.final (good ctx file refl) in
      let size = law.size file in
      let hex = dig2hex40 (s.final ctx) in
      let long : length hex ≡ 40 =
        ap (λ d. length (dig2hex40 d)) fed
        ∙ length-dig2hex40 (digest_of s file)
        ∙ omega (arith, size.size) in
      let named : decode_hex hex ≡ digest_of s file =
        ap (λ d. decode_hex (dig2hex40 d)) fed
        ∙ decode_hex-dig2hex40 (digest_of s file) size.bytes in
      rw (rename_made tmp_path (make_path s.root hex) file fs) (
        made_Kept hex file long named,
        unlink-All (Kept s) (make_path s.root hex) (unlink tmp_path fs)
            (unlink-All (Kept s) tmp_path fs h),
      )

  pub digest_stream-Kept :
      (reads : List Chat.Read) (tmp_path : Bytes) (fs : Files)
      → All (Kept s) fs
      → All (Kept s) (digest_stream s reads tmp_path fs).0
  unfolding digest_stream
  digest_stream-Kept reads tmp_path fs h = elim (Option-cases (lookup tmp_path fs)) [
    | inr (file, there) ↦ rw (there, digest_stream) h
    | inl free ↦
        rw (free, digest_stream)
          (digest_end-Kept tmp_path fs (digest_chunks s s.init [] reads)
            (λ ctx file.
              digest_chunks-context s.init [] reads ctx file (sym (law.update_nil s.init)))
            h)
  ]
