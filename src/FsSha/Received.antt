-- ===== src/FsSha/Received.antt =====
-- A blob that arrives in pieces is put.
use blobio.FsSha.Hashes.{IsStorage, Storage, digest_of}
use blobio.Base.{
  ℕ, ◌-◌, ◌<◌, ◌≡◌, refl, ap, sym, ◌∙◌, ◌⊎◌, inl, inr, Bool, true, false, not, ◌||◌, none, List, [],
  ◌∷◌, ◌++◌, Bytes, length, ltb, ◌==◌, append_assoc, append-nil, bytes_eq, bytes_eq_iff, Bool-cases,
  arith,
}
use blobio.Chat
use blobio.Chat.{Request, Status, success, error, panic}
use blobio.FsSha.Disk.{Files, lookup}
use blobio.FsSha.Paths.{decode_hex}
use blobio.FsSha.{digested, put_chunks, put_stream, put_end, put_bytes, at_label, chunk_size}

-- The bytes that the reads give before one fails or gives nothing.
unfoldable pub received : List Chat.Read → Bytes
received (Chat.bytes (c ∷ cs) ∷ reads) = (c ∷ cs) ++ received reads
received reads = []

module _ (s : Storage) (law : IsStorage s) where
  now_or_later :
      (reads : List Chat.Read) (tmp : Bytes) → (received reads ≡ []) ⊎ (0 < length (received reads))
  unfolding received
  now_or_later [] tmp = inl refl
  now_or_later (Chat.end_of_file ∷ reads) tmp = inl refl
  now_or_later (Chat.failed ∷ reads) tmp = inl refl
  now_or_later (Chat.bytes [] ∷ reads) tmp = inl refl
  now_or_later (Chat.bytes (c ∷ cs) ∷ reads) tmp = inr (omega arith)

  put_chunks-received :
      (digest : Bytes) (ctx : Storage.Context s) (tmp : Bytes) (reads : List Chat.Read)
      → ctx ≡ s.update s.init tmp
      → 0 < length (received reads)
      → decode_hex digest ≡ digest_of s (tmp ++ received reads)
      → (put_chunks s digest ctx tmp reads).1 ≡ true
  unfolding put_chunks received
  put_chunks-received digest ctx tmp [] fed more whole = absurd (omega arith)
  put_chunks-received digest ctx tmp (Chat.end_of_file ∷ reads) fed more whole =
      absurd (omega arith)
  put_chunks-received digest ctx tmp (Chat.failed ∷ reads) fed more whole = absurd (omega arith)
  put_chunks-received digest ctx tmp (Chat.bytes [] ∷ reads) fed more whole = absurd (omega arith)
  put_chunks-received digest ctx tmp (Chat.bytes (c ∷ cs) ∷ reads) fed more whole =
      let fed' : s.update ctx (c ∷ cs) ≡ s.update s.init (tmp ++ c ∷ cs) =
        rw (fed, law.update_update s.init tmp (c ∷ cs)) refl in
      let whole' : decode_hex digest ≡ digest_of s ((tmp ++ c ∷ cs) ++ received reads) =
        whole ∙ ap (digest_of s) (sym (append_assoc tmp (c ∷ cs) (received reads))) in
      elim (Bool-cases (bytes_eq (decode_hex digest) (s.final (s.update ctx (c ∷ cs))))) [
        | inl same ↦ rw same refl
        | inr other ↦ elim (now_or_later reads tmp) [
          | inr later ↦ rw other (
              put_chunks-received digest (s.update ctx (c ∷ cs)) (tmp ++ c ∷ cs) reads fed' later
                whole')
          | inl last ↦ absurd (
              let all_read : decode_hex digest ≡ s.final (s.update ctx (c ∷ cs)) =
                whole'
                ∙ ap (digest_of s)
                    (ap (λ l. (tmp ++ c ∷ cs) ++ l) last ∙ append-nil (tmp ++ c ∷ cs))
                ∙ ap s.final (sym fed') in
              let no =
                (bytes_eq_iff (decode_hex digest) (s.final (s.update ctx (c ∷ cs)))).1 all_read in
              cc)
        ]
      ]

  at_label-true : (end : Bytes × Bool) → end.1 ≡ true → at_label s end ≡ digested end.0
  at_label-true (tmp, true) h = refl
  at_label-true (tmp, false) h = cc

  scan_fits :
      (scan : Bytes) (blob_size : ℕ)
      → length scan ≡ blob_size
      → length scan < chunk_size
      → (not (length scan == blob_size) || ltb (chunk_size - 1) (length scan)) ≡ false
  scan_fits scan blob_size size fits = ground arith

  pub nothing_scanned : (scan : Bytes) → ltb 0 (length scan) ≡ false → scan ≡ []
  nothing_scanned [] h = refl
  nothing_scanned (c ∷ scan) h = ground arith

  put_stream-received :
      (digest scan : Bytes) (blob_size : ℕ) (reads : List Chat.Read)
      → length scan ≡ blob_size
      → length scan < chunk_size
      → 0 < length (scan ++ received reads)
      → decode_hex digest ≡ digest_of s (scan ++ received reads)
      → (file : Bytes) × (put_stream s digest scan blob_size reads ≡ digested file)
  unfolding put_stream
  put_stream-received digest scan blob_size reads size fits more whole =
      elim (Bool-cases (bytes_eq digest s.empty_ascii)) [
        | inl empty ↦ ([], rw empty refl)
        | inr full ↦ elim (Bool-cases (ltb 0 (length scan))) [
          | inr none_read ↦
              let nothing = nothing_scanned scan none_read in
              let later : 0 < length (received reads) = rw nothing at more in
              let all : decode_hex digest ≡ digest_of s (received reads) = rw nothing at whole in
              let rest = put_chunks s digest s.init [] reads in
              (
                rest.0,
                rw (full, none_read)
                    (at_label-true rest (
                      put_chunks-received digest s.init [] reads (sym (law.update_nil s.init)) later
                        all)),
              )
          | inl some_read ↦
              elim (Bool-cases (bytes_eq (decode_hex digest) (s.final (s.update s.init scan)))) [
                | inl same ↦
                    (scan, rw (full, some_read, scan_fits scan blob_size size fits, same) refl)
                | inr partial ↦ elim (now_or_later reads scan) [
                  | inl last ↦ absurd (
                      let all_read : decode_hex digest ≡ digest_of s scan =
                        whole ∙ ap (digest_of s) (ap (λ l. scan ++ l) last ∙ append-nil scan) in
                      let no =
                        (bytes_eq_iff (decode_hex digest) (s.final (s.update s.init scan))).1
                          all_read in
                      cc)
                  | inr later ↦
                      let rest = put_chunks s digest (s.update s.init scan) scan reads in
                      (
                        rest.0,
                        rw (full, some_read, scan_fits scan blob_size size fits, partial)
                            (at_label-true rest (
                              put_chunks-received digest (s.update s.init scan) scan reads refl
                                later whole)),
                      )
                ]
              ]
        ]
      ]

  -- The status of such a put.
  pub put_bytes-success :
      (digest scan : Bytes) (blob_size : ℕ) (reads : List Chat.Read) (tmp_path : Bytes) (fs : Files)
      → lookup tmp_path fs ≡ none
      → length scan ≡ blob_size
      → length scan < chunk_size
      → 0 < length (scan ++ received reads)
      → decode_hex digest ≡ digest_of s (scan ++ received reads)
      → (put_bytes s digest scan blob_size reads tmp_path fs).1 ≡ success
  unfolding put_bytes put_end
  put_bytes-success digest scan blob_size reads tmp_path fs free size fits more whole =
      let (file, found) = put_stream-received digest scan blob_size reads size fits more whole in
      rw (free, found, put_bytes) refl
