-- ===== src/FsRipe/Trust.antt =====
-- What `trust_fs` changes of a get and a copy: nothing, on a file that has its digest.
use blobio.Base.{
  ◌≡◌, refl, ap, sym, ◌∙◌, Bool, true, false, some, List, [], ◌∷◌, ◌++◌, Bytes, length, bytes_eq,
  bytes_eq_iff, arith,
}
use blobio.Chat.{Request, Status, success, error, panic, req_write}
use blobio.FsSha
use blobio.FsSha.Disk.{Files}
use blobio.FsSha.Paths.{decode_hex}
use blobio.FsSha.Hashes.{Storage, IsStorage, digest_of}
use blobio.FsSha.{send_chunks, after_send, after_write, chunks, get_request}
use blobio.FsSha.Sent.{joined, chunks-joined}
use blobio.FsSha.Copy
use blobio.FsSha.Copy.{Copy, copied, write_failed, copy_chunks, copy_end, copy_opened}
use blobio.FsRipe.{
  send_trusted, unless_croak, copy_trusted, copy_trusted_opened, get_trusted_bytes, get_bytes, copy,
}

module _ (s : Storage) (law : IsStorage s) where
  -- The context after a chunk, where the whole is to have the digest.
  more :
      (digest chunk : Bytes) (cs : List Bytes) (ctx : Storage.Context s)
      → decode_hex digest ≡ s.final (s.update ctx (joined (chunk ∷ cs)))
      → decode_hex digest ≡ s.final (s.update (s.update ctx chunk) (joined cs))
  unfolding joined
  more digest chunk cs ctx h = h ∙ ap s.final (sym (law.update_update ctx chunk (joined cs)))

  whole :
      (digest : Bytes) (ctx : Storage.Context s)
      → decode_hex digest ≡ s.final (s.update ctx [])
      → bytes_eq (decode_hex digest) (s.final ctx) ≡ true
  whole digest ctx h =
      (bytes_eq_iff (decode_hex digest) (s.final ctx)).1 (h ∙ ap s.final (law.update_nil ctx))

  abbrev sent_trusted : Files → Request × Status → Files × Request × Status
  sent_trusted fs (r, status) = (fs, r, status)

  after_written :
      (digest : Bytes) (fs : Files) (cs : List Bytes) (ctx : Storage.Context s)
      (w : Request × Status)
      → ((r : Request)
          → after_send s digest fs (send_chunks s cs ctx r) ≡ sent_trusted fs (send_trusted cs r))
      → after_send s digest fs (after_write w (send_chunks s cs ctx))
        ≡ sent_trusted fs (unless_croak w (send_trusted cs))
  unfolding after_send
  after_written digest fs cs ctx (r, success) rest = rest r
  after_written digest fs cs ctx (r, error) rest = refl
  after_written digest fs cs ctx (r, panic) rest = refl

  after_send-trusted :
      (digest : Bytes) (fs : Files) (cs : List Bytes) (ctx : Storage.Context s) (r : Request)
      → decode_hex digest ≡ s.final (s.update ctx (joined cs))
      → after_send s digest fs (send_chunks s cs ctx r) ≡ sent_trusted fs (send_trusted cs r)
  unfolding send_chunks send_trusted joined
  after_send-trusted digest fs [] ctx r h = unfold after_send in rw (whole digest ctx h) refl
  after_send-trusted digest fs (chunk ∷ cs) ctx r h =
      after_written digest fs cs (s.update ctx chunk) (req_write r chunk)
        (λ r. after_send-trusted digest fs cs (s.update ctx chunk) r (more digest chunk cs ctx h))

  -- On a file that has its digest, a get that trusts the file system does what one that checks the digest
  -- does, whatever becomes of the writes to the client.
  pub get_bytes-trust :
      (digest file : Bytes) (fs : Files) (r : Request)
      → decode_hex digest ≡ digest_of s file
      → get_bytes s true digest file fs r ≡ get_bytes s false digest file fs r
  unfolding get_bytes get_trusted_bytes FsSha.get_bytes
  get_bytes-trust digest file fs r h = sym (
      after_send-trusted digest fs (chunks (length file) file) s.init r (
        h
        ∙ ap (λ b. s.final (s.update s.init b))
            (sym (chunks-joined (length file) file (omega arith)))))

  copy_end-trusted :
      (digest : Bytes) (cs : List Bytes) (ctx : Storage.Context s) (out : Bytes)
      (writes : List Bool)
      → decode_hex digest ≡ s.final (s.update ctx (joined cs))
      → copy_end s digest (copy_chunks s cs ctx out writes) ≡ copy_trusted cs out writes
  unfolding copy_chunks copy_trusted joined
  copy_end-trusted digest [] ctx out writes h = unfold copy_end in rw (whole digest ctx h) refl
  copy_end-trusted digest (chunk ∷ cs) ctx out [] h =
      copy_end-trusted digest cs (s.update ctx chunk) (out ++ chunk) [] (more digest chunk cs ctx h)
  copy_end-trusted digest (chunk ∷ cs) ctx out (true ∷ writes) h =
      copy_end-trusted digest cs (s.update ctx chunk) (out ++ chunk) writes
        (more digest chunk cs ctx h)
  copy_end-trusted digest (chunk ∷ cs) ctx out (false ∷ writes) h = unfold copy_end in refl

  copy_opened-trusted :
      (digest file : Bytes) (writes : List Bool)
      → decode_hex digest ≡ digest_of s file
      → copy_opened s digest writes (some file) ≡ copy_trusted_opened s writes (some file)
  unfolding copy_opened copy_trusted_opened
  copy_opened-trusted digest file writes h =
      copy_end-trusted digest (chunks (length file) file) s.init [] writes (
        h
        ∙ ap (λ b. s.final (s.update s.init b))
            (sym (chunks-joined (length file) file (omega arith))))

  -- On a file that has its digest, a copy that trusts the file system writes what one that checks the
  -- digest does and has its result, whatever becomes of the writes.
  pub copy-trust :
      (digest file : Bytes) (fs : Files) (writes : List Bool)
      → get_request s digest fs ≡ some file
      → decode_hex digest ≡ digest_of s file
      → copy s true digest fs writes ≡ copy s false digest fs writes
  unfolding copy Copy.copy
  copy-trust digest file fs writes there h =
      rw (there, copy, Copy.copy) (sym (copy_opened-trusted digest file writes h))
