-- ===== src/FsSha/Sent.antt =====
-- What `fs_sha_get_bytes` sends where the network works: the whole file, and the digest of the whole file
-- is what it compares.
use blobio.FsSha.Hashes.{IsStorage, Storage, digest_of}
use blobio.Base.{
  ℕ, zero, suc, ◌≤◌, ◌≡◌, refl, ap, ◌∙◌, some, List, [], ◌∷◌, ◌++◌, Bytes, length, drop, take-drop,
  length-drop, if◌then◌else◌, bytes_eq, append_assoc, append-nil, arith,
}
use blobio.Chat.{Request, success, panic, req_write}
use blobio.FsSha.Disk.{Files, unlink}
use blobio.FsSha.Paths.{make_path, decode_hex}
use blobio.FsSha.{chunks, send_chunks, after_send, get_bytes}

unfoldable pub joined : List Bytes → Bytes
joined [] = []
joined (chunk ∷ cs) = chunk ++ joined cs

pub chunks-joined : (n : ℕ) (file : Bytes) → length file ≤ n → joined (chunks n file) ≡ file
unfolding chunks joined
chunks-joined zero [] h = refl
chunks-joined zero (c ∷ file) h = absurd (omega arith)
chunks-joined (suc n) [] h = refl
chunks-joined (suc n) (c ∷ file) h =
    let short = length-drop 4095 file in
    rw (chunks-joined n (drop 4095 file) (omega arith)) (ap (λ l. c ∷ l) (take-drop 4095 file))

-- A request whose next writes the network will do.
abbrev pub online : Bytes → Bytes → ℕ → Request
online chat sent status = record {
  chat_history = chat;
  sent = sent;
  exit_status = status;
  writes = [];
}

module _ (s : Storage) (law : IsStorage s) where
  send_chunks-joined :
      (cs : List Bytes) (ctx : Storage.Context s) (chat sent : Bytes) (status : ℕ)
      → send_chunks s cs ctx (online chat sent status)
        ≡ (online chat (sent ++ joined cs) status, some (s.update ctx (joined cs)), success)
  unfolding send_chunks req_write joined
  send_chunks-joined [] ctx chat sent status = rw (append-nil sent, law.update_nil ctx) refl
  send_chunks-joined (chunk ∷ cs) ctx chat sent status =
      send_chunks-joined cs (s.update ctx chunk) chat (sent ++ chunk) status
      ∙ rw (append_assoc sent chunk (joined cs), law.update_update ctx chunk (joined cs)) refl

  pub get_bytes_online :
      (digest file : Bytes) (fs : Files) (chat sent : Bytes) (status : ℕ)
      → get_bytes s digest file fs (online chat sent status) ≡ (
          if bytes_eq (decode_hex digest) (digest_of s file)
          then (fs, online chat (sent ++ file) status, success)
          else (unlink (make_path s.root digest) fs, online chat (sent ++ file) status, panic))
  unfolding get_bytes after_send
  get_bytes_online digest file fs chat sent status =
      rw
        (
          send_chunks-joined (chunks (length file) file) s.init chat sent status,
          chunks-joined (length file) file (omega arith),
        )
        refl
