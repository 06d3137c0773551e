-- ===== src/FsRipe/Served.antt =====
-- What a client that gets a blob receives: the handler `get` of bio4d/bio4d.c over a digest module.
use Prim.Native.Nat.{bit_and, bit_or}
use blobio.Base.{
  ℕ, ◌*◌, ◌≡◌, refl, ◌∙◌, inl, inr, Bool, true, false, Option, none, some, List, [], ◌++◌, Bytes,
  codes, length, ◌==◌, bytes_eq_iff, Bool-cases, All,
}
use blobio.Chat.{
  Request, Status, success, error, write_ok, write_no, req_write, note_chat, add_chat_history,
}
use blobio.Verbs
use blobio.Verbs.{DigestModule, set_verb, branch, return_ok, status_get}
use blobio.FsSha
use blobio.FsSha.Disk.{Files}
use blobio.FsSha.Paths.{decode_hex}
use blobio.FsSha.Hashes.{Storage, IsStorage, digest_of}
use blobio.FsSha.{get_request}
use blobio.FsSha.Sent.{online, get_bytes_online}
use blobio.FsSha.Runs.{Operation, TmpIsApart}
use blobio.FsRipe
use blobio.FsRipe.Trust.{get_bytes-trust}
use blobio.FsRipe.Runs.{operate_all, trusted_file}

-- `none` is ENOENT, a status that is not 0.
abbrev pub opened : Option Bytes → Status
opened none = error
opened (some file) = success

abbrev pub without_files : Files × Request × Status → Request × Status
without_files (fs, r, status) = (r, status)

-- The callbacks of a get are those of the module, on a request for this digest and these files.
pub record Serves (s : Storage) (trust : Bool) (digest : Bytes) (fs : Files) (mp : DigestModule)
    : Type 0 where
  pub is_digest : mp.is_digest digest ≡ s.is_digest digest
  pub get_request : (r : Request) → mp.get_request r ≡ (r, opened (FsSha.get_request s digest fs))
  pub get_bytes :
      (r : Request) (file : Bytes)
      → FsSha.get_request s digest fs ≡ some file
      → mp.get_bytes r ≡ without_files (FsRipe.get_bytes s trust digest file fs r)

said_ok_online :
    (st : ℕ) → write_ok (online [] [] st) ≡ (online (codes "ok") (codes "ok\n") st, success)
unfolding write_ok req_write note_chat add_chat_history
said_ok_online st = refl

said_no_online :
    (st : ℕ) → write_no (online [] [] st) ≡ (online (codes "no") (codes "no\n") st, success)
unfolding write_no req_write note_chat add_chat_history
said_no_online st = refl

-- The bytes of the reply, where the digest is that of the empty blob, and where it is not.
abbrev pub reply : Bool → Option Bytes → Bytes
reply true o = codes "ok\n"
reply false none = codes "no\n"
reply false (some file) = codes "ok\n" ++ file

abbrev pub chat : Bool → Option Bytes → Bytes
chat true o = codes "ok"
chat false none = codes "no"
chat false (some file) = codes "ok"

-- The exit status with the verb get.
abbrev pub get_status : ℕ → ℕ
get_status st = bit_or (bit_and st 0x1C) (status_get * 4)

module _ (s : Storage) (law : IsStorage s) where
  checked_online :
      (digest file : Bytes) (fs : Files) (said sent : Bytes) (st : ℕ)
      → decode_hex digest ≡ digest_of s file
      → FsRipe.get_bytes s false digest file fs (online said sent st)
        ≡ (fs, online said (sent ++ file) st, success)
  unfolding FsRipe.get_bytes
  checked_online digest file fs said sent st good =
      get_bytes_online s law digest file fs said sent st
      ∙ rw ((bytes_eq_iff (decode_hex digest) (digest_of s file)).1 good) refl

  sent_online :
      (trust : Bool) (digest file : Bytes) (fs : Files) (said sent : Bytes) (st : ℕ)
      → decode_hex digest ≡ digest_of s file
      → FsRipe.get_bytes s trust digest file fs (online said sent st)
        ≡ (fs, online said (sent ++ file) st, success)
  sent_online true digest file fs said sent st good =
      get_bytes-trust s law digest file fs (online said sent st) good
      ∙ checked_online digest file fs said sent st good
  sent_online false digest file fs said sent st good =
      checked_online digest file fs said sent st good

  get_opened :
      (trust : Bool) (digest : Bytes) (fs : Files) (mp : DigestModule) (st : ℕ) (o : Option Bytes)
      → Serves s trust digest fs mp
      → FsSha.get_request s digest fs ≡ o
      → ((file : Bytes) → o ≡ some file → decode_hex digest ≡ digest_of s file)
      → (mp.is_digest digest == 2) ≡ false
      → Verbs.get mp digest (online [] [] st)
        ≡ (online (chat false o) (reply false o) (get_status st), success)
  unfolding Verbs.get set_verb branch
  get_opened trust digest fs mp st none serves there good full =
      rw
        (
          full,
          serves.get_request (online [] [] (get_status st)),
          there,
          said_no_online (get_status st),
          Verbs.get,
        )
        refl
  get_opened trust digest fs mp st (some file) serves there good full =
      let r1 = online (codes "ok") (codes "ok\n") (get_status st) in
      rw
        (
          full,
          serves.get_request (online [] [] (get_status st)),
          there,
          said_ok_online (get_status st),
          serves.get_bytes r1 file there,
          sent_online trust digest file fs (codes "ok") (codes "ok\n") (get_status st)
              (good file refl),
          Verbs.get,
        )
        refl

  get_any :
      (trust : Bool) (digest : Bytes) (fs : Files) (mp : DigestModule) (st : ℕ) (o : Option Bytes)
      → Serves s trust digest fs mp
      → FsSha.get_request s digest fs ≡ o
      → ((file : Bytes) → o ≡ some file → decode_hex digest ≡ digest_of s file)
      → (let empty = s.is_digest digest == 2 in
          Verbs.get mp digest (online [] [] st)
          ≡ (online (chat empty o) (reply empty o) (get_status st), success))
  unfolding Verbs.get set_verb branch return_ok
  get_any trust digest fs mp st o serves there good = elim (Bool-cases (s.is_digest digest == 2)) [
    | inl empty ↦
        let known : (mp.is_digest digest == 2) ≡ true = rw serves.is_digest empty in
        rw (empty, known, said_ok_online (get_status st), Verbs.get) refl
    | inr full ↦
        let known : (mp.is_digest digest == 2) ≡ false = rw serves.is_digest full in
        rw full (get_opened trust digest fs mp st o serves there good known)
  ]

  -- After any sequence of operations on a store that begins with no files, whose temporary files are never
  -- where a blob could be, and with a network that works: a client that gets a digest of forty characters
  -- receives ok where the module takes the digest for that of the empty blob, else ok and the bytes of the
  -- blob where it is in the store, else no; the handler returns success, and the chat says what was sent.
  pub get-operate_all :
      (trust : Bool) (os : List Operation) (digest : Bytes) (mp : DigestModule) (st : ℕ)
      → All (TmpIsApart s) os
      → length digest ≡ 40
      → Serves s trust digest (operate_all s false os []) mp
      → let empty = s.is_digest digest == 2 in
        let o = FsSha.get_request s digest (operate_all s false os []) in
        Verbs.get mp digest (online [] [] st)
        ≡ (online (chat empty o) (reply empty o) (get_status st), success)
  unfolding FsSha.get_request
  get-operate_all trust os digest mp st apart size serves =
      get_any trust digest (operate_all s false os []) mp st
        (FsSha.get_request s digest (operate_all s false os [])) serves refl
        (λ file there. trusted_file s law os digest file apart size there)
