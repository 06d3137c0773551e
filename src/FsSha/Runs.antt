-- ===== src/FsSha/Runs.antt =====
-- The store after any sequence of the operations that change it.
use blobio.FsSha.Hashes.{IsStorage, Storage, digest_of, IsApart}
use blobio.Base.{
  ℕ, ◌≡◌, refl, ap, ◌∙◌, inl, inr, Bool, true, false, Option, none, some, List, [], ◌∷◌, Bytes,
  length, ◌==◌, if◌then◌else◌, bytes_eq, bytes_eq_iff, Bool-cases, All,
}
use blobio.Chat
use blobio.Chat.{Request, Status, success, error, panic}
use blobio.FsSha.Disk.{Files, lookup}
use blobio.FsSha.Paths.{make_path, decode_hex}
use blobio.FsSha.{
  put_bytes, digest_stream, take_reply, get_request, get_bytes, after_send, send_chunks, chunks,
}
use blobio.FsSha.Kept.{Kept, unlink-All}
use blobio.FsSha.Stored.{put_bytes-Kept, digest_stream-Kept}

-- The server answers a request only where the module takes its digest; a stream that wrap
-- digests comes with none.
pub data Operation : Type 0 where
  put : (digest scan : Bytes) → ℕ → List Chat.Read → (tmp_path : Bytes) → Operation
  get : (digest : Bytes) → Request → Operation
  take : (digest reply : Bytes) → Operation
  digest : List Chat.Read → (tmp_path : Bytes) → Operation

-- The temporary file of an operation is not where a blob could be.
abbrev pub TmpIsApart : Storage → Operation → Type 0
TmpIsApart s (put h scan size reads tmp) = IsApart s tmp
TmpIsApart s (get h r) = Unit
TmpIsApart s (take h reply) = Unit
TmpIsApart s (digest reads tmp) = IsApart s tmp

module _ (s : Storage) where
  unfoldable pub get_opened : Bytes → Request → Files → Option Bytes → Files
  unfolding get_bytes
  get_opened h r fs none = fs
  get_opened h r fs (some file) = (get_bytes s h file fs r).0

  unfoldable pub operate : Operation → Files → Files
  unfolding put_bytes digest_stream take_reply get_request get_opened
  operate (put h scan size reads tmp) fs =
      if s.is_digest h == 0 then fs else (put_bytes s h scan size reads tmp fs).0
  operate (get h r) fs = if s.is_digest h == 0 then fs else get_opened h r fs (get_request s h fs)
  operate (take h reply) fs = if s.is_digest h == 0 then fs else (take_reply s h reply fs).0
  operate (digest reads tmp) fs = (digest_stream s reads tmp fs).0

  unfoldable pub operate_all : List Operation → Files → Files
  unfolding operate
  operate_all [] fs = fs
  operate_all (o ∷ os) fs = operate_all os (operate o fs)

if-All :
    (P : Bytes × Bytes → Type 0) (b : Bool) (fs gs : Files)
    → All P fs
    → (b ≡ false → All P gs)
    → All P (if b then fs else gs)
if-All P true fs gs hf hg = hf
if-All P false fs gs hf hg = hg refl

module _ (s : Storage) (law : IsStorage s) where
  after_send-Kept :
      (h : Bytes) (fs : Files) (end : Request × Option (Storage.Context s) × Status)
      → All (Kept s) fs
      → All (Kept s) (after_send s h fs end).0
  unfolding after_send
  after_send-Kept h fs (r, none, success) kept = kept
  after_send-Kept h fs (r, some ctx, success) kept =
      elim (Bool-cases (bytes_eq (decode_hex h) (s.final ctx))) [
        | inl same ↦ rw (same, after_send) kept
        | inr other ↦ rw (other, after_send) (unlink-All (Kept s) (make_path s.root h) fs kept)
      ]
  after_send-Kept h fs (r, none, error) kept = kept
  after_send-Kept h fs (r, none, panic) kept = kept
  after_send-Kept h fs (r, some ctx, error) kept = kept
  after_send-Kept h fs (r, some ctx, panic) kept = kept

  get_opened-Kept :
      (h : Bytes) (r : Request) (fs : Files) (o : Option Bytes)
      → All (Kept s) fs
      → All (Kept s) (get_opened s h r fs o)
  unfolding get_opened get_bytes
  get_opened-Kept h r fs none kept = kept
  get_opened-Kept h r fs (some file) kept =
      after_send-Kept h fs (send_chunks s (chunks (length file) file) s.init r) kept

  take_reply-Kept :
      (h reply : Bytes) (fs : Files) → All (Kept s) fs → All (Kept s) (take_reply s h reply fs).0
  unfolding take_reply
  take_reply-Kept h reply fs kept = elim (Bool-cases (Chat.at reply 0 == b'o')) [
    | inl ok ↦ rw (ok, take_reply) (unlink-All (Kept s) (make_path s.root h) fs kept)
    | inr other ↦ rw (other, take_reply) kept
  ]

  pub operate-Kept :
      (o : Operation) (fs : Files)
      → TmpIsApart s o
      → All (Kept s) fs
      → All (Kept s) (operate s o fs)
  unfolding operate take_reply
  operate-Kept (put h scan size reads tmp) fs apart kept =
      if-All (Kept s) (s.is_digest h == 0) fs (put_bytes s h scan size reads tmp fs).0 kept
        (λ ok. put_bytes-Kept s law h scan size reads tmp fs (law.length-is_digest h ok) apart kept)
  operate-Kept (get h r) fs apart kept =
      if-All (Kept s) (s.is_digest h == 0) fs (get_opened s h r fs (get_request s h fs)) kept
        (λ ok. get_opened-Kept h r fs (get_request s h fs) kept)
  operate-Kept (take h reply) fs apart kept =
      if-All (Kept s) (s.is_digest h == 0) fs (take_reply s h reply fs).0 kept
        (λ ok. take_reply-Kept h reply fs kept)
  operate-Kept (digest reads tmp) fs apart kept = digest_stream-Kept s law reads tmp fs kept

  operate_all-Kept :
      (os : List Operation) (fs : Files)
      → All (TmpIsApart s) os
      → All (Kept s) fs
      → All (Kept s) (operate_all s os fs)
  unfolding operate_all
  operate_all-Kept [] fs apart kept = kept
  operate_all-Kept (o ∷ os) fs (here, apart) kept =
      operate_all-Kept os (operate s o fs) apart (operate-Kept o fs here kept)

  pub lookup-Kept :
      (h file : Bytes) (fs : Files)
      → length h ≡ 40
      → All (Kept s) fs
      → lookup (make_path s.root h) fs ≡ some file
      → decode_hex h ≡ digest_of s file
  unfolding lookup
  lookup-Kept h file [] size kept e = cc
  lookup-Kept h file ((p, f) ∷ fs) size (named, kept) e =
      elim (Bool-cases (bytes_eq p (make_path s.root h))) [
        | inl same ↦
            let found : Path (Option Bytes) (some f) (some file) = rw same at e in
            let is_file : f ≡ file = cc in
            named h size ((bytes_eq_iff p (make_path s.root h)).0 same) ∙ ap (digest_of s) is_file
        | inr other ↦ lookup-Kept h file fs size kept (rw other at e)
      ]

  -- After any sequence of puts, gets, takes and digests of streams that begins with no files, where the
  -- temporary files are never where a blob could be: a file under the path of a digest of forty
  -- characters has that digest.
  pub operate_all-lookup :
      (os : List Operation) (h file : Bytes)
      → All (TmpIsApart s) os
      → length h ≡ 40
      → lookup (make_path s.root h) (operate_all s os []) ≡ some file
      → decode_hex h ≡ digest_of s file
  operate_all-lookup os h file apart size e =
      lookup-Kept h file (operate_all s os []) size (operate_all-Kept os [] apart tt) e
