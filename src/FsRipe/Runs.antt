-- ===== src/FsRipe/Runs.antt =====
-- The stores of bc160 and btc20 after any sequence of the operations that change them.
use blobio.Base.{
  ◌≡◌, refl, ap, ◌∙◌, inl, inr, Bool, true, false, Option, none, some, List, [], ◌∷◌, Bytes, length,
  ◌==◌, if◌then◌else◌, Bool-cases, All,
}
use blobio.Chat.{Request, Status}
use blobio.FsSha.Disk.{Files, lookup}
use blobio.FsSha.Paths.{make_path, decode_hex}
use blobio.FsSha.Hashes.{Storage, IsStorage, digest_of}
use blobio.FsSha.{get_request}
use blobio.FsSha.Kept.{Kept}
use blobio.FsSha.Runs
use blobio.FsSha.Runs.{
  Operation, put, get, take, digest, TmpIsApart, get_opened, operate-Kept, lookup-Kept,
}
use blobio.FsRipe.{get_bytes, copy}
use blobio.FsRipe.Trust.{get_bytes-trust, copy-trust}

module _ (s : Storage) where
  unfoldable pub get_found : Bool → Bytes → Request → Files → Option Bytes → Files
  unfolding get_bytes
  get_found trust h r fs none = fs
  get_found trust h r fs (some file) = (get_bytes s trust h file fs r).0

  -- A get may zap a blob, unless it trusts the file system.
  unfoldable pub operate : Bool → Operation → Files → Files
  unfolding get_found get_request Runs.operate
  operate trust (get h r) fs =
      if s.is_digest h == 0 then fs else get_found trust h r fs (get_request s h fs)
  operate trust (put h scan size reads tmp) fs = Runs.operate s (put h scan size reads tmp) fs
  operate trust (take h reply) fs = Runs.operate s (take h reply) fs
  operate trust (digest reads tmp) fs = Runs.operate s (digest reads tmp) fs

  unfoldable pub operate_all : Bool → List Operation → Files → Files
  unfolding operate
  operate_all trust [] fs = fs
  operate_all trust (o ∷ os) fs = operate_all trust os (operate trust o fs)

module _ (s : Storage) (law : IsStorage s) where
  get_found-checked :
      (h : Bytes) (r : Request) (fs : Files) (o : Option Bytes)
      → get_found s false h r fs o ≡ get_opened s h r fs o
  unfolding get_found get_opened get_bytes
  get_found-checked h r fs none = refl
  get_found-checked h r fs (some file) = refl

  operate-checked : (o : Operation) (fs : Files) → operate s false o fs ≡ Runs.operate s o fs
  unfolding operate Runs.operate
  operate-checked (put h scan size reads tmp) fs = refl
  operate-checked (get h r) fs =
      ap (λ after. if s.is_digest h == 0 then fs else after)
        (get_found-checked h r fs (get_request s h fs))
  operate-checked (take h reply) fs = refl
  operate-checked (digest reads tmp) fs = refl

  get_found-trust :
      (h : Bytes) (r : Request) (fs : Files) (o : Option Bytes)
      → ((file : Bytes) → o ≡ some file → decode_hex h ≡ digest_of s file)
      → get_found s true h r fs o ≡ get_found s false h r fs o
  unfolding get_found
  get_found-trust h r fs none good = refl
  get_found-trust h r fs (some file) good =
      ap (λ (a : Files × Request × Status). a.0)
        (get_bytes-trust s law h file fs r (good file refl))

  operate-trust :
      (o : Operation) (fs : Files) → All (Kept s) fs → operate s true o fs ≡ operate s false o fs
  unfolding operate get_request
  operate-trust (put h scan size reads tmp) fs kept = refl
  operate-trust (get h r) fs kept = elim (Bool-cases (s.is_digest h == 0)) [
    | inl bad ↦ rw bad refl
    | inr good ↦ rw good (
        get_found-trust h r fs (get_request s h fs)
          (λ file there. lookup-Kept s law h file fs (law.length-is_digest h good) kept there))
  ]
  operate-trust (take h reply) fs kept = refl
  operate-trust (digest reads tmp) fs kept = refl

  checked-Kept :
      (o : Operation) (fs : Files)
      → TmpIsApart s o
      → All (Kept s) fs
      → All (Kept s) (operate s false o fs)
  checked-Kept o fs here kept = rw (operate-checked o fs) (operate-Kept s law o fs here kept)

  operate_all-Kept :
      (os : List Operation) (fs : Files)
      → All (TmpIsApart s) os
      → All (Kept s) fs
      → All (Kept s) (operate_all s false os fs)
  unfolding operate_all
  operate_all-Kept [] fs apart kept = kept
  operate_all-Kept (o ∷ os) fs (here, apart) kept =
      operate_all-Kept os (operate s false o fs) apart (checked-Kept o fs here kept)

  operate_all-trust :
      (os : List Operation) (fs : Files)
      → All (TmpIsApart s) os
      → All (Kept s) fs
      → operate_all s true os fs ≡ operate_all s false os fs
  unfolding operate_all
  operate_all-trust [] fs apart kept = refl
  operate_all-trust (o ∷ os) fs (here, apart) kept =
      ap (operate_all s true os) (operate-trust o fs kept)
      ∙ operate_all-trust os (operate s false o fs) apart (checked-Kept o fs here kept)

  pub trusted_file :
      (os : List Operation) (h file : Bytes)
      → All (TmpIsApart s) os
      → length h ≡ 40
      → lookup (make_path s.root h) (operate_all s false os []) ≡ some file
      → decode_hex h ≡ digest_of s file
  trusted_file os h file apart size there =
      lookup-Kept s law h file (operate_all s false os []) size (operate_all-Kept os [] apart tt)
        there

  -- A store that begins with no files, and whose temporary files are never where a blob could be, is the
  -- same after any sequence of puts, gets, takes and digests of streams, whether its gets trust the file
  -- system or check the digest; and a get and a copy of a blob of it with a digest of forty characters do
  -- the same in both modes, whatever becomes of their writes.
  pub trust-operate_all :
      (os : List Operation) (h file : Bytes) (r : Request) (writes : List Bool)
      → All (TmpIsApart s) os
      → length h ≡ 40
      → lookup (make_path s.root h) (operate_all s false os []) ≡ some file
      → let fs = operate_all s false os [] in
        (operate_all s true os [] ≡ fs)
        × (get_bytes s true h file fs r ≡ get_bytes s false h file fs r)
        × (copy s true h fs writes ≡ copy s false h fs writes)
  unfolding get_request
  trust-operate_all os h file r writes apart size there =
      let good = trusted_file os h file apart size there in
      let fs = operate_all s false os [] in
      (
        operate_all-trust os [] apart tt,
        get_bytes-trust s law h file fs r good,
        copy-trust s law h file fs writes there good,
      )
