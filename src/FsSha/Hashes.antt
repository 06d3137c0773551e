-- ===== src/FsSha/Hashes.antt =====
-- The incremental digests of OpenSSL, which are parameters, and what the digest modules sha, bc160 and
-- btc20 of bio4d/ have of their own.
use blobio.Base.{ℕ, ◌≡◌, ◌≢◌, Bool, [], ◌++◌, Bytes, length, ◌==◌, false}
use blobio.Udig.Hex.{IsDigest}
use blobio.FsSha.Paths.{make_path, decode_hex}

-- An Init, an Update and a Final, such as SHA1_Init, SHA1_Update and SHA1_Final.
pub record Hash : Type 1 where
  pub Context : Type 0
  pub init : Context
  pub update : Context → Bytes → Context
  pub final : Context → Bytes

-- What OpenSSL documents: a context takes a message in parts, and the digest has its size.
pub record IsHash (n : ℕ) (h : Hash) : Type 0 where
  pub update_update :
      (c : Hash.Context h) (a b : Bytes) → h.update (h.update c a) b ≡ h.update c (a ++ b)
  pub update_nil : (c : Hash.Context h) → h.update c [] ≡ c
  pub size : (file : Bytes) → IsDigest n (h.final (h.update h.init file))

-- A digest module: its directory, its empty digest, whether a put that panics on the bytes scanned ahead
-- keeps the temporary file, and the digest of a blob.
pub record Storage : Type 1 where
  pub root : Bytes
  pub empty_ascii : Bytes
  pub keeps_refused : Bool
  pub is_digest : Bytes → ℕ
  pub Context : Type 0
  pub init : Context
  pub update : Context → Bytes → Context
  pub final : Context → Bytes

-- The last laws are the digest of the empty message, and the length of what the module takes as a digest.
pub record IsStorage (s : Storage) : Type 0 where
  pub update_update :
      (c : Storage.Context s) (a b : Bytes) → s.update (s.update c a) b ≡ s.update c (a ++ b)
  pub update_nil : (c : Storage.Context s) → s.update c [] ≡ c
  pub size : (file : Bytes) → IsDigest 20 (s.final (s.update s.init file))
  pub empty : s.final s.init ≡ decode_hex s.empty_ascii
  pub length-is_digest : (h : Bytes) → (s.is_digest h == 0) ≡ false → length h ≡ 40

abbrev pub digest_of : Storage → Bytes → Bytes
digest_of s file = s.final (s.update s.init file)

-- A path that is not that of a blob, such as those of the temporary files.
abbrev pub IsApart : Storage → Bytes → Type 0
IsApart s path = (h : Bytes) → path ≢ make_path s.root h
