-- ===== src/FsRipe/Bc160.antt =====
-- The module bc160: bio4d/fs_bc160.c.
use blobio.Base.{
  ℕ, Bool, true, not, ◌&&◌, ◌||◌, Option, List, [], ◌∷◌, Bytes, codes, take, length, leb, ◌==◌,
  if◌then◌else◌, bytes_eq,
}
use blobio.Chat
use blobio.Chat.{Request, Status}
use blobio.FsSha
use blobio.FsSha.Paths
use blobio.FsSha.Disk.{Files}
use blobio.FsSha.Hashes.{Hash, Storage}
use blobio.FsSha.Copy.{Copy}
use blobio.FsRipe
use blobio.FsRipe.{Eat}

abbrev pub fs_bc160_root : Bytes
fs_bc160_root = codes "data/fs_bc160"

abbrev pub empty : Bytes
empty = codes "b472a266d0bd89c13706a4132ccfb16f7c3b9fcb"

-- The characters of the loop of `fs_bc160_is_digest`, one after the other.
unfoldable pub all_hex : Bytes → Bool
all_hex [] = true
all_hex (c ∷ cs) = (leb b'0' c && leb c b'9' || leb b'a' c && leb c b'f') && all_hex cs

unfoldable pub is_digest : Bytes → ℕ
unfolding all_hex
is_digest digest =
    if not (length digest == 40)
    then 0
    else if not (all_hex digest)
    then 0
    else if bytes_eq (take 3 digest) (codes "da3")
    then (if bytes_eq digest empty then 2 else 1)
    else 1

abbrev pub make_path : Bytes → Bytes
make_path = Paths.make_path fs_bc160_root

abbrev pub open_request : Bytes → Bytes → Bytes
open_request = FsRipe.open_request

module _ (sha256 ripemd160 : Hash) where
  -- RIPEMD160 of the SHA256 of what was read.
  abbrev pub final : Hash.Context sha256 → Bytes
  final ctx = ripemd160.final (ripemd160.update ripemd160.init (sha256.final ctx))

  abbrev pub fs_bc160 : Storage
  fs_bc160 = record {
    root = fs_bc160_root;
    empty_ascii = empty;
    keeps_refused = true;
    is_digest = is_digest;
    Context = Hash.Context sha256;
    init = sha256.init;
    update = sha256.update;
    final = final;
  }

  -- The callbacks of `fs_bc160_module`. A take gets its bytes as a get does, a give puts them as a put
  -- does, and `put_request`, `give_request` and `give_reply` do nothing.
  abbrev pub get_request : Bytes → Files → Option Bytes
  get_request = FsSha.get_request fs_bc160

  abbrev pub get_bytes : Bool → Bytes → Bytes → Files → Request → Files × Request × Status
  get_bytes = FsRipe.get_bytes fs_bc160

  abbrev pub copy : Bool → Bytes → Files → List Bool → Bytes × Copy
  copy = FsRipe.copy fs_bc160

  -- `sha_digest[20]`
  abbrev pub eat : Bool → Bytes → Files → Eat
  eat = FsRipe.eat fs_bc160 20 sha256.final

  abbrev pub put_bytes : Bytes → Bytes → ℕ → List Chat.Read → Bytes → Files → Files × Status
  put_bytes = FsSha.put_bytes fs_bc160

  abbrev pub take_reply : Bytes → Bytes → Files → Files × Status
  take_reply = FsSha.take_reply fs_bc160

  abbrev pub digest_stream : List Chat.Read → Bytes → Files → Files × Bytes × Status
  digest_stream = FsSha.digest_stream fs_bc160
