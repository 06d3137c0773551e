-- ===== src/FsRipe/Btc20.antt =====
-- The module btc20: bio4d/fs_btc20.c.
use blobio.Base.{ℕ, Bool, true, not, Option, List, Bytes, codes, take, if◌then◌else◌, bytes_eq}
use blobio.Chat
use blobio.Chat.{Request, Status}
use blobio.FsSha
use blobio.FsSha.Paths
use blobio.FsSha.Disk.{Files}
use blobio.FsSha.Paths.{is_digest_text}
use blobio.FsSha.Hashes.{Hash, Storage}
use blobio.FsSha.Copy.{Copy}
use blobio.FsRipe
use blobio.FsRipe.{Eat}

abbrev pub fs_btc20_root : Bytes
fs_btc20_root = codes "data/fs_btc20"

abbrev pub empty_ascii : Bytes
empty_ascii = codes "fd7b15dc5dc2039556693555c2b81b36c8deec15"

-- Forty digits and then the null; `fd7` may begin the empty digest.
unfoldable pub is_digest : Bytes → ℕ
unfolding is_digest_text
is_digest digest =
    if not (is_digest_text 40 digest)
    then 0
    else if bytes_eq (take 3 digest) (codes "fd7")
    then (if bytes_eq digest empty_ascii then 2 else 1)
    else 1

abbrev pub make_path : Bytes → Bytes
make_path = Paths.make_path fs_btc20_root

abbrev pub open_request : Bytes → Bytes → Bytes
open_request = FsRipe.open_request

module _ (sha256 ripemd160 : Hash) where
  -- RIPEMD160 of the SHA256 of the SHA256 of what was read.
  abbrev pub final : Hash.Context sha256 → Bytes
  final ctx =
      let sha_sha_digest = sha256.final (sha256.update sha256.init (sha256.final ctx)) in
      ripemd160.final (ripemd160.update ripemd160.init sha_sha_digest)

  abbrev pub fs_btc20 : Storage
  fs_btc20 = record {
    root = fs_btc20_root;
    empty_ascii = empty_ascii;
    keeps_refused = true;
    is_digest = is_digest;
    Context = Hash.Context sha256;
    init = sha256.init;
    update = sha256.update;
    final = final;
  }

  -- The callbacks of `fs_btc20_module`. A take gets its bytes as a get does, a give puts them as a put
  -- does, and `put_request`, `give_request` and `give_reply` do nothing.
  abbrev pub get_request : Bytes → Files → Option Bytes
  get_request = FsSha.get_request fs_btc20

  abbrev pub get_bytes : Bool → Bytes → Bytes → Files → Request → Files × Request × Status
  get_bytes = FsRipe.get_bytes fs_btc20

  abbrev pub copy : Bool → Bytes → Files → List Bool → Bytes × Copy
  copy = FsRipe.copy fs_btc20

  -- `sha_digest[20]`
  abbrev pub eat : Bool → Bytes → Files → Eat
  eat = FsRipe.eat fs_btc20 20 sha256.final

  abbrev pub put_bytes : Bytes → Bytes → ℕ → List Chat.Read → Bytes → Files → Files × Status
  put_bytes = FsSha.put_bytes fs_btc20

  abbrev pub take_reply : Bytes → Bytes → Files → Files × Status
  take_reply = FsSha.take_reply fs_btc20

  abbrev pub digest_stream : List Chat.Read → Bytes → Files → Files × Bytes × Status
  digest_stream = FsSha.digest_stream fs_btc20
