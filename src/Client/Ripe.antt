-- ===== src/Client/Ripe.antt =====
-- The functions of the digest modules bc160 and btc20 of the client, cli/blobio/bc160.c and btc20.c, which
-- differ from those of sha in the constants and in the digest.
use blobio.Base.{ℕ, Bool, Option, List, Bytes, bytes_eq}
use blobio.Chat
use blobio.FsSha.Hashes.{Hash}
use blobio.FsRipe.Bc160.{fs_bc160}
use blobio.FsRipe.Btc20.{fs_btc20}
use blobio.Client.Digests.{bc160_digest, btc20_digest, fs_path, syntax, eat_input}
use blobio.Client.Session.{chewed}

abbrev pub bc160_fs_path : ℕ → Bytes → Option Bytes
bc160_fs_path = fs_path bc160_digest

abbrev pub btc20_fs_path : ℕ → Bytes → Option Bytes
btc20_fs_path = fs_path btc20_digest

abbrev pub bc160_syntax : Bytes → ℕ
bc160_syntax = syntax bc160_digest

abbrev pub btc20_syntax : Bytes → ℕ
btc20_syntax = syntax btc20_digest

abbrev pub bc160_empty : Bytes → Bool
bc160_empty ascii_digest = bytes_eq bc160_digest.empty ascii_digest

abbrev pub btc20_empty : Bytes → Bool
btc20_empty ascii_digest = bytes_eq btc20_digest.empty ascii_digest

-- The contexts hold the SHA256 of what came; what they hold besides is taken at the end. `chewed` is the
-- result `0` of a chew, behind its update.
module _ (sha256 ripemd160 : Hash) where
  abbrev pub bc160_chew : Bytes → Hash.Context sha256 → Bool
  bc160_chew = chewed (fs_bc160 sha256 ripemd160)

  abbrev pub btc20_chew : Bytes → Hash.Context sha256 → Bool
  btc20_chew = chewed (fs_btc20 sha256 ripemd160)

  abbrev pub bc160_eat_input : List Chat.Read → Option Bytes
  bc160_eat_input = eat_input (fs_bc160 sha256 ripemd160)

  abbrev pub btc20_eat_input : List Chat.Read → Option Bytes
  btc20_eat_input = eat_input (fs_btc20 sha256 ripemd160)
