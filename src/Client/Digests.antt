-- ===== src/Client/Digests.antt =====
-- The digest modules of the client, as the service fs uses them: cli/blobio/sha.c, bc160.c and btc20.c.
use blobio.Base.{
  ℕ, zero, suc, Bool, false, ◌&&◌, ◌||◌, Option, none, some, List, [], ◌∷◌, ◌++◌, Bytes, codes,
  take, drop, ltb, leb, ◌==◌, if◌then◌else◌, bytes_eq,
}
use blobio.Chat
use blobio.FsSha.Hashes.{Storage}
use blobio.Udig.{dig2hex40}

-- What the three modules have of their own: the name, the least size of a buffer that `fs_path` takes,
-- what it puts before the first directory, and the empty digest.
pub record ClientDigest : Type 0 where
  pub algorithm : Bytes
  pub least_size : ℕ
  pub first : Bytes
  pub empty : Bytes

abbrev pub sha_digest : ClientDigest
sha_digest = record {
  algorithm = codes "sha";
  least_size = 48;
  first = [];
  empty = codes "da39a3ee5e6b4b0d3255bfef95601890afd80709";
}

abbrev pub bc160_digest : ClientDigest
bc160_digest = record {
  algorithm = codes "bc160";
  least_size = 49;
  first = codes "/";
  empty = codes "b472a266d0bd89c13706a4132ccfb16f7c3b9fcb";
}

abbrev pub btc20_digest : ClientDigest
btc20_digest = record {
  algorithm = codes "btc20";
  least_size = 49;
  first = [];
  empty = codes "fd7b15dc5dc2039556693555c2b81b36c8deec15";
}

abbrev slash : Bytes
slash = codes "/"

-- The path that is written, and `none` where the buffer is too small.
unfoldable pub fs_path : ClientDigest → ℕ → Bytes → Option Bytes
fs_path d size ascii_digest =
    if ltb size d.least_size
    then none
    else some (
        d.first
        ++ (take 3 ascii_digest
            ++ (slash ++ (take 3 (drop 3 ascii_digest) ++ (slash ++ take 40 ascii_digest)))))

unfoldable pub fs_dir_path : ℕ → Bytes → Option Bytes
fs_dir_path size ascii_digest =
    if ltb size 8
    then none
    else some (take 3 ascii_digest ++ (slash ++ take 3 (drop 3 ascii_digest)))

unfoldable pub fs_name : ℕ → Bytes → Option Bytes
fs_name size ascii_digest = if ltb size 41 then none else some (take 40 ascii_digest)

-- The loop of `syntax`, with how many characters it may still take.
unfoldable pub hex_left : ℕ → Bytes → Bool
hex_left left [] = left == 0
hex_left zero (c ∷ cs) = false
hex_left (suc left) (c ∷ cs) =
    let rest = hex_left left cs in (leb b'0' c && leb c b'9' || leb b'a' c && leb c b'f') && rest

unfoldable pub syntax : ClientDigest → Bytes → ℕ
unfolding hex_left
syntax d ascii_digest =
    if hex_left 40 ascii_digest then (if bytes_eq ascii_digest d.empty then 2 else 1) else 0

module _ (d : Storage) where
  -- The loop of `eat_input`: none where a read fails.
  unfoldable pub eat_reads : Storage.Context d → List Chat.Read → Option (Storage.Context d)
  eat_reads ctx [] = some ctx
  eat_reads ctx (Chat.end_of_file ∷ reads) = some ctx
  eat_reads ctx (Chat.failed ∷ reads) = none
  eat_reads ctx (Chat.bytes [] ∷ reads) = some ctx
  eat_reads ctx (Chat.bytes (c ∷ cs) ∷ reads) = eat_reads (d.update ctx (c ∷ cs)) reads

  abbrev spelled : Option (Storage.Context d) → Option Bytes
  spelled none = none
  spelled (some ctx) = some (dig2hex40 (d.final ctx))

  -- The digest that `eat_input` writes into `ascii_digest`, behind `init`. The loop that spells it is the
  -- one of `dig2hex40`.
  unfoldable pub eat_input : List Chat.Read → Option Bytes
  unfolding eat_reads dig2hex40
  eat_input reads = spelled (eat_reads d.init reads)
