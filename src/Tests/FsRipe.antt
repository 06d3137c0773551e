-- ===== src/Tests/FsRipe.antt =====
-- The stores of bc160 and btc20, with the count of the bytes in place of OpenSSL's digests.
use blobio.Base.{
  zero, suc, ◌%◌, ◌≡◌, refl, ap, sym, ◌∙◌, true, false, some, List, [], ◌∷◌, ◌++◌, Bytes, codes,
  All, length, append_assoc, bytes_eq, append-nil, ◌==◌, arith, is_digit, is_alpha, is_lower,
}
use blobio.Chat
use blobio.Chat.{Request, Status, success}
use blobio.Udig.Hex.{IsByte, IsDigest}
use blobio.Verbs
use blobio.Verbs.{DigestModule}
use blobio.FsSha.Disk.{Files, lookup, unlink, rename}
use blobio.FsSha.Paths.{make_path, decode_hex, is_digest_text, is_digest_char}
use blobio.FsSha.Hashes.{Hash, IsHash, Storage, IsStorage, IsApart}
use blobio.FsSha.{put_bytes, put_stream, put_end, put_chunks, get_request}
use blobio.FsSha.Sent.{online}
use blobio.FsSha.Runs
use blobio.FsSha.Runs.{Operation, put, TmpIsApart}
use blobio.FsRipe
use blobio.FsRipe.{eaten, overrun}
use blobio.FsRipe.Bc160
use blobio.FsRipe.Bc160.{fs_bc160}
use blobio.FsRipe.Btc20
use blobio.FsRipe.Btc20.{fs_btc20}
use blobio.FsRipe.Laws.{fs_bc160-IsStorage}
use blobio.FsRipe.Runs.{operate, operate_all, trust-operate_all}
use blobio.FsRipe.Eaten.{eat_overrun}
use blobio.FsRipe.Served.{Serves, opened, without_files, reply, chat, get_status, get-operate_all}
use blobio.Tests.FsSha.{zeros19, all_bytes, all_bytes-IsByte}

-- The count of the bytes, in 32 bytes.
abbrev pub wide : Bytes → Bytes
wide b = length b % 256 ∷ 1 ∷ 0 ∷ 0 ∷ 0 ∷ 0 ∷ 0 ∷ 0 ∷ 0 ∷ 0 ∷ 0 ∷ 0 ∷ 0 ∷ zeros19

abbrev pub sha256 : Hash
sha256 = record { Context = Bytes; init = []; update = λ c b. c ++ b; final = wide }

wide_rest : All IsByte (1 ∷ 0 ∷ 0 ∷ 0 ∷ 0 ∷ 0 ∷ 0 ∷ 0 ∷ 0 ∷ 0 ∷ 0 ∷ 0 ∷ zeros19)
unfolding all_bytes
wide_rest = all_bytes-IsByte (1 ∷ 0 ∷ 0 ∷ 0 ∷ 0 ∷ 0 ∷ 0 ∷ 0 ∷ 0 ∷ 0 ∷ 0 ∷ 0 ∷ zeros19) refl

sha256-IsHash : IsHash 32 sha256
sha256-IsHash = record {
  update_update = λ c a b. append_assoc c a b;
  update_nil = λ c. append-nil c;
  size = λ file. record { size = refl; bytes = (omega arith, wide_rest) };
}

-- The digest of the empty blob where the count is 0, else the count.
abbrev pub empty_digest : Bytes
empty_digest =
    0xb4 ∷ 0x72 ∷ 0xa2 ∷ 0x66 ∷ 0xd0 ∷ 0xbd ∷ 0x89 ∷ 0xc1 ∷ 0x37 ∷ 0x06 ∷ 0xa4 ∷ 0x13 ∷ 0x2c ∷ 0xcf
    ∷ 0xb1 ∷ 0x6f ∷ 0x7c ∷ 0x3b ∷ 0x9f ∷ 0xcb ∷ []

abbrev pub narrow : Bytes → Bytes
narrow [] = empty_digest
narrow (zero ∷ b) = empty_digest
narrow (suc n ∷ b) = suc n % 256 ∷ zeros19

abbrev pub ripemd160 : Hash
ripemd160 = record { Context = Bytes; init = []; update = λ c b. c ++ b; final = narrow }

empty_digest-IsDigest : IsDigest 20 empty_digest
unfolding all_bytes
empty_digest-IsDigest = record { size = refl; bytes = all_bytes-IsByte empty_digest refl }

narrow-IsDigest : (b : Bytes) → IsDigest 20 (narrow b)
unfolding all_bytes
narrow-IsDigest [] = empty_digest-IsDigest
narrow-IsDigest (zero ∷ b) = empty_digest-IsDigest
narrow-IsDigest (suc n ∷ b) = record {
  size = refl;
  bytes = (omega arith, all_bytes-IsByte zeros19 refl);
}

ripemd160-IsHash : IsHash 20 ripemd160
ripemd160-IsHash = record {
  update_update = λ c a b. append_assoc c a b;
  update_nil = λ c. append-nil c;
  size = narrow-IsDigest;
}

empty_decoded : Bc160.final sha256 ripemd160 [] ≡ decode_hex Bc160.empty
unfolding decode_hex
empty_decoded = refl

abbrev pub store : Storage
store = fs_bc160 sha256 ripemd160

pub store-IsStorage : IsStorage store
store-IsStorage = fs_bc160-IsStorage sha256 ripemd160 sha256-IsHash ripemd160-IsHash empty_decoded

-- The digest of a blob of two bytes, in both modules.
abbrev pub two_digest : Bytes
two_digest = codes "0200000000000000000000000000000000000000"

abbrev pub tmp_path : Bytes
tmp_path = codes "tmp/put-1"

pub tmp_path-IsApart : IsApart store tmp_path
unfolding make_path
tmp_path-IsApart h e = cc

abbrev pub one_put : List Operation
one_put = put two_digest (codes "a") 1 (Chat.bytes (codes "b") ∷ []) tmp_path ∷ []

pub stored :
    lookup (make_path store.root two_digest) (operate_all store false one_put [])
    ≡ some (codes "ab")
unfolding operate_all operate Runs.operate put_bytes put_stream put_end put_chunks lookup unlink
    rename make_path decode_hex bytes_eq Bc160.is_digest is_digest_text is_digest_char is_digit
    is_alpha is_lower
stored = refl

trust-operate_all_example :
    let fs = operate_all store false one_put [] in
    let r = online [] [] 0 in
    (operate_all store true one_put [] ≡ fs)
    × (FsRipe.get_bytes store true two_digest (codes "ab") fs r
        ≡ FsRipe.get_bytes store false two_digest (codes "ab") fs r)
    × (FsRipe.copy store true two_digest fs (true ∷ false ∷ [])
        ≡ FsRipe.copy store false two_digest fs (true ∷ false ∷ []))
trust-operate_all_example =
    trust-operate_all store store-IsStorage one_put two_digest (codes "ab") (online [] [] 0)
      (true ∷ false ∷ []) (tmp_path-IsApart, tt) refl stored

abbrev both : Files
both =
    (make_path (codes "data/fs_bc160") two_digest, codes "ab")
    ∷ (make_path (codes "data/fs_btc20") two_digest, codes "cd")
    ∷ []

in_bc160 : get_request (fs_bc160 sha256 ripemd160) two_digest both ≡ some (codes "ab")
unfolding get_request lookup make_path bytes_eq
in_bc160 = refl

in_btc20 : get_request (fs_btc20 sha256 ripemd160) two_digest both ≡ some (codes "cd")
unfolding get_request lookup make_path bytes_eq
in_btc20 = refl

eat_overrun_example :
    (Bc160.eat sha256 ripemd160 false two_digest both ≡ overrun)
    × (Bc160.eat sha256 ripemd160 true two_digest both ≡ eaten)
    × (Btc20.eat sha256 ripemd160 false two_digest both ≡ overrun)
    × (Btc20.eat sha256 ripemd160 true two_digest both ≡ eaten)
eat_overrun_example =
    eat_overrun sha256 ripemd160 sha256-IsHash two_digest (codes "ab") two_digest (codes "cd") both
      in_bc160 in_btc20

abbrev pub refused : Request → Request × Status
refused r = (r, Chat.error)

-- The callbacks of a get of the blob of two bytes, which checks the digest.
abbrev pub getting : DigestModule
getting =
    let fs = operate_all store false one_put [] in
    record {
      is_digest = Bc160.is_digest;
      get_request = λ r. (r, opened (get_request store two_digest fs));
      get_bytes = λ r. without_files (FsRipe.get_bytes store false two_digest (codes "ab") fs r);
      take_request = refused;
      take_bytes = refused;
      take_reply = λ a r. (r, Chat.error);
      put_request = refused;
      put_bytes = refused;
      give_request = refused;
      give_bytes = refused;
      give_reply = λ a r. (r, Chat.error);
      eat = refused;
    }

the_file :
    (file : Bytes)
    → get_request store two_digest (operate_all store false one_put []) ≡ some file
    → codes "ab" ≡ file
unfolding get_request
the_file file there = (let found : some (codes "ab") ≡ some file = sym stored ∙ there in cc)

pub getting-Serves : Serves store false two_digest (operate_all store false one_put []) getting
getting-Serves = record {
  is_digest = refl;
  get_request = λ r. refl;
  get_bytes = λ r file there.
      ap
        (λ b.
          without_files
            (FsRipe.get_bytes store false two_digest b (operate_all store false one_put []) r))
        (the_file file there);
}

get-operate_all_example :
    let empty = Bc160.is_digest two_digest == 2 in
    let o = get_request store two_digest (operate_all store false one_put []) in
    Verbs.get getting two_digest (online [] [] 0)
    ≡ (online (chat empty o) (reply empty o) (get_status 0), success)
get-operate_all_example =
    get-operate_all store store-IsStorage false one_put two_digest getting 0 (tmp_path-IsApart, tt)
      refl getting-Serves
