-- ===== src/Tests/FsSha.antt =====
-- The store of the module sha, with the count of the bytes in place of OpenSSL's.
use blobio.Base.{
  ◌%◌, ◌<◌, ◌≡◌, refl, Bool, true, false, none, some, List, [], ◌∷◌, ◌++◌, Bytes, codes, All, ◌&&◌,
  ltb, length, append_assoc, bytes_eq, append-nil, arith, is_digit, is_alpha, is_lower,
}
use blobio.Chat
use blobio.Chat.{Request, Status, success, req_write}
use blobio.Udig.Hex.{IsByte, IsDigest}
use blobio.FsSha.Disk.{lookup, unlink, rename}
use blobio.FsSha.Paths.{
  make_path, decode_hex, is_digest, is_digest_text, is_digest_char, empty_ascii,
}
use blobio.FsSha.{fs_sha, put_bytes, put_stream, put_end, put_chunks, get_request, get_bytes}
use blobio.FsSha.Kept.{fs_sha-IsStorage}
use blobio.FsSha.Hashes.{Hash, IsHash, Storage, IsStorage, IsApart, digest_of}
use blobio.FsSha.Sent.{online}
use blobio.FsSha.Received.{received}
use blobio.FsSha.PutGet.{put_bytes-received, put_bytes-get_bytes}
use blobio.FsSha.Runs.{Operation, put, operate, operate_all, operate_all-lookup}

abbrev pub zeros19 : Bytes
zeros19 = 0 ∷ 0 ∷ 0 ∷ 0 ∷ 0 ∷ 0 ∷ 0 ∷ 0 ∷ 0 ∷ 0 ∷ 0 ∷ 0 ∷ 0 ∷ 0 ∷ 0 ∷ 0 ∷ 0 ∷ 0 ∷ 0 ∷ []

abbrev empty_digest : Bytes
empty_digest =
    0xda ∷ 0x39 ∷ 0xa3 ∷ 0xee ∷ 0x5e ∷ 0x6b ∷ 0x4b ∷ 0x0d ∷ 0x32 ∷ 0x55 ∷ 0xbf ∷ 0xef ∷ 0x95 ∷ 0x60
    ∷ 0x18 ∷ 0x90 ∷ 0xaf ∷ 0xd8 ∷ 0x07 ∷ 0x09 ∷ []

-- The count of the bytes, or the digest of the empty blob.
abbrev pub byte_count : Bytes → Bytes
byte_count [] = empty_digest
byte_count (c ∷ cs) = length (c ∷ cs) % 256 ∷ zeros19

abbrev plain : Hash
plain = record { Context = Bytes; init = []; update = λ c b. c ++ b; final = byte_count }

unfoldable pub all_bytes : Bytes → Bool
all_bytes [] = true
all_bytes (b ∷ bs) = ltb b 256 && all_bytes bs

pub all_bytes-IsByte : (d : Bytes) → all_bytes d ≡ true → All IsByte d
unfolding all_bytes
all_bytes-IsByte [] h = tt
all_bytes-IsByte (b ∷ d) h = (ground arith, all_bytes-IsByte d (ground arith))

byte_count-IsDigest : (file : Bytes) → IsDigest 20 (byte_count file)
unfolding all_bytes
byte_count-IsDigest [] = record { size = refl; bytes = all_bytes-IsByte empty_digest refl }
byte_count-IsDigest (c ∷ cs) = record {
  size = refl;
  bytes = (omega arith, all_bytes-IsByte zeros19 refl);
}

empty_digest_decoded : empty_digest ≡ decode_hex empty_ascii
unfolding decode_hex
empty_digest_decoded = refl

plain-IsHash : IsHash 20 plain
plain-IsHash = record {
  update_update = λ c a b. append_assoc c a b;
  update_nil = λ c. append-nil c;
  size = byte_count-IsDigest;
}

-- The module sha over the count of the bytes.
abbrev store : Storage
store = fs_sha plain

store-IsStorage : IsStorage store
store-IsStorage = fs_sha-IsStorage plain plain-IsHash empty_digest_decoded

-- The digest of a blob of two bytes.
abbrev two_digest : Bytes
two_digest = codes "0200000000000000000000000000000000000000"

abbrev tmp_path : Bytes
tmp_path = codes "tmp/put-1"

-- A blob of which one byte was scanned ahead, and the second follows with a third.
abbrev reads_b : List Chat.Read
reads_b = Chat.bytes (codes "b") ∷ Chat.bytes (codes "c") ∷ []

no_tmp : lookup tmp_path [] ≡ none
unfolding lookup
no_tmp = refl

two_received :
    decode_hex two_digest ≡ digest_of store (codes "a" ++ received (Chat.bytes (codes "b") ∷ []))
unfolding decode_hex received
two_received = refl

some_bytes : 0 < length (codes "a" ++ received (Chat.bytes (codes "b") ∷ []))
unfolding received
some_bytes = omega arith

apart : bytes_eq (make_path store.root two_digest) tmp_path ≡ false
unfolding make_path bytes_eq
apart = refl

put_two : (put_bytes store two_digest (codes "a") 1 reads_b tmp_path []).1 ≡ success
unfolding put_bytes put_stream put_end put_chunks lookup decode_hex bytes_eq
put_two = refl

put_bytes-get_bytes_example :
    let after = (put_bytes store two_digest (codes "a") 1 reads_b tmp_path []).0 in
    (file : Bytes) × (get_request store two_digest after ≡ some file)
    × (decode_hex two_digest ≡ digest_of store file)
    × ((rest : Bytes) × (file ++ rest ≡ codes "a" ++ received reads_b))
    × (get_bytes store two_digest file after (online [] [] 0)
        ≡ (after, online [] ([] ++ file) 0, success))
put_bytes-get_bytes_example =
    put_bytes-get_bytes store store-IsStorage two_digest (codes "a") 1 reads_b tmp_path [] [] [] 0
      apart put_two

put_bytes-received_example :
    let after =
      (put_bytes store two_digest (codes "a") 1 (Chat.bytes (codes "b") ∷ []) tmp_path []).0 in
    ((put_bytes store two_digest (codes "a") 1 (Chat.bytes (codes "b") ∷ []) tmp_path []).1
      ≡ success)
    × ((file : Bytes) × (get_request store two_digest after ≡ some file)
        × (decode_hex two_digest ≡ digest_of store file)
        × ((rest : Bytes) × (file ++ rest ≡ codes "a" ++ received (Chat.bytes (codes "b") ∷ [])))
        × (get_bytes store two_digest file after (online [] [] 0)
            ≡ (after, online [] ([] ++ file) 0, success)))
put_bytes-received_example =
    put_bytes-received store store-IsStorage two_digest (codes "a") 1 (Chat.bytes (codes "b") ∷ [])
      tmp_path [] [] [] 0 no_tmp apart refl (omega arith) some_bytes two_received

abbrev one_put : List Operation
one_put = put two_digest (codes "a") 1 reads_b tmp_path ∷ []

tmp_path-IsApart : IsApart store tmp_path
unfolding make_path
tmp_path-IsApart h e = cc

stored : lookup (make_path store.root two_digest) (operate_all store one_put []) ≡ some (codes "ab")
unfolding operate_all operate put_bytes put_stream put_end put_chunks lookup unlink rename make_path
    decode_hex bytes_eq is_digest is_digest_text is_digest_char is_digit is_alpha is_lower
stored = refl

operate_all-lookup_example : decode_hex two_digest ≡ digest_of store (codes "ab")
operate_all-lookup_example =
    operate_all-lookup store store-IsStorage one_put two_digest (codes "ab") (tmp_path-IsApart, tt)
      refl stored
