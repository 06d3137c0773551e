-- ===== src/FsRipe/Laws.antt =====
-- The modules bc160 and btc20 meet the laws of a digest module, and which digests they take.
use blobio.Base.{
  ◌≡◌, refl, sym, ap, ◌∙◌, inl, inr, true, false, ◌&&◌, Bytes, codes, take, length, ◌==◌,
  if◌then◌else◌, bytes_eq, bytes_eq_iff, Bool-cases, arith,
}
use blobio.FsSha.Paths.{decode_hex}
use blobio.FsSha.Hashes.{Hash, IsHash, IsStorage}
use blobio.FsSha.Kept.{is_digest_text-length}
use blobio.FsRipe.Bc160
use blobio.FsRipe.Bc160.{fs_bc160, all_hex}
use blobio.FsRipe.Btc20
use blobio.FsRipe.Btc20.{fs_btc20}

bc160_digest_length : (h : Bytes) → (Bc160.is_digest h == 0) ≡ false → length h ≡ 40
unfolding Bc160.is_digest
bc160_digest_length h ok = ground arith

btc20_digest_length : (h : Bytes) → (Btc20.is_digest h == 0) ≡ false → length h ≡ 40
unfolding Btc20.is_digest
btc20_digest_length h ok = is_digest_text-length 40 h (ground arith)

module _ (sha256 ripemd160 : Hash) where
  pub fs_bc160-IsStorage :
      IsHash 32 sha256
      → IsHash 20 ripemd160
      → Bc160.final sha256 ripemd160 sha256.init ≡ decode_hex Bc160.empty
      → IsStorage (fs_bc160 sha256 ripemd160)
  fs_bc160-IsStorage sha ripe empty = record {
    update_update = sha.update_update;
    update_nil = sha.update_nil;
    size = λ file. ripe.size (sha256.final (sha256.update sha256.init file));
    empty = empty;
    length-is_digest = bc160_digest_length;
  }

  pub fs_btc20-IsStorage :
      IsHash 32 sha256
      → IsHash 20 ripemd160
      → Btc20.final sha256 ripemd160 sha256.init ≡ decode_hex Btc20.empty_ascii
      → IsStorage (fs_btc20 sha256 ripemd160)
  fs_btc20-IsStorage sha ripe empty = record {
    update_update = sha.update_update;
    update_nil = sha.update_nil;
    size = λ file.
        ripe.size (
          sha256.final (sha256.update sha256.init (sha256.final (sha256.update sha256.init file))));
    empty = empty;
    length-is_digest = btc20_digest_length;
  }

other_first :
    (h : Bytes) → bytes_eq (take 3 h) (codes "da3") ≡ true → bytes_eq h Bc160.empty ≡ false
unfolding bytes_eq
other_first h first = elim (Bool-cases (bytes_eq h Bc160.empty)) [
  | inr other ↦ other
  | inl same ↦ absurd (
      let is_empty = (bytes_eq_iff h Bc160.empty).0 same in
      let no : true ≡ false = sym first ∙ ap (λ l. bytes_eq (take 3 l) (codes "da3")) is_empty in
      cc)
]

-- `fs_bc160_is_digest` takes a text of forty digits in lower case and no other, and says of none that it
-- is the empty digest: it looks for the first characters of the empty digest of sha.
pub is_digest-all_hex :
    (h : Bytes) → Bc160.is_digest h ≡ (if length h == 40 && all_hex h then 1 else 0)
unfolding Bc160.is_digest
is_digest-all_hex h = elim (Bool-cases (length h == 40)) [
  | inr short ↦ rw (short, Bc160.is_digest) refl
  | inl size ↦ elim (Bool-cases (all_hex h)) [
    | inr bad ↦ rw (size, bad, Bc160.is_digest) refl
    | inl good ↦ elim (Bool-cases (bytes_eq (take 3 h) (codes "da3"))) [
      | inr plain ↦ rw (size, good, plain, Bc160.is_digest) refl
      | inl first ↦ rw (size, good, first, other_first h first, Bc160.is_digest) refl
    ]
  ]
]
