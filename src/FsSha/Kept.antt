-- ===== src/FsSha/Kept.antt =====
-- What the files of the store hold.
use blobio.FsSha.Hashes.{Hash, IsHash, IsStorage, Storage, digest_of}
use blobio.Base.{
  ℕ, zero, suc, ap, sym, ◌∙◌, ◌+◌, take, append_assoc, zero_add, suc_add, ◌*◌, ◌/◌, ◌%◌, ◌≡◌, refl,
  inl, inr, true, false, [], ◌∷◌, ◌++◌, Bytes, length, drop, ◌==◌, ==_iff, bytes_eq, bytes_eq_refl,
  Bool-cases, All, all_below, below, arith,
}
use Prim.Native.Nat.{bit_or}
use blobio.Udig.{nib2hex, dig2hex40}
use blobio.Udig.Hex.{IsByte}
use blobio.FsSha.Disk.{Files, lookup, unlink, rename}
use blobio.FsSha.Paths.{make_path, decode_hex, nibble, is_digest, is_digest_text, empty_ascii}
use blobio.FsSha.{fs_sha}

-- A file of the store: if its path is that of a digest of forty characters, it has that digest.
abbrev pub Kept : Storage → Bytes × Bytes → Type 0
Kept s (path, file) =
    (h : Bytes) → length h ≡ 40 → path ≡ make_path s.root h → decode_hex h ≡ digest_of s file

pub unlink-All :
    (P : Bytes × Bytes → Type 0) (path : Bytes) (fs : Files) → All P fs → All P (unlink path fs)
unfolding unlink
unlink-All P path [] h = tt
unlink-All P path ((p, file) ∷ fs) (h, hs) = elim (Bool-cases (bytes_eq p path)) [
  | inl same ↦ rw same (unlink-All P path fs hs)
  | inr other ↦ rw other (h, unlink-All P path fs hs)
]

pub rename_made :
    (tmp_path tgt file : Bytes) (fs : Files)
    → rename tmp_path tgt ((tmp_path, file) ∷ fs) ≡ (tgt, file) ∷ unlink tgt (unlink tmp_path fs)
unfolding rename lookup unlink
rename_made tmp_path tgt file fs = rw (bytes_eq_refl tmp_path) refl

pub unlink_made :
    (tmp_path file : Bytes) (fs : Files)
    → unlink tmp_path ((tmp_path, file) ∷ fs) ≡ unlink tmp_path fs
unfolding unlink
unlink_made tmp_path file fs = rw (bytes_eq_refl tmp_path) refl

drop_root : (root rest : Bytes) (n : ℕ) → drop (length root + n) (root ++ rest) ≡ drop n rest
drop_root [] rest n = rw (zero_add n) refl
drop_root (c ∷ root) rest n = rw (suc_add (length root) n) (drop_root root rest n)

-- What a path has between its directory and its digest.
abbrev middle : Bytes → Bytes
middle h = b'/' ∷ take 3 h ++ b'/' ∷ take 3 (drop 3 h) ++ b'/' ∷ []

drop-middle : (h : Bytes) → length h ≡ 40 → drop 9 (middle h ++ h) ≡ h
drop-middle (a ∷ b ∷ c ∷ d ∷ e ∷ f ∷ h) size = refl
drop-middle (a ∷ b ∷ c ∷ d ∷ e ∷ []) size = absurd (omega arith)
drop-middle (a ∷ b ∷ c ∷ d ∷ []) size = absurd (omega arith)
drop-middle (a ∷ b ∷ c ∷ []) size = absurd (omega arith)
drop-middle (a ∷ b ∷ []) size = absurd (omega arith)
drop-middle (a ∷ []) size = absurd (omega arith)
drop-middle [] size = absurd (omega arith)

make_path_parts : (root h : Bytes) → make_path root h ≡ root ++ (middle h ++ h)
unfolding make_path
make_path_parts root h = simp append_assoc

path_digest : (root h : Bytes) → length h ≡ 40 → drop (length root + 9) (make_path root h) ≡ h
path_digest root h size =
    ap (drop (length root + 9)) (make_path_parts root h)
    ∙ drop_root root (middle h ++ h) 9
    ∙ drop-middle h size

pub make_path_injective :
    (root h h' : Bytes)
    → length h ≡ 40
    → length h' ≡ 40
    → make_path root h ≡ make_path root h'
    → h ≡ h'
make_path_injective root h h' size size' same =
    sym (path_digest root h size) ∙ ap (drop (length root + 9)) same ∙ path_digest root h' size'

byte_table :
    all_below 256
      (λ d. bit_or (nibble (nib2hex (d / 16 % 16)) * 16 % 256) (nibble (nib2hex (d % 16))) == d)
    ≡ true
unfolding all_below nib2hex
byte_table = refl

pub decode_hex-dig2hex40 : (d : Bytes) → All IsByte d → decode_hex (dig2hex40 d) ≡ d
unfolding decode_hex dig2hex40
decode_hex-dig2hex40 [] h = refl
decode_hex-dig2hex40 (b ∷ d) (lt, h) =
    let this =
      (==_iff (bit_or (nibble (nib2hex (b / 16 % 16)) * 16 % 256) (nibble (nib2hex (b % 16)))) b).0
        (below 256 b
          (λ d. bit_or (nibble (nib2hex (d / 16 % 16)) * 16 % 256) (nibble (nib2hex (d % 16))) == d)
          byte_table lt) in
    rw (this, decode_hex-dig2hex40 d h) refl

pub length-dig2hex40 : (d : Bytes) → length (dig2hex40 d) ≡ 2 * length d
unfolding dig2hex40
length-dig2hex40 [] = refl
length-dig2hex40 (b ∷ d) = omega (arith, length-dig2hex40 d)

pub is_digest_text-length : (n : ℕ) (t : Bytes) → is_digest_text n t ≡ true → length t ≡ n
unfolding is_digest_text
is_digest_text-length zero [] h = refl
is_digest_text-length zero (c ∷ t) h = cc
is_digest_text-length (suc n) [] h = cc
is_digest_text-length (suc n) (c ∷ t) h = ground (arith, is_digest_text-length n t)

is_digest-length : (h : Bytes) → (is_digest h == 0) ≡ false → length h ≡ 40
unfolding is_digest
is_digest-length h ok = is_digest_text-length 40 h (ground arith)

-- The module sha over a SHA1 whose digest of the empty message is `empty_ascii`.
pub fs_sha-IsStorage :
    (sha1 : Hash)
    → IsHash 20 sha1
    → sha1.final sha1.init ≡ decode_hex empty_ascii
    → IsStorage (fs_sha sha1)
fs_sha-IsStorage sha1 law empty = record {
  update_update = law.update_update;
  update_nil = law.update_nil;
  size = law.size;
  empty = empty;
  length-is_digest = is_digest-length;
}
