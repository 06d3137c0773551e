-- ===== src/FsRipe/Eaten.antt =====
-- What an eat of bc160 and btc20 does with a blob that is there.
use blobio.Base.{ℕ, ◌≡◌, refl, sym, ◌∙◌, true, false, some, List, [], ◌∷◌, ◌++◌, Bytes, length, ltb}
use blobio.FsSha.Disk.{Files}
use blobio.FsSha.Hashes.{Hash, IsHash, Storage}
use blobio.FsSha.{chew, chunks, get_request}
use blobio.FsSha.Sent.{joined}
use blobio.FsRipe.{eaten, overrun, eat, eat_opened, eat_trusted}
use blobio.FsRipe.Bc160
use blobio.FsRipe.Bc160.{fs_bc160}
use blobio.FsRipe.Btc20
use blobio.FsRipe.Btc20.{fs_btc20}

module _ (s : Storage)
    (update_update : (c : Storage.Context s) (a b : Bytes)
      → s.update (s.update c a) b ≡ s.update c (a ++ b))
    (update_nil : (c : Storage.Context s) → s.update c [] ≡ c) where
  chew-joined :
      (cs : List Bytes) (ctx : Storage.Context s) → chew s cs ctx ≡ s.update ctx (joined cs)
  unfolding chew joined
  chew-joined [] ctx = sym (update_nil ctx)
  chew-joined (chunk ∷ cs) ctx =
      chew-joined cs (s.update ctx chunk) ∙ update_update ctx chunk (joined cs)

  eat_found :
      (size : ℕ) (sha_digest : Storage.Context s → Bytes) (h file : Bytes) (fs : Files)
      → ((b : Bytes) → ltb size (length (sha_digest (s.update s.init b))) ≡ true)
      → get_request s h fs ≡ some file
      → (eat s size sha_digest false h fs ≡ overrun) × (eat s size sha_digest true h fs ≡ eaten)
  unfolding eat eat_opened eat_trusted
  eat_found size sha_digest h file fs long there =
      let read = chew-joined (chunks (length file) file) s.init in
      (rw (there, eat, read, long (joined (chunks (length file) file))) refl, rw (there, eat) refl)

module _ (sha256 ripemd160 : Hash) (law : IsHash 32 sha256) where
  longer : (b : Bytes) → ltb 20 (length (sha256.final (sha256.update sha256.init b))) ≡ true
  longer b = rw (law.size b).size refl

  -- An eat of a blob that is there, where the file system is not trusted, writes the 32 bytes of its SHA256
  -- into an array of 20, in both modules; where it is trusted, the blob is eaten unread.
  pub eat_overrun :
      (h file h' file' : Bytes) (fs : Files)
      → get_request (fs_bc160 sha256 ripemd160) h fs ≡ some file
      → get_request (fs_btc20 sha256 ripemd160) h' fs ≡ some file'
      → (Bc160.eat sha256 ripemd160 false h fs ≡ overrun)
        × (Bc160.eat sha256 ripemd160 true h fs ≡ eaten)
        × (Btc20.eat sha256 ripemd160 false h' fs ≡ overrun)
        × (Btc20.eat sha256 ripemd160 true h' fs ≡ eaten)
  eat_overrun h file h' file' fs there there' =
      let bc160 =
        eat_found (fs_bc160 sha256 ripemd160) law.update_update law.update_nil 20 sha256.final h
          file fs longer there in
      let btc20 =
        eat_found (fs_btc20 sha256 ripemd160) law.update_update law.update_nil 20 sha256.final h'
          file' fs longer there' in
      (bc160.0, bc160.1, btc20.0, btc20.1)
