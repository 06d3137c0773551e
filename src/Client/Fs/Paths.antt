-- ===== src/Client/Fs/Paths.antt =====
-- The path of a blob in the service fs is the path that the server has for it.
use blobio.Base.{
  ℕ, zero, suc, ◌-◌, ◌≡◌, refl, ap, sym, ◌∙◌, Bool, true, false, some, List, [], ◌∷◌, ◌++◌, Bytes,
  codes, take, drop, length, ◌==◌, All, arith, append_assoc,
}
use blobio.FsSha.Paths.{make_path, fs_sha_root}
use blobio.FsRipe.Bc160.{fs_bc160_root}
use blobio.FsRipe.Btc20.{fs_btc20_root}
use blobio.Wrap.Rolled.{IsStrcat}
use blobio.Client.Digests.{
  ClientDigest, sha_digest, bc160_digest, btc20_digest, fs_path, fs_dir_path,
}
use blobio.Client.Fs.{resolve, fs_blob_path, blob_root}

-- The three modules: that of the client, and the directory that the server has for it.
pub data DigestKind : Type 0 where
  sha bc160 btc20 : DigestKind

abbrev pub client_digest : DigestKind → ClientDigest
client_digest sha = sha_digest
client_digest bc160 = bc160_digest
client_digest btc20 = btc20_digest

abbrev pub server_root : DigestKind → Bytes
server_root sha = fs_sha_root
server_root bc160 = fs_bc160_root
server_root btc20 = fs_btc20_root

-- Forty characters, none of them a slash.
pub record IsPlain (ascii_digest : Bytes) : Type 0 where
  pub size : length ascii_digest ≡ 40
  pub no_slash : All (λ c. (c == b'/') ≡ false) ascii_digest

resolve_plain :
    (xs ys : Bytes)
    → All (λ c. (c == b'/') ≡ false) xs
    → resolve false (xs ++ ys) ≡ xs ++ resolve false ys
unfolding resolve
resolve_plain [] ys plain = refl
resolve_plain (x ∷ xs) ys (p, ps) = rw p (ap (λ r. x ∷ r) (resolve_plain xs ys ps))

resolve_after :
    (after : Bool) (c : ℕ) (cs : Bytes)
    → (c == b'/') ≡ false
    → resolve after (c ∷ cs) ≡ resolve false (c ∷ cs)
unfolding resolve
resolve_after true c cs p = rw p refl
resolve_after false c cs p = refl

resolve_all : (xs : Bytes) → All (λ c. (c == b'/') ≡ false) xs → resolve false xs ≡ xs
unfolding resolve
resolve_all [] plain = refl
resolve_all (x ∷ xs) (p, ps) = rw p (ap (λ r. x ∷ r) (resolve_all xs ps))

take_whole : (n : ℕ) (xs : Bytes) → length xs ≡ n → take n xs ≡ xs
take_whole zero [] size = refl
take_whole zero (x ∷ xs) size = absurd (omega (arith, size))
take_whole (suc n) [] size = absurd (omega (arith, size))
take_whole (suc n) (x ∷ xs) size = ap (λ l. x ∷ l) (take_whole n xs (omega (arith, size)))

abbrev body : Bytes → Bytes
body h = take 3 h ++ (codes "/" ++ (take 3 (drop 3 h) ++ (codes "/" ++ h)))

resolve_run :
    (after : Bool) (x : ℕ) (xs ys : Bytes)
    → All (λ c. (c == b'/') ≡ false) (x ∷ xs)
    → resolve after ((x ∷ xs) ++ ys) ≡ (x ∷ xs) ++ resolve false ys
resolve_run after x xs ys plain =
    resolve_after after x (xs ++ ys) plain.0 ∙ resolve_plain (x ∷ xs) ys plain

resolve_slash : (ys : Bytes) → resolve false (codes "/" ++ ys) ≡ codes "/" ++ resolve true ys
unfolding resolve
resolve_slash ys = refl

-- Three characters, three, and the rest, each behind a slash but the first.
resolve_parts :
    (after : Bool) (a b c e f g : ℕ) (h : Bytes)
    → All (λ c. (c == b'/') ≡ false) (a ∷ b ∷ c ∷ [])
    → All (λ c. (c == b'/') ≡ false) (e ∷ f ∷ g ∷ [])
    → resolve true h ≡ h
    → resolve after ((a ∷ b ∷ c ∷ []) ++ (codes "/" ++ ((e ∷ f ∷ g ∷ []) ++ (codes "/" ++ h))))
      ≡ (a ∷ b ∷ c ∷ []) ++ (codes "/" ++ ((e ∷ f ∷ g ∷ []) ++ (codes "/" ++ h)))
resolve_parts after a b c e f g h first second same =
    let tail = (e ∷ f ∷ g ∷ []) ++ (codes "/" ++ h) in
    let end : resolve true tail ≡ tail =
      resolve_run true e (f ∷ g ∷ []) (codes "/" ++ h) second
      ∙ ap (λ r. (e ∷ f ∷ g ∷ []) ++ r) (resolve_slash h ∙ ap (λ r. codes "/" ++ r) same) in
    resolve_run after a (b ∷ c ∷ []) (codes "/" ++ tail) first
    ∙ ap (λ r. (a ∷ b ∷ c ∷ []) ++ r) (resolve_slash tail ∙ ap (λ r. codes "/" ++ r) end)

resolve-body : (after : Bool) (h : Bytes) → IsPlain h → resolve after (body h) ≡ body h
resolve-body after (a ∷ b ∷ c ∷ e ∷ f ∷ g ∷ rest) h =
    let (pa, (pb, (pc, (pe, (pf, (pg, ps)))))) = h.no_slash in
    let all = a ∷ b ∷ c ∷ e ∷ f ∷ g ∷ rest in
    resolve_parts after a b c e f g all (pa, (pb, (pc, tt))) (pe, (pf, (pg, tt)))
      (resolve_after true a (b ∷ c ∷ e ∷ f ∷ g ∷ rest) pa ∙ resolve_all all h.no_slash)
resolve-body after (a ∷ b ∷ c ∷ e ∷ f ∷ []) h = absurd (omega (arith, h.size))
resolve-body after (a ∷ b ∷ c ∷ e ∷ []) h = absurd (omega (arith, h.size))
resolve-body after (a ∷ b ∷ c ∷ []) h = absurd (omega (arith, h.size))
resolve-body after (a ∷ b ∷ []) h = absurd (omega (arith, h.size))
resolve-body after (a ∷ []) h = absurd (omega (arith, h.size))
resolve-body after [] h = absurd (omega (arith, h.size))

make_path-body : (root h : Bytes) → make_path root h ≡ root ++ (codes "/" ++ body h)
unfolding make_path
make_path-body root h = simp append_assoc

-- In a directory of the server, with one slash before the rest or with two.
one_slash :
    (m : DigestKind) (xs : Bytes)
    → resolve false ((server_root m ++ codes "/") ++ xs)
      ≡ server_root m ++ (codes "/" ++ resolve true xs)
unfolding resolve
one_slash sha xs = refl
one_slash bc160 xs = refl
one_slash btc20 xs = refl

first_slash :
    (m : DigestKind) (xs : Bytes) → resolve true ((client_digest m).first ++ xs) ≡ resolve true xs
unfolding resolve
first_slash sha xs = refl
first_slash bc160 xs = refl
first_slash btc20 xs = refl

module _ (strcat : ℕ → Bytes → List Bytes → Bytes) (appends : IsStrcat strcat) where
  -- Where a blob is, and that the path of its directory fits.
  pub record Located (d : ClientDigest) (root h : Bytes) : Type 0 where
    pub raw : Bytes
    pub finds : fs_blob_path strcat d h ≡ some raw
    pub same : resolve false raw ≡ make_path root h
    pub dir : Bytes
    pub fits : fs_dir_path (256 - length (blob_root strcat d)) h ≡ some dir

  rooted : (m : DigestKind) → blob_root strcat (client_digest m) ≡ server_root m ++ codes "/"
  rooted sha =
      ap (λ p. strcat 256 [] (p ∷ codes "/" ∷ []))
        (appends 17 [] (codes "data/fs_" ∷ codes "sha" ∷ []) (omega arith))
      ∙ appends 256 [] (codes "data/fs_sha" ∷ codes "/" ∷ []) (omega arith)
  rooted bc160 =
      ap (λ p. strcat 256 [] (p ∷ codes "/" ∷ []))
        (appends 17 [] (codes "data/fs_" ∷ codes "bc160" ∷ []) (omega arith))
      ∙ appends 256 [] (codes "data/fs_bc160" ∷ codes "/" ∷ []) (omega arith)
  rooted btc20 =
      ap (λ p. strcat 256 [] (p ∷ codes "/" ∷ []))
        (appends 17 [] (codes "data/fs_" ∷ codes "btc20" ∷ []) (omega arith))
      ∙ appends 256 [] (codes "data/fs_btc20" ∷ codes "/" ∷ []) (omega arith)

  path_fits :
      (m : DigestKind) (h : Bytes)
      → fs_path (client_digest m) (256 - length (server_root m ++ codes "/")) h
        ≡ some (
            (client_digest m).first
            ++ (take 3 h ++ (codes "/" ++ (take 3 (drop 3 h) ++ (codes "/" ++ take 40 h)))))
  unfolding fs_path
  path_fits sha h = refl
  path_fits bc160 h = refl
  path_fits btc20 h = refl

  dir_fits :
      (m : DigestKind) (h : Bytes)
      → fs_dir_path (256 - length (server_root m ++ codes "/")) h
        ≡ some (take 3 h ++ (codes "/" ++ take 3 (drop 3 h)))
  unfolding fs_dir_path
  dir_fits sha h = refl
  dir_fits bc160 h = refl
  dir_fits btc20 h = refl

  -- A digest that is forty characters without a slash has in the service fs, with any of the three
  -- modules, the path that the server has for it.
  pub located :
      (m : DigestKind) (h : Bytes) → IsPlain h → Located (client_digest m) (server_root m) h
  unfolding fs_blob_path
  located m h plain = record {
    raw = (server_root m ++ codes "/") ++ ((client_digest m).first ++ body h);
    finds =
        rw (rooted m, path_fits m h)
          (ap
            (λ t. some (
              (server_root m ++ codes "/")
              ++ ((client_digest m).first
                  ++ (take 3 h ++ (codes "/" ++ (take 3 (drop 3 h) ++ (codes "/" ++ t)))))))
            (take_whole 40 h plain.size));
    same =
        one_slash m ((client_digest m).first ++ body h)
        ∙ ap (λ r. server_root m ++ (codes "/" ++ r))
            (first_slash m (body h) ∙ resolve-body true h plain)
        ∙ sym (make_path-body (server_root m) h);
    dir = take 3 h ++ (codes "/" ++ take 3 (drop 3 h));
    fits = rw (rooted m) (dir_fits m h);
  }
