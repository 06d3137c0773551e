-- ===== src/Client/Fs/Taken.antt =====
-- What a take of the service fs puts out and deletes.
use blobio.Base.{
  ℕ, ◌≡◌, ◌≢◌, refl, ap, sym, ◌∙◌, inl, inr, Bool, true, false, bytes_eq, bytes_eq_iff, Bool-cases,
  Option, none, some, List, ◌++◌, Bytes,
}
use blobio.FsSha
use blobio.FsSha.Disk.{lookup, unlink}
use blobio.FsSha.Paths.{make_path}
use blobio.FsSha.Hashes.{Storage}
use blobio.FsSha.Found.{lookup-unlink, lookup-unlink_other}
use blobio.Wrap.Rolled.{IsStrcat}
use blobio.Client.Fs.{
  Answer, ok, no, resolve, Host, Input, standard_output, fs_blob_path, fs_add_chat, copy_standard,
  get_at, fs_get, unlink_blob, take_got, fs_take, fs_put,
}
use blobio.Client.Fs.Paths.{DigestKind, client_digest, server_root, IsPlain, located}
use blobio.Client.Fs.Stored.{content, fs_put-get_request}

module _ (strcat : ℕ → Bytes → List Bytes → Bytes) (send_file : Bytes → Bytes × Bool)
    (sends : (file : Bytes) → send_file file ≡ (file, true)) (one_device : Bool) where
  -- A take of what is at a path: the blob is put out and gone, or there was none and nothing is done.
  abbrev pub Takes : Bytes → Host → Option Bytes → Host × Answer → Type 0
  Takes path host none m = (m.1 ≡ no) × (m.0.store ≡ host.store) × (m.0.output ≡ host.output)
  Takes path host (some file) m =
      (m.1 ≡ ok) × (m.0.store ≡ unlink path host.store) × (m.0.output ≡ host.output ++ file)

  take_got-Takes :
      (m : DigestKind) (h raw path : Bytes) (host : Host) (blob : Option Bytes)
      → fs_blob_path strcat (client_digest m) h ≡ some raw
      → resolve false raw ≡ path
      → lookup path host.store ≡ blob
      → Takes path host blob (
          take_got strcat
            (client_digest m)
            send_file
            one_device
            h
            (copy_standard strcat (client_digest m) send_file one_device blob host))
  unfolding take_got copy_standard fs_add_chat unlink_blob
  take_got-Takes m h raw path host none finds same is = (refl, refl, refl)
  take_got-Takes m h raw path host (some file) finds same is =
      rw (sends file, finds, same, is) (refl, refl, refl)

  -- A take to the standard output of a digest of forty characters without a slash: where the digest module
  -- of the server opens the bytes of a blob under the digest, the answer is ok, they are put out and
  -- exactly that path is unlinked; where it finds none, the answer is no and nothing is deleted or put out.
  pub fs_take-Takes :
      (appends : IsStrcat strcat) (m : DigestKind) (s : Storage) (h : Bytes) (host : Host)
      → s.root ≡ server_root m
      → IsPlain h
      → Takes
          (make_path s.root h)
          host
          (FsSha.get_request s h host.store)
          (fs_take strcat (client_digest m) send_file one_device standard_output h host)
  unfolding fs_take fs_get get_at FsSha.get_request
  fs_take-Takes appends m s h host root plain =
      let l = located strcat appends m h plain in
      rw (root, l.finds, l.same)
        (take_got-Takes m h l.raw (make_path (server_root m) h) host _ l.finds l.same refl)

  taken :
      (path : Bytes) (host : Host) (blob : Option Bytes) (file : Bytes) (m : Host × Answer)
      → blob ≡ some file
      → Takes path host blob m
      → (m.1 ≡ ok) × (m.0.store ≡ unlink path host.store) × (m.0.output ≡ host.output ++ file)
  taken path host none file m is t = cc
  taken path host (some got) file m is t =
      let same : got ≡ file = cc in
      let (answer, store, output) = t in (answer, store, output ∙ ap (λ f. host.output ++ f) same)

  -- A take to the standard output behind a put of a blob that was not there, of a digest of forty
  -- characters without a slash, where `send_file` copies all bytes, the file of the input is there, and the
  -- temporary file was not there and is not that of the blob: it is answered with ok and adds the bytes of
  -- the input to the output, the digest module of
  -- the server finds the blob no more, and every other file but the temporary one has the bytes that it had
  -- before the put.
  pub fs_take-fs_put :
      (appends : IsStrcat strcat) (m : DigestKind) (s : Storage) (tmp input h : Bytes)
      (from : Input) (host : Host)
      → s.root ≡ server_root m
      → IsPlain h
      → make_path s.root h ≢ tmp
      → lookup tmp host.store ≡ none
      → content from host ≡ some input
      → FsSha.get_request s h host.store ≡ none
      → let host' = (fs_put strcat (client_digest m) send_file one_device tmp from h host).0 in
        let m' = fs_take strcat (client_digest m) send_file one_device standard_output h host' in
        (m'.1 ≡ ok)
        × (m'.0.output ≡ host'.output ++ input)
        × (FsSha.get_request s h m'.0.store ≡ none)
        × ((q : Bytes) → q ≢ tmp → lookup q m'.0.store ≡ lookup q host.store)
  unfolding FsSha.get_request
  fs_take-fs_put appends m s tmp input h from host root plain apart new is free =
      let host' = (fs_put strcat (client_digest m) send_file one_device tmp from h host).0 in
      let m' = fs_take strcat (client_digest m) send_file one_device standard_output h host' in
      let path = make_path s.root h in
      let (put, there, others) =
        fs_put-get_request strcat send_file sends one_device appends m s tmp input h from host root
          plain apart new is (inl free) in
      let (answer, store, output) =
        taken path host' (FsSha.get_request s h host'.store) input m' there
          (fs_take-Takes appends m s h host' root plain) in
      let gone : lookup path m'.0.store ≡ none = rw store (lookup-unlink path host'.store) in
      (
        answer,
        output,
        gone,
        λ q not_tmp. elim (Bool-cases (bytes_eq q path)) [
          | inl same ↦ let at : q ≡ path = (bytes_eq_iff q path).0 same in rw at (gone ∙ sym free)
          | inr differs ↦
              let other : q ≢ path = λ e. cc (differs, (bytes_eq_iff q path).1 e) in
              rw store (lookup-unlink_other path q host'.store other) ∙ others q other not_tmp
        ],
      )
