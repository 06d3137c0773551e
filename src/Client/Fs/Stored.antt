-- ===== src/Client/Fs/Stored.antt =====
-- What a put of the service fs leaves in the files of the server.
use blobio.Base.{
  ℕ, ◌≡◌, ◌≢◌, refl, sym, ◌∙◌, ◌⊎◌, inl, inr, Bool, true, false, Option, none, some, List, ◌∷◌,
  Bytes, codes, Option-cases,
}
use blobio.FsSha
use blobio.FsSha.{unless_there}
use blobio.FsSha.Disk.{Files, lookup}
use blobio.FsSha.Paths.{make_path}
use blobio.FsSha.Hashes.{Storage}
use blobio.FsSha.Found.{
  lookup_made, lookup_passed, lookup-moved, lookup-moved_other, lookup-discarded,
}
use blobio.Wrap.Rolled.{IsStrcat}
use blobio.Client.Fs.{
  Answer, ok, no, failed, Host, Input, input_at, standard_input, Link, linked, no_source,
  other_device, fs_hard_link, fs_add_chat, put_sent, put_copy, link_input, put_from, fs_put,
}
use blobio.Client.Fs.Paths.{DigestKind, client_digest, server_root, IsPlain, located}

-- The bytes that a put is to store.
abbrev pub content : Input → Host → Option Bytes
content (standard_input input) host = some input
content (input_at input_path) host = lookup input_path host.outside

-- Only the blob and the temporary file change, and the blob only where the answer is ok.
pub record Touches (tmp path : Bytes) (before : Files) (m : Host × Answer) : Type 0 where
  pub others : (q : Bytes) → q ≢ path → q ≢ tmp → lookup q m.0.store ≡ lookup q before
  pub blob : m.1 ≢ ok → path ≢ tmp → lookup path m.0.store ≡ lookup path before

untouched : (tmp path : Bytes) (host : Host) (a : Answer) → Touches tmp path host.store (host, a)
untouched tmp path host a = record {
  others = λ q not_path not_tmp. refl;
  blob = λ not_ok apart. refl;
}

-- Where the temporary file is there, the put fails.
found :
    (P : Host × Answer → Type 0) (o : Option Bytes) (there next : Host × Answer)
    → P there
    → (o ≡ none → P next)
    → P (unless_there o there next)
found P none there next h k = k refl
found P (some file) there next h k = h

-- How a hard link ends.
hard_link_cases :
    (P : Files × Link → Type 0) (one_device : Bool) (file : Option Bytes) (path : Bytes)
    (fs : Files)
    → (file ≡ none → P (fs, no_source))
    → ((old : Bytes) → lookup path fs ≡ some old → P (fs, linked))
    → ((f : Bytes) → file ≡ some f → lookup path fs ≡ none → P ((path, f) ∷ fs, linked))
    → ((f : Bytes) → file ≡ some f → lookup path fs ≡ none → P (fs, other_device))
    → P (fs_hard_link one_device file path fs)
unfolding fs_hard_link
hard_link_cases P one_device none path fs gone there made apart = gone refl
hard_link_cases P true (some f) path fs gone there made apart =
    elim (Option-cases (lookup path fs)) [
      | inl free ↦ rw free (made f refl free)
      | inr (old, is) ↦ rw is (there old is)
    ]
hard_link_cases P false (some f) path fs gone there made apart =
    elim (Option-cases (lookup path fs)) [
      | inl free ↦ rw free (apart f refl free)
      | inr (old, is) ↦ rw is (there old is)
    ]

module _ (strcat : ℕ → Bytes → List Bytes → Bytes) (send_file : Bytes → Bytes × Bool)
    (one_device : Bool) where
  put_sent-Touches :
      (m : DigestKind) (tmp path : Bytes) (s : Bytes × Bool) (host : Host)
      → Touches tmp path host.store
          (put_sent strcat (client_digest m) send_file one_device tmp path s host)
  unfolding put_sent fs_add_chat
  put_sent-Touches m tmp path (bytes, true) host = record {
    others = λ q not_path not_tmp. lookup-moved_other tmp path q bytes host.store not_path not_tmp;
    blob = λ not_ok apart. absurd (not_ok refl);
  }
  put_sent-Touches m tmp path (bytes, false) host = record {
    others = λ q not_path not_tmp. lookup-discarded tmp q bytes host.store not_tmp;
    blob = λ not_ok apart. lookup-discarded tmp path bytes host.store apart;
  }

  put_copy-Touches :
      (m : DigestKind) (tmp path input : Bytes) (host : Host)
      → Touches tmp path host.store
          (put_copy strcat (client_digest m) send_file one_device tmp path input host)
  unfolding put_copy
  put_copy-Touches m tmp path input host =
      found (Touches tmp path host.store) (lookup tmp host.store) (host, failed) _
        (untouched tmp path host failed)
        (λ none. put_sent-Touches m tmp path (send_file input) host)

  put_from-Touches :
      (m : DigestKind) (tmp path : Bytes) (from : Input) (host : Host)
      → Touches tmp path host.store
          (put_from strcat (client_digest m) send_file one_device tmp path from host)
  unfolding put_from link_input fs_add_chat
  put_from-Touches m tmp path (standard_input input) host = put_copy-Touches m tmp path input host
  put_from-Touches m tmp path (input_at input_path) host =
      let file = lookup input_path host.outside in
      hard_link_cases
        (λ l.
          Touches tmp path host.store
            (link_input strcat (client_digest m) send_file one_device tmp path file l host))
        one_device file path host.store
        (λ gone. untouched tmp path (fs_add_chat strcat (client_digest m) (codes "ok") host) no)
        (λ old there.
          untouched tmp path (fs_add_chat strcat (client_digest m) (codes "ok") host) ok)
        (λ f is free. record {
          others = λ q not_path not_tmp. lookup_passed path q f host.store not_path;
          blob = λ not_ok apart. absurd (not_ok refl);
        })
        (λ f is free. put_copy-Touches m tmp path _ host)

  -- The put of a blob at the path that the server has for it.
  fs_put_located :
      (appends : IsStrcat strcat) (m : DigestKind) (tmp : Bytes) (from : Input) (h : Bytes)
      (host : Host)
      → IsPlain h
      → fs_put strcat (client_digest m) send_file one_device tmp from h host
        ≡ put_from strcat
            (client_digest m)
            send_file
            one_device
            tmp
            (make_path (server_root m) h)
            from
            (fs_add_chat strcat (client_digest m) (codes "ok") host)
  unfolding fs_put
  fs_put_located appends m tmp from h host plain =
      let l = located strcat appends m h plain in rw (l.finds, l.fits, l.same) refl

  -- However a put of a digest of forty characters without a slash ends, the files of the server keep
  -- their bytes but for the blob and the temporary file; and where the answer is not ok, the blob too is as
  -- it was.
  pub fs_put-Touches :
      (appends : IsStrcat strcat) (m : DigestKind) (tmp : Bytes) (from : Input) (h : Bytes)
      (host : Host)
      → IsPlain h
      → Touches tmp
          (make_path (server_root m) h)
          host.store
          (fs_put strcat (client_digest m) send_file one_device tmp from h host)
  unfolding fs_add_chat
  fs_put-Touches appends m tmp from h host plain =
      rw (fs_put_located appends m tmp from h host plain) (
        put_from-Touches m tmp (make_path (server_root m) h) from
          (fs_add_chat strcat (client_digest m) (codes "ok") host))

module _ (strcat : ℕ → Bytes → List Bytes → Bytes) (send_file : Bytes → Bytes × Bool)
    (sends : (file : Bytes) → send_file file ≡ (file, true)) (one_device : Bool) where
  -- The answer is ok and the blob is there.
  abbrev pub Puts : Bytes → Bytes → Host × Answer → Type 0
  Puts path input m = (m.1 ≡ ok) × (lookup path m.0.store ≡ some input)

  put_copy-Puts :
      (m : DigestKind) (tmp path input : Bytes) (host : Host)
      → path ≢ tmp
      → lookup tmp host.store ≡ none
      → Puts path input (put_copy strcat (client_digest m) send_file one_device tmp path input host)
  unfolding put_copy put_sent fs_add_chat
  put_copy-Puts m tmp path input host apart new =
      rw (new, sends input) (refl, lookup-moved tmp path input host.store apart)

  put_from-Puts :
      (m : DigestKind) (tmp path input : Bytes) (from : Input) (host : Host)
      → path ≢ tmp
      → lookup tmp host.store ≡ none
      → content from host ≡ some input
      → (lookup path host.store ≡ none) ⊎ (lookup path host.store ≡ some input)
      → Puts path input (put_from strcat (client_digest m) send_file one_device tmp path from host)
  unfolding put_from link_input fs_add_chat
  put_from-Puts m tmp path input (standard_input given) host apart new is old =
      let same : given ≡ input = cc in rw same (put_copy-Puts m tmp path input host apart new)
  put_from-Puts m tmp path input (input_at input_path) host apart new is old =
      hard_link_cases
        (λ l. Puts path input (
          link_input strcat (client_digest m) send_file one_device tmp path
            (lookup input_path host.outside) l host))
        one_device (lookup input_path host.outside) path host.store (λ gone. cc)
        (λ there_file there. (refl, elim old [ inl free ↦ cc | inr same ↦ same ]))
        (λ f is_f free. (refl, lookup_made path f host.store ∙ sym is_f ∙ is))
        (λ f is_f free. rw is (put_copy-Puts m tmp path input host apart new))

  content_chat :
      (m : DigestKind) (from : Input) (host : Host)
      → content from (fs_add_chat strcat (client_digest m) (codes "ok") host) ≡ content from host
  unfolding fs_add_chat
  content_chat m (standard_input input) host = refl
  content_chat m (input_at input_path) host = refl

  -- Where `send_file` copies all bytes, the file of the input is there, the temporary file is not and is
  -- not that of the blob, and the store has nothing under the digest or the same bytes: a put of a digest of forty characters without a
  -- slash is answered with ok, the digest module of the server then opens the bytes of the input under the
  -- digest, and every other file of the server keeps its bytes.
  pub fs_put-get_request :
      (appends : IsStrcat strcat) (m : DigestKind) (s : Storage) (tmp input h : Bytes)
      (from : Input) (host : Host)
      → s.root ≡ server_root m
      → IsPlain h
      → make_path s.root h ≢ tmp
      → lookup tmp host.store ≡ none
      → content from host ≡ some input
      → (FsSha.get_request s h host.store ≡ none) ⊎ (FsSha.get_request s h host.store ≡ some input)
      → let m' = fs_put strcat (client_digest m) send_file one_device tmp from h host in
        (m'.1 ≡ ok)
        × (FsSha.get_request s h m'.0.store ≡ some input)
        × ((q : Bytes)
            → q ≢ make_path s.root h
            → q ≢ tmp
            → lookup q m'.0.store ≡ lookup q host.store)
  unfolding FsSha.get_request fs_add_chat
  fs_put-get_request appends m s tmp input h from host root plain apart new is old =
      let host' = fs_add_chat strcat (client_digest m) (codes "ok") host in
      let touched = fs_put-Touches strcat send_file one_device appends m tmp from h host plain in
      let puts : Puts (make_path (server_root m) h) input
          (fs_put strcat (client_digest m) send_file one_device tmp from h host) =
        rw (fs_put_located strcat send_file one_device appends m tmp from h host plain) (
          put_from-Puts m tmp (make_path (server_root m) h) input from host'
            (λ e. apart (rw root e)) new (content_chat m from host ∙ is) (rw root at old)) in
      (
        puts.0,
        rw root puts.1,
        λ q not_path not_tmp. touched.others q (λ e. not_path (rw root e)) not_tmp,
      )
