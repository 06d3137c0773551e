-- ===== src/Client/Fs.antt =====
-- The service fs of the client, which works on the files of a server itself: cli/blobio/fs.c.
pub mod Paths
pub mod Stored
pub mod Taken
use blobio.Base.{
  ℕ, zero, suc, ◌-◌, Bool, true, false, not, ◌&&◌, Option, none, some, List, [], ◌∷◌, ◌++◌, Bytes,
  codes, length, ltb, ◌==◌, if◌then◌else◌,
}
use blobio.FsSha.{unless_there}
use blobio.FsSha.Disk.{Files, lookup, unlink, rename}
use blobio.Client.Digests.{ClientDigest, fs_path, fs_dir_path}

-- `*ok_no`, or the text of an error.
pub data Answer : Type 0 where
  ok no failed : Answer

-- The files under the end point, those that the paths of the command line name, what the standard
-- output got, and the chat. A second link to a file is a second entry with its bytes: nothing here writes
-- to a file that has one. Directories are not modelled: `jmscott_mkdirat_path` makes those that are used.
pub record Host : Type 0 where
  pub store : Files
  pub outside : Files
  pub output : Bytes
  pub chat_history : Bytes

-- Where a blob comes from, `input_path` or the bytes of the standard input, and where it goes to.
pub data Input : Type 0 where
  input_at standard_input : Bytes → Input

pub data Output : Type 0 where
  null_device standard_output : Output
  output_at : Bytes → Output

-- A path names the same file with each run of slashes as one. The flag says that a slash came before.
unfoldable pub resolve : Bool → Bytes → Bytes
resolve after [] = []
resolve after (c ∷ cs) =
    let rest = resolve (c == b'/') cs in if after && c == b'/' then rest else c ∷ rest

-- `if (err) return err;`
abbrev pub if_path : Option Bytes → Host → (Bytes → Host × Answer) → Host × Answer
if_path none h next = (h, failed)
if_path (some path) h next = next (resolve false path)

-- The results of `linkat`: where the target is there, that is taken for a link.
pub data Link : Type 0 where
  linked no_source other_device : Link

unfoldable pub fs_hard_link : Bool → Option Bytes → Bytes → Files → Files × Link
unfolding lookup
fs_hard_link one_device none tgt_path files = (files, no_source)
fs_hard_link one_device (some file) tgt_path files =
    unless_there (lookup tgt_path files) (files, linked)
      (if one_device then ((tgt_path, file) ∷ files, linked) else (files, other_device))

-- What a chat is appended with.
abbrev chat_parts : Bytes → Bytes → List Bytes
chat_parts [] chat = chat ∷ []
chat_parts (c ∷ cs) chat = codes "," ∷ chat ∷ []

abbrev sent : Bool → Answer
sent works = if works then ok else failed

abbrev behind : Bytes → Option Bytes → Option Bytes
behind p none = none
behind p (some path) = some (p ++ path)

abbrev bytes_of : Option Bytes → Bytes
bytes_of none = []
bytes_of (some file) = file

-- `jmscott_unlink` of the input, which may be gone.
abbrev unlink_input : Input → Host → Host
unlink_input (standard_input input) h = h
unlink_input (input_at input_path) h = record h { outside = unlink input_path h.outside }

-- `strcat` of libjmscott appends strings to a string in a buffer of so many bytes.
module _ (strcat : ℕ → Bytes → List Bytes → Bytes) (d : ClientDigest) where
  abbrev pub fs_data : Bytes
  fs_data = strcat 17 [] (codes "data/fs_" ∷ d.algorithm ∷ [])

  abbrev pub blob_root : Bytes
  blob_root = strcat 256 [] (fs_data ∷ codes "/" ∷ [])

  unfoldable pub fs_blob_path : Bytes → Option Bytes
  unfolding fs_path
  fs_blob_path ascii_digest = behind blob_root (fs_path d (256 - length blob_root) ascii_digest)

  unfoldable pub fs_add_chat : Bytes → Host → Host
  fs_add_chat chat h = record h {
    chat_history = strcat 9 h.chat_history (chat_parts h.chat_history chat);
  }

  -- To the null device: the size of the blob is taken.
  unfoldable pub size_blob : Option Bytes → Host → Host × Answer
  unfolding fs_add_chat
  size_blob none h = (fs_add_chat (codes "no") h, no)
  size_blob (some file) h = (fs_add_chat (codes "ok") h, ok)

  -- `jmscott_unlinkat` of the blob, which may be gone.
  unfoldable pub unlink_blob : Option Bytes → Bytes → Host → Host
  unfolding fs_add_chat unlink
  unlink_blob none path h = fs_add_chat (codes "ok") h
  unlink_blob (some file) path h = record h { store = unlink path h.store }

  -- The path is spelled as in `fs_blob_path`, and `faccessat` finds the blob or not.
  unfoldable pub fs_eat : Bytes → Host → Host × Answer
  unfolding fs_path size_blob lookup
  fs_eat ascii_digest h =
      let p = strcat 256 [] (codes "data/fs_" ∷ d.algorithm ∷ codes "/" ∷ []) in
      if_path (behind p (fs_path d (256 - length p) ascii_digest)) h
        (λ path. size_blob (lookup path h.store) h)

  -- `send_file` of libjmscott gives the bytes that it copied of those of a file, and whether it works.
  module _ (send_file : Bytes → Bytes × Bool) (one_device : Bool) where
    unfoldable pub copy_standard : Option Bytes → Host → Host × Answer
    unfolding fs_add_chat
    copy_standard none h = (fs_add_chat (codes "no") h, no)
    copy_standard (some file) h =
        let (bytes, works) = send_file file in
        (fs_add_chat (codes "ok") (record h { output = h.output ++ bytes }), sent works)

    unfoldable pub copy_output : Bytes → Option Bytes → Host → Host × Answer
    unfolding fs_add_chat lookup
    copy_output path none h = (fs_add_chat (codes "no") h, no)
    copy_output path (some file) h =
        let (bytes, works) = send_file file in
        let h' = fs_add_chat (codes "ok") h in
        unless_there (lookup path h'.outside) (h', failed)
          (record h' { outside = (path, bytes) ∷ h'.outside }, sent works)

    -- Where the source of the link is not there, the chat is ok and the answer no.
    unfoldable pub link_output : Bytes → Option Bytes → Files × Link → Host → Host × Answer
    unfolding fs_add_chat copy_output
    link_output path blob (files, linked) h =
        (fs_add_chat (codes "ok") (record h { outside = files }), ok)
    link_output path blob (files, no_source) h = (fs_add_chat (codes "ok") h, no)
    link_output path blob (files, other_device) h = copy_output path blob h

    unfoldable pub get_at : Output → Option Bytes → Host → Host × Answer
    unfolding size_blob copy_standard link_output fs_hard_link
    get_at null_device blob h = size_blob blob h
    get_at standard_output blob h = copy_standard blob h
    get_at (output_at path) blob h =
        link_output path blob (fs_hard_link one_device blob path h.outside) h

    unfoldable pub fs_get : Output → Bytes → Host → Host × Answer
    unfolding fs_blob_path get_at lookup
    fs_get out ascii_digest h =
        if_path (fs_blob_path ascii_digest) h (λ path. get_at out (lookup path h.store) h)

    unfoldable pub take_got : Bytes → Host × Answer → Host × Answer
    unfolding fs_blob_path fs_add_chat unlink_blob lookup
    take_got ascii_digest (h, failed) = (h, failed)
    take_got ascii_digest (h, no) = (fs_add_chat (codes "no") h, no)
    take_got ascii_digest (h, ok) =
        let h' = fs_add_chat (codes "ok") h in
        if_path (fs_blob_path ascii_digest) h' (λ path.
          (fs_add_chat (codes "ok,ok,ok") (unlink_blob (lookup path h'.store) path h'), ok))

    unfoldable pub fs_take : Output → Bytes → Host → Host × Answer
    unfolding fs_get take_got
    fs_take out ascii_digest h = take_got ascii_digest (fs_get out ascii_digest h)

    -- From `sendfile input>tmp` to `BYE`, which unlinks what is left of the temporary file.
    unfoldable pub put_sent : Bytes → Bytes → Bytes × Bool → Host → Host × Answer
    unfolding fs_add_chat unlink rename
    put_sent tmp_path path (bytes, true) h = (
      fs_add_chat (codes "ok") (record h {
        store = unlink tmp_path (rename tmp_path path ((tmp_path, bytes) ∷ h.store));
      }),
      ok,
    )
    put_sent tmp_path path (bytes, false) h =
        (record h { store = unlink tmp_path ((tmp_path, bytes) ∷ h.store) }, failed)

    unfoldable pub put_copy : Bytes → Bytes → Bytes → Host → Host × Answer
    unfolding put_sent lookup
    put_copy tmp_path path input h =
        unless_there (lookup tmp_path h.store) (h, failed)
          (put_sent tmp_path path (send_file input) h)

    -- The link to `input_path`. On another device the bytes of its file, which main opened, are copied.
    unfoldable pub link_input : Bytes → Bytes → Option Bytes → Files × Link → Host → Host × Answer
    unfolding fs_add_chat put_copy
    link_input tmp_path path file (files, linked) h =
        (fs_add_chat (codes "ok") (record h { store = files }), ok)
    link_input tmp_path path file (files, no_source) h = (fs_add_chat (codes "ok") h, no)
    link_input tmp_path path file (files, other_device) h = put_copy tmp_path path (bytes_of file) h

    unfoldable pub put_from : Bytes → Bytes → Input → Host → Host × Answer
    unfolding put_copy link_input fs_hard_link lookup
    put_from tmp_path path (standard_input input) h = put_copy tmp_path path input h
    put_from tmp_path path (input_at input_path) h =
        let file = lookup input_path h.outside in
        link_input tmp_path path file (fs_hard_link one_device file path h.store) h

    -- The path of the directory is made and then only used to make it.
    unfoldable pub fs_put : Bytes → Input → Bytes → Host → Host × Answer
    unfolding fs_blob_path fs_add_chat put_from fs_dir_path
    fs_put tmp_path from ascii_digest h = if_path (fs_blob_path ascii_digest) h (λ path.
        if_path (fs_dir_path (256 - length blob_root) ascii_digest) h
          (λ dir. put_from tmp_path path from (fs_add_chat (codes "ok") h)))

    unfoldable pub give_put : Input → Host × Answer → Host × Answer
    unfolding fs_add_chat unlink
    give_put from (h, failed) = (h, failed)
    give_put from (h, no) = (fs_add_chat (codes "no") h, no)
    give_put from (h, ok) = (fs_add_chat (codes "ok") (unlink_input from h), ok)

    unfoldable pub fs_give : Bytes → Input → Bytes → Host → Host × Answer
    unfolding fs_put give_put
    fs_give tmp_path from ascii_digest h = give_put from (fs_put tmp_path from ascii_digest h)
