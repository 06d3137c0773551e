-- ===== src/Client/Session.antt =====
-- The verbs of the service bio4 of the client: cli/blobio/bio4.c, with `chew` of cli/blobio/sha.c.
use blobio.Base.{
  ℕ, ◌-◌, Bool, true, false, not, ◌&&◌, ◌||◌, List, [], ◌∷◌, ◌++◌, Bytes, codes, length, take, ltb,
  ◌==◌, if◌then◌else◌, bytes_eq,
}
use blobio.Chat
use blobio.FsSha.Paths.{decode_hex}
use blobio.FsSha.Hashes.{Storage}
use blobio.Client.{OkNo, ok, no, unreadable, read_ok_no}

-- The two ends of a session: what the next reads of the server and of the input give (where a list ends,
-- the stream ends), whether the next writes work (where the list ends, they do), what was sent and put
-- out, the chat for the record, and the udig of a wrap.
pub record Session : Type 0 where
  pub from_server : List Chat.Read
  pub from_input : List Chat.Read
  pub writes : List Bool
  pub sent : Bytes
  pub output : Bytes
  pub chat_history : Bytes
  pub udig : Bytes

-- The next of the writes, and the others.
abbrev pub next_works : List Bool → Bool × List Bool
next_works [] = (true, [])
next_works (w ∷ ws) = (w, ws)

-- `_write` to the server and to the output. A write that fails is taken to write nothing.
unfoldable pub write_server : Bytes → Session → Session × Bool
write_server buf s =
    let (w, ws) = next_works s.writes in
    (record s { sent = if w then s.sent ++ buf else s.sent; writes = ws }, w)

unfoldable pub write_output : Bytes → Session → Session × Bool
write_output buf s =
    let (w, ws) = next_works s.writes in
    (record s { output = if w then s.output ++ buf else s.output; writes = ws }, w)

-- `if (err) return err;`
abbrev pub if_written : Session × Bool → (Session → Session × OkNo) → Session × OkNo
if_written (s, true) next = next s
if_written (s, false) next = (s, unreadable)

-- The same, where a no returns too.
abbrev pub if_ok : Session × OkNo → (Session → Session × OkNo) → Session × OkNo
if_ok (s, ok) next = next s
if_ok (s, r) next = (s, r)

-- `stack` is what the array of `read_ok_no` holds before.
unfoldable pub read_reply : Bytes → Session → Session × OkNo
unfolding read_ok_no
read_reply stack s =
    let (r, reads) = read_ok_no stack s.from_server in (record s { from_server = reads }, r)

unfoldable pub request : Bytes → Bytes → Session → Session × OkNo
unfolding write_server read_reply
request req stack s = if_written (write_server req s) (read_reply stack)

unfoldable pub set_brr : Bytes → Session → Session × OkNo
set_brr history s = (record s { chat_history = history }, ok)

-- `bio4_set_brr(*ok_no == 0 ? "ok" : "no")` behind a reply.
unfoldable pub noted : Session × OkNo → Session × OkNo
noted (s, ok) = (record s { chat_history = codes "ok" }, ok)
noted (s, no) = (record s { chat_history = codes "no" }, no)
noted (s, unreadable) = (s, unreadable)

-- A chat that is set whatever the reply was.
unfoldable pub noted_as : Bytes → Session × OkNo → Session × OkNo
noted_as history (s, unreadable) = (s, unreadable)
noted_as history (s, r) = (record s { chat_history = history }, r)

unfoldable pub left_from_server : List Chat.Read → Session → Session
left_from_server reads s = record s { from_server = reads }

unfoldable pub left_from_input : List Chat.Read → Session → Session
left_from_input reads s = record s { from_input = reads }

unfoldable pub bio4_eat : Bytes → Bytes → Session → Session × OkNo
unfolding noted request
bio4_eat req stack s = noted (request req stack s)

unfoldable pub bio4_roll : Bytes → Bytes → Session → Session × OkNo
unfolding noted_as request
bio4_roll req stack s = noted_as (codes "ok") (request req stack s)

-- What a take does behind the blob.
unfoldable pub confirm : Bytes → Session → Session × OkNo
unfolding write_server noted_as read_reply
confirm stack s =
    if_written (write_server (codes "ok\n") s)
      (λ s'. noted_as (codes "ok,ok,ok") (read_reply stack s'))

module _ (d : Storage) (ascii_digest : Bytes) where
  -- The result `0` of `chew`, after the context took the chunk.
  unfoldable pub chewed : Storage.Context d → Bool
  unfolding decode_hex
  chewed ctx = bytes_eq (d.final ctx) (decode_hex ascii_digest)

  -- The loops of `_bio4_get` and `_put_untrusted`, which differ in their streams: each chunk is digested and
  -- then written, until the digest is seen or the stream ends.
  unfoldable pub verify :
      (Bytes → Session → Session × Bool)
      → (List Chat.Read → Session → Session)
      → Storage.Context d
      → List Chat.Read
      → Session
      → Session × OkNo
  unfolding chewed
  verify write left ctx [] s = (left [] s, (if chewed (d.update ctx []) then ok else unreadable))
  verify write left ctx (Chat.end_of_file ∷ reads) s =
      (left reads s, (if chewed (d.update ctx []) then ok else unreadable))
  verify write left ctx (Chat.failed ∷ reads) s = (left reads s, unreadable)
  verify write left ctx (Chat.bytes [] ∷ reads) s =
      (left reads s, (if chewed (d.update ctx []) then ok else unreadable))
  verify write left ctx (Chat.bytes (c ∷ cs) ∷ reads) s =
      let ctx' = d.update ctx (c ∷ cs) in
      let more = verify write left ctx' reads in
      if_written (write (c ∷ cs) s) (λ s'. if chewed ctx' then (left reads s', ok) else more s')

  -- `sha_empty`
  abbrev pub is_empty : Bool
  is_empty = bytes_eq d.empty_ascii ascii_digest

  unfoldable pub get_blob : Session → Session × OkNo
  unfolding verify write_output left_from_server
  get_blob s = verify write_output left_from_server d.init s.from_server s

  -- `_bio4_get`
  unfoldable pub get_verified : Bool → Bytes → Bytes → Session → Session × OkNo
  unfolding get_blob request set_brr
  get_verified in_take req stack s =
      if_ok (request req stack s)
        (λ s'. if in_take && is_empty then (s', ok) else if_ok (get_blob s') (set_brr (codes "ok")))

  unfoldable pub bio4_get : Bytes → Bytes → Session → Session × OkNo
  unfolding get_verified
  bio4_get req stack s = get_verified false req stack s

  unfoldable pub bio4_take : Bytes → Bytes → Session → Session × OkNo
  unfolding get_verified confirm
  bio4_take req stack s = if_ok (get_verified true req stack s) (confirm stack)

  unfoldable pub put_untrusted : Session → Session × OkNo
  unfolding verify write_server left_from_input
  put_untrusted s = verify write_server left_from_input d.init s.from_input s

-- The loop of `_put_trusted`, which writes also the nothing that ends the input.
unfoldable pub copy_input : List Chat.Read → Session → Session × OkNo
unfolding write_server
copy_input [] s = if_written (write_server [] s) (λ s'. (s', ok))
copy_input (Chat.end_of_file ∷ reads) s = if_written (write_server [] s) (λ s'. (s', ok))
copy_input (Chat.failed ∷ reads) s = (s, unreadable)
copy_input (Chat.bytes [] ∷ reads) s = if_written (write_server [] s) (λ s'. (s', ok))
copy_input (Chat.bytes (c ∷ cs) ∷ reads) s = if_written (write_server (c ∷ cs) s) (copy_input reads)

-- What becomes of the input behind a give: `jmscott_unlink`, which may not find the file.
pub data Unlink : Type 0 where
  no_input_path unlinked unlink_failed : Unlink

unfoldable pub give_end : Unlink → Session → Session × OkNo
unfolding write_server set_brr
give_end unlink_failed s = ((write_server (codes "no\n") s).0, unreadable)
give_end _ s = if_written (write_server (codes "ok\n") s) (set_brr (codes "ok,ok,ok"))

module _ (d : Storage) (ascii_digest : Bytes) where
  -- `trust` is `trust_fs != 0`.
  unfoldable pub bio4_put : Bool → Bytes → Bytes → Session → Session × OkNo
  unfolding request noted read_reply put_untrusted copy_input
  bio4_put trust req stack s = if_ok (request req stack s) (λ s'.
      if_ok (if trust then copy_input s'.from_input s' else put_untrusted d ascii_digest s')
        (λ s''. noted (read_reply stack s'')))

  unfoldable pub bio4_give : Bool → Unlink → Bytes → Bytes → Session → Session × OkNo
  unfolding bio4_put give_end
  bio4_give trust end req stack s = if_ok (bio4_put trust req stack s) (give_end end)

-- `sizeof udig - 1`
abbrev pub udig_size : ℕ
udig_size = 137

abbrev last : Bytes → ℕ
last [] = 0
last (c ∷ []) = c
last (c ∷ d ∷ cs) = last (d ∷ cs)

-- The loop of `bio4_wrap`, with the bytes read so far; a read gives at most what it was asked for.
unfoldable pub read_udig : Bytes → List Chat.Read → Session → Session × OkNo
read_udig udig (Chat.bytes (c ∷ cs) ∷ reads) s =
    let udig' = udig ++ c ∷ cs in
    let more = read_udig udig' reads s in
    if last udig' == b'\n' || not (ltb (length udig') udig_size)
    then (record s { from_server = reads; udig = udig' }, ok)
    else more
read_udig udig _ s = (s, unreadable)

-- `jmscott_frisk_udig` of libjmscott is a parameter. The algorithm and the digest that the record is to
-- have are left out.
module _ (frisk_udig : Bytes → Bool) where
  unfoldable pub check_wrapped : Session → Session × OkNo
  unfolding set_brr
  check_wrapped s =
      let u = take (length s.udig - 1) s.udig in
      if ltb (length s.udig) 35
      then (s, unreadable)
      else if not (ltb (length s.udig) udig_size)
      then (s, unreadable)
      else if frisk_udig u
      then set_brr (codes "ok") (record s { udig = u })
      else (s, unreadable)

  unfoldable pub bio4_wrap : Bytes → Bytes → Session → Session × OkNo
  unfolding request read_udig check_wrapped
  bio4_wrap req stack s =
      if_ok (request req stack s) (λ s'. if_ok (read_udig [] s'.from_server s') check_wrapped)
