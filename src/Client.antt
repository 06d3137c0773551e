-- ===== src/Client.antt =====
-- What the service bio4 of the client sends and reads, cli/blobio/bio4.c, and the mask of its records.
pub mod Requests
pub mod Replies
pub mod Masks
pub mod Session
pub mod Verified
pub mod Confirmed
pub mod Arrived
pub mod Recorded
pub mod Digests
pub mod Ripe
pub mod Command
pub mod Eaten
pub mod Fs
use blobio.Chat
use blobio.Base.{
  ℕ, zero, suc, ◌+◌, ◌-◌, Bool, true, false, not, ◌&&◌, List, [], ◌∷◌, ◌++◌, Bytes, codes, length,
  drop, ltb, ◌==◌, if◌then◌else◌,
}

abbrev fourth : ℕ → Bytes
fourth c = if c == 0 then [] else c ∷ []

-- `if (ascii_digest[0])`, and the same of the algorithm
abbrev colon_digest : Bytes → Bytes
colon_digest [] = []
colon_digest (c ∷ digest) = b':' ∷ c ∷ digest

abbrev space_udig : Bytes → Bytes → Bytes
space_udig [] digest = []
space_udig (c ∷ algorithm) digest = b' ' ∷ (c ∷ algorithm) ++ colon_digest digest

-- The verbs have three or four characters.
unfoldable pub make_request : Bytes → Bytes → Bytes → Bytes
make_request verb algorithm digest =
    (Chat.at verb 0 ∷ Chat.at verb 1 ∷ Chat.at verb 2 ∷ fourth (Chat.at verb 3))
    ++ (space_udig algorithm digest ++ b'\n' ∷ [])

-- `*ok_no`, or the text of an error.
pub data OkNo : Type 0 where
  ok no unreadable : OkNo

unfoldable pub parse_ok_no : Bytes → OkNo
parse_ok_no buf =
    if not (Chat.at buf 2 == b'\n')
    then unreadable
    else if Chat.at buf 0 == b'o' && Chat.at buf 1 == b'k'
    then ok
    else if Chat.at buf 0 == b'n' && Chat.at buf 1 == b'o'
    then no
    else unreadable

-- The loop of `read_ok_no`, with `left` bytes to come: each read goes to the start of the array. What is
-- left of the reads comes with the reply.
unfoldable pub read_ok_no_loop : ℕ → Bytes → List Chat.Read → OkNo × List Chat.Read
unfolding parse_ok_no
read_ok_no_loop zero buf reads = (parse_ok_no buf, reads)
read_ok_no_loop (suc left) buf [] = (unreadable, [])
read_ok_no_loop (suc left) buf (Chat.end_of_file ∷ reads) = (unreadable, reads)
read_ok_no_loop (suc left) buf (Chat.failed ∷ reads) = (unreadable, reads)
read_ok_no_loop (suc left) buf (Chat.bytes [] ∷ reads) = (unreadable, reads)
read_ok_no_loop (suc left) buf (Chat.bytes (c ∷ cs) ∷ reads) =
    read_ok_no_loop (left - length cs) ((c ∷ cs) ++ drop (length (c ∷ cs)) buf) reads

-- `stack` is what the array holds before the first read. A read gives at most what it was asked for.
unfoldable pub read_ok_no : Bytes → List Chat.Read → OkNo × List Chat.Read
unfolding read_ok_no_loop
read_ok_no stack reads = read_ok_no_loop 3 stack reads
