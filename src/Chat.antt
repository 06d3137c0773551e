-- ===== src/Chat.antt =====
-- The ok/no chat of a request: `add_chat_history`, `write_ok`, `write_no` and `read_reply` of
-- bio4d/req.c.
pub mod History
pub mod Replies
use Prim.Native.Nat.{bit_and, bit_or}
use blobio.Base.{
  ℕ, zero, suc, ◌+◌, ◌-◌, Bool, true, false, not, ◌&&◌, ◌||◌, Option, none, some, List, [], ◌∷◌,
  ◌++◌, Bytes, codes, length, take, drop, ltb, ◌==◌, if◌then◌else◌,
}

-- `sizeof r->chat_history`
abbrev pub chat_size : ℕ
chat_size = 10

-- `strncat(target, source, n)`
strncat : Bytes → Bytes → ℕ → Bytes
strncat target source n = target ++ take n source

-- The string that is in the buffer afterwards, or in and behind it: a string of `n` bytes needs
-- `n + 1`. `none` is the panic.
unfoldable pub add_chat_history : Bytes → Bytes → Option Bytes
unfolding strncat
add_chat_history history blurb =
    let len = length history in
    if len == 9
    then none
    else if ltb 0 len
    then some (
        strncat (strncat history (codes ",") (chat_size - (len + 1))) blurb
          (chat_size - (len - 1 + 1)))
    else some (strncat history blurb (chat_size - (len + 1)))

-- What `net_write` makes of a buffer: 0, -1, or 1.
pub data Write : Type 0 where
  written write_failed write_timed_out : Write

-- A request as the handlers of the verbs see it: the chat so far, the bytes sent to the client, the
-- exit status of the process, and what becomes of the next writes (where the list ends, the network
-- works).
pub record Request : Type 0 where
  pub chat_history : Bytes
  pub sent : Bytes
  pub exit_status : ℕ
  pub writes : List Write

-- The statuses of the functions below: 0, -1, and the panic that ends the process.
pub data Status : Type 0 where
  success error panic : Status

-- `_SET_EXIT_ERROR` and `_SET_EXIT_TIMEOUT`
set_exit_error : Request → Request
set_exit_error r = record r { exit_status = bit_or (bit_and r.exit_status 0xFC) 1 }

set_exit_timeout : Request → Request
set_exit_timeout r = record r { exit_status = bit_or (bit_and r.exit_status 0xFC) 2 }

-- The writes that are left, and the one at hand.
next_write : List Write → Write × List Write
next_write [] = (written, [])
next_write (w ∷ ws) = (w, ws)

after_write : Request → Bytes → Write → Request × Status
after_write r buf written = (record r { sent = r.sent ++ buf }, success)
after_write r buf write_failed = (set_exit_error r, error)
after_write r buf write_timed_out = (set_exit_timeout r, error)

unfoldable pub req_write : Request → Bytes → Request × Status
unfolding set_exit_error set_exit_timeout next_write after_write
req_write r buf = let (w, ws) = next_write r.writes in after_write (record r { writes = ws }) buf w

noted : Request → Option Bytes → Request × Status
noted r none = (r, panic)
noted r (some history) = (record r { chat_history = history }, success)

unfoldable pub note_chat : Bytes → Request → Request × Status
unfolding noted
note_chat blurb r = noted r (add_chat_history r.chat_history blurb)

-- `write_ok` and `write_no` behind their `req_write`
replied : Bytes → Request × Status → Request × Status
replied blurb (r, success) = note_chat blurb r
replied blurb (r, s) = (r, error)

unfoldable pub write_ok : Request → Request × Status
unfolding replied
write_ok r = replied (codes "ok") (req_write r (codes "ok\n"))

unfoldable pub write_no : Request → Request × Status
unfolding replied
write_no r = replied (codes "no") (req_write r (codes "no\n"))

-- One call of `req_read` on the rest of the buffer: bytes, 0, or a negative number.
pub data Read : Type 0 where
  bytes : Bytes → Read
  end_of_file failed : Read

pub data Reply : Type 0 where
  said_ok said_no : Reply
  bad_reply : Reply

-- `reply[i]`, of the array of four bytes
abbrev pub at : Bytes → ℕ → ℕ
at [] i = 0
at (c ∷ cs) zero = c
at (c ∷ cs) (suc i) = at cs i

-- The two bytes in front of the end of line.
unfoldable pub word : ℕ → ℕ → Reply
word first second =
    if first == b'o' && second == b'k'
    then said_ok
    else if first == b'n' && second == b'o'
    then said_no
    else bad_reply

-- What to do with `nread` bytes in the buffer; `none` goes back for more.
unfoldable pub decide_reply : Bytes → ℕ → Option Reply
unfolding word
decide_reply reply nread =
    if ltb nread 2
    then none
    else if ltb 4 nread
    then some bad_reply
    else if nread == 3
    then if at reply 2 == b'\r'
      then none
      else if not (at reply 2 == b'\n')
      then some bad_reply
      else some (word (at reply 0) (at reply 1))
    else if not (at reply 2 == b'\r') || at reply 3 == b'\n'
    then some bad_reply
    else some (word (at reply 0) (at reply 1))

-- The array after `read` has put bytes behind the first `nread`.
place : Bytes → ℕ → Bytes → Bytes
place reply nread chunk = take nread reply ++ (chunk ++ drop (nread + length chunk) reply)

-- The loop of `read_reply`; the array starts with whatever is on the stack.
unfoldable pub read_loop : Bytes → ℕ → List Read → Reply
unfolding place
read_loop reply nread [] = bad_reply
read_loop reply nread (end_of_file ∷ rs) = bad_reply
read_loop reply nread (failed ∷ rs) = bad_reply
read_loop reply nread (bytes [] ∷ rs) = bad_reply
read_loop reply nread (bytes (c ∷ cs) ∷ rs) =
    let reply' = place reply nread (c ∷ cs) in
    let nread' = nread + length (c ∷ cs) in
    elim (decide_reply reply' nread') [ none ↦ read_loop reply' nread' rs | some a ↦ a ]

-- The reply, noted in the chat; an error is noted in the exit status.
answered : Request → Reply → Request × Reply × Status
answered r said_ok = let (r', status) = note_chat (codes "ok") r in (r', said_ok, status)
answered r said_no = let (r', status) = note_chat (codes "no") r in (r', said_no, status)
answered r bad_reply = (set_exit_error r, bad_reply, error)

-- `stack` is what the array holds before the first read.
pub read_reply : Bytes → List Read → Request → Request × Reply × Status
unfolding read_loop answered
read_reply stack rs r = answered r (read_loop stack 0 rs)
