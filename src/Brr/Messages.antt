-- ===== src/Brr/Messages.antt =====
-- The messages between a request and the logger of the records: `io_msg_write` and `io_msg_read` of
-- bio4d/io.c, the end of `brr_send` and `brr_logger` with `answer_wrap` of bio4d/brr.c.
use blobio.Base.{
  ℕ, zero, suc, ◌%◌, Option, none, some, List, [], ◌∷◌, ◌++◌, Bytes, length, take, drop, ltb, ◌==◌,
  if◌then◌else◌,
}
use blobio.Brr.Format.{Fields, brr_text}

-- `count` is an unsigned char: a longer payload is cut. `none` is EINVAL.
unfoldable pub io_msg_write : Bytes → Option Bytes
io_msg_write payload =
    let count = length payload % 256 in
    if count == 0 then none else some (count ∷ take count payload)

-- A message with what follows it in the stream, the end of the stream, and an error.
pub data Message : Type 0 where
  message : Bytes → Bytes → Message
  end_of_stream bad_message : Message

unfoldable pub io_msg_read : Bytes → Message
io_msg_read [] = end_of_stream
io_msg_read (len ∷ stream) =
    if len == 0
    then bad_message
    else if ltb (length stream) len
    then bad_message
    else message (take len stream) (drop len stream)

abbrev pub in_front : Option Bytes → Bytes → Bytes
in_front none stream = stream
in_front (some m) stream = m ++ stream

-- What the requests send, one after the other. A request whose write fails panics, in its own process.
unfoldable pub sent_records : List Fields → Bytes
unfolding io_msg_write brr_text
sent_records [] = []
sent_records (f ∷ fs) = in_front (io_msg_write (brr_text f)) (sent_records fs)

-- spool/bio4d.brr, and the logs that were moved away for a wrap, the last first.
pub record Logs : Type 0 where
  pub log : Bytes
  pub frozen : List Bytes

-- A payload of 25 bytes is taken for the path of a reply fifo, and the log is frozen.
unfoldable pub log_payload : Bytes → Logs → Logs
log_payload payload l =
    if length payload == 25
    then record { log = []; frozen = l.log ∷ l.frozen }
    else record l { log = l.log ++ payload }

pub data LoggerEnd : Type 0 where
  leaves panics unfinished : LoggerEnd

abbrev go_on : Message → Logs → (Bytes → Logs → Logs × LoggerEnd) → Logs × LoggerEnd
go_on (message payload stream) l next = next stream (log_payload payload l)
go_on end_of_stream l next = (l, leaves)
go_on bad_message l next = (l, panics)

-- The loop of the logger. A message takes a byte or more, so as many rounds as there are bytes, and one
-- for the end, are enough.
unfoldable pub brr_logger : ℕ → Bytes → Logs → Logs × LoggerEnd
unfolding io_msg_read log_payload
brr_logger zero stream l = (l, unfinished)
brr_logger (suc fuel) stream l = go_on (io_msg_read stream) l (brr_logger fuel)

-- The logs behind the records of requests, and how the logger ends.
unfoldable pub log_records : List Fields → Logs × LoggerEnd
unfolding sent_records brr_logger
log_records fs =
    let stream = sent_records fs in
    brr_logger (suc (length stream)) stream (record { log = []; frozen = [] })
