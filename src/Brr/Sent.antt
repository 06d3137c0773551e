-- ===== src/Brr/Sent.antt =====
-- The logger writes the records that the requests send, where each fits a message.
use blobio.Base.{
  ℕ, zero, suc, ◌+◌, ◌%◌, ◌≤◌, ◌<◌, ◌≡◌, refl, ap, sym, ◌∙◌, false, some, List, [], ◌∷◌, ◌++◌,
  Bytes, codes, All, length, length-append, take, drop, take-append_self, append_assoc, append-nil,
  ltb, ◌==◌, arith,
}
use blobio.Brr.Format.{Stamp, Fields, padded, decimal_text, udig_text, stamp_text, brr_text}
use blobio.Brr.Stamped.{length-padded}
use blobio.Brr.Messages.{
  io_msg_write, message, io_msg_read, sent_records, Logs, log_payload, leaves, brr_logger,
  log_records,
}

-- The records, one after the other.
abbrev pub records_text : List Fields → Bytes
records_text [] = []
records_text (f ∷ fs) = brr_text f ++ records_text fs

long_then :
    (a b : Bytes) (c m n : ℕ) → m ≤ length a → n ≤ length b → m + 1 + n ≤ length (a ++ c ∷ b)
long_then a b c m n h i = omega (arith, length-append a (c ∷ b), h, i)

long_first : (a b : Bytes) (c m : ℕ) → m ≤ length a → m ≤ length (a ++ c ∷ b)
long_first a b c m h = omega (arith, length-append a (c ∷ b), h)

long_padded : (w n : ℕ) → w ≤ length (padded w n)
long_padded w n = omega (arith, length-padded w n)

long-stamp_text : (t : Stamp) → 29 ≤ length (stamp_text t)
unfolding stamp_text
long-stamp_text t =
    let t1 = padded 9 t.nsec ++ codes "+00:00" in
    let t2 = padded 2 t.second ++ b'.' ∷ t1 in
    let t3 = padded 2 t.minute ++ b':' ∷ t2 in
    let t4 = padded 2 t.hour ++ b':' ∷ t3 in
    let t5 = padded 2 t.day ++ b'T' ∷ t4 in
    let t6 = padded 2 t.month ++ b'-' ∷ t5 in
    let fraction : 9 ≤ length t1 =
      omega (arith, length-append (padded 9 t.nsec) (codes "+00:00"), long_padded 9 t.nsec) in
    let second = long_then (padded 2 t.second) t1 b'.' 2 9 (long_padded 2 t.second) fraction in
    let minute = long_then (padded 2 t.minute) t2 b':' 2 12 (long_padded 2 t.minute) second in
    let hour = long_then (padded 2 t.hour) t3 b':' 2 15 (long_padded 2 t.hour) minute in
    let day = long_then (padded 2 t.day) t4 b'T' 2 18 (long_padded 2 t.day) hour in
    let month = long_then (padded 2 t.month) t5 b'-' 2 21 (long_padded 2 t.month) day in
    long_then (padded 4 t.year) t6 b'-' 4 24 (long_padded 4 t.year) month

long-brr_text : (f : Fields) → 25 < length (brr_text f)
unfolding brr_text
long-brr_text f =
    let times = decimal_text 19 f.sec ++ b'.' ∷ (padded 9 f.wall_nsec ++ b'\n' ∷ []) in
    let sizes = decimal_text 20 f.blob_size ++ b'\t' ∷ times in
    let udigs = udig_text f.algorithm f.digest ++ b'\t' ∷ (f.chat_history ++ b'\t' ∷ sizes) in
    let rest = f.transport ++ b'\t' ∷ (f.verb ++ b'\t' ∷ udigs) in
    let first : 29 ≤ length (brr_text f) =
      long_first (stamp_text f.stamp) rest b'\t' 29 (long-stamp_text f.stamp) in
    omega (arith, first)

-- A record that fits a message.
abbrev pub IsShort : Fields → Type 0
IsShort f = length (brr_text f) ≤ 255

take_all : (xs : Bytes) → take (length xs) xs ≡ xs
take_all xs = ap (take (length xs)) (sym (append-nil xs)) ∙ take-append_self xs []

drop_all : (xs ys : Bytes) → drop (length xs) (xs ++ ys) ≡ ys
drop_all [] ys = refl
drop_all (x ∷ xs) ys = drop_all xs ys

written :
    (payload : Bytes)
    → 25 < length payload
    → length payload ≤ 255
    → io_msg_write payload ≡ some (length payload ∷ payload)
unfolding io_msg_write
written payload long short =
    let count : length payload % 256 ≡ length payload = omega (arith, long, short) in
    let some_bytes : (length payload == 0) ≡ false = ground (arith, long) in
    rw (count, some_bytes, take_all payload) refl

read_back :
    (payload stream : Bytes)
    → 25 < length payload
    → io_msg_read (length payload ∷ (payload ++ stream)) ≡ message payload stream
unfolding io_msg_read
read_back payload stream long =
    let some_bytes : (length payload == 0) ≡ false = ground (arith, long) in
    let there : ltb (length (payload ++ stream)) (length payload) ≡ false =
      ground (arith, length-append payload stream) in
    rw (some_bytes, there, take-append_self payload stream, drop_all payload stream) refl

sent_first :
    (f : Fields) (fs : List Fields)
    → IsShort f
    → sent_records (f ∷ fs) ≡ length (brr_text f) ∷ (brr_text f ++ sent_records fs)
unfolding sent_records
sent_first f fs short = rw (written (brr_text f) (long-brr_text f) short) refl

logged :
    (payload : Bytes) (l : Logs)
    → 25 < length payload
    → log_payload payload l ≡ record l { log = l.log ++ payload }
unfolding log_payload
logged payload l long =
    let record_long : (length payload == 25) ≡ false = ground (arith, long) in rw record_long refl

logger_end :
    (fuel : ℕ) (l : Logs)
    → brr_logger (suc fuel) (sent_records []) l ≡ (record l { log = l.log ++ [] }, leaves)
unfolding brr_logger io_msg_read sent_records
logger_end fuel l = rw (append-nil l.log) refl

logger_record :
    (fuel : ℕ) (f : Fields) (fs : List Fields) (l : Logs)
    → IsShort f
    → brr_logger (suc fuel) (sent_records (f ∷ fs)) l
      ≡ brr_logger fuel (sent_records fs) (record l { log = l.log ++ brr_text f })
unfolding brr_logger
logger_record fuel f fs l short =
    let long = long-brr_text f in
    rw
      (
        sent_first f fs short,
        read_back (brr_text f) (sent_records fs) long,
        logged (brr_text f) l long,
      )
      refl

brr_logger_records :
    (fuel : ℕ) (fs : List Fields) (l : Logs)
    → All IsShort fs
    → length (sent_records fs) < fuel
    → brr_logger fuel (sent_records fs) l ≡ (record l { log = l.log ++ records_text fs }, leaves)
brr_logger_records zero fs l short lt = absurd (omega (arith, lt))
brr_logger_records (suc fuel) [] l short lt = logger_end fuel l
brr_logger_records (suc fuel) (f ∷ fs) l (short, shorts) lt =
    let less : length (sent_records fs) < fuel = omega (
      arith,
      lt,
      ap (length {A = ℕ}) (sent_first f fs short),
      length-append (brr_text f) (sent_records fs),
    ) in
    logger_record fuel f fs l short
    ∙ brr_logger_records fuel fs (record l { log = l.log ++ brr_text f }) shorts less
    ∙ ap (λ b. (record l { log = b }, leaves)) (append_assoc l.log (brr_text f) (records_text fs))

-- Where every record fits a message, the logger writes them whole, freezes no log and leaves at the end.
pub log_records-records_text :
    (fs : List Fields)
    → All IsShort fs
    → log_records fs ≡ (record { log = records_text fs; frozen = [] }, leaves)
unfolding log_records
log_records-records_text fs short =
    brr_logger_records (suc (length (sent_records fs))) fs (record { log = []; frozen = [] }) short
      (omega arith)
