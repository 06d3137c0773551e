-- ===== src/Tests/Brr.antt =====
-- The log of two requests, and a request over the turn of a second.
use blobio.Base.{◌≡◌, refl, Bool, true, [], Bytes, ◌∷◌, ◌++◌, none, some, codes}
use blobio.Brr.{Timespec, wall_duration}
use blobio.Brr.Format.{Stamp, Fields, padded, decimal_text, stamp_text, udig_text, brr_text}
use blobio.Brr.Messages.{io_msg_write, io_msg_read, log_payload, brr_logger, leaves}

abbrev begun : Timespec
begun = record { tv_sec = 7; tv_nsec = 999999999 }

abbrev ended : Timespec
ended = record { tv_sec = 9; tv_nsec = 1 }

one_second_two : wall_duration begun ended ≡ (1, 2)
unfolding wall_duration
one_second_two = refl

abbrev any_udig : Bytes → Bool
any_udig u = true

abbrev noon : Stamp
noon = record { year = 2022; month = 10; day = 17; hour = 12; minute = 0; second = 59; nsec = 42 }

abbrev eaten : Fields
eaten = record {
  stamp = noon;
  transport = codes "tcp4~127.0.0.1:1797;127.0.0.1:57154";
  verb = codes "eat";
  algorithm = codes "btc20";
  digest = codes "2da64d5c2b0f4e07c4b5cf6f7d5d9b0f7c0d2a11";
  chat_history = codes "ok";
  blob_size = 1024;
  sec = 3;
  wall_nsec = 42;
}

abbrev not_wrapped : Fields
not_wrapped = record {
  stamp = noon;
  transport = codes "tcp4~127.0.0.1:1797;127.0.0.1:57155";
  verb = codes "wrap";
  algorithm = [];
  digest = [];
  chat_history = codes "no";
  blob_size = 0;
  sec = 0;
  wall_nsec = 999999999;
}

brr_text_printed :
    brr_text eaten
    ≡ codes
        "2022-10-17T12:00:59.000000042+00:00\ttcp4~127.0.0.1:1797;127.0.0.1:57154\teat\tbtc20:2da64d5c2b0f4e07c4b5cf6f7d5d9b0f7c0d2a11\tok\t1024\t3.000000042\n"
unfolding brr_text stamp_text udig_text decimal_text padded
brr_text_printed = refl

abbrev of_25 : Bytes
of_25 = codes "0123456789012345678901234"

abbrev of_256 : Bytes
of_256 =
    codes "0123456789012345678901234567890123456789012345678901234567890123"
    ++ (codes "0123456789012345678901234567890123456789012345678901234567890123"
        ++ (codes "0123456789012345678901234567890123456789012345678901234567890123"
            ++ codes "0123456789012345678901234567890123456789012345678901234567890123"))

-- A payload of 281 bytes is cut to 25, and one of 256 is refused.
cut : io_msg_write (of_25 ++ of_256) ≡ some (25 ∷ of_25)
unfolding io_msg_write
cut = refl

nothing_left : io_msg_write of_256 ≡ none
unfolding io_msg_write
nothing_left = refl

-- A message of 25 bytes freezes the log.
frozen_by_25 :
    brr_logger 27 (25 ∷ of_25) (record { log = codes "a\n"; frozen = [] })
    ≡ (record { log = []; frozen = codes "a\n" ∷ [] }, leaves)
unfolding brr_logger io_msg_read log_payload
frozen_by_25 = refl
