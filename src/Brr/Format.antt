-- ===== src/Brr/Format.antt =====
-- The text of a record: `brr_format` and the `snprintf` of `brr_send` in bio4d/brr.c.
use blobio.Base.{ℕ, zero, suc, ◌+◌, ◌/◌, ◌%◌, [], ◌∷◌, ◌++◌, Bytes, codes, ltb, if◌then◌else◌}

-- `%0wd` of a number of at most `w` digits.
unfoldable pub padded : ℕ → ℕ → Bytes
padded zero n = []
padded (suc w) n = padded w (n / 10) ++ (b'0' + n % 10) ∷ []

-- `%llu` and `%ld` of a number of at most `digits` digits.
unfoldable pub decimal_text : ℕ → ℕ → Bytes
decimal_text zero n = []
decimal_text (suc digits) n =
    let more = decimal_text digits (n / 10) in
    (if ltb n 10 then [] else more) ++ (b'0' + n % 10) ∷ []

-- What `gmtime` makes of the start time, with the year and the month as they are printed.
pub record Stamp : Type 0 where
  pub year : ℕ
  pub month : ℕ
  pub day : ℕ
  pub hour : ℕ
  pub minute : ℕ
  pub second : ℕ
  pub nsec : ℕ

-- What a record says of a request.
pub record Fields : Type 0 where
  pub stamp : Stamp
  pub transport : Bytes
  pub verb : Bytes
  pub algorithm : Bytes
  pub digest : Bytes
  pub chat_history : Bytes
  pub blob_size : ℕ
  pub sec : ℕ
  pub wall_nsec : ℕ

unfoldable pub stamp_text : Stamp → Bytes
unfolding padded
stamp_text t =
    padded 4 t.year
    ++ b'-'
      ∷ (padded 2 t.month
          ++ b'-'
            ∷ (padded 2 t.day
                ++ b'T'
                  ∷ (padded 2 t.hour
                      ++ b':'
                        ∷ (padded 2 t.minute
                            ++ b':'
                              ∷ (padded 2 t.second
                                  ++ b'.' ∷ (padded 9 t.nsec ++ codes "+00:00"))))))

-- The algorithm, the colon where both are there, and the digest.
unfoldable pub udig_text : Bytes → Bytes → Bytes
udig_text (a ∷ algorithm) (d ∷ digest) = (a ∷ algorithm) ++ b':' ∷ d ∷ digest
udig_text algorithm digest = algorithm ++ digest

-- The array of 421 characters has room for a transport of 131, a udig of 137 and a chat of 8.
unfoldable pub brr_text : Fields → Bytes
unfolding stamp_text udig_text decimal_text padded
brr_text f =
    stamp_text f.stamp
    ++ b'\t'
      ∷ (f.transport
          ++ b'\t'
            ∷ (f.verb
                ++ b'\t'
                  ∷ (udig_text f.algorithm f.digest
                      ++ b'\t'
                        ∷ (f.chat_history
                            ++ b'\t'
                              ∷ (decimal_text 20 f.blob_size
                                  ++ b'\t'
                                    ∷ (decimal_text 19 f.sec
                                        ++ b'.' ∷ (padded 9 f.wall_nsec ++ b'\n' ∷ [])))))))
