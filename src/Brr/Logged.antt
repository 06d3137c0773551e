-- ===== src/Brr/Logged.antt =====
-- The frisker takes the log file that the logger writes, as one line for each record that `brr_send` sends.
use blobio.Base.{ℕ, ◌≤◌, ◌≡◌, false, List, [], ◌∷◌, ◌++◌, Bytes, All, length, ◌==◌}
use blobio.Frisk.Records.{Accepted}
use blobio.Brr.Format.{Fields, padded, stamp_text, udig_text, decimal_text}

-- A piece of a line, of at most `n` bytes.
record Piece (n : ℕ) (xs : Bytes) : Type 0 where
  no_newline : All (λ c. (c == b'\n') ≡ false) xs
  short : length xs ≤ n

-- A record without its newline.
abbrev body : Fields → Bytes
body f =
    stamp_text f.stamp
    ++ b'\t'
      ∷ (f.transport
          ++ b'\t'
            ∷ (f.verb
                ++ b'\t'
                  ∷ (udig_text f.algorithm f.digest
                      ++ b'\t'
                        ∷ (f.chat_history
                            ++ b'\t'
                              ∷ (decimal_text 20 f.blob_size
                                  ++ b'\t'
                                    ∷ (decimal_text 19 f.sec ++ b'.' ∷ padded 9 f.wall_nsec))))))

abbrev bodies : List Fields → List Bytes
bodies [] = []
bodies (f ∷ fs) = body f ∷ bodies fs
