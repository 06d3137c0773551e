-- ===== src/Frisk/Stream.antt =====
-- The records of standard input: `main` of cli/bio-frisk-brr.c.
use blobio.Base.{
  ℕ, zero, suc, ◌+◌, ◌-◌, Bool, true, false, not, ◌&&◌, ◌||◌, [], ◌∷◌, ◌++◌, Bytes, drop, length,
  ◌==◌, if◌then◌else◌,
}
use blobio.Chat.{at}
use blobio.Frisk.Scan.{Scanned, took, rejected, died, overrun, Scan, ◌>>=◌, ◌>>◌}
use blobio.Frisk.Fields.{
  scan_rfc399nano, scan_transport, scan_verb, scan_udig, scan_chat_history, scan_byte_count,
  scan_wall_duration,
}

-- `fgets` with room for `n` bytes before the null: what it takes, and what is left.
unfoldable pub fgets : ℕ → Bytes → Bytes × Bytes
fgets zero input = ([], input)
fgets (suc n) [] = ([], [])
fgets (suc n) (c ∷ input) =
    let (taken, left) = fgets n input in if c == b'\n' then (c ∷ [], input) else (c ∷ taken, left)

-- The array after `fgets`: a null behind the bytes, then what was there before.
unfoldable pub fill : Bytes → Bytes → Bytes
fill array taken = taken ++ (0 ∷ drop (length taken + 1) array)

-- The exits of the process, and the read behind the array that no exit follows.
pub data Exit : Type 0 where
  is_brr not_brr is_empty error : Exit
  read_behind unfinished : Exit

-- The tests on `wrap` and `roll`.
unfoldable pub check_set : Bytes → Bool → Bool → Scan (Unit {0})
check_set verb no_udig is_no p =
    if at verb 0 == b'w' || at verb 0 == b'r'
    then if not no_udig && is_no then died else if no_udig && not is_no then died else took tt p
    else took tt p

abbrev pub zeros : ℕ → Bytes
zeros zero = []
zeros (suc n) = 0 ∷ zeros n

module _ (frisk_udig : Bytes → Bool) where
  unfoldable pub scan_record : Scan (Unit {0})
  unfolding scan_rfc399nano scan_transport scan_verb scan_udig scan_chat_history check_set
      scan_byte_count scan_wall_duration
  scan_record = do
    scan_rfc399nano
    scan_transport
    verb ← scan_verb
    no_udig ← scan_udig frisk_udig
    is_no ← scan_chat_history verb
    check_set verb no_udig is_no
    scan_byte_count
    scan_wall_duration

  -- Once round the loop: what follows, where the record is taken.
  unfoldable pub after_record : Scanned (Unit {0}) → Exit → Exit
  after_record (took u p) rest = rest
  after_record rejected rest = not_brr
  after_record died rest = error
  after_record overrun rest = read_behind

  -- `line` holds `size` bytes; the fuel bounds the calls of `fgets`.
  unfoldable pub loop : ℕ → Bytes → Bool → Bytes → Exit
  unfolding fgets fill scan_record after_record
  loop zero array read_input input = unfinished
  loop (suc fuel) array read_input [] = if read_input then is_brr else is_empty
  loop (suc fuel) array read_input (c ∷ input) =
      let (taken, left) = fgets (length array - 1) (c ∷ input) in
      let array' = fill array taken in
      after_record (scan_record array') (loop fuel array' true left)

  unfoldable pub main : Bytes → Exit
  unfolding loop
  main input = loop (length input + 1) (zeros 372) false input
