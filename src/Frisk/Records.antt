-- ===== src/Frisk/Records.antt =====
-- The loop of `main` in cli/bio-frisk-brr.c ends, and takes a file record by record.
use blobio.Base.{
  ℕ, zero, suc, ◌+◌, ◌-◌, ◌≤◌, ◌<◌, ◌≡◌, ◌≢◌, refl, ◌∙◌, Bool, true, false, List, [], ◌∷◌, ◌++◌,
  Bytes, length, length-append, length-drop, drop, All, ◌==◌, arith,
}
use blobio.Frisk.Scan.{Scanned, took, rejected, died, overrun}
use blobio.Frisk.Stream.{
  fgets, fill, Exit, is_brr, unfinished, scan_record, after_record, loop, main, zeros,
}

fgets_takes : (n c : ℕ) (input : Bytes) → length (fgets (suc n) (c ∷ input)).1 ≤ length input
unfolding fgets
fgets_takes zero c input = ground arith
fgets_takes (suc n) c [] = ground arith
fgets_takes (suc n) c (d ∷ input) = ground (arith, fgets_takes n d input)

length-fill :
    (array taken : Bytes) → length taken < length array → length (fill array taken) ≡ length array
unfolding fill
length-fill array taken h = omega (
  arith,
  length-append taken (0 ∷ drop (length taken + 1) array),
  length-drop (length taken + 1) array,
)

length-fgets : (n : ℕ) (input : Bytes) → length (fgets n input).0 ≤ n
unfolding fgets
length-fgets zero input = omega arith
length-fgets (suc n) [] = omega arith
length-fgets (suc n) (c ∷ input) = ground (arith, length-fgets n input)

-- A line, short enough for the array with its newline and a null.
pub record Line (body : Bytes) : Type 0 where
  pub no_newline : All (λ c. (c == b'\n') ≡ false) body
  pub fits : length body ≤ 370

add_one : (n : ℕ) → n + 1 ≡ suc n
add_one n = omega arith

fgets_line :
    (body rest : Bytes) (n : ℕ)
    → All (λ c. (c == b'\n') ≡ false) body
    → length body < n
    → fgets n ((body ++ b'\n' ∷ []) ++ rest) ≡ (body ++ b'\n' ∷ [], rest)
unfolding fgets
fgets_line [] rest zero h lt = absurd (omega arith)
fgets_line [] rest (suc n) h lt = refl
fgets_line (c ∷ body) rest zero h lt = absurd (omega arith)
fgets_line (c ∷ body) rest (suc n) (ne, h) lt = rw (ne, fgets_line body rest n h (omega arith)) refl

shorter :
    (array : Bytes) (c : ℕ) (input : Bytes)
    → length array ≡ 372
    → (fuel : ℕ) → length (c ∷ input) < suc fuel
    → length (fgets (length array - 1) (c ∷ input)).1 < fuel
shorter array c input room fuel lt = rw room (omega (arith, fgets_takes 370 c input))

has_newline : (body rest : Bytes) → (body ++ b'\n' ∷ []) ++ rest ≢ []
has_newline [] rest e = cc e
has_newline (c ∷ body) rest e = cc e

-- The bytes of a file of lines.
abbrev pub file : List Bytes → Bytes
file [] = []
file (body ∷ ls) = (body ++ b'\n' ∷ []) ++ file ls

module _ (frisk_udig : Bytes → Bool) where
  after_record_ends :
      (s : Scanned Unit) (rest : Exit)
      → rest ≢ unfinished
      → after_record frisk_udig s rest ≢ unfinished
  unfolding after_record
  after_record_ends (took u p) rest h = h
  after_record_ends rejected rest h = λ e. cc e
  after_record_ends died rest h = λ e. cc e
  after_record_ends overrun rest h = λ e. cc e

  loop_ends :
      (fuel : ℕ) (array : Bytes) (read_input : Bool) (input : Bytes)
      → length input < fuel
      → length array ≡ 372
      → loop frisk_udig fuel array read_input input ≢ unfinished
  unfolding loop
  loop_ends zero array read_input input lt room = absurd (omega arith)
  loop_ends (suc fuel) array true [] lt room = λ e. cc e
  loop_ends (suc fuel) array false [] lt room = λ e. cc e
  loop_ends (suc fuel) array read_input (c ∷ input) lt room =
      let n = length array - 1 in
      let (taken, left) = fgets n (c ∷ input) in
      after_record_ends (scan_record frisk_udig (fill array taken)) _ (
        loop_ends fuel (fill array taken) true left (shorter array c input room fuel lt)
          (length-fill array taken (omega (arith, length-fgets n (c ∷ input))) ∙ room))

  -- Every input leads to an exit, or to a read behind the array: the loop is never left with input
  -- that it does not consume.
  main_ends : (input : Bytes) → main frisk_udig input ≢ unfinished
  unfolding main
  main_ends input = loop_ends (length input + 1) (zeros 372) false input (omega arith) refl

  -- A line that the scanners take, whatever the array holds behind it.
  abbrev pub Accepted : Bytes → Type 0
  Accepted l = (tail : Bytes) → (p : Bytes) × (scan_record frisk_udig (l ++ 0 ∷ tail) ≡ took tt p)

  loop-fgets :
      (fuel : ℕ) (array : Bytes) (read_input : Bool) (input : Bytes)
      → input ≢ []
      → loop frisk_udig (suc fuel) array read_input input ≡ (
          let (taken, left) = fgets (length array - 1) input in
          let array' = fill array taken in
          after_record frisk_udig
            (scan_record frisk_udig array')
            (loop frisk_udig fuel array' true left))
  unfolding loop
  loop-fgets fuel array read_input [] ne = absurd (ne refl)
  loop-fgets fuel array read_input (c ∷ input) ne = refl

  taken_record :
      (l array : Bytes) (rest : Exit)
      → Accepted l
      → after_record frisk_udig (scan_record frisk_udig (fill array l)) rest ≡ rest
  unfolding fill after_record
  taken_record l array rest accepted =
      let (p, took_it) = accepted (drop (length l + 1) array) in rw took_it refl

  loop_line :
      (body rest : Bytes) (fuel : ℕ) (array : Bytes) (read_input : Bool)
      → Line body
      → Accepted (body ++ b'\n' ∷ [])
      → length array ≡ 372
      → loop frisk_udig (suc fuel) array read_input ((body ++ b'\n' ∷ []) ++ rest)
        ≡ loop frisk_udig fuel (fill array (body ++ b'\n' ∷ [])) true rest
  loop_line body rest fuel array read_input i accepted room =
      loop-fgets fuel array read_input ((body ++ b'\n' ∷ []) ++ rest) (has_newline body rest)
      ∙ rw (fgets_line body rest (length array - 1) i.no_newline (omega (arith, i.fits)))
          (taken_record (body ++ b'\n' ∷ []) array _ accepted)

  abbrev pub IsLog : List Bytes → Type 0
  IsLog [] = Unit
  IsLog (body ∷ ls) = Line body × Accepted (body ++ b'\n' ∷ []) × IsLog ls

  loop_log :
      (ls : List Bytes) (fuel : ℕ) (array : Bytes)
      → IsLog ls
      → length array ≡ 372
      → length (file ls) < fuel
      → loop frisk_udig fuel array true (file ls) ≡ is_brr
  loop_log ls zero array h room lt = absurd (omega arith)
  loop_log [] (suc fuel) array h room lt = unfold loop in refl
  loop_log (body ∷ ls) (suc fuel) array (i, accepted, h) room lt =
      loop_line body (file ls) fuel array true i accepted room
      ∙ loop_log ls fuel (fill array (body ++ b'\n' ∷ [])) h
          (length-fill array (body ++ b'\n' ∷ [])
              (omega (arith, i.fits, room, length-append body (b'\n' ∷ [])))
            ∙ room)
          (omega (
            arith,
            lt,
            length-append (body ++ b'\n' ∷ []) (file ls),
            length-append body (b'\n' ∷ []),
          ))

  -- A file of one line or more, each with at most 371 bytes with its newline and each taken by the
  -- scanners whatever stands behind its null, is a log: the exit status is that of success.
  pub main_log :
      (body : Bytes) (ls : List Bytes)
      → IsLog (body ∷ ls)
      → main frisk_udig (file (body ∷ ls)) ≡ is_brr
  unfolding main
  main_log body ls (i, accepted, h) = rw (add_one (length (file (body ∷ ls)))) (
      loop_line body (file ls) (length (file (body ∷ ls))) (zeros 372) false i accepted refl
      ∙ loop_log ls (length (file (body ∷ ls))) (fill (zeros 372) (body ++ b'\n' ∷ [])) h
          (length-fill (zeros 372) (body ++ b'\n' ∷ [])
            (omega (arith, i.fits, length-append body (b'\n' ∷ []))))
          (omega
            (arith, length-append (body ++ b'\n' ∷ []) (file ls), length-append body (b'\n' ∷ []))))
