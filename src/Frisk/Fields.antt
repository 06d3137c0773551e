-- ===== src/Frisk/Fields.antt =====
-- The scanners of the seven fields of a record, in cli/bio-frisk-brr.c.
use blobio.Base.{
  ℕ, ◌+◌, ◌-◌, ◌*◌, ◌^◌, Bool, true, false, not, ◌&&◌, ◌||◌, Option, none, some, [], ◌∷◌, Bytes,
  codes, length, ltb, leb, ◌==◌, if◌then◌else◌, bytes_eq, is_digit, is_graph,
}
use blobio.Chat.{at}
use blobio.Frisk.Scan.{
  Scanned, took, rejected, overrun, Scan, ◌>>=◌, ◌>>◌, pure, expect, is, lower_alnum, chat_set,
  in_set, in_range, scan_set,
}

abbrev pub between : ℕ → ℕ → ℕ → Bool
between lo hi c = leb lo c && leb c hi

-- The time zone, behind the fraction of the second.
unfoldable pub scan_zone : Scan (Unit {0})
unfolding expect in_set
scan_zone = do
  expect (λ c. c == b'+' || c == b'-')
  in_set 2 is_digit
  expect (is b':')
  in_set 2 is_digit

unfoldable pub scan_rfc399nano : Scan (Unit {0})
unfolding expect in_set in_range scan_zone
scan_rfc399nano = do
  expect (between b'2' b'5')
  in_set 3 is_digit
  expect (is b'-')
  expect (between b'0' b'1')
  expect is_digit
  expect (is b'-')
  expect (between b'0' b'3')
  expect is_digit
  expect (is b'T')
  expect (between b'0' b'2')
  expect is_digit
  expect (is b':')
  expect (between b'0' b'5')
  expect is_digit
  expect (is b':')
  expect (between b'0' b'5')
  expect is_digit
  expect (is b'.')
  in_range 9 1 is_digit
  scan_zone
  expect (is b'\t')

-- Behind the first character of the protocol: `~`, or more characters and `~`.
unfoldable pub scan_protocol : Scan Bytes
unfolding scan_set
scan_protocol [] = overrun
scan_protocol (c ∷ p) = if c == b'~' then took [] p else scan_set 7 lower_alnum b'~' (c ∷ p)

unfoldable pub scan_transport : Scan Bytes
unfolding expect scan_protocol scan_set
scan_transport = do expect (between b'a' b'z'); scan_protocol; scan_set 128 is_graph b'\t'

-- The rest of a verb, letter by letter.
unfoldable pub spelled : Bytes → Bytes → Scan Bytes
unfolding expect
spelled verb [] p = took verb p
spelled verb (c ∷ cs) [] = overrun
spelled verb (c ∷ cs) (d ∷ p) = if d == c then spelled verb cs p else rejected

unfoldable pub scan_g : Scan Bytes
unfolding spelled
scan_g [] = overrun
scan_g (c ∷ p) =
    if c == b'e'
    then spelled (codes "get") (codes "t") p
    else if c == b'i'
    then spelled (codes "give") (codes "ve") p
    else rejected

unfoldable pub verb_name : Scan Bytes
unfolding spelled scan_g
verb_name [] = overrun
verb_name (c ∷ p) =
    if c == b'g'
    then scan_g p
    else if c == b'p'
    then spelled (codes "put") (codes "ut") p
    else if c == b't'
    then spelled (codes "take") (codes "ake") p
    else if c == b'e'
    then spelled (codes "eat") (codes "at") p
    else if c == b'w'
    then spelled (codes "wrap") (codes "rap") p
    else if c == b'r'
    then spelled (codes "roll") (codes "oll") p
    else rejected

unfoldable pub scan_verb : Scan Bytes
unfolding verb_name expect
scan_verb = do verb ← verb_name; expect (is b'\t'); pure verb

-- The chats that a verb can have, as the tests of `scan_chat_history` order them.
unfoldable pub chat_allowed : Bytes → Bytes → Bool
unfolding bytes_eq
chat_allowed verb ch =
    let v1 = at verb 0 in
    let v2 = at verb 1 in
    if bytes_eq ch (codes "no")
    then true
    else if bytes_eq ch (codes "ok")
    then v1 == b'g' && v2 == b'e' || (v1 == b'e' || (v1 == b'w' || v1 == b'r'))
    else if bytes_eq ch (codes "ok,ok") || bytes_eq ch (codes "ok,no")
    then v1 == b'g' && v2 == b'i' || (v1 == b't' || v1 == b'p')
    else (bytes_eq ch (codes "ok,ok,ok") || bytes_eq ch (codes "ok,ok,no"))
      && (v1 == b't' || v1 == b'g' && v2 == b'i')

-- The flag is `ch[ch_len - 1] == 'o'`.
unfoldable pub check_chat : Bytes → Bytes → Scan Bool
unfolding chat_allowed
check_chat verb ch p =
    let n = length ch in
    if not (n == 2) && (not (n == 5) && not (n == 8))
    then rejected
    else if chat_allowed verb ch
    then took (at ch (n - 1) == b'o') p
    else rejected

unfoldable pub scan_chat_history : Bytes → Scan Bool
unfolding scan_set check_chat
scan_chat_history verb = do ch ← scan_set 8 chat_set b'\t'; check_chat verb ch

-- `strtoll`, which stops at the first byte that is no digit
abbrev pub decimal_from : ℕ → Bytes → ℕ
decimal_from n [] = n
decimal_from n (c ∷ cs) =
    let more = decimal_from (n * 10 + (c - b'0')) cs in if is_digit c then more else n

abbrev pub decimal : Bytes → ℕ
decimal = decimal_from 0

abbrev pub llong_max : ℕ
llong_max = 2 ^ 63 - 1

unfoldable pub at_most : ℕ → Bytes → Scan (Unit {0})
at_most limit ds p = if ltb limit (decimal ds) then rejected else took tt p

unfoldable pub scan_byte_count : Scan (Unit {0})
unfolding scan_set at_most
scan_byte_count = do v ← scan_set 20 is_digit b'\t'; at_most llong_max v

unfoldable pub scan_wall_duration : Scan (Unit {0})
unfolding scan_set at_most in_range expect
scan_wall_duration = do
  v ← scan_set 10 is_digit b'.'
  at_most 2147483647 v
  in_range 9 1 is_digit
  expect (is b'\n')

-- What stands before the next tab; `none` where a null or the end of the array comes first.
unfoldable pub to_tab : Bytes → Option (Bytes × Bytes)
to_tab [] = none
to_tab (c ∷ p) =
    let rest = to_tab p in
    if c == b'\t'
    then some ([], p)
    else if c == 0
    then none
    else elim rest [ none ↦ none | some (u, q) ↦ some (c ∷ u, q) ]

-- `jmscott_frisk_udig` of libjmscott is a parameter: it says whether a string is a udig.
module _ (frisk_udig : Bytes → Bool) where
  unfoldable pub check_udig : Option (Bytes × Bytes) → Scanned Bool
  check_udig none = rejected
  check_udig (some ([], q)) = took true q
  check_udig (some (c ∷ u, q)) =
      if ltb (length (c ∷ u)) 34
      then rejected
      else if ltb 137 (length (c ∷ u))
      then rejected
      else if frisk_udig (c ∷ u)
      then took false q
      else rejected

  -- The flag says that there is no udig.
  unfoldable pub scan_udig : Scan Bool
  unfolding to_tab check_udig
  scan_udig p = check_udig (to_tab p)
