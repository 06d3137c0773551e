-- ===== src/Qarg.antt =====
-- The query arguments of $BLOBIO_SERVICE: cli/blobio/qarg.c. A position counts the characters of the
-- query before `q`, which is the rest of it up to the null.
pub mod Bounds
pub mod Algo
use Prim.Native.Nat.{bit_or}
use blobio.Chat
use blobio.Base.{
  ℕ, zero, suc, ◌+◌, ◌-◌, ◌*◌, ◌%◌, Bool, true, false, not, ◌&&◌, ◌||◌, Option, none, some, List,
  [], ◌∷◌, ◌++◌, Bytes, codes, length, take, drop, ltb, leb, ◌==◌, if◌then◌else◌, is_digit,
  is_lower, is_alpha, is_graph, is_ascii,
}

-- `expect` and the sign before the value; `none` is an error.
unfoldable pub match_name : Bytes → Bytes → Option Bytes
match_name [] [] = none
match_name [] (c ∷ given) = if c == b'=' then some given else none
match_name (ce ∷ expect) [] = none
match_name (ce ∷ expect) (cg ∷ given) =
    let rest = match_name expect given in if not (is_ascii cg) || not (cg == ce) then none else rest

-- The value has at most `max_vlen` characters before an ampersand or the null. The test for an empty
-- value compares with the start of the argument, and never holds.
unfoldable pub is_value : ℕ → Bytes → Bool
is_value max_vlen [] = true
is_value zero (cg ∷ g) = cg == b'&'
is_value (suc max_vlen) (cg ∷ g) =
    let rest = is_value max_vlen g in cg == b'&' || is_ascii cg && is_graph cg && rest

unfoldable pub checked_value : ℕ → Option Bytes → Option Bytes
unfolding is_value
checked_value max_vlen none = none
checked_value max_vlen (some g) = if is_value max_vlen g then some g else none

-- The rest of the query from `*p_equal`.
unfoldable pub frisk_qarg : Bytes → Bytes → ℕ → Option Bytes
unfolding match_name checked_value
frisk_qarg expect given max_vlen = checked_value max_vlen (match_name expect given)

-- The offsets and lengths of the values met so far, where -1 is `none`.
pub record Args : Type 0 where
  pub algo : Option (ℕ × ℕ)
  pub brr_mask : Option ℕ
  pub fnp : Option (ℕ × ℕ)

abbrev pub no_args : Args
no_args = record { algo = none; brr_mask = none; fnp = none }

abbrev pub is_some {ℓ} : {A : Type ℓ} → Option A → Bool
is_some none = false
is_some (some a) = true

-- Where a scan of characters ends: how many it took, and what is behind the ampersand.
pub data Scanned : Type 0 where
  bad_char : Scanned
  at_null : ℕ → Scanned
  at_ampersand : ℕ → Bytes → Scanned

abbrev pub one_more : Scanned → Scanned
one_more bad_char = bad_char
one_more (at_null n) = at_null (suc n)
one_more (at_ampersand n q) = at_ampersand (suc n) q

unfoldable pub scan_chars : (ℕ → Bool) → Bytes → Scanned
scan_chars ok [] = at_null 0
scan_chars ok (c ∷ q) =
    let rest = scan_chars ok q in
    if c == b'&' then at_ampersand 0 q else if ok c then one_more rest else bad_char

-- One argument: an error, the end of the query, or the position and the rest behind an ampersand.
pub data Step : Type 0 where
  refused : Step
  finished : Args → Step
  again : ℕ → Bytes → Args → Step

unfoldable pub is_lower_or_digit : ℕ → Bool
unfolding is_lower is_digit
is_lower_or_digit c = is_lower c || is_digit c

-- The length counts the null at the end of the query.
unfoldable pub note_algo : ℕ → Args → Scanned → Step
note_algo at args bad_char = refused
note_algo at args (at_null n) = finished (record args { algo = some (at, suc n + 1) })
note_algo at args (at_ampersand n q) =
    again (at + suc n + 1) q (record args { algo = some (at, suc n) })

unfoldable pub after_algo : ℕ → Args → Option Bytes → Step
unfolding note_algo scan_chars is_lower_or_digit is_lower
after_algo pos args none = refused
after_algo pos args (some []) = refused
after_algo pos args (some (c ∷ q)) =
    if is_some args.algo || not (is_lower c)
    then refused
    else note_algo (pos + 5) args (scan_chars is_lower_or_digit q)

unfoldable pub is_hex_lower : ℕ → Bool
unfolding is_digit
is_hex_lower c = is_digit c || leb b'a' c && leb c b'f'

-- `!isxdigit(c) || !islower(c)` leaves the letters.
unfoldable pub is_hex_letter : ℕ → Bool
is_hex_letter c = leb b'a' c && leb c b'f'

-- Behind the two digits stands the null or an ampersand.
unfoldable pub brr_noted : ℕ → Args → Bytes → Step
brr_noted pos args [] = finished (record args { brr_mask = some (pos + 4) })
brr_noted pos args (c ∷ q) = again (pos + 4 + 3) q (record args { brr_mask = some (pos + 4) })

unfoldable pub after_brr : ℕ → Args → Option Bytes → Step
unfolding is_hex_lower is_hex_letter brr_noted
after_brr pos args (some (high ∷ low ∷ q)) =
    if is_some args.brr_mask || not (is_hex_lower high) || not (is_hex_letter low)
    then refused
    else brr_noted pos args q
after_brr pos args _ = refused

unfoldable pub note_fnp : ℕ → Args → Scanned → Step
note_fnp at args bad_char = refused
note_fnp at args (at_null n) =
    if ltb 32 (n + 1) then refused else finished (record args { fnp = some (at, n + 1) })
note_fnp at args (at_ampersand n q) =
    if n == 0 || ltb 32 n
    then refused
    else again (at + n + 1) q (record args { fnp = some (at, n) })

unfoldable pub after_fnp : ℕ → Args → Option Bytes → Step
unfolding note_fnp scan_chars is_graph
after_fnp pos args none = refused
after_fnp pos args (some q) =
    if is_some args.fnp then refused else note_fnp (pos + 4) args (scan_chars is_graph q)

-- The switch, on the query from the character on.
unfoldable pub step : ℕ → Bytes → Args → Step
unfolding frisk_qarg after_algo after_brr after_fnp
step pos [] args = finished args
step pos (c ∷ q) args =
    if c == b'a'
    then after_algo pos args (frisk_qarg (codes "algo") (c ∷ q) 8)
    else if c == b'b'
    then after_brr pos args (frisk_qarg (codes "brr") (c ∷ q) 2)
    else if c == b'f'
    then after_fnp pos args (frisk_qarg (codes "fnp") (c ∷ q) 32)
    else refused

-- `unended` is a loop that has run out of rounds.
pub data Frisked : Type 0 where
  rejected unended : Frisked
  accepted : Args → Frisked

-- The loop; an argument that is followed by an ampersand is followed by another. It takes a character
-- at least in each round, so as many rounds as the query has characters are enough.
unfoldable pub rounds : ℕ → Step → Frisked
unfolding step
rounds fuel refused = rejected
rounds fuel (finished args) = accepted args
rounds fuel (again pos [] args) = rejected
rounds zero (again pos (c ∷ q) args) = unended
rounds (suc fuel) (again pos (c ∷ q) args) = rounds fuel (step pos (c ∷ q) args)

-- `BLOBIO_SERVICE_frisk_qargs`
unfoldable pub frisk_qargs : Bytes → Frisked
unfolding rounds step
frisk_qargs query = rounds (length query) (step 0 query no_args)

-- What a copy leaves in an array: what was there, a text, or a byte behind the array.
pub data Copied : Type 0 where
  kept overrun : Copied
  stored : Bytes → Copied

unfoldable pub until_null : Bytes → Bytes
until_null [] = []
until_null (c ∷ cs) = let rest = until_null cs in if c == 0 then [] else c ∷ rest

-- `memcpy` of the value into an array of `size` characters, and the null behind it.
unfoldable pub get_value : ℕ → Bytes → Option (ℕ × ℕ) → Copied
unfolding until_null
get_value size query none = kept
get_value size query (some (offset, len)) =
    if ltb len size then stored (until_null (take len (drop offset (query ++ 0 ∷ [])))) else overrun

-- `BLOBIO_SERVICE_get_algo`, with `char algo[8 + 1]`, and `BLOBIO_SERVICE_get_fnp`
unfoldable pub get_algo : Bytes → Args → Copied
unfolding get_value
get_algo query args = get_value 9 query args.algo

unfoldable pub get_fnp : Bytes → Args → Copied
unfolding get_value
get_fnp query args = get_value 33 query args.fnp

unfoldable pub hex_value : ℕ → ℕ
unfolding is_lower
hex_value c = if is_lower c then c - b'a' + 10 else c - b'0'

-- `BLOBIO_SERVICE_get_brr_mask`: the mask, an unsigned char, if the query gives one.
unfoldable pub get_brr_mask : Bytes → Option ℕ → Option ℕ
unfolding hex_value
get_brr_mask query none = none
get_brr_mask query (some offset) =
    let q = drop offset query in
    some (bit_or (hex_value (Chat.at q 0) * 16 % 256) (hex_value (Chat.at q 1)))
