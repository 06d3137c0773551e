-- ===== src/Qarg/Bounds.antt =====
-- The loop over the query ends, and the values it notes lie in the query.
use blobio.Base.{
  ℕ, zero, suc, ◌+◌, ◌≤◌, ◌<◌, ◌≡◌, ◌≢◌, refl, inl, inr, Bool, true, false, not, ◌&&◌, ◌||◌, Option,
  none, some, [], ◌∷◌, Bytes, codes, length, ltb, ◌==◌, if◌then◌else◌, is_graph, is_lower, is_ascii,
  Bool-cases, Option-cases, arith,
}
use blobio.Qarg.{
  Args, no_args, Step, refused, finished, again, Scanned, bad_char, at_null, at_ampersand, one_more,
  scan_chars, match_name, is_value, checked_value, frisk_qarg, note_algo, after_algo, after_brr,
  brr_noted, note_fnp, after_fnp, step, rounds, frisk_qargs, unended, accepted, overrun, get_value,
  get_fnp, is_some, is_lower_or_digit, is_hex_lower, is_hex_letter,
}

-- A value of at most `most` characters, that ends at the null of a query of `size` characters or before.
abbrev pub Fits : ℕ → ℕ → Option (ℕ × ℕ) → Type 0
Fits most size none = Unit
Fits most size (some (offset, len)) = (len ≤ most) × (offset + len ≤ size + 1)

abbrev pub AllFit : ℕ → Args → Type 0
AllFit size args = Fits 9 size args.algo × Fits 32 size args.fnp

-- The characters that a scan takes are those before its end.
abbrev ScanFits : Bytes → Scanned → Type 0
ScanFits q bad_char = Unit
ScanFits q (at_null n) = length q ≡ n
ScanFits q (at_ampersand n rest) = length q ≡ n + 1 + length rest

one_more-ScanFits : (c : ℕ) (q : Bytes) (s : Scanned) → ScanFits q s → ScanFits (c ∷ q) (one_more s)
one_more-ScanFits c q bad_char h = tt
one_more-ScanFits c q (at_null n) h = omega (arith, h)
one_more-ScanFits c q (at_ampersand n rest) h = omega (arith, h)

scan_chars-ScanFits : (ok : ℕ → Bool) (q : Bytes) → ScanFits q (scan_chars ok q)
unfolding scan_chars
scan_chars-ScanFits ok [] = refl
scan_chars-ScanFits ok (c ∷ q) = elim (Bool-cases (c == b'&')) [
  | inl amp ↦ rw (amp, scan_chars) (omega arith)
  | inr other ↦ elim (Bool-cases (ok c)) [
    | inl good ↦
        rw (other, good, scan_chars)
          (one_more-ScanFits c q (scan_chars ok q) (scan_chars-ScanFits ok q))
    | inr bad ↦ rw (other, bad, scan_chars) tt
  ]
]

-- A value as `frisk_qarg` gives it: what is before the next ampersand is no longer than the limit.
abbrev Short : ℕ → Scanned → Type 0
Short most bad_char = Unit
Short most (at_null n) = n ≤ most
Short most (at_ampersand n rest) = n ≤ most

one_more-Short : (most : ℕ) (s : Scanned) → Short most s → Short (suc most) (one_more s)
one_more-Short most bad_char h = tt
one_more-Short most (at_null n) h = omega (arith, h)
one_more-Short most (at_ampersand n rest) h = omega (arith, h)

and_last : (a b c : Bool) → (a && b && c) ≡ true → c ≡ true
and_last a b c h = ground arith

scan_chars-Short :
    (ok : ℕ → Bool) (most : ℕ) (q : Bytes) → is_value most q ≡ true → Short most (scan_chars ok q)
unfolding scan_chars is_value
scan_chars-Short ok most [] h = omega arith
scan_chars-Short ok zero (c ∷ q) h = rw (h, scan_chars) (omega arith)
scan_chars-Short ok (suc most) (c ∷ q) h = elim (Bool-cases (c == b'&')) [
  | inl amp ↦ rw (amp, scan_chars) (omega arith)
  | inr other ↦ elim (Bool-cases (ok c)) [
    | inl good ↦
        rw (other, good, scan_chars)
          (one_more-Short most (scan_chars ok q) (
            scan_chars-Short ok most q
              (and_last (is_ascii c) (is_graph c) (is_value most q) (rw other at h))))
    | inr bad ↦ rw (other, bad, scan_chars) tt
  ]
]

-- A step keeps within the query: `size` is its length, and `pos` characters stand before `q`.
abbrev StepFits : ℕ → ℕ → Step → Type 0
StepFits size before refused = Unit
StepFits size before (finished args) = AllFit size args
StepFits size before (again pos q args) =
    AllFit size args × (pos + length q ≡ size) × (before < pos)

match_name-length :
    (expect given g : Bytes)
    → match_name expect given ≡ some g
    → length given ≡ length expect + 1 + length g
unfolding match_name
match_name-length [] [] g h = cc
match_name-length [] (c ∷ given) g h = ground arith
match_name-length (ce ∷ expect) [] g h = cc
match_name-length (ce ∷ expect) (cg ∷ given) g h = ground (arith, match_name-length expect given g)

checked_value-inv :
    (most : ℕ) (o : Option Bytes) (g : Bytes)
    → checked_value most o ≡ some g
    → (o ≡ some g) × (is_value most g ≡ true)
unfolding checked_value
checked_value-inv most none g h = cc
checked_value-inv most (some v) g h = elim (Bool-cases (is_value most v)) [
  | inl ok ↦
      let found : some v ≡ some g = rw ok at h in let same : v ≡ g = cc in (found, rw same at ok)
  | inr bad ↦ absurd (let no : none ≡ some g = rw bad at h in cc)
]

-- What `frisk_qarg` leaves of a query whose character `q` is the one at `pos`.
abbrev Value : ℕ → ℕ → ℕ → Option Bytes → Type 0
Value size at most none = Unit
Value size at most (some g) = (at + length g ≡ size) × (is_value most g ≡ true)

frisk_qarg-Value :
    (size pos most : ℕ) (expect given : Bytes)
    → pos + length given ≡ size
    → Value size (pos + (length expect + 1)) most (frisk_qarg expect given most)
unfolding frisk_qarg
frisk_qarg-Value size pos most expect given here =
    elim (Option-cases (checked_value most (match_name expect given))) [
      | inl none_found ↦ rw (none_found, frisk_qarg) tt
      | inr (g, found) ↦
          let (named, valued) = checked_value-inv most (match_name expect given) g found in
          let long = match_name-length expect given g named in
          rw (found, frisk_qarg) (omega (arith, long), valued)
    ]

note_algo-StepFits :
    (size pos at : ℕ) (args : Args) (q : Bytes) (s : Scanned)
    → AllFit size args
    → pos < at
    → at + suc (length q) ≡ size
    → ScanFits q s
    → Short 7 s
    → StepFits size pos (note_algo at args s)
unfolding note_algo
note_algo-StepFits size pos at args q bad_char fit on here scan short = tt
note_algo-StepFits size pos at args q (at_null n) fit on here scan short =
    ((omega (arith, scan, short), omega (arith, scan, short)), fit.1)
note_algo-StepFits size pos at args q (at_ampersand n rest) fit on here scan short = (
  ((omega (arith, scan, short), omega (arith, scan, short)), fit.1),
  omega (arith, scan),
  omega arith,
)

note_fnp-StepFits :
    (size pos at : ℕ) (args : Args) (q : Bytes) (s : Scanned)
    → AllFit size args
    → pos < at
    → at + length q ≡ size
    → ScanFits q s
    → StepFits size pos (note_fnp at args s)
unfolding note_fnp
note_fnp-StepFits size pos at args q bad_char fit on here scan = tt
note_fnp-StepFits size pos at args q (at_null n) fit on here scan =
    elim (Bool-cases (ltb 32 (n + 1))) [
      | inl long ↦ rw (long, note_fnp) tt
      | inr short ↦ rw (short, note_fnp) (fit.0, (ground (arith, scan), omega (arith, scan)))
    ]
note_fnp-StepFits size pos at args q (at_ampersand n rest) fit on here scan =
    elim (Bool-cases (n == 0 || ltb 32 n)) [
      | inl long ↦ rw (long, note_fnp) tt
      | inr short ↦
          rw (short, note_fnp)
            ((fit.0, (ground (arith, scan), omega (arith, scan))), omega (arith, scan), omega arith)
    ]

-- The value behind its first character, which is no ampersand.
rest_value :
    (twice : Bool) (c most : ℕ) (q : Bytes)
    → (twice || not (is_lower c)) ≡ false
    → is_value (suc most) (c ∷ q) ≡ true
    → is_value most q ≡ true
unfolding is_value is_lower
rest_value twice c most q good valued = ground arith

brr_end :
    (size pos : ℕ) (args : Args) (q : Bytes)
    → AllFit size args
    → pos + 6 + length q ≡ size
    → StepFits size pos (brr_noted pos args q)
unfolding brr_noted
brr_end size pos args [] fit here = fit
brr_end size pos args (c ∷ q) fit here = (fit, omega arith, omega arith)

after_algo-StepFits :
    (size pos : ℕ) (args : Args) (o : Option Bytes)
    → AllFit size args
    → Value size (pos + 5) 8 o
    → StepFits size pos (after_algo pos args o)
unfolding after_algo
after_algo-StepFits size pos args none fit v = tt
after_algo-StepFits size pos args (some []) fit v = tt
after_algo-StepFits size pos args (some (c ∷ q)) fit v =
    elim (Bool-cases (is_some args.algo || not (is_lower c))) [
      | inl bad ↦ rw (bad, after_algo) tt
      | inr good ↦
          rw (good, after_algo)
            (note_algo-StepFits size pos (pos + 5) args q (scan_chars is_lower_or_digit q) fit
              (omega arith) (omega (arith, v.0)) (scan_chars-ScanFits is_lower_or_digit q)
              (scan_chars-Short is_lower_or_digit 7 q
                (rest_value (is_some args.algo) c 7 q good v.1)))
    ]

after_brr-StepFits :
    (size pos : ℕ) (args : Args) (o : Option Bytes)
    → AllFit size args
    → Value size (pos + 4) 2 o
    → StepFits size pos (after_brr pos args o)
unfolding after_brr
after_brr-StepFits size pos args none fit v = tt
after_brr-StepFits size pos args (some []) fit v = tt
after_brr-StepFits size pos args (some (high ∷ [])) fit v = tt
after_brr-StepFits size pos args (some (high ∷ low ∷ q)) fit v =
    elim (Bool-cases
      (is_some args.brr_mask || not (is_hex_lower high) || not (is_hex_letter low))) [
        | inl bad ↦ rw (bad, after_brr) tt
        | inr good ↦ rw (good, after_brr) (brr_end size pos args q fit (omega (arith, v.0)))
      ]

after_fnp-StepFits :
    (size pos : ℕ) (args : Args) (o : Option Bytes)
    → AllFit size args
    → Value size (pos + 4) 32 o
    → StepFits size pos (after_fnp pos args o)
unfolding after_fnp
after_fnp-StepFits size pos args none fit v = tt
after_fnp-StepFits size pos args (some q) fit v = elim (Bool-cases (is_some args.fnp)) [
  | inl bad ↦ rw (bad, after_fnp) tt
  | inr good ↦
      rw (good, after_fnp)
        (note_fnp-StepFits size pos (pos + 4) args q (scan_chars is_graph q) fit (omega arith) v.0
          (scan_chars-ScanFits is_graph q))
]

if-StepFits :
    (size pos : ℕ) (b : Bool) (x y : Step)
    → StepFits size pos x
    → StepFits size pos y
    → StepFits size pos (if b then x else y)
if-StepFits size pos true x y hx hy = hx
if-StepFits size pos false x y hx hy = hy

step-StepFits :
    (size pos : ℕ) (q : Bytes) (args : Args)
    → AllFit size args
    → pos + length q ≡ size
    → StepFits size pos (step pos q args)
unfolding step
step-StepFits size pos [] args fit here = fit
step-StepFits size pos (c ∷ q) args fit here =
    let algo = frisk_qarg (codes "algo") (c ∷ q) 8 in
    let brr = frisk_qarg (codes "brr") (c ∷ q) 2 in
    let fnp = frisk_qarg (codes "fnp") (c ∷ q) 32 in
    let at_f = if c == b'f' then after_fnp pos args fnp else refused in
    let at_b = if c == b'b' then after_brr pos args brr else at_f in
    if-StepFits size pos (c == b'a') (after_algo pos args algo) at_b
      (after_algo-StepFits size pos args algo fit
        (frisk_qarg-Value size pos 8 (codes "algo") (c ∷ q) here))
      (if-StepFits size pos (c == b'b') (after_brr pos args brr) at_f
        (after_brr-StepFits size pos args brr fit
          (frisk_qarg-Value size pos 2 (codes "brr") (c ∷ q) here))
        (if-StepFits size pos (c == b'f') (after_fnp pos args fnp) refused
          (after_fnp-StepFits size pos args fnp fit
            (frisk_qarg-Value size pos 32 (codes "fnp") (c ∷ q) here))
          tt))

rounds-AllFit :
    (fuel size : ℕ) (s : Step) (before : ℕ)
    → StepFits size before s
    → size ≤ fuel + before
    → (rounds fuel s ≢ unended) × ((args : Args) → rounds fuel s ≡ accepted args → AllFit size args)
unfolding rounds
rounds-AllFit fuel size refused before fit enough = ((λ no. cc), (λ args no. cc))
rounds-AllFit fuel size (finished args) before fit enough =
    ((λ no. cc), (λ args' e. let same : args ≡ args' = cc in rw same at fit))
rounds-AllFit fuel size (again pos [] args) before fit enough = ((λ no. cc), (λ args' no. cc))
rounds-AllFit zero size (again pos (c ∷ q) args) before fit enough =
    absurd (omega (arith, fit.1, fit.2))
rounds-AllFit (suc fuel) size (again pos (c ∷ q) args) before fit enough =
    rounds-AllFit fuel size (step pos (c ∷ q) args) pos
      (step-StepFits size pos (c ∷ q) args fit.0 fit.1) (omega (arith, fit.2))

-- Whatever the query, the loop comes to an end.
pub frisk_qargs_ends : (query : Bytes) → frisk_qargs query ≢ unended
unfolding frisk_qargs
frisk_qargs_ends query =
    (rounds-AllFit (length query) (length query) (step 0 query no_args) 0
      (step-StepFits (length query) 0 query no_args (tt, tt) (omega arith)) (omega arith)).0

Fits-copied :
    (query : Bytes) (o : Option (ℕ × ℕ)) → Fits 32 (length query) o → get_value 33 query o ≢ overrun
unfolding get_value
Fits-copied query none fit = λ no. cc
Fits-copied query (some (offset, len)) fit =
    let room : ltb len 33 ≡ true = ground (arith, fit.0) in rw (room, get_value) (λ no. cc)

-- Of an accepted query, the algorithm and the file name prefix end at its null or before, the algorithm
-- with nine characters at most, where the array has room for eight and a null; and the copy of the
-- prefix does not leave its array.
pub frisk_qargs-Fits :
    (query : Bytes) (args : Args)
    → frisk_qargs query ≡ accepted args
    → Fits 9 (length query) args.algo
      × Fits 32 (length query) args.fnp
      × (get_fnp query args ≢ overrun)
unfolding frisk_qargs get_fnp
frisk_qargs-Fits query args e =
    let (algo, fnp) =
      (rounds-AllFit (length query) (length query) (step 0 query no_args) 0
          (step-StepFits (length query) 0 query no_args (tt, tt) (omega arith)) (omega arith)).1
        args e in
    (algo, fnp, Fits-copied query args.fnp fnp)
