-- ===== src/Wrap/Cycle.antt =====
-- The set that a wrap writes, and what a roll of that set leaves.
use blobio.Base.{
  ℕ, ◌≡◌, refl, sym, ap, ◌∙◌, inl, inr, false, not, ◌&&◌, Option, none, some, List, [], ◌∷◌, ◌++◌,
  append-nil, append_assoc, Bytes, codes, length-append, map, if◌then◌else◌, bytes_eq, bytes_eq_iff,
  bytes_eq_refl, elem, Bool-cases, arith,
}
use blobio.UdigSet.Lines.{Line, name_short, udig_of, unlines}
use blobio.UdigSet.Sets.{Distinct}
use blobio.Chat.{Request}
use blobio.Verbs.{DigestModule, set_verb, status_roll, status_wrap}
use blobio.Wrap.{
  Entry, CopyStatus, copied, wrap_dir, skip_dots, put_wrap_set, wrap_log, wrap_entry, wrap_set,
  wrap_answer, wrap_frozen, wrap, Wrapped, rename, roll,
}
use blobio.Wrap.Logs.{extract, log_of, add_log, logs}
use blobio.Wrap.Rolled.{IsStrcat, dots_extract, elem-roll}
use blobio.Wrap.Sets.{IsTable, line_of}

-- The udigs but for one.
abbrev pub others : Bytes → List Bytes → List Bytes
others f [] = []
others f (u ∷ us) = if bytes_eq u f then others f us else u ∷ others f us

-- Strings with a newline behind each.
abbrev pub joined : List Bytes → Bytes
joined [] = []
joined (u ∷ us) = u ++ (b'\n' ∷ joined us)

unlines-joined : (ls : List Line) → unlines ls ≡ joined (map udig_of ls)
unlines-joined [] = refl
unlines-joined (l ∷ ls) = ap (λ b. udig_of l ++ (b'\n' ∷ b)) (unlines-joined ls)

elem-others :
    (f x : Bytes) (us : List Bytes) → elem x (others f us) ≡ (elem x us && not (bytes_eq f x))
unfolding elem
elem-others f x [] = refl
elem-others f x (u ∷ us) = elim (Bool-cases (bytes_eq u f)) [
  | inl same ↦ rw (same, (bytes_eq_iff u f).0 same) (ground (arith, elem-others f x us))
  | inr differ ↦
      rw differ
        (ground (arith, elem-others f x us, bytes_eq_iff u x, bytes_eq_iff f x, bytes_eq_iff u f))
]

Distinct-others : (f : Bytes) (us : List Bytes) → Distinct us → Distinct (others f us)
unfolding elem
Distinct-others f [] d = tt
Distinct-others f (u ∷ us) d = elim (Bool-cases (bytes_eq u f)) [
  | inl same ↦ rw same (Distinct-others f us d.1)
  | inr differ ↦ rw differ (ground (arith, elem-others f u us, d.0), Distinct-others f us d.1)
]

Distinct-wrapped : (f : Bytes) (us : List Bytes) → Distinct us → Distinct (f ∷ others f us)
Distinct-wrapped f us d =
    (ground (arith, elem-others f f us, bytes_eq_refl f), Distinct-others f us d)

module _ (module_get : Bytes → Option DigestModule) (strcat : ℕ → Bytes → List Bytes → Bytes) where
  joined_log :
      (f set name : Bytes) (o : Option Bytes) (us : List Bytes)
      → wrap_log module_get strcat f set o ++ joined (others f us)
        ≡ set ++ joined (others f (add_log module_get strcat o us))
  unfolding wrap_log put_wrap_set
  joined_log f set name none us = refl
  joined_log f set name (some u) us = elim (Bool-cases (bytes_eq u f)) [
    | inl same ↦ rw same refl
    | inr differ ↦ rw differ (simp append_assoc)
  ]

  lines_of :
      (f : Bytes) (es : List Entry)
      → IsTable module_get
      → (ls : List Line) × (map udig_of ls ≡ others f (logs module_get strcat es))
  lines_of f [] table = ([], refl)
  lines_of f (e ∷ es) table = add (log_of module_get strcat e) refl (lines_of f es table)
    where
      logs' : List Bytes
      logs' = logs module_get strcat es

      of_log :
          (u : Bytes)
          → log_of module_get strcat e ≡ some u
          → extract module_get strcat e.name ≡ some u
      of_log u h = elim (Bool-cases e.is_regular) [
        | inl file ↦ rw file at h
        | inr other ↦ cc (rw other at h)
      ]

      add :
          (o : Option Bytes)
          → log_of module_get strcat e ≡ o
          → ((ls : List Line) × (map udig_of ls ≡ others f logs'))
          → (ls : List Line) × (map udig_of ls ≡ others f (add_log module_get strcat o logs'))
      add none h rest = rest
      add (some u) h (ls, same) = elim (Bool-cases (bytes_eq u f)) [
        | inl frozen ↦ (ls, rw frozen same)
        | inr differ ↦
            let (l, is) = line_of module_get strcat e.name u table (of_log u h) in
            (l ∷ ls, rw differ (rw (is, same) refl))
      ]

  module _ (appends : IsStrcat strcat) where
    joined_entry :
        (f set : Bytes) (e : Entry) (us : List Bytes)
        → wrap_entry module_get strcat f set e ++ joined (others f us)
          ≡ set ++ joined (others f (add_log module_get strcat (log_of module_get strcat e) us))
    unfolding wrap_entry
    joined_entry f set e us = elim (Bool-cases (skip_dots e.name)) [
      | inl dots ↦
          rw (dots, dots_extract module_get strcat appends e.name dots)
            (elim (Bool-cases e.is_regular) [ inl file ↦ rw file refl | inr other ↦ rw other refl ])
      | inr more ↦ rw more (elim (Bool-cases e.is_regular) [
        | inl file ↦ rw file (joined_log f set e.name (extract module_get strcat e.name) us)
        | inr other ↦ rw other refl
      ])
    ]

    wrap_set-joined :
        (f set : Bytes) (es : List Entry)
        → wrap_set module_get strcat f set es ≡ set ++ joined (others f (logs module_get strcat es))
    unfolding wrap_set
    wrap_set-joined f set [] = sym (append-nil set)
    wrap_set-joined f set (e ∷ es) =
        wrap_set-joined f (wrap_entry module_get strcat f set e) es
        ∙ joined_entry f set e (logs module_get strcat es)

    wrap_answer_keeps :
        (r : Request) (dir : List Entry) (set name : Bytes) (o : Option Bytes)
        → ((wrap_answer module_get strcat r dir set name o).set ≡ set)
          × ((wrap_answer module_get strcat r dir set name o).dir ≡ dir)
    unfolding wrap_answer
    wrap_answer_keeps r dir set name none = (refl, refl)
    wrap_answer_keeps r dir set name (some d) = (refl, refl)

    udig_built : (l : Line) → strcat 138 [] (l.algorithm ∷ codes ":" ∷ []) ++ l.digest ≡ udig_of l
    udig_built l =
        rw
          (appends 138 [] (l.algorithm ∷ codes ":" ∷ []) (
            omega (arith, name_short l.algorithm l.is_name, length-append l.algorithm (codes ":"))))
          (append_assoc l.algorithm (codes ":") l.digest)

    wrap_frozen-joined :
        (l : Line) (digest : Bytes → Option Bytes) (r : Request) (listing : List Entry → List Entry)
        (dir : List Entry)
        → (wrap_frozen module_get strcat digest l.algorithm r listing dir (some l.digest)).set
          ≡ joined (
              udig_of l
              ∷ others (udig_of l) (
                  logs module_get strcat (
                    listing
                      (wrap_frozen module_get strcat digest l.algorithm r listing dir
                        (some l.digest)).dir)))
    unfolding wrap_frozen put_wrap_set
    wrap_frozen-joined l digest r listing dir =
        let f = strcat 138 [] (l.algorithm ∷ codes ":" ∷ []) ++ l.digest in
        let dir' = rename (strcat 153 [] (wrap_dir ∷ f ∷ codes ".brr" ∷ [])) dir in
        let set = wrap_set module_get strcat f (f ++ codes "\n") (listing dir') in
        let (same_set, same_dir) = wrap_answer_keeps r dir' set l.algorithm (digest set) in
        same_set
        ∙ wrap_set-joined f (f ++ codes "\n") (listing dir')
        ∙ append_assoc f (codes "\n") (joined (others f (logs module_get strcat (listing dir'))))
        ∙ rw (same_dir, udig_built l) refl

    -- Where the digest of the frozen log was computed, and is that of a line a set can hold, and `strcat`
    -- appends what fits its buffer, the set of a wrap is the udig of the frozen log, then those of the
    -- other logs that `io_readdir` lists, a newline behind each.
    pub wrap-joined :
        (l : Line) (digest : Bytes → Option Bytes) (frozen : Bytes) (r : Request)
        (listing : List Entry → List Entry) (dir : List Entry) (w : Wrapped)
        → w ≡ wrap module_get strcat digest l.algorithm frozen r listing dir
        → digest frozen ≡ some l.digest
        → w.set ≡ joined (udig_of l ∷ others (udig_of l) (logs module_get strcat (listing w.dir)))
    unfolding wrap wrap_frozen put_wrap_set
    wrap-joined l digest frozen r listing dir w is froze =
        rw (is, froze) (wrap_frozen-joined l digest (set_verb status_wrap r) listing dir)

    -- What is left where all that was listed is removed.
    nothing_left :
        (f x : Bytes) (us vs : List Bytes)
        → elem x us ≡ elem x vs
        → (elem x vs && not (elem x (f ∷ others f us) && elem x us)) ≡ false
    unfolding elem
    nothing_left f x us vs h = ground (arith, elem-others f x us, h)

    -- After a wrap, a roll of the blob with the set that it wrote leaves no log in spool/wrap/, whatever
    -- was there before. This is for modules whose names and digests a set can hold, where the wrapped
    -- log's digest was computed, `io_readdir` lists every log once, the module of the roll copies the
    -- set, and `strcat` appends what fits its buffer.
    pub roll-wrap :
        (l : Line) (digest : Bytes → Option Bytes) (frozen : Bytes) (r r0 r1 : Request)
        (listing : List Entry → List Entry) (dir : List Entry) (w : Wrapped)
        (copy : Request → Request × CopyStatus × Bytes)
        → IsTable module_get
        → w ≡ wrap module_get strcat digest l.algorithm frozen r listing dir
        → digest frozen ≡ some l.digest
        → ((x : Bytes)
            → elem x (logs module_get strcat (listing w.dir))
              ≡ elem x (logs module_get strcat w.dir))
        → Distinct (logs module_get strcat (listing w.dir))
        → copy (set_verb status_roll r0) ≡ (r1, copied, w.set)
        → (x : Bytes)
        → elem x (logs module_get strcat (roll module_get strcat copy (listing w.dir) w.dir r0).2)
          ≡ false
    unfolding elem
    roll-wrap l digest frozen r r0 r1 listing dir w copy table is froze lists once copies x =
        let f = udig_of l in
        let us = logs module_get strcat (listing w.dir) in
        let (ls, named) = lines_of f (listing w.dir) table in
        let wrote =
          wrap-joined l digest frozen r listing dir w is froze
          ∙ ap (λ vs. joined (f ∷ vs)) (sym named)
          ∙ sym (unlines-joined (l ∷ ls)) in
        let d : Distinct (f ∷ map udig_of ls) = rw named (Distinct-wrapped f us once) in
        let left =
          (elem-roll module_get strcat appends (l ∷ ls) copy r0 r1 (listing w.dir) w.dir x
            (λ e. cc e) d (copies ∙ ap (λ b. (r1, copied, b)) wrote)).2 in
        left
        ∙ ap (λ ws. elem x (logs module_get strcat w.dir) && not (elem x (f ∷ ws) && elem x us))
            named
        ∙ nothing_left f x us (logs module_get strcat w.dir) (lists x)
