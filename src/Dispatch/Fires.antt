-- ===== src/Dispatch/Fires.antt =====
-- Which requests reach a handler.
use blobio.Base.{
  ℕ, ◌≡◌, ◌≢◌, ◌⊎◌, refl, ap, sym, ◌∙◌, bytes_eq_iff, inl, inr, Bool, true, false, Bool-cases,
  Option, none, some, List, [], ◌∷◌, Bytes, codes, ◌==◌, if◌then◌else◌, bytes_eq, arith,
}
use blobio.Request.{Parser, Read, some_bytes, request}
use blobio.Request.Shape.{IsShaped}
use blobio.Request.RoundTrip.{request_line, request-line}
use blobio.Verbs.{DigestModule}
use blobio.Dispatch.{
  Callback, to_get, to_put, to_take, to_give, to_eat, to_wrap, to_roll, to_cat, Dispatched, fired,
  callback_of, is_empty, open_for, with_module, without_module, with_algorithm, bio4d, serve,
}

-- The verb of a handler.
abbrev pub name_of : Callback → Bytes
name_of to_get = codes "get"
name_of to_put = codes "put"
name_of to_take = codes "take"
name_of to_give = codes "give"
name_of to_eat = codes "eat"
name_of to_wrap = codes "wrap"
name_of to_roll = codes "roll"
name_of to_cat = codes "cat"

is_or_next :
    (name verb : Bytes) (found callback : Callback) (next : Option Callback)
    → name ≡ name_of found
    → (next ≡ some callback → verb ≡ name_of callback)
    → (if bytes_eq name verb then some found else next) ≡ some callback
    → verb ≡ name_of callback
is_or_next name verb found callback next is_name later h = elim (Bool-cases (bytes_eq name verb)) [
  | inl same ↦
      let this : found ≡ callback =
        let e : Path (Option Callback) (some found) (some callback) = rw same at h in cc in
      sym ((bytes_eq_iff name verb).0 same) ∙ is_name ∙ ap name_of this
  | inr other ↦ later (rw other at h)
]

-- The handler that the table has for a verb is the one of that name.
callback_of-name_of :
    (verb : Bytes) (callback : Callback)
    → callback_of verb ≡ some callback
    → verb ≡ name_of callback
unfolding callback_of
callback_of-name_of verb callback h =
    is_or_next (codes "get") verb to_get callback _ refl
      (is_or_next (codes "put") verb to_put callback _ refl (
        is_or_next (codes "take") verb to_take callback _ refl (
          is_or_next (codes "give") verb to_give callback _ refl (
            is_or_next (codes "eat") verb to_eat callback _ refl (
              is_or_next (codes "wrap") verb to_wrap callback _ refl (
                is_or_next (codes "roll") verb to_roll callback _ refl
                  (is_or_next (codes "cat") verb to_cat callback none refl (λ e. cc e))))))))
      h

-- What a handler is called with: its verb, a module of the table that opens, and no digest or one
-- that the module takes.
abbrev pub Fired :
    (Bytes → Option DigestModule) → (DigestModule → ℕ) → Bytes → Bytes → Bytes → Dispatched → Type 0
Fired module_get open_module verb algorithm digest (fired callback mp a d) =
    (verb ≡ name_of callback)
    × (module_get algorithm ≡ some mp)
    × (open_module mp ≡ 0)
    × ((digest ≡ []) ⊎ (mp.is_digest digest ≢ 0))
    × (a ≡ algorithm)
    × (d ≡ digest)
Fired module_get open_module verb algorithm digest _ = Unit

is_zero : (n : ℕ) → (n == 0) ≡ true → n ≡ 0
is_zero n h = ground arith

not_zero : (n : ℕ) → (n == 0) ≡ false → n ≢ 0
not_zero n h e = ground (arith, h, e)

module _ (module_get : Bytes → Option DigestModule) (open_module : DigestModule → ℕ)
    (wrap_algorithm : Bytes) where
  open_for-Fired :
      (verb algorithm digest : Bytes) (mp : DigestModule) (o : Option Callback)
      → callback_of verb ≡ o
      → module_get algorithm ≡ some mp
      → ((digest ≡ []) ⊎ (mp.is_digest digest ≢ 0))
      → Fired module_get open_module verb algorithm digest
          (open_for module_get open_module wrap_algorithm mp algorithm digest o)
  unfolding open_for
  open_for-Fired verb algorithm digest mp none e h d = tt
  open_for-Fired verb algorithm digest mp (some callback) e h d =
      elim (Bool-cases (open_module mp == 0)) [
        | inl opened ↦
            rw opened (
              callback_of-name_of verb callback e,
              h,
              is_zero (open_module mp) opened,
              d,
              refl,
              refl,
            )
        | inr failed ↦ rw failed tt
      ]

  with_module-Fired :
      (verb algorithm digest : Bytes) (o : Option DigestModule)
      → module_get algorithm ≡ o
      → Fired module_get open_module verb algorithm digest
          (with_module module_get open_module wrap_algorithm verb algorithm digest o)
  unfolding with_module
  with_module-Fired verb algorithm digest none h = tt
  with_module-Fired verb algorithm [] (some mp) h =
      open_for-Fired verb algorithm [] mp (callback_of verb) refl h (inl refl)
  with_module-Fired verb algorithm (c ∷ cs) (some mp) h =
      elim (Bool-cases (mp.is_digest (c ∷ cs) == 0)) [
        | inl no_digest ↦ rw no_digest tt
        | inr digest ↦ rw digest (
            open_for-Fired verb algorithm (c ∷ cs) mp (callback_of verb) refl h
              (inr (not_zero (mp.is_digest (c ∷ cs)) digest)))
      ]

  without_module-Fired :
      (verb algorithm digest d : Bytes) (o : Option Callback)
      → Fired module_get open_module verb algorithm digest
          (without_module module_get open_module wrap_algorithm d o)
  unfolding without_module
  without_module-Fired verb algorithm digest [] none = tt
  without_module-Fired verb algorithm digest [] (some callback) = tt
  without_module-Fired verb algorithm digest (c ∷ d) none = tt
  without_module-Fired verb algorithm digest (c ∷ d) (some callback) = tt

  with_algorithm-Fired :
      (verb algorithm digest : Bytes)
      → Fired module_get open_module verb algorithm digest
          (with_algorithm module_get open_module wrap_algorithm verb algorithm digest)
  unfolding with_algorithm
  with_algorithm-Fired verb [] digest =
      without_module-Fired verb [] digest digest (callback_of verb)
  with_algorithm-Fired verb (c ∷ cs) digest =
      with_module-Fired verb (c ∷ cs) digest (module_get (c ∷ cs)) refl

  -- The algorithm of a wrap is an option of the server.
  abbrev pub algorithm_for : Bytes → Bytes → Bytes
  algorithm_for verb algorithm = if bytes_eq (codes "wrap") verb then wrap_algorithm else algorithm

  bio4d-Fires :
      (verb algorithm digest : Bytes)
      → Fired module_get open_module verb
          (algorithm_for verb algorithm)
          digest
          (bio4d module_get open_module wrap_algorithm verb algorithm digest)
  unfolding bio4d
  bio4d-Fires verb algorithm digest = elim (Bool-cases (bytes_eq (codes "wrap") verb)) [
    | inl wrap ↦ rw wrap (elim (Bool-cases (is_empty algorithm)) [
      | inl empty ↦ rw empty (with_algorithm-Fired verb wrap_algorithm digest)
      | inr full ↦ rw full tt
    ])
    | inr other ↦ rw other (elim (Bool-cases (is_empty algorithm)) [
      | inl empty ↦ rw empty tt
      | inr full ↦ rw full (elim (Bool-cases (is_empty digest)) [
        | inl empty ↦ rw empty tt
        | inr more ↦ rw more (with_algorithm-Fired verb algorithm digest)
      ])
    ])
  ]

  -- A handler is called only for the verb of its name, with a module that the table has for the algorithm
  -- and that opens, the algorithm being that of the request or, for a wrap, the server's; and only
  -- with no digest or one that the module takes.
  pub bio4d-Fired :
      (verb algorithm digest : Bytes) (callback : Callback) (mp : DigestModule) (a d : Bytes)
      → bio4d module_get open_module wrap_algorithm verb algorithm digest ≡ fired callback mp a d
      → Fired module_get open_module verb
          (algorithm_for verb algorithm)
          digest
          (fired callback mp a d)
  bio4d-Fired verb algorithm digest callback mp a d h = rw h at (bio4d-Fires verb algorithm digest)

  with_module_fires :
      (verb algorithm digest : Bytes) (callback : Callback) (mp : DigestModule)
      → callback_of verb ≡ some callback
      → is_empty digest ≡ false
      → (mp.is_digest digest == 0) ≡ false
      → open_module mp ≡ 0
      → with_module module_get open_module wrap_algorithm verb algorithm digest (some mp)
        ≡ fired callback mp algorithm digest
  unfolding with_module open_for
  with_module_fires verb algorithm digest callback mp known more taken opens =
      rw (more, taken, known, opens) refl

  with_algorithm_fires :
      (verb algorithm digest : Bytes) (mp : DigestModule)
      → is_empty algorithm ≡ false
      → module_get algorithm ≡ some mp
      → with_algorithm module_get open_module wrap_algorithm verb algorithm digest
        ≡ with_module module_get open_module wrap_algorithm verb algorithm digest (some mp)
  unfolding with_algorithm
  with_algorithm_fires verb [] digest mp more found = cc
  with_algorithm_fires verb (c ∷ cs) digest mp more found = rw found refl

  -- A line of a verb of the table other than wrap, an algorithm and a digest, all of the right shape,
  -- has its handler called with the algorithm's module, where the module takes the digest and opens.
  pub serve-request-line :
      (p : Parser) (crlf : Bool) (rest : Bytes) (c : ℕ) (cs : Bytes) (rs : List Read)
      (callback : Callback) (mp : DigestModule)
      → IsShaped p
      → request_line p.verb p.algorithm p.digest crlf rest ≡ c ∷ cs
      → callback_of p.verb ≡ some callback
      → bytes_eq (codes "wrap") p.verb ≡ false
      → is_empty p.algorithm ≡ false
      → is_empty p.digest ≡ false
      → module_get p.algorithm ≡ some mp
      → (mp.is_digest p.digest == 0) ≡ false
      → open_module mp ≡ 0
      → serve module_get open_module wrap_algorithm (request (some_bytes c cs ∷ rs))
        ≡ some (fired callback mp p.algorithm p.digest)
  unfolding serve bio4d
  serve-request-line p crlf rest c cs rs callback mp i line known other a d found taken opens =
      rw
        (
          request-line p crlf rest c cs rs i line,
          other,
          a,
          d,
          with_algorithm_fires p.verb p.algorithm p.digest mp a found,
          with_module_fires p.verb p.algorithm p.digest callback mp known d taken opens,
        )
        refl
