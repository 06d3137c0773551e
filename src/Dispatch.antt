-- ===== src/Dispatch.antt =====
-- From a parsed request to the handler of its verb: `bio4d` of bio4d/bio4d.c.
pub mod Fires
use blobio.Base.{
  ℕ, Bool, true, false, not, Option, none, some, List, [], ◌∷◌, Bytes, codes, ◌==◌, if◌then◌else◌,
  bytes_eq,
}
use blobio.Request.{Parser, Outcome, go, die_no, die_no_new_line, incomplete}
use blobio.Verbs.{DigestModule}

-- `verb_callback`
pub data Callback : Type 0 where
  to_get to_put to_take to_give : Callback
  to_eat to_wrap to_roll to_cat : Callback

-- The calls of `die2_NO` and `die3_NO`.
pub data Reason : Type 0 where
  unexpected_algorithm missing_algo_or_digest not_a_digest unknown_verb open_failed : Reason

-- The handler is called with the module; or the client is told no; or the process panics; or a null
-- module is asked for a callback.
pub data Dispatched : Type 0 where
  fired : Callback → DigestModule → Bytes → Bytes → Dispatched
  refused : Reason → Dispatched
  unknown_algorithm null_module : Dispatched

unfoldable pub callback_of : Bytes → Option Callback
unfolding bytes_eq
callback_of verb =
    if bytes_eq (codes "get") verb
    then some to_get
    else if bytes_eq (codes "put") verb
    then some to_put
    else if bytes_eq (codes "take") verb
    then some to_take
    else if bytes_eq (codes "give") verb
    then some to_give
    else if bytes_eq (codes "eat") verb
    then some to_eat
    else if bytes_eq (codes "wrap") verb
    then some to_wrap
    else if bytes_eq (codes "roll") verb
    then some to_roll
    else if bytes_eq (codes "cat") verb
    then some to_cat
    else none

-- `!s[0]`
abbrev pub is_empty : Bytes → Bool
is_empty [] = true
is_empty (c ∷ cs) = false

-- `module_get`, the `open` of a module with its status, and `wrap_algorithm`, which is an option of
-- the server.
module _ (module_get : Bytes → Option DigestModule) (open_module : DigestModule → ℕ)
    (wrap_algorithm : Bytes) where
  open_for : DigestModule → Bytes → Bytes → Option Callback → Dispatched
  open_for mp algorithm digest none = refused unknown_verb
  open_for mp algorithm digest (some callback) =
      if open_module mp == 0 then fired callback mp algorithm digest else refused open_failed

  with_module : Bytes → Bytes → Bytes → Option DigestModule → Dispatched
  unfolding callback_of open_for
  with_module verb algorithm digest none = unknown_algorithm
  with_module verb algorithm digest (some mp) =
      if is_empty digest
      then open_for mp algorithm digest (callback_of verb)
      else if mp.is_digest digest == 0
      then refused not_a_digest
      else open_for mp algorithm digest (callback_of verb)

  -- With no algorithm there is no module.
  without_module : Bytes → Option Callback → Dispatched
  without_module [] none = refused unknown_verb
  without_module digest callback = null_module

  with_algorithm : Bytes → Bytes → Bytes → Dispatched
  unfolding with_module without_module callback_of
  with_algorithm verb [] digest = without_module digest (callback_of verb)
  with_algorithm verb (c ∷ cs) digest = with_module verb (c ∷ cs) digest (module_get (c ∷ cs))

  unfoldable pub bio4d : Bytes → Bytes → Bytes → Dispatched
  unfolding with_algorithm bytes_eq
  bio4d verb algorithm digest =
      if bytes_eq (codes "wrap") verb
      then if not (is_empty algorithm)
        then refused unexpected_algorithm
        else with_algorithm verb wrap_algorithm digest
      else if is_empty algorithm
      then refused missing_algo_or_digest
      else if is_empty digest
      then refused missing_algo_or_digest
      else with_algorithm verb algorithm digest

  -- `STATE_go` of `request`; `none` where no handler is asked for.
  unfoldable pub serve : Outcome → Option Dispatched
  unfolding bio4d
  serve (go p left) = some (bio4d p.verb p.algorithm p.digest)
  serve (die_no why) = none
  serve die_no_new_line = none
  serve incomplete = none
