-- ===== src/Verbs/Histories.antt =====
-- The chats that the handlers of the verbs can leave.
use blobio.Base.{
  ℕ, ◌≡◌, ◌≢◌, inl, inr, refl, ◌∙◌, Bool, true, false, List, [], ◌∷◌, Bytes, arith, ◌==◌,
  Bool-cases,
}
use blobio.Chat
use blobio.Chat.{
  Request, Status, success, error, panic, write_ok, write_no, Reply, said_ok, said_no, bad_reply,
  read_reply,
}
use blobio.Chat.History.{spell, Answered, read_reply-Answered}
use blobio.Verbs.{
  DigestModule, return_ok, return_error, set_verb, cat, get, eat, put, PathExists, absent, exists,
  stat_failed, take, give, take_replied, give_replied, status_cat, status_get, status_put,
  status_give, status_take, status_eat,
}
use blobio.Verbs.Rules.{Leaves, OneOf, after_callback, after_ok, ends_ok, ends_no}

-- The callbacks of a module leave the chat alone and do not panic.
abbrev pub Quiet : (Request → Request × Status) → Type 0
Quiet f = (r : Request) → ((f r).0.chat_history ≡ r.chat_history) × ((f r).1 ≢ panic)

pub record IsQuiet (mp : DigestModule) : Type 0 where
  pub get_request : Quiet mp.get_request
  pub get_bytes : Quiet mp.get_bytes
  pub take_request : Quiet mp.take_request
  pub take_bytes : Quiet mp.take_bytes
  pub take_reply : (a : Reply) → Quiet (mp.take_reply a)
  pub put_request : Quiet mp.put_request
  pub put_bytes : Quiet mp.put_bytes
  pub give_request : Quiet mp.give_request
  pub give_bytes : Quiet mp.give_bytes
  pub give_reply : (a : Reply) → Quiet (mp.give_reply a)
  pub eat : Quiet mp.eat

abbrev pub ok_only : List Bool
ok_only = true ∷ []

abbrev pub no_only : List Bool
no_only = false ∷ []

abbrev pub ok_no : List Bool
ok_no = true ∷ false ∷ []

abbrev pub ok_ok : List Bool
ok_ok = true ∷ true ∷ []

abbrev pub ok_ok_ok : List Bool
ok_ok_ok = true ∷ true ∷ true ∷ []

abbrev pub ok_ok_no : List Bool
ok_ok_no = true ∷ true ∷ false ∷ []

set_verb_keeps : (v : ℕ) (r : Request) → (set_verb v r).chat_history ≡ r.chat_history
unfolding set_verb
set_verb_keeps v r = refl

-- A `cat` answers no.
pub cat-Leaves :
    (r : Request)
    → r.chat_history ≡ spell []
    → Leaves (OneOf (no_only ∷ [])) (OneOf ([] ∷ [])) (cat r)
unfolding cat
cat-Leaves r fresh =
    ends_no _ _ (set_verb status_cat r) [] (set_verb_keeps status_cat r ∙ fresh) (omega arith) refl
      refl

abbrev pub get_done : List (List Bool)
get_done = ok_only ∷ no_only ∷ []

abbrev pub put_done : List (List Bool)
put_done = no_only ∷ ok_ok ∷ ok_no ∷ []

abbrev pub take_done : List (List Bool)
take_done = no_only ∷ ok_no ∷ ok_ok_ok ∷ ok_ok_no ∷ []

abbrev up_to_one : List (List Bool)
up_to_one = [] ∷ ok_only ∷ []

abbrev up_to_two : List (List Bool)
up_to_two = [] ∷ ok_only ∷ ok_ok ∷ []

abbrev up_to_three : List (List Bool)
up_to_three = [] ∷ ok_only ∷ ok_ok ∷ ok_ok_ok ∷ ok_ok_no ∷ []

-- A handler may end with a callback.
reply_ends :
    (D C : List (List Bool)) (out : Request × Status) (said : List Bool)
    → out.0.chat_history ≡ spell said
    → out.1 ≢ panic
    → OneOf D said
    → OneOf C said
    → Leaves (OneOf D) (OneOf C) out
reply_ends D C (r', success) said e quiet d c = (said, e, d)
reply_ends D C (r', error) said e quiet d c = (said, e, c)
reply_ends D C (r', panic) said e quiet d c = quiet refl

module _ (mp : DigestModule) (q : IsQuiet mp) (r : Request)
    (fresh : r.chat_history ≡ spell []) where
  begun :
      (v : ℕ) (f : Request → Request × Status)
      → Quiet f
      → (f (set_verb v r)).0.chat_history ≡ spell []
  begun v f quiet = (quiet (set_verb v r)).0 ∙ set_verb_keeps v r ∙ fresh

  -- An eat answers ok or no.
  pub eat-Leaves : Leaves (OneOf get_done) (OneOf ([] ∷ [])) (eat mp r)
  unfolding eat
  eat-Leaves =
      let D = OneOf get_done in
      let C = OneOf ([] ∷ []) in
      after_callback D C (mp.eat (set_verb status_eat r)) _ _ [] (begun status_eat mp.eat q.eat)
        (q.eat _).1 (λ r1 e1. ends_ok D C r1 [] e1 (omega arith) refl refl)
        (λ r1 e1. ends_no D C r1 [] e1 (omega arith) refl refl)

  -- A get answers ok or no; where the network fails nothing was said, or ok.
  pub get-Leaves : (digest : Bytes) → Leaves (OneOf get_done) (OneOf up_to_one) (get mp digest r)
  unfolding get
  get-Leaves digest =
      let D = OneOf get_done in
      let C = OneOf up_to_one in
      let full =
        after_callback D C (mp.get_request (set_verb status_get r)) _ _ []
          (begun status_get mp.get_request q.get_request) (q.get_request _).1
          (λ r1 e1.
            after_ok D C r1 mp.get_bytes [] e1 (omega arith)
              (λ r2 e2.
                reply_ends get_done up_to_one (mp.get_bytes r2) ok_only ((q.get_bytes r2).0 ∙ e2)
                  (q.get_bytes r2).1 refl refl)
              refl)
          (λ r1 e1. ends_no D C r1 [] e1 (omega arith) refl refl) in
      elim (Bool-cases (mp.is_digest digest == 2)) [
        | inl empty ↦ rw empty (
            after_ok D C (set_verb status_get r) return_ok [] (set_verb_keeps status_get r ∙ fresh)
              (omega arith) (λ r1 e1. unfold return_ok in (ok_only, e1, refl)) refl)
        | inr more ↦ rw more full
      ]

  -- A put answers no, or ok and then ok or no; where the network fails nothing was said, or ok.
  pub put-Leaves : Leaves (OneOf put_done) (OneOf up_to_one) (put mp r)
  unfolding put
  put-Leaves =
      let D = OneOf put_done in
      let C = OneOf up_to_one in
      after_callback D C (mp.put_request (set_verb status_put r)) _ _ []
        (begun status_put mp.put_request q.put_request) (q.put_request _).1
        (λ r1 e1.
          after_ok D C r1 _ [] e1 (omega arith)
            (λ r2 e2.
              after_callback D C (mp.put_bytes r2) _ _ ok_only ((q.put_bytes r2).0 ∙ e2)
                (q.put_bytes r2).1 (λ r3 e3. ends_ok D C r3 ok_only e3 (omega arith) refl refl)
                (λ r3 e3. ends_no D C r3 ok_only e3 (omega arith) refl refl))
            refl)
        (λ r1 e1. ends_no D C r1 [] e1 (omega arith) refl refl)

  take_replied-Leaves :
      (out : Request × Reply × Status)
      → Answered ok_only out
      → Leaves (OneOf take_done) (OneOf up_to_two) (take_replied mp out)
  unfolding take_replied
  take_replied-Leaves (r', said_ok, success) a =
      let D = OneOf take_done in
      let C = OneOf up_to_two in
      after_callback D C (mp.take_reply said_ok r') write_ok write_no ok_ok
        ((q.take_reply said_ok r').0 ∙ a.1) (q.take_reply said_ok r').1
        (λ r1 e1. ends_ok D C r1 ok_ok e1 (omega arith) refl refl)
        (λ r1 e1. ends_no D C r1 ok_ok e1 (omega arith) refl refl)
  take_replied-Leaves (r', said_no, success) a = (ok_no, a.1, refl)
  take_replied-Leaves (r', bad_reply, success) a = cc (a.0)
  take_replied-Leaves (r', said_ok, panic) a = cc (a.0)
  take_replied-Leaves (r', said_no, panic) a = cc (a.0)
  take_replied-Leaves (r', bad_reply, panic) a = cc (a.0)
  take_replied-Leaves (r', said_ok, error) a = cc (a.0)
  take_replied-Leaves (r', said_no, error) a = cc (a.0)
  take_replied-Leaves (r', bad_reply, error) a = (ok_only, a.1, refl)

  -- A take of a blob whose file in spool/wrap/ could be looked for answers no, or ok, and then the
  -- client's no ends the chat, or its ok is answered by ok or no.
  pub take-Leaves :
      (wrapped : PathExists) (stack : Bytes) (reads : List Chat.Read)
      → wrapped ≢ stat_failed
      → Leaves (OneOf take_done) (OneOf up_to_two) (take mp wrapped stack reads r)
  unfolding take
  take-Leaves stat_failed stack reads ne = absurd (ne refl)
  take-Leaves exists stack reads ne =
      ends_no (OneOf take_done) (OneOf up_to_two) (set_verb status_take r) []
        (set_verb_keeps status_take r ∙ fresh) (omega arith) refl refl
  take-Leaves absent stack reads ne =
      let D = OneOf take_done in
      let C = OneOf up_to_two in
      after_callback D C (mp.take_request (set_verb status_take r)) _ _ []
        (begun status_take mp.take_request q.take_request) (q.take_request _).1
        (λ r1 e1.
          after_ok D C r1 _ [] e1 (omega arith)
            (λ r2 e2.
              after_callback D C (mp.take_bytes r2) _ _ ok_only ((q.take_bytes r2).0 ∙ e2)
                (q.take_bytes r2).1
                (λ r3 e3.
                  take_replied-Leaves (read_reply stack reads r3)
                    (read_reply-Answered stack reads r3 ok_only e3 (omega arith)))
                (λ r3 e3. unfold return_error in (ok_only, e3, refl)))
            refl)
        (λ r1 e1. ends_no D C r1 [] e1 (omega arith) refl refl)

  give_replied-Leaves :
      (out : Request × Reply × Status)
      → Answered ok_ok out
      → Leaves (OneOf take_done) (OneOf up_to_three) (give_replied mp out)
  unfolding give_replied
  give_replied-Leaves (r', said_ok, success) a =
      reply_ends take_done up_to_three (mp.give_reply said_ok r') ok_ok_ok
        ((q.give_reply said_ok r').0 ∙ a.1) (q.give_reply said_ok r').1 refl refl
  give_replied-Leaves (r', said_no, success) a =
      reply_ends take_done up_to_three (mp.give_reply said_no r') ok_ok_no
        ((q.give_reply said_no r').0 ∙ a.1) (q.give_reply said_no r').1 refl refl
  give_replied-Leaves (r', bad_reply, success) a = cc (a.0)
  give_replied-Leaves (r', said_ok, panic) a = cc (a.0)
  give_replied-Leaves (r', said_no, panic) a = cc (a.0)
  give_replied-Leaves (r', bad_reply, panic) a = cc (a.0)
  give_replied-Leaves (r', said_ok, error) a = cc (a.0)
  give_replied-Leaves (r', said_no, error) a = cc (a.0)
  give_replied-Leaves (r', bad_reply, error) a = (ok_ok, a.1, refl)

  -- A give answers no, or ok and then no, or twice ok and then notes the client's ok or no.
  pub give-Leaves :
      (stack : Bytes) (reads : List Chat.Read)
      → Leaves (OneOf take_done) (OneOf up_to_three) (give mp stack reads r)
  unfolding give
  give-Leaves stack reads =
      let D = OneOf take_done in
      let C = OneOf up_to_three in
      after_callback D C (mp.give_request (set_verb status_give r)) _ _ []
        (begun status_give mp.give_request q.give_request) (q.give_request _).1
        (λ r1 e1.
          after_ok D C r1 _ [] e1 (omega arith)
            (λ r2 e2.
              after_callback D C (mp.give_bytes r2) _ _ ok_only ((q.give_bytes r2).0 ∙ e2)
                (q.give_bytes r2).1
                (λ r3 e3.
                  after_ok D C r3 _ ok_only e3 (omega arith)
                    (λ r4 e4.
                      give_replied-Leaves (read_reply stack reads r4)
                        (read_reply-Answered stack reads r4 ok_ok e4 (omega arith)))
                    refl)
                (λ r3 e3. ends_no D C r3 ok_only e3 (omega arith) refl refl))
            refl)
        (λ r1 e1. ends_no D C r1 [] e1 (omega arith) refl refl)
