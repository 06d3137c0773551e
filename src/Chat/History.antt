-- ===== src/Chat/History.antt =====
-- The chat history is the list of the answers so far, and holds three of them.
use blobio.Base.{
  ◌+◌, ◌≤◌, ◌<◌, ◌≡◌, ◌⊎◌, inl, inr, ◌∙◌, refl, Bool, true, false, some, List, [], ◌∷◌, ◌++◌, Bytes,
  codes, length, length-append, arith,
}
use blobio.Chat.{
  add_chat_history, chat_size, Request, Status, success, error, panic, req_write, note_chat,
  replied, write_ok, write_no, Reply, said_ok, said_no, bad_reply, Read, answered, read_loop,
  read_reply, set_exit_error,
}

-- What was said: `true` is ok.
abbrev pub blurb : Bool → Bytes
blurb true = codes "ok"
blurb false = codes "no"

-- The answers with commas between them.
abbrev pub spell : List Bool → Bytes
spell [] = []
spell (a ∷ []) = blurb a
spell (a ∷ b ∷ rest) = blurb a ++ (b',' ∷ spell (b ∷ rest))

-- Up to three answers the history spells them, and fits its buffer with the null.
pub add_chat_history-spell :
    (said : List Bool) (a : Bool)
    → length said ≤ 2
    → (add_chat_history (spell said) (blurb a) ≡ some (spell (said ++ a ∷ [])))
      × (length (spell (said ++ a ∷ [])) < chat_size)
unfolding add_chat_history
add_chat_history-spell [] true h = (refl, omega arith)
add_chat_history-spell [] false h = (refl, omega arith)
add_chat_history-spell (true ∷ []) true h = (refl, omega arith)
add_chat_history-spell (true ∷ []) false h = (refl, omega arith)
add_chat_history-spell (false ∷ []) true h = (refl, omega arith)
add_chat_history-spell (false ∷ []) false h = (refl, omega arith)
add_chat_history-spell (true ∷ true ∷ []) true h = (refl, omega arith)
add_chat_history-spell (true ∷ true ∷ []) false h = (refl, omega arith)
add_chat_history-spell (true ∷ false ∷ []) true h = (refl, omega arith)
add_chat_history-spell (true ∷ false ∷ []) false h = (refl, omega arith)
add_chat_history-spell (false ∷ true ∷ []) true h = (refl, omega arith)
add_chat_history-spell (false ∷ true ∷ []) false h = (refl, omega arith)
add_chat_history-spell (false ∷ false ∷ []) true h = (refl, omega arith)
add_chat_history-spell (false ∷ false ∷ []) false h = (refl, omega arith)
add_chat_history-spell (a ∷ b ∷ c ∷ rest) d h = absurd (omega arith)

length-spell : (a b c : Bool) → length (spell (a ∷ b ∷ c ∷ [])) ≡ 8
length-spell true true true = refl
length-spell true true false = refl
length-spell true false true = refl
length-spell true false false = refl
length-spell false true true = refl
length-spell false true false = refl
length-spell false false true = refl
length-spell false false false = refl

add_at_eight :
    (h : Bytes) (d : Bool)
    → length h ≡ 8
    → add_chat_history h (blurb d) ≡ some ((h ++ codes ",") ++ blurb d)
unfolding add_chat_history
add_at_eight h true e = rw e
add_at_eight h false e = rw e

length-blurb : (d : Bool) → length (blurb d) ≡ 2
length-blurb true = refl
length-blurb false = refl

-- A fourth answer is written past the end of the buffer: the test for a length of 9 does not stop
-- it, and the string takes 11 bytes and the null.
pub add_chat_history_overflow :
    (a b c d : Bool)
    → (history : Bytes) × (add_chat_history (spell (a ∷ b ∷ c ∷ [])) (blurb d) ≡ some history)
      × (length history ≡ chat_size + 1)
add_chat_history_overflow a b c d =
    let h = spell (a ∷ b ∷ c ∷ []) in
    (
      (h ++ codes ",") ++ blurb d,
      add_at_eight h d (length-spell a b c),
      omega (
        arith,
        length-append (h ++ codes ",") (blurb d),
        length-append h (codes ","),
        length-spell a b c,
        length-blurb d,
      ),
    )

-- The chat after a status: with one more answer, or as it was.
abbrev pub Noted : List Bool → Bool → Request × Status → Type 0
Noted said a out =
    ((out.1 ≡ success) × (out.0.chat_history ≡ spell (said ++ a ∷ [])))
    ⊎ ((out.1 ≡ error) × (out.0.chat_history ≡ spell said))

note_chat-spell :
    (r : Request) (said : List Bool) (a : Bool)
    → r.chat_history ≡ spell said
    → length said ≤ 2
    → ((note_chat (blurb a) r).1 ≡ success)
      × ((note_chat (blurb a) r).0.chat_history ≡ spell (said ++ a ∷ []))
unfolding note_chat
note_chat-spell r said a e short = rw (e, (add_chat_history-spell said a short).0) (refl, refl)

replied-Noted :
    (out : Request × Status) (said : List Bool) (a : Bool)
    → ((out.1 ≡ success) ⊎ (out.1 ≡ error))
    → out.0.chat_history ≡ spell said
    → length said ≤ 2
    → Noted said a (replied (blurb a) out)
unfolding replied
replied-Noted (r, success) said a s e short = inl (note_chat-spell r said a e short)
replied-Noted (r, error) said a s e short = inr (refl, e)
replied-Noted (r, panic) said a s e short = ground arith

req_write_keeps :
    (r : Request) (buf : Bytes)
    → (((req_write r buf).1 ≡ success) ⊎ ((req_write r buf).1 ≡ error))
      × ((req_write r buf).0.chat_history ≡ r.chat_history)
unfolding req_write
req_write_keeps r buf = ground arith

-- A reply that could be sent is noted, and the chat is left alone where it could not.
pub write_ok-Noted :
    (r : Request) (said : List Bool)
    → r.chat_history ≡ spell said
    → length said ≤ 2
    → Noted said true (write_ok r)
unfolding write_ok
write_ok-Noted r said e short =
    let (s, keeps) = req_write_keeps r (codes "ok\n") in
    replied-Noted (req_write r (codes "ok\n")) said true s (keeps ∙ e) short

pub write_no-Noted :
    (r : Request) (said : List Bool)
    → r.chat_history ≡ spell said
    → length said ≤ 2
    → Noted said false (write_no r)
unfolding write_no
write_no-Noted r said e short =
    let (s, keeps) = req_write_keeps r (codes "no\n") in
    replied-Noted (req_write r (codes "no\n")) said false s (keeps ∙ e) short

-- The chat after a reply, or after none.
abbrev pub Answered : List Bool → Request × Reply × Status → Type 0
Answered said (r, said_ok, s) = (s ≡ success) × (r.chat_history ≡ spell (said ++ true ∷ []))
Answered said (r, said_no, s) = (s ≡ success) × (r.chat_history ≡ spell (said ++ false ∷ []))
Answered said (r, bad_reply, s) = (s ≡ error) × (r.chat_history ≡ spell said)

answered-Answered :
    (r : Request) (a : Reply) (said : List Bool)
    → r.chat_history ≡ spell said
    → length said ≤ 2
    → Answered said (answered r a)
unfolding answered set_exit_error
answered-Answered r said_ok said e short = note_chat-spell r said true e short
answered-Answered r said_no said e short = note_chat-spell r said false e short
answered-Answered r bad_reply said e short = (refl, e)

-- After a chat of two answers or fewer, a reply of the client that is read as ok or no is noted as
-- such; any other input, whatever was on the stack, is an error that leaves the chat alone.
pub read_reply-Answered :
    (stack : Bytes) (rs : List Read) (r : Request) (said : List Bool)
    → r.chat_history ≡ spell said
    → length said ≤ 2
    → Answered said (read_reply stack rs r)
unfolding read_reply
read_reply-Answered stack rs r said e short =
    answered-Answered r (read_loop stack 0 rs) said e short
