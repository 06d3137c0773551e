-- ===== src/Tests/Chat.antt =====
-- The chat of a request on small inputs.
use blobio.Base.{◌≡◌, refl, [], ◌∷◌, Bytes, codes, arith, true}
use blobio.Chat.{bytes, read_loop, decide_reply, read_reply, word, said_ok}
use blobio.Chat.History.{Answered, read_reply-Answered}
use blobio.Tests.Verbs.{fresh_request}

abbrev stack : Bytes
stack = 0 ∷ 0 ∷ 0 ∷ 0 ∷ []

understands_ok : read_loop stack 0 (bytes (codes "o") ∷ bytes (codes "k\n") ∷ []) ≡ said_ok
unfolding read_loop decide_reply word
understands_ok = refl

-- The two bytes of a reply are decided on with a third that no read has put there.
decides_on_two : read_loop (0 ∷ 0 ∷ b'\r' ∷ 0 ∷ []) 0 (bytes (codes "ok") ∷ []) ≡ said_ok
unfolding read_loop decide_reply word
decides_on_two = refl

read_reply-Answered_example : Answered (true ∷ []) (
    read_reply stack
      (bytes (codes "ok\n") ∷ [])
      (record fresh_request { chat_history = codes "ok" }))
read_reply-Answered_example =
    read_reply-Answered stack (bytes (codes "ok\n") ∷ [])
      (record fresh_request { chat_history = codes "ok" }) (true ∷ []) refl (omega arith)
