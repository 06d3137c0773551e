-- ===== src/Client/Recorded.antt =====
-- The chats that a put of the client and one of the server note for their records, beside what
-- bio-frisk-brr takes.
use blobio.Base.{[], ◌≡◌, refl, ap, Bool, true, false, Bytes, codes, if◌then◌else◌}
use blobio.Frisk.Fields.{chat_allowed}
use blobio.Frisk.Chats.{success-Leaves}
use blobio.Chat
use blobio.Verbs
use blobio.Verbs.{DigestModule}
use blobio.Verbs.Histories.{IsQuiet, put_done, put-Leaves}
use blobio.FsSha.Hashes.{Storage}
use blobio.Client.{OkNo, ok, no, unreadable}
use blobio.Client.Session.{Session, read_reply, request, noted, copy_input, put_untrusted, bio4_put}
use blobio.Client.Verified.{IfOk, if_ok-IfOk}

anything : (m : Session × OkNo) → IfOk (λ s. Unit) m
anything (s, ok) = tt
anything (s, no) = tt
anything (s, unreadable) = tt

noted_ok : (m : Session × OkNo) → IfOk (λ s. s.chat_history ≡ codes "ok") (noted m)
unfolding noted
noted_ok (s, ok) = refl
noted_ok (s, no) = tt
noted_ok (s, unreadable) = tt

module _ (d : Storage) (ascii_digest : Bytes) where
  put-IfOk :
      (trust : Bool) (req stack : Bytes) (s : Session)
      → IfOk (λ s'. s'.chat_history ≡ codes "ok") (bio4_put d ascii_digest trust req stack s)
  unfolding bio4_put
  put-IfOk trust req stack s =
      let P = λ (s' : Session). Unit {0} in
      let Q = λ (s' : Session). s'.chat_history ≡ codes "ok" in
      if_ok-IfOk P Q (request req stack s) _ (anything (request req stack s)) λ s' h.
        let put = if trust then copy_input s'.from_input s' else put_untrusted d ascii_digest s' in
        if_ok-IfOk P Q put _ (anything put) (λ s'' h. noted_ok (read_reply stack s''))

  -- A put of the client that both replies of the server accept notes the chat `ok`, which the code of
  -- `scan_chat_history` refuses for a put. It takes for a put every chat that the put of the server leaves
  -- where that ends with status 0, starts with no chat, and has callbacks that leave the chat alone and do
  -- not panic.
  pub bio4_put-chat :
      (trust : Bool) (req stack : Bytes) (s s' : Session) (mp : DigestModule) (r : Chat.Request)
      → bio4_put d ascii_digest trust req stack s ≡ (s', ok)
      → IsQuiet mp
      → r.chat_history ≡ []
      → (Verbs.put mp r).1 ≡ Chat.success
      → (s'.chat_history ≡ codes "ok")
        × (chat_allowed (codes "put") s'.chat_history ≡ false)
        × (chat_allowed (codes "put") (Verbs.put mp r).0.chat_history ≡ true)
  unfolding chat_allowed
  bio4_put-chat trust req stack s s' mp r e quiet fresh done =
      let noted : s'.chat_history ≡ codes "ok" = rw e at (put-IfOk trust req stack s) in
      (
        noted,
        ap (chat_allowed (codes "put")) noted,
        success-Leaves (λ chat. chat_allowed (codes "put") chat ≡ true) put_done _ (Verbs.put mp r)
            (refl, (refl, (refl, tt))) (put-Leaves mp quiet r fresh) done,
      )
