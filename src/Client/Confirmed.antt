-- ===== src/Client/Confirmed.antt =====
-- A take tells the server to delete a blob only when it has the blob.
use blobio.Base.{
  ◌≡◌, refl, ap, ◌∙◌, ◌⊎◌, inl, inr, Bool, true, false, List, [], ◌∷◌, ◌++◌, Bytes, codes,
  if◌then◌else◌, ◌&&◌, Bool-cases,
}
use blobio.Chat
use blobio.FsSha.Paths.{decode_hex}
use blobio.FsSha.Hashes.{Storage, IsStorage, digest_of}
use blobio.Client.{OkNo, ok, no, unreadable}
use blobio.Client.Session.{
  Session, if_written, if_ok, write_server, write_output, read_reply, request, set_brr, noted_as,
  left_from_server, verify, is_empty, get_blob, get_verified, confirm, bio4_take, chewed,
}
use blobio.Client.Verified.{IfOk, Verified, get_verified-Verified}

-- What was sent when a step ends: nothing, or these bytes.
abbrev Sends : Session → Bytes → Session × OkNo → Type 0
Sends s buf (s', r) = (s'.sent ≡ s.sent) ⊎ (s'.sent ≡ s.sent ++ buf)

-- A step that sends nothing, behind one that may have sent.
then_nothing :
    (s : Session) (buf : Bytes) (m : Session × OkNo) (k : Session → Session × OkNo)
    → Sends s buf m
    → ((s' : Session) → (k s').0.sent ≡ s'.sent)
    → Sends s buf (if_ok m k)
then_nothing s buf (s', ok) k (inl e) quiet = inl (quiet s' ∙ e)
then_nothing s buf (s', ok) k (inr e) quiet = inr (quiet s' ∙ e)
then_nothing s buf (s', no) k h quiet = h
then_nothing s buf (s', unreadable) k h quiet = h

written_sent :
    (buf : Bytes) (s : Session)
    → ((write_server buf s).1 ≡ true → (write_server buf s).0.sent ≡ s.sent ++ buf)
      × ((write_server buf s).1 ≡ false → (write_server buf s).0.sent ≡ s.sent)
unfolding write_server
written_sent buf s = (λ h. rw h refl, λ h. rw h refl)

written-Sends :
    (s : Session) (buf : Bytes) (m : Session × Bool) (k : Session → Session × OkNo)
    → (m.1 ≡ true → m.0.sent ≡ s.sent ++ buf)
    → (m.1 ≡ false → m.0.sent ≡ s.sent)
    → ((s' : Session) → (k s').0.sent ≡ s'.sent)
    → Sends s buf (if_written m k)
written-Sends s buf (s', true) k works fails quiet = inr (quiet s' ∙ works refl)
written-Sends s buf (s', false) k works fails quiet = inl (fails refl)

request-Sends : (req stack : Bytes) (s : Session) → Sends s req (request req stack s)
unfolding request read_reply
request-Sends req stack s =
    let (works, fails) = written_sent req s in
    written-Sends s req (write_server req s) (read_reply stack) works fails (λ s'. refl)

if_written-quiet :
    (sent : Bytes) (m : Session × Bool) (k : Session → Session × OkNo)
    → m.0.sent ≡ sent
    → ((s : Session) → (k s).0.sent ≡ s.sent)
    → (if_written m k).0.sent ≡ sent
if_written-quiet sent (s, true) k h quiet = quiet s ∙ h
if_written-quiet sent (s, false) k h quiet = h

if_ok-quiet :
    (sent : Bytes) (m : Session × OkNo) (k : Session → Session × OkNo)
    → m.0.sent ≡ sent
    → ((s : Session) → (k s).0.sent ≡ s.sent)
    → (if_ok m k).0.sent ≡ sent
if_ok-quiet sent (s, ok) k h quiet = quiet s ∙ h
if_ok-quiet sent (s, no) k h quiet = h
if_ok-quiet sent (s, unreadable) k h quiet = h

module _ (d : Storage) (ascii_digest : Bytes) where
  verify-quiet :
      (ctx : Storage.Context d) (reads : List Chat.Read) (s : Session)
      → (verify d ascii_digest write_output left_from_server ctx reads s).0.sent ≡ s.sent
  unfolding verify left_from_server write_output
  verify-quiet ctx [] s = refl
  verify-quiet ctx (Chat.end_of_file ∷ reads) s = refl
  verify-quiet ctx (Chat.failed ∷ reads) s = refl
  verify-quiet ctx (Chat.bytes [] ∷ reads) s = refl
  verify-quiet ctx (Chat.bytes (c ∷ cs) ∷ reads) s =
      if_written-quiet s.sent (write_output (c ∷ cs) s) _ refl λ s'.
        elim (Bool-cases (chewed d ascii_digest (d.update ctx (c ∷ cs)))) [
          | inl seen ↦ rw seen refl
          | inr other ↦ rw other (verify-quiet (d.update ctx (c ∷ cs)) reads s')
        ]

  got-quiet :
      (b : Bool) (s : Session)
      → (if b then (s, ok) else if_ok (get_blob d ascii_digest s) (set_brr (codes "ok"))).0.sent
        ≡ s.sent
  unfolding get_blob set_brr
  got-quiet true s = refl
  got-quiet false s =
      if_ok-quiet s.sent (get_blob d ascii_digest s) (set_brr (codes "ok"))
        (verify-quiet d.init s.from_server s) (λ s'. refl)

  get_verified-Sends :
      (in_take : Bool) (req stack : Bytes) (s : Session)
      → Sends s req (get_verified d ascii_digest in_take req stack s)
  unfolding get_verified
  get_verified-Sends in_take req stack s =
      then_nothing s req (request req stack s) _ (request-Sends req stack s)
        (got-quiet (in_take && is_empty d ascii_digest))

-- The reply behind the confirmation changes neither what was sent nor the output.
noted_as-keeps :
    (history : Bytes) (m : Session × OkNo)
    → ((noted_as history m).0.sent ≡ m.0.sent) × ((noted_as history m).0.output ≡ m.0.output)
unfolding noted_as
noted_as-keeps history (s, ok) = (refl, refl)
noted_as-keeps history (s, no) = (refl, refl)
noted_as-keeps history (s, unreadable) = (refl, refl)

module _ (d : Storage) (law : IsStorage d) (ascii_digest : Bytes) where
  -- The request, and the confirmation where the output has the digest.
  abbrev pub Took : Session → Bytes → Session → Type 0
  Took s req s' =
      (s'.sent ≡ s.sent)
      ⊎ (s'.sent ≡ s.sent ++ req)
      ⊎ ((s'.sent ≡ (s.sent ++ req) ++ codes "ok\n")
          × (digest_of d s'.output ≡ decode_hex ascii_digest))

  written_confirm :
      (s s1 : Session) (req stack : Bytes) (m : Session × Bool)
      → Verified d law ascii_digest (s.sent ++ req) s1
      → (m.1 ≡ true → (m.0.sent ≡ s1.sent ++ codes "ok\n") × (m.0.output ≡ s1.output))
      → (m.1 ≡ false → m.0.sent ≡ s1.sent)
      → Took s req (if_written m (λ s'. noted_as (codes "ok,ok,ok") (read_reply stack s'))).0
  unfolding read_reply
  written_confirm s s1 req stack (s', false) h works fails = inr (inl (fails refl ∙ h.quiet))
  written_confirm s s1 req stack (s', true) h works fails =
      let (sent, output) = works refl in
      let (same_sent, same_output) = noted_as-keeps (codes "ok,ok,ok") (read_reply stack s') in
      inr (
        inr (
          same_sent ∙ sent ∙ ap (λ b. b ++ codes "ok\n") h.quiet,
          ap (digest_of d) (same_output ∙ output) ∙ h.digest,
        ))

  sent_confirm :
      (s1 : Session)
      → (write_server (codes "ok\n") s1).1 ≡ true
      → ((write_server (codes "ok\n") s1).0.sent ≡ s1.sent ++ codes "ok\n")
        × ((write_server (codes "ok\n") s1).0.output ≡ s1.output)
  unfolding write_server
  sent_confirm s1 h = rw h (refl, refl)

  take_end :
      (s : Session) (req stack : Bytes) (m : Session × OkNo)
      → Sends s req m
      → IfOk (Verified d law ascii_digest (s.sent ++ req)) m
      → Took s req (if_ok m (confirm stack)).0
  unfolding confirm
  take_end s req stack (s1, ok) sends h =
      written_confirm s s1 req stack (write_server (codes "ok\n") s1) h (sent_confirm s1)
        (written_sent (codes "ok\n") s1).1
  take_end s req stack (s1, no) (inl e) h = inl e
  take_end s req stack (s1, no) (inr e) h = inr (inl e)
  take_end s req stack (s1, unreadable) (inl e) h = inl e
  take_end s req stack (s1, unreadable) (inr e) h = inr (inl e)

  -- However a take ends, where nothing was put out before: it has sent nothing, or the request alone, or the
  -- request and the ok on which the server deletes the blob, and then what was put out has the digest that
  -- was asked for, whatever the server sent and in whatever pieces.
  pub bio4_take-Took :
      (req stack : Bytes) (s : Session)
      → s.output ≡ []
      → Took s req (bio4_take d ascii_digest req stack s).0
  unfolding bio4_take
  bio4_take-Took req stack s none =
      take_end s req stack (get_verified d ascii_digest true req stack s)
        (get_verified-Sends d ascii_digest true req stack s)
        (get_verified-Verified d law ascii_digest true req stack s none)
