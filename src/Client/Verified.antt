-- ===== src/Client/Verified.antt =====
-- What a client has when a get or a take ends: a blob with the digest, before a take is confirmed.
use blobio.Base.{
  ◌≡◌, refl, ap, sym, ◌∙◌, inl, inr, Bool, true, false, ◌&&◌, List, [], ◌∷◌, ◌++◌, Bytes, codes,
  if◌then◌else◌, bytes_eq_iff, Bool-cases,
}
use blobio.Chat
use blobio.FsSha.Paths.{decode_hex}
use blobio.FsSha.Hashes.{Storage, IsStorage, digest_of}
use blobio.Client.{OkNo, ok, no, unreadable}
use blobio.Client.Session.{
  Session, if_written, if_ok, write_server, write_output, read_reply, request, set_brr,
  left_from_server, chewed, verify, is_empty, get_blob, get_verified, bio4_get,
}

-- What holds of the session where the answer is ok.
abbrev pub IfOk : (Session → Type 0) → Session × OkNo → Type 0
IfOk P (s, ok) = P s
IfOk P (s, no) = Unit
IfOk P (s, unreadable) = Unit

pub if_ok-IfOk :
    (P Q : Session → Type 0) (m : Session × OkNo) (k : Session → Session × OkNo)
    → IfOk P m
    → ((s : Session) → P s → IfOk Q (k s))
    → IfOk Q (if_ok m k)
if_ok-IfOk P Q (s, ok) k h next = next s h
if_ok-IfOk P Q (s, no) k h next = tt
if_ok-IfOk P Q (s, unreadable) k h next = tt

if_written-IfOk :
    (Q : Session → Type 0) (m : Session × Bool) (k : Session → Session × OkNo)
    → (m.1 ≡ true → IfOk Q (k m.0))
    → IfOk Q (if_written m k)
if_written-IfOk Q (s, true) k next = next refl
if_written-IfOk Q (s, false) k next = tt

module _ (d : Storage) (law : IsStorage d) (ascii_digest : Bytes) where
  -- The output has the digest, and nothing was sent since.
  pub record Verified (sent : Bytes) (s : Session) : Type 0 where
    pub digest : digest_of d s.output ≡ decode_hex ascii_digest
    pub quiet : s.sent ≡ sent

  matched :
      (ctx : Storage.Context d) (out : Bytes)
      → ctx ≡ d.update d.init out
      → chewed d ascii_digest ctx ≡ true
      → digest_of d out ≡ decode_hex ascii_digest
  unfolding chewed
  matched ctx out fed seen =
      ap d.final (sym fed) ∙ (bytes_eq_iff (d.final ctx) (decode_hex ascii_digest)).0 seen

  ended :
      (b : Bool) (sent : Bytes) (s : Session)
      → (b ≡ true → digest_of d s.output ≡ decode_hex ascii_digest)
      → s.sent ≡ sent
      → IfOk (Verified sent) (s, (if b then ok else unreadable))
  ended true sent s h same = record { digest = h refl; quiet = same }
  ended false sent s h same = tt

  nothing_more :
      (ctx : Storage.Context d) (out : Bytes)
      → ctx ≡ d.update d.init out
      → d.update ctx [] ≡ d.update d.init out
  nothing_more ctx out fed = law.update_nil ctx ∙ fed

  written_output :
      (buf : Bytes) (s : Session)
      → (write_output buf s).1 ≡ true
      → ((write_output buf s).0.output ≡ s.output ++ buf) × ((write_output buf s).0.sent ≡ s.sent)
  unfolding write_output
  written_output buf s h = rw h (refl, refl)

  verify-Verified :
      (ctx : Storage.Context d) (reads : List Chat.Read) (s : Session) (sent : Bytes)
      → ctx ≡ d.update d.init s.output
      → s.sent ≡ sent
      → IfOk (Verified sent) (verify d ascii_digest write_output left_from_server ctx reads s)
  unfolding verify left_from_server
  verify-Verified ctx [] s sent fed same =
      ended (chewed d ascii_digest (d.update ctx [])) sent (left_from_server [] s)
        (matched (d.update ctx []) s.output (nothing_more ctx s.output fed)) same
  verify-Verified ctx (Chat.end_of_file ∷ reads) s sent fed same =
      ended (chewed d ascii_digest (d.update ctx [])) sent (left_from_server reads s)
        (matched (d.update ctx []) s.output (nothing_more ctx s.output fed)) same
  verify-Verified ctx (Chat.failed ∷ reads) s sent fed same = tt
  verify-Verified ctx (Chat.bytes [] ∷ reads) s sent fed same =
      ended (chewed d ascii_digest (d.update ctx [])) sent (left_from_server reads s)
        (matched (d.update ctx []) s.output (nothing_more ctx s.output fed)) same
  verify-Verified ctx (Chat.bytes (c ∷ cs) ∷ reads) s sent fed same =
      if_written-IfOk (Verified sent) (write_output (c ∷ cs) s) _ λ worked.
        let s' = (write_output (c ∷ cs) s).0 in
        let (out, quiet) = written_output (c ∷ cs) s worked in
        let fed' : d.update ctx (c ∷ cs) ≡ d.update d.init s'.output =
          ap (λ x. d.update x (c ∷ cs)) fed
          ∙ law.update_update d.init s.output (c ∷ cs)
          ∙ ap (d.update d.init) (sym out) in
        elim (Bool-cases (chewed d ascii_digest (d.update ctx (c ∷ cs)))) [
          | inl seen ↦ rw seen record {
            digest = matched (d.update ctx (c ∷ cs)) s'.output fed' seen;
            quiet = quiet ∙ same;
          }
          | inr other ↦
              rw other (verify-Verified (d.update ctx (c ∷ cs)) reads s' sent fed' (quiet ∙ same))
        ]

  sent_request :
      (req : Bytes) (s : Session)
      → (write_server req s).1 ≡ true
      → ((write_server req s).0.sent ≡ s.sent ++ req) × ((write_server req s).0.output ≡ s.output)
  unfolding write_server
  sent_request req s h = rw h (refl, refl)

  any_answer : (P : Session → Type 0) (s : Session) (r : OkNo) → P s → IfOk P (s, r)
  any_answer P s ok h = h
  any_answer P s no h = tt
  any_answer P s unreadable h = tt

  request-IfOk :
      (req stack : Bytes) (s : Session)
      → IfOk (λ s'. (s'.sent ≡ s.sent ++ req) × (s'.output ≡ s.output)) (request req stack s)
  unfolding request read_reply
  request-IfOk req stack s =
      let P = λ (s' : Session). (s'.sent ≡ s.sent ++ req) × (s'.output ≡ s.output) in
      if_written-IfOk P (write_server req s) (read_reply stack) (λ worked.
        any_answer P (read_reply stack (write_server req s).0).0
          (read_reply stack (write_server req s).0).1 (sent_request req s worked))

  nothing_read :
      (s : Session) (sent : Bytes)
      → is_empty d ascii_digest ≡ true
      → s.output ≡ []
      → s.sent ≡ sent
      → Verified sent s
  nothing_read s sent empty none same = record {
    digest =
        ap (digest_of d) none
        ∙ ap d.final (law.update_nil d.init)
        ∙ law.empty
        ∙ ap decode_hex ((bytes_eq_iff d.empty_ascii ascii_digest).0 empty);
    quiet = same;
  }

  got-Verified :
      (in_take : Bool) (s : Session) (sent : Bytes)
      → s.output ≡ []
      → s.sent ≡ sent
      → IfOk (Verified sent) (
          if in_take && is_empty d ascii_digest
          then (s, ok)
          else if_ok (get_blob d ascii_digest s) (set_brr (codes "ok")))
  unfolding get_blob set_brr
  got-Verified in_take s sent none same =
      let read =
        if_ok-IfOk (Verified sent) (Verified sent) (get_blob d ascii_digest s)
          (set_brr (codes "ok"))
          (verify-Verified d.init s.from_server s sent
            (sym (law.update_nil d.init) ∙ ap (d.update d.init) (sym none)) same)
          (λ s' h. record { digest = h.digest; quiet = h.quiet }) in
      elim (Bool-cases in_take) [
        | inr get ↦ rw get read
        | inl take ↦ elim (Bool-cases (is_empty d ascii_digest)) [
          | inr full ↦ rw (take, full) read
          | inl empty ↦ rw (take, empty) (nothing_read s sent empty none same)
        ]
      ]

  pub get_verified-Verified :
      (in_take : Bool) (req stack : Bytes) (s : Session)
      → s.output ≡ []
      → IfOk (Verified (s.sent ++ req)) (get_verified d ascii_digest in_take req stack s)
  unfolding get_verified
  get_verified-Verified in_take req stack s none =
      if_ok-IfOk (λ s'. (s'.sent ≡ s.sent ++ req) × (s'.output ≡ s.output))
        (Verified (s.sent ++ req)) (request req stack s) _ (request-IfOk req stack s)
        (λ s' h. got-Verified in_take s' (s.sent ++ req) (h.1 ∙ none) h.0)

  -- Where a get ends with ok and nothing was put out before: what was put out has the digest that was asked
  -- for, whatever the server sent and in whatever pieces, and nothing but the request was sent.
  pub bio4_get-digest :
      (req stack : Bytes) (s s' : Session)
      → s.output ≡ []
      → bio4_get d ascii_digest req stack s ≡ (s', ok)
      → (digest_of d s'.output ≡ decode_hex ascii_digest) × (s'.sent ≡ s.sent ++ req)
  unfolding bio4_get
  bio4_get-digest req stack s s' none e =
      let h : IfOk (Verified (s.sent ++ req)) (s', ok) =
        rw e at (get_verified-Verified false req stack s none) in
      (h.digest, h.quiet)
