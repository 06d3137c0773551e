-- ===== src/Client/Arrived.antt =====
-- A blob that the server sends arrives: `bio4_get` of cli/blobio/bio4.c behind `get` of bio4d/bio4d.c.
use blobio.Base.{
  ℕ, ◌<◌, ◌≡◌, refl, ap, sym, ◌∙◌, inl, inr, Bool, true, false, some, List, [], ◌∷◌, ◌++◌, Bytes,
  codes, append_assoc, append-nil, length, drop, ◌==◌, bytes_eq_iff, Bool-cases, All, arith,
}
use blobio.Chat
use blobio.Verbs
use blobio.Verbs.{DigestModule}
use blobio.FsSha
use blobio.FsSha.Paths.{decode_hex}
use blobio.FsSha.Hashes.{Storage, IsStorage, digest_of}
use blobio.FsSha.Sent.{joined, online}
use blobio.FsSha.Runs.{Operation, TmpIsApart}
use blobio.FsRipe.Runs.{operate_all, trusted_file}
use blobio.FsRipe.Served.{Serves, get_status, get-operate_all}
use blobio.Client.{OkNo, ok, read_ok_no, parse_ok_no}
use blobio.Client.Session.{
  Session, write_server, write_output, read_reply, request, set_brr, left_from_server, if_ok,
  chewed, verify, get_blob, get_verified, bio4_get,
}

-- A session in which every write will work.
abbrev pub live : List Chat.Read → Bytes → Bytes → Bytes → Session
live reads sent output history = record {
  from_server = reads;
  from_input = [];
  writes = [];
  sent = sent;
  output = output;
  chat_history = history;
  udig = [];
}

-- The pieces in which bytes arrive, each with one byte or more.
abbrev pub arrive : List Bytes → List Chat.Read
arrive [] = []
arrive (p ∷ ps) = Chat.bytes p ∷ arrive ps

abbrev pub IsSome : Bytes → Type 0
IsSome p = 0 < length p

module _ (d : Storage) (law : IsStorage d) (ascii_digest : Bytes) where
  -- The output that a loop leaves, where it ends with ok.
  record Written (all sent history : Bytes) (m : Session × OkNo) : Type 0 where
    left : List Chat.Read
    output : Bytes
    rest : Bytes
    ends : m ≡ (live left sent output history, ok)
    prefix : output ++ rest ≡ all
    digest : digest_of d output ≡ decode_hex ascii_digest

  seen_digest :
      (ctx : Storage.Context d) (out : Bytes)
      → ctx ≡ d.update d.init out
      → chewed d ascii_digest ctx ≡ true
      → digest_of d out ≡ decode_hex ascii_digest
  unfolding chewed
  seen_digest ctx out fed seen =
      ap d.final (sym fed) ∙ (bytes_eq_iff (d.final ctx) (decode_hex ascii_digest)).0 seen

  verify-arrive :
      (ctx : Storage.Context d) (pieces : List Bytes) (r : List Chat.Read)
      (sent out history : Bytes)
      → ctx ≡ d.update d.init out
      → All IsSome pieces
      → decode_hex ascii_digest ≡ digest_of d (out ++ joined pieces)
      → Written (out ++ joined pieces) sent history (
          verify d ascii_digest write_output left_from_server ctx
            (arrive pieces)
            (live r sent out history))
  unfolding verify left_from_server write_output joined
  verify-arrive ctx [] r sent out history fed full good =
      let fed' : d.update ctx [] ≡ d.update d.init out = law.update_nil ctx ∙ fed in
      let same : digest_of d out ≡ decode_hex ascii_digest =
        ap (digest_of d) (sym (append-nil out)) ∙ sym good in
      let seen : chewed d ascii_digest (d.update ctx []) ≡ true =
        unfold chewed in
        (bytes_eq_iff (d.final (d.update ctx [])) (decode_hex ascii_digest)).1
          (ap d.final fed' ∙ same) in
      record {
        left = [];
        output = out;
        rest = [];
        ends = rw seen refl;
        prefix = refl;
        digest = same;
      }
  verify-arrive ctx ([] ∷ ps) r sent out history fed (none, full) good =
      absurd (omega (arith, none))
  verify-arrive ctx ((c ∷ cs) ∷ ps) r sent out history fed (one, full) good =
      let ctx' = d.update ctx (c ∷ cs) in
      let fed' : ctx' ≡ d.update d.init (out ++ c ∷ cs) =
        ap (λ x. d.update x (c ∷ cs)) fed ∙ law.update_update d.init out (c ∷ cs) in
      elim (Bool-cases (chewed d ascii_digest ctx')) [
        | inl seen ↦ record {
          left = arrive ps;
          output = out ++ c ∷ cs;
          rest = joined ps;
          ends = rw seen refl;
          prefix = append_assoc out (c ∷ cs) (joined ps);
          digest = seen_digest ctx' (out ++ c ∷ cs) fed' seen;
        }
        | inr other ↦
            let w =
              verify-arrive ctx' ps r sent (out ++ c ∷ cs) history fed' full
                (good ∙ ap (digest_of d) (sym (append_assoc out (c ∷ cs) (joined ps)))) in
            record {
              left = w.left;
              output = w.output;
              rest = w.rest;
              ends = rw other w.ends;
              prefix = w.prefix ∙ append_assoc out (c ∷ cs) (joined ps);
              digest = w.digest;
            }
      ]

  -- A get of the pieces of a blob that follow the ok.
  got :
      (req stack sent : Bytes) (pieces : List Bytes)
      → All IsSome pieces
      → decode_hex ascii_digest ≡ digest_of d (joined pieces)
      → (s' : Session) × (bio4_get d ascii_digest req stack
            (live (Chat.bytes (codes "ok\n") ∷ arrive pieces) sent [] [])
          ≡ (s', ok))
        × ((rest : Bytes) × (s'.output ++ rest ≡ joined pieces))
        × (digest_of d s'.output ≡ decode_hex ascii_digest)
        × (s'.chat_history ≡ codes "ok")
  unfolding bio4_get get_verified get_blob set_brr request write_server read_reply read_ok_no
      parse_ok_no
  got req stack sent pieces full good =
      let w =
        verify-arrive d.init pieces (arrive pieces) (sent ++ req) [] []
          (sym (law.update_nil d.init)) full good in
      (
        live w.left (sent ++ req) w.output (codes "ok"),
        ap (λ m. if_ok m (set_brr (codes "ok"))) w.ends,
        (w.rest, w.prefix),
        w.digest,
        refl,
      )

  -- Where a store is as the operations of the server left it, with temporary files that are never where a
  -- blob could be, a client that gets a blob of it under a digest of forty characters that is not that of
  -- the empty blob, and to which
  -- the ok comes in one piece and the bytes of the blob in any pieces, ends with ok: it has put out the
  -- first bytes of the blob, which have the digest, and notes the chat that the server noted.
  pub bio4_get-get :
      (trust : Bool) (os : List Operation) (mp : DigestModule) (st : ℕ)
      (file req stack sent : Bytes) (pieces : List Bytes)
      → All (TmpIsApart d) os
      → length ascii_digest ≡ 40
      → Serves d trust ascii_digest (operate_all d false os []) mp
      → (d.is_digest ascii_digest == 2) ≡ false
      → FsSha.get_request d ascii_digest (operate_all d false os []) ≡ some file
      → All IsSome pieces
      → codes "ok\n" ++ joined pieces ≡ (Verbs.get mp ascii_digest (online [] [] st)).0.sent
      → (s' : Session) × (bio4_get d ascii_digest req stack
            (live (Chat.bytes (codes "ok\n") ∷ arrive pieces) sent [] [])
          ≡ (s', ok))
        × ((rest : Bytes) × (s'.output ++ rest ≡ file))
        × (digest_of d s'.output ≡ decode_hex ascii_digest)
        × (s'.chat_history ≡ (Verbs.get mp ascii_digest (online [] [] st)).0.chat_history)
  unfolding FsSha.get_request
  bio4_get-get trust os mp st file req stack sent pieces apart size serves plain there full same =
      let served = get-operate_all d law trust os ascii_digest mp st apart size serves in
      let replied : Verbs.get mp ascii_digest (online [] [] st)
          ≡ (online (codes "ok") (codes "ok\n" ++ file) (get_status st), Chat.success) =
        rw (plain, there) at served in
      let whole : joined pieces ≡ file =
        ap (drop 3) (same ∙ ap (λ (a : Chat.Request × Chat.Status). a.0.sent) replied) in
      let good =
        trusted_file d law os ascii_digest file apart size there ∙ ap (digest_of d) (sym whole) in
      let (s', ends, (rest, prefix), digest, noted) = got req stack sent pieces full good in
      (
        s',
        ends,
        (rest, prefix ∙ whole),
        digest,
        noted ∙ ap (λ (a : Chat.Request × Chat.Status). a.0.chat_history) (sym replied),
      )
