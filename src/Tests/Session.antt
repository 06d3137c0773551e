-- ===== src/Tests/Session.antt =====
-- Sessions of the client with the store of two bytes.
use blobio.Base.{
  ◌≡◌, refl, ap, true, false, some, List, [], ◌∷◌, ◌++◌, Bytes, codes, bytes_eq, ◌==◌, arith,
  is_digit,
}
use blobio.Chat
use blobio.Chat.{write_ok, req_write, note_chat, add_chat_history}
use blobio.Frisk.Fields.{chat_allowed}
use blobio.Verbs
use blobio.Verbs.{set_verb, branch}
use blobio.FsSha
use blobio.FsSha.Disk.{lookup, unlink, rename}
use blobio.FsSha.Paths.{make_path, decode_hex}
use blobio.FsSha.Hashes.{digest_of}
use blobio.FsSha.{
  get_request, put_bytes, put_stream, put_end, put_chunks, chunks, send_chunks, after_send,
}
use blobio.FsSha.Sent.{joined, online}
use blobio.FsSha.Runs
use blobio.FsRipe
use blobio.FsRipe.Bc160
use blobio.FsRipe.Runs.{operate, operate_all}
use blobio.Client.{ok, parse_ok_no}
use blobio.Client.Session.{Session, bio4_get, bio4_take, bio4_put}
use blobio.Client.Verified.{bio4_get-digest}
use blobio.Client.Confirmed.{Took, bio4_take-Took}
use blobio.Client.Arrived.{live, arrive, bio4_get-get}
use blobio.Client.Recorded.{bio4_put-chat}
use blobio.Tests.Verbs.{plain, plain-IsQuiet, fresh_request, put_run}
use blobio.Tests.FsRipe.{
  store, store-IsStorage, two_digest, one_put, tmp_path-IsApart, getting, getting-Serves, stored,
}

abbrev get_line : Bytes
get_line = codes "get bc160:0200000000000000000000000000000000000000\n"

-- The reply and the two bytes of the blob, one after the other.
abbrev blob_arrives : List Chat.Read
blob_arrives = Chat.bytes (codes "ok\n") ∷ arrive (codes "a" ∷ codes "b" ∷ [])

got_two :
    bio4_get store two_digest get_line [] (live blob_arrives [] [] [])
    ≡ (live [] get_line (codes "ab") (codes "ok"), ok)
unfolding bio4_get decode_hex bytes_eq parse_ok_no
got_two = refl

bio4_get-digest_example :
    (digest_of store (codes "ab") ≡ decode_hex two_digest) × (get_line ≡ [] ++ get_line)
bio4_get-digest_example =
    bio4_get-digest store store-IsStorage two_digest get_line [] (live blob_arrives [] [] [])
      (live [] get_line (codes "ab") (codes "ok")) refl got_two

bio4_take-Took_example :
    Took store store-IsStorage two_digest
      (live blob_arrives [] [] [])
      get_line
      (bio4_take store two_digest get_line [] (live blob_arrives [] [] [])).0
bio4_take-Took_example =
    bio4_take-Took store store-IsStorage two_digest get_line [] (live blob_arrives [] [] []) refl

there : get_request store two_digest (operate_all store false one_put []) ≡ some (codes "ab")
unfolding get_request
there = stored

not_empty : (Bc160.is_digest two_digest == 2) ≡ false
unfolding Bc160.is_digest bytes_eq
not_empty = refl

server_sent :
    codes "ok\n" ++ joined (codes "a" ∷ codes "b" ∷ [])
    ≡ (Verbs.get getting two_digest (online [] [] 0)).0.sent
unfolding joined Verbs.get FsRipe.get_bytes Runs.operate operate_all operate put_bytes put_stream
    put_end put_chunks lookup unlink rename make_path decode_hex bytes_eq Bc160.is_digest write_ok
    req_write note_chat add_chat_history FsSha.get_bytes get_request is_digit
server_sent = refl

bio4_get-get_example :
    (s' : Session) × (bio4_get store two_digest get_line [] (live blob_arrives [] [] []) ≡ (s', ok))
    × ((rest : Bytes) × (s'.output ++ rest ≡ codes "ab"))
    × (digest_of store s'.output ≡ decode_hex two_digest)
    × (s'.chat_history ≡ (Verbs.get getting two_digest (online [] [] 0)).0.chat_history)
bio4_get-get_example =
    bio4_get-get store store-IsStorage two_digest false one_put getting 0 (codes "ab") get_line []
      [] (codes "a" ∷ codes "b" ∷ []) (tmp_path-IsApart, tt) refl getting-Serves not_empty there
      (omega arith, (omega arith, tt)) server_sent

-- A put of the two bytes, which the server takes.
abbrev two_puts : Session
two_puts = record {
  from_server = Chat.bytes (codes "ok\n") ∷ Chat.bytes (codes "ok\n") ∷ [];
  from_input = Chat.bytes (codes "ab") ∷ [];
  writes = [];
  sent = [];
  output = [];
  chat_history = [];
  udig = [];
}

abbrev two_put : Session
two_put = record {
  from_server = [];
  from_input = [];
  writes = [];
  sent = get_line ++ codes "ab";
  output = [];
  chat_history = codes "ok";
  udig = [];
}

put_two : bio4_put store two_digest false get_line [] two_puts ≡ (two_put, ok)
unfolding bio4_put decode_hex bytes_eq parse_ok_no
put_two = refl

bio4_put-chat_example :
    (two_put.chat_history ≡ codes "ok")
    × (chat_allowed (codes "put") two_put.chat_history ≡ false)
    × (chat_allowed (codes "put") (Verbs.put plain fresh_request).0.chat_history ≡ true)
bio4_put-chat_example =
    bio4_put-chat store two_digest false get_line [] two_puts two_put plain fresh_request put_two
      plain-IsQuiet refl (ap (λ (a : Chat.Request × Chat.Status). a.1) put_run)
