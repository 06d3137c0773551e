-- ===== src/Client/Eaten.antt =====
-- The digest that the client eats from an input, beside the check of a put: `eat_input` of cli/blobio/sha.c,
-- bc160.c and btc20.c.
use blobio.Base.{
  ◌≡◌, refl, ap, ◌∙◌, true, Option, some, List, [], ◌∷◌, ◌++◌, Bytes, bytes_eq_iff, if◌then◌else◌,
}
use blobio.Chat
use blobio.FsSha.Paths.{decode_hex}
use blobio.FsSha.Hashes.{Storage, IsStorage}
use blobio.Client.{OkNo, ok, unreadable}
use blobio.Client.Session.{Session, left_from_input, chewed}

-- The bytes that come before the reads end.
abbrev pub arrived : List Chat.Read → Bytes
arrived [] = []
arrived (Chat.end_of_file ∷ reads) = []
arrived (Chat.failed ∷ reads) = []
arrived (Chat.bytes [] ∷ reads) = []
arrived (Chat.bytes (c ∷ cs) ∷ reads) = (c ∷ cs) ++ arrived reads

module _ (d : Storage) (law : IsStorage d) where
  -- The check of a put ends with ok and has sent the first of the bytes.
  Sends : Bytes → Session × OkNo → Type 0
  Sends all m = (m.1 ≡ ok) × ((rest : Bytes) × (m.0.sent ++ rest ≡ all))

  seen :
      (h : Bytes) (ctx : Storage.Context d)
      → d.final ctx ≡ decode_hex h
      → chewed d h (d.update ctx []) ≡ true
  unfolding chewed
  seen h ctx same =
      (bytes_eq_iff (d.final (d.update ctx [])) (decode_hex h)).1
        (ap d.final (law.update_nil ctx) ∙ same)

  ended :
      (h : Bytes) (ctx ctx' : Storage.Context d) (reads : List Chat.Read) (s : Session)
      → d.final ctx' ≡ decode_hex h
      → Path (Option (Storage.Context d)) (some ctx) (some ctx')
      → Sends
          (s.sent ++ [])
          (left_from_input reads s, (if chewed d h (d.update ctx []) then ok else unreadable))
  unfolding left_from_input Sends
  ended h ctx ctx' reads s good e =
      let same : ctx ≡ ctx' = cc in rw (seen h ctx (ap d.final same ∙ good)) (refl, ([], refl))
