-- ===== src/Client/Replies.antt =====
-- The client reads the replies of the server, where they come in one piece.
use blobio.Base.{
  ℕ, ◌≡◌, refl, Bool, true, false, not, List, [], ◌∷◌, ◌++◌, codes, ◌==◌, if◌then◌else◌,
}
use blobio.Chat
use blobio.Client.{OkNo, ok, no, unreadable, read_ok_no, read_ok_no_loop, parse_ok_no}

either : (b : Bool) → (if b then unreadable else unreadable) ≡ unreadable
either true = refl
either false = refl

-- A reply ok or no with its newline is read as such where its three bytes come in one read; where they
-- come in two or three, whatever the array held and whatever follows, the client reports an error.
pub read_ok_no_pieces :
    (s0 s1 s2 : ℕ) (reads : List Chat.Read)
    → let read : List Chat.Read → OkNo =
        λ first. (read_ok_no (s0 ∷ s1 ∷ s2 ∷ []) (first ++ reads)).0 in
      (read (Chat.bytes (codes "ok\n") ∷ []) ≡ ok)
      × (read (Chat.bytes (codes "no\n") ∷ []) ≡ no)
      × (read (Chat.bytes (codes "ok") ∷ Chat.bytes (codes "\n") ∷ []) ≡ unreadable)
      × (read (Chat.bytes (codes "no") ∷ Chat.bytes (codes "\n") ∷ []) ≡ unreadable)
      × (read (Chat.bytes (codes "o") ∷ Chat.bytes (codes "k\n") ∷ []) ≡ unreadable)
      × (read (Chat.bytes (codes "n") ∷ Chat.bytes (codes "o\n") ∷ []) ≡ unreadable)
      × (read (Chat.bytes (codes "o") ∷ Chat.bytes (codes "k") ∷ Chat.bytes (codes "\n") ∷ [])
          ≡ unreadable)
      × (read (Chat.bytes (codes "n") ∷ Chat.bytes (codes "o") ∷ Chat.bytes (codes "\n") ∷ [])
          ≡ unreadable)
unfolding read_ok_no read_ok_no_loop parse_ok_no
read_ok_no_pieces s0 s1 s2 reads =
    let nothing = either (not (s2 == b'\n')) in
    (refl, refl, nothing, nothing, nothing, nothing, nothing, nothing)
