-- ===== src/Chat/Replies.antt =====
-- Which replies of a client `read_reply` takes.
use blobio.Base.{ℕ, ◌≡◌, refl, List, [], ◌∷◌, arith, ◌==◌, if◌then◌else◌}
use blobio.Chat.{Read, bytes, bad_reply, decide_reply, read_loop, word}

-- A reply with a newline alone is understood, in one read, with no further read needed.
pub newline_reply :
    (a b c d x y : ℕ) (rs : List Read)
    → read_loop (a ∷ b ∷ c ∷ d ∷ []) 0 (bytes (x ∷ y ∷ b'\n' ∷ []) ∷ rs) ≡ word x y
unfolding read_loop decide_reply
newline_reply a b c d x y rs = refl

-- A reply that ends in a carriage return and a newline, in one read or with the newline in a second,
-- is refused, whatever its first two bytes are.
pub carriage_return_refused :
    (a b c d x y : ℕ) (rs : List Read)
    → (read_loop (a ∷ b ∷ c ∷ d ∷ []) 0 (bytes (x ∷ y ∷ b'\r' ∷ b'\n' ∷ []) ∷ rs) ≡ bad_reply)
      × (read_loop (a ∷ b ∷ c ∷ d ∷ []) 0 (bytes (x ∷ y ∷ b'\r' ∷ []) ∷ bytes (b'\n' ∷ []) ∷ rs)
          ≡ bad_reply)
unfolding read_loop decide_reply
carriage_return_refused a b c d x y rs = (refl, refl)

-- Four bytes in one read are taken exactly when the third is a carriage return, the fourth is no
-- newline, and the first two spell ok or no.
pub four_bytes_taken :
    (a b c d x y z w : ℕ) (rs : List Read)
    → read_loop (a ∷ b ∷ c ∷ d ∷ []) 0 (bytes (x ∷ y ∷ z ∷ w ∷ []) ∷ rs)
      ≡ (if z == b'\r' then (if w == b'\n' then bad_reply else word x y) else bad_reply)
unfolding read_loop decide_reply
four_bytes_taken a b c d x y z w rs = ground arith
