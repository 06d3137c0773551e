-- ===== src/Verbs/Rules.antt =====
-- Rules for the chat that a handler leaves, one for each way in which it goes on.
use blobio.Base.{
  ◌≤◌, ◌≡◌, ◌≢◌, inl, inr, refl, Bool, true, false, ◌||◌, List, [], ◌∷◌, ◌++◌, Bytes, length, arith,
}
use blobio.Chat.{Request, Status, success, error, panic, write_ok, write_no}
use blobio.Chat.History.{spell, Noted, write_ok-Noted, write_no-Noted}
use blobio.Verbs.{branch, return_error}

-- The chat spells answers of which `done` holds where the status is 0, and `cut` where it is -1; there
-- is no panic.
abbrev LeavesAt : (List Bool → Type 0) → (List Bool → Type 0) → Status → Bytes → Type 0
LeavesAt done cut success h = (said : List Bool) × (h ≡ spell said) × done said
LeavesAt done cut error h = (said : List Bool) × (h ≡ spell said) × cut said
LeavesAt done cut panic h = ⊥

abbrev pub Leaves : (List Bool → Type 0) → (List Bool → Type 0) → Request × Status → Type 0
Leaves done cut (r, s) = LeavesAt done cut s r.chat_history

abbrev pub same_answers : List Bool → List Bool → Bool
same_answers [] [] = true
same_answers (true ∷ xs) (true ∷ ys) = same_answers xs ys
same_answers (false ∷ xs) (false ∷ ys) = same_answers xs ys
same_answers _ _ = false

abbrev pub among : List (List Bool) → List Bool → Bool
among [] said = false
among (t ∷ ts) said = same_answers said t || among ts said

-- One of the lists.
abbrev pub OneOf : List (List Bool) → List Bool → Type 0
OneOf ts said = among ts said ≡ true

module _ (D' C' : List Bool → Type 0) where
  pub Leaves-Noted :
      (out : Request × Status) (said : List Bool) (a : Bool)
      → Noted said a out
      → D' (said ++ a ∷ [])
      → C' said
      → Leaves D' C' out
  Leaves-Noted (r, success) said a (inl (s, e)) d c = (said ++ a ∷ [], e, d)
  Leaves-Noted (r, success) said a (inr (s, e)) d c = cc
  Leaves-Noted (r, error) said a (inl (s, e)) d c = cc
  Leaves-Noted (r, error) said a (inr (s, e)) d c = (said, e, c)
  Leaves-Noted (r, panic) said a n d c = ground arith

  -- Behind a callback of the module the chat is as before.
  pub after_callback :
      (out : Request × Status) (ok bad : Request → Request × Status) (said : List Bool)
      → out.0.chat_history ≡ spell said
      → out.1 ≢ panic
      → ((r : Request) → r.chat_history ≡ spell said → Leaves D' C' (ok r))
      → ((r : Request) → r.chat_history ≡ spell said → Leaves D' C' (bad r))
      → Leaves D' C' (branch out ok bad)
  unfolding branch
  after_callback (r, success) ok bad said e quiet kd kc = kd r e
  after_callback (r, error) ok bad said e quiet kd kc = kc r e
  after_callback (r, panic) ok bad said e quiet kd kc = absurd (quiet refl)

  -- Behind an ok that was sent the chat has one more answer.
  pub after_ok :
      (r : Request) (ok : Request → Request × Status) (said : List Bool)
      → r.chat_history ≡ spell said
      → length said ≤ 2
      → ((r' : Request) → r'.chat_history ≡ spell (said ++ true ∷ []) → Leaves D' C' (ok r'))
      → C' said
      → Leaves D' C' (branch (write_ok r) ok return_error)
  after_ok r ok said e short k c = go (write_ok r) (write_ok-Noted r said e short)
    where
      go :
          (out : Request × Status) → Noted said true out → Leaves D' C' (branch out ok return_error)
      go (r', success) (inl (s, h)) = unfold branch in k r' h
      go (r', success) (inr (s, h)) = cc
      go (r', error) (inl (s, h)) = cc
      go (r', error) (inr (s, h)) = unfold branch return_error in (said, h, c)
      go (r', panic) n = ground arith

  pub ends_ok :
      (r : Request) (said : List Bool)
      → r.chat_history ≡ spell said
      → length said ≤ 2
      → D' (said ++ true ∷ [])
      → C' said
      → Leaves D' C' (write_ok r)
  ends_ok r said e short = Leaves-Noted (write_ok r) said true (write_ok-Noted r said e short)

  pub ends_no :
      (r : Request) (said : List Bool)
      → r.chat_history ≡ spell said
      → length said ≤ 2
      → D' (said ++ false ∷ [])
      → C' said
      → Leaves D' C' (write_no r)
  ends_no r said e short = Leaves-Noted (write_no r) said false (write_no-Noted r said e short)
