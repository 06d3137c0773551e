-- ===== src/Frisk/Chats.antt =====
-- `scan_chat_history` of cli/bio-frisk-brr.c on the chats that the handlers of bio4d/bio4d.c leave. The
-- comments there give ok,ok to give and take and ok,ok,ok to take; its code, which is modelled, takes
-- ok,ok of put too and ok,ok,ok of give too, and no ok of put.
use blobio.Base.{
  ℕ, ◌≡◌, ◌≢◌, refl, ap, is_ascii, Bool, true, false, Bool-cases, List, [], ◌∷◌, ◌++◌, Bytes, codes,
  inl, inr,
}
use blobio.Chat
use blobio.Chat.{Request, Status, success, error, panic}
use blobio.Chat.History.{spell}
use blobio.Verbs.{DigestModule, get, eat, put, PathExists, stat_failed, take, give}
use blobio.Verbs.Rules.{Leaves, OneOf, same_answers}
use blobio.Verbs.Histories.{
  IsQuiet, get_done, put_done, take_done, get-Leaves, eat-Leaves, put-Leaves, take-Leaves,
  give-Leaves,
}
use blobio.Frisk.Scan.{took}
use blobio.Frisk.Fields.{scan_chat_history}

-- The field is taken up to its tab, whatever follows.
abbrev pub Passes : Bytes → Bytes → Type 0
Passes verb history =
    (d : ℕ) (p : Bytes)
    → (is_no : Bool) × (scan_chat_history verb (history ++ b'\t' ∷ d ∷ p) ≡ took is_no (d ∷ p))

abbrev pub AllOf : List (List Bool) → (List Bool → Type 0) → Type 0
AllOf [] P = Unit
AllOf (t ∷ ts) P = P t × AllOf ts P

same_answers_eq : (xs ys : List Bool) → same_answers xs ys ≡ true → xs ≡ ys
same_answers_eq [] [] e = refl
same_answers_eq (true ∷ xs) (true ∷ ys) e = ap (λ zs. true ∷ zs) (same_answers_eq xs ys e)
same_answers_eq (false ∷ xs) (false ∷ ys) e = ap (λ zs. false ∷ zs) (same_answers_eq xs ys e)
same_answers_eq [] (y ∷ ys) e = cc
same_answers_eq (true ∷ xs) [] e = cc
same_answers_eq (false ∷ xs) [] e = cc
same_answers_eq (true ∷ xs) (false ∷ ys) e = cc
same_answers_eq (false ∷ xs) (true ∷ ys) e = cc

of_one :
    (ts : List (List Bool)) (P : List Bool → Type 0) (said : List Bool)
    → AllOf ts P
    → OneOf ts said
    → P said
of_one [] P said all o = cc
of_one (t ∷ ts) P said (h, all) o = elim (Bool-cases (same_answers said t)) [
  | inl same ↦ rw (same_answers_eq said t same) h
  | inr differ ↦ of_one ts P said all (rw differ at o)
]

get-Passes : AllOf get_done (λ said. Passes (codes "get") (spell said))
unfolding scan_chat_history is_ascii
get-Passes = (λ d p. (false, refl), (λ d p. (true, refl), tt))

eat-Passes : AllOf get_done (λ said. Passes (codes "eat") (spell said))
unfolding scan_chat_history is_ascii
eat-Passes = (λ d p. (false, refl), (λ d p. (true, refl), tt))

put-Passes : AllOf put_done (λ said. Passes (codes "put") (spell said))
unfolding scan_chat_history is_ascii
put-Passes = (λ d p. (true, refl), (λ d p. (false, refl), (λ d p. (true, refl), tt)))

take-Passes : AllOf take_done (λ said. Passes (codes "take") (spell said))
unfolding scan_chat_history is_ascii
take-Passes =
    (λ d p. (true, refl), (λ d p. (true, refl), (λ d p. (false, refl), (λ d p. (true, refl), tt))))

give-Passes : AllOf take_done (λ said. Passes (codes "give") (spell said))
unfolding scan_chat_history is_ascii
give-Passes =
    (λ d p. (true, refl), (λ d p. (true, refl), (λ d p. (false, refl), (λ d p. (true, refl), tt))))

-- A handler that ends with status 0 leaves a chat that is taken for its verb.
abbrev pub EndsWell : Bytes → Request × Status → Type 0
EndsWell verb (r, s) = s ≡ success → Passes verb r.chat_history

-- What holds of each chat that a handler can leave holds of the one that it leaves.
pub success-Leaves :
    (P : Bytes → Type 0) (ts : List (List Bool)) (C : List Bool → Type 0) (out : Request × Status)
    → AllOf ts (λ said. P (spell said))
    → Leaves (OneOf ts) C out
    → out.1 ≡ success
    → P out.0.chat_history
success-Leaves P ts C (r, success) all (said, e, o) s =
    rw e (of_one ts (λ t. P (spell t)) said all o)
success-Leaves P ts C (r, error) all l s = cc
success-Leaves P ts C (r, panic) all l s = cc

EndsWell-Leaves :
    (verb : Bytes) (ts : List (List Bool)) (C : List Bool → Type 0) (out : Request × Status)
    → AllOf ts (λ said. Passes verb (spell said))
    → Leaves (OneOf ts) C out
    → EndsWell verb out
EndsWell-Leaves verb ts C (r, s) all l = success-Leaves (Passes verb) ts C (r, s) all l

-- With callbacks that leave the chat alone and do not panic, a handler of get, eat, put, take or give
-- that starts with no chat and ends with status 0 leaves a chat that `bio-frisk-brr` takes for that
-- verb; for take, where the file in spool/wrap/ could be looked for.
pub handlers-EndWell :
    (mp : DigestModule) (r : Request) (digest stack : Bytes) (reads : List Chat.Read)
    (wrapped : PathExists)
    → IsQuiet mp
    → r.chat_history ≡ []
    → wrapped ≢ stat_failed
    → EndsWell (codes "get") (get mp digest r)
      × EndsWell (codes "eat") (eat mp r)
      × EndsWell (codes "put") (put mp r)
      × EndsWell (codes "take") (take mp wrapped stack reads r)
      × EndsWell (codes "give") (give mp stack reads r)
handlers-EndWell mp r digest stack reads wrapped q fresh ne = (
  EndsWell-Leaves _ get_done _ (get mp digest r) get-Passes (get-Leaves mp q r fresh digest),
  EndsWell-Leaves _ get_done _ (eat mp r) eat-Passes (eat-Leaves mp q r fresh),
  EndsWell-Leaves _ put_done _ (put mp r) put-Passes (put-Leaves mp q r fresh),
  EndsWell-Leaves _ take_done _ (take mp wrapped stack reads r) take-Passes
      (take-Leaves mp q r fresh wrapped stack reads ne),
  EndsWell-Leaves _ take_done _ (give mp stack reads r) give-Passes
      (give-Leaves mp q r fresh stack reads),
)
