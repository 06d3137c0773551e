-- ===== src/Brr/Accepted.antt =====
-- The frisker takes the records that `brr_send` writes.
use blobio.Base.{
  ℕ, ◌-◌, ◌≤◌, ◌<◌, ◌≡◌, refl, ap, ◌∙◌, ◌⊎◌, inl, inr, Bool, true, false, ◌||◌, [], ◌∷◌, ◌++◌,
  Bytes, codes, All, length, ◌==◌, Bool-cases, append_assoc, arith,
}
use blobio.Chat.{at}
use blobio.Frisk.Scan.{Scan, took, ◌>>=◌, ◌>>◌}
use blobio.Frisk.Fields.{
  scan_rfc399nano, scan_transport, scan_verb, scan_udig, check_udig, to_tab, scan_chat_history,
  scan_byte_count, scan_wall_duration, chat_allowed,
}
use blobio.Frisk.Stream.{check_set, scan_record}
use blobio.Brr.Format.{Fields, padded, stamp_text, udig_text, decimal_text, brr_text}
use blobio.Brr.Stamped.{bind_took, IsStamp, scan_rfc399nano-stamp_text}
use blobio.Brr.Taken.{
  IsVerb, IsGraph, IsChat, scan_transport_taken, scan_verb_taken, scan_udig_taken,
  scan_chat_history_taken, graph-InField,
}
use blobio.Brr.Numbers.{ten_to, scan_byte_count_taken, scan_wall_duration_taken}

-- What a record with this last reply says: the chat ends in `no`.
abbrev pub is_no : Fields → Bool
is_no f = at f.chat_history (length f.chat_history - 1) == b'o'

-- The requests without a udig, and those with one.
pub data UdigOf (frisk_udig : Bytes → Bool) : Bytes → Bool → Type 0 where
  no_udig : UdigOf frisk_udig [] true
  a_udig :
      {u : Bytes}
      → All IsGraph u
      → 34 ≤ length u
      → length u ≤ 137
      → frisk_udig u ≡ true
      → UdigOf frisk_udig u false

-- What the server knows of a request over `tcp4`, and of its reply, before it sends the record.
pub record IsSent (frisk_udig : Bytes → Bool) (f : Fields) : Type 0 where
  pub stamp : IsStamp f.stamp
  pub flow : Bytes
  pub flow_graph : All IsGraph flow
  pub flow_some : 0 < length flow
  pub flow_room : length flow ≤ 126
  pub transport : f.transport ≡ codes "tcp4~" ++ flow
  pub verb : IsVerb f.verb
  pub without_udig : Bool
  pub udig : UdigOf frisk_udig (udig_text f.algorithm f.digest) without_udig
  pub chat : IsChat f.chat_history
  pub allowed : chat_allowed f.verb f.chat_history ≡ true
  pub agrees : (at f.verb 0 == b'w' || at f.verb 0 == b'r') ≡ false ⊎ without_udig ≡ is_no f
  pub blob_size : f.blob_size < ten_to 18
  pub sec : f.sec < ten_to 8
  pub wall_nsec : f.wall_nsec < 1000000000

check_set_agrees :
    (verb p : Bytes) (without refused : Bool)
    → (at verb 0 == b'w' || at verb 0 == b'r') ≡ false ⊎ without ≡ refused
    → check_set verb without refused p ≡ took tt p
unfolding check_set
check_set_agrees verb p without refused (inl other) = rw other refl
check_set_agrees verb p true true (inr e) =
    elim (Bool-cases (at verb 0 == b'w' || at verb 0 == b'r')) [
      | inl turned ↦ rw turned refl
      | inr other ↦ rw other refl
    ]
check_set_agrees verb p false false (inr e) =
    elim (Bool-cases (at verb 0 == b'w' || at verb 0 == b'r')) [
      | inl turned ↦ rw turned refl
      | inr other ↦ rw other refl
    ]
check_set_agrees verb p true false (inr e) = cc e
check_set_agrees verb p false true (inr e) = cc e

udig_taken :
    (frisk_udig : Bytes → Bool) (u p : Bytes) (without : Bool)
    → UdigOf frisk_udig u without
    → scan_udig frisk_udig (u ++ b'\t' ∷ p) ≡ took without p
udig_taken frisk_udig u p without no_udig = unfold scan_udig to_tab check_udig in refl
udig_taken frisk_udig u p without (a_udig h low high ok) =
    scan_udig_taken frisk_udig u p h low high ok

-- What holds of every text with a first byte holds of a field and its end.
by_front :
    (P : Bytes → Type 0) (v : Bytes) (c : ℕ) (rest : Bytes)
    → ((d : ℕ) (p : Bytes) → P (d ∷ p))
    → P (v ++ c ∷ rest)
by_front P [] c rest h = h c rest
by_front P (d ∷ v) c rest h = h d (v ++ c ∷ rest)

transport_taken :
    (flow p : Bytes) (d : ℕ)
    → All IsGraph flow
    → 0 < length flow
    → length flow ≤ 126
    → scan_transport (codes "tcp4~" ++ (flow ++ b'\t' ∷ d ∷ p)) ≡ took flow (d ∷ p)
transport_taken [] p d h some_flow room = absurd (omega (arith, some_flow))
transport_taken (x ∷ u) p d h some_flow room =
    scan_transport_taken x u (128 - length (x ∷ u)) d p (graph-InField (x ∷ u) h) (omega arith)
      (ground arith)

transport_in_front :
    (transport flow v rest : Bytes) (c : ℕ)
    → transport ≡ codes "tcp4~" ++ flow
    → All IsGraph flow
    → 0 < length flow
    → length flow ≤ 126
    → scan_transport (transport ++ b'\t' ∷ (v ++ c ∷ rest)) ≡ took flow (v ++ c ∷ rest)
transport_in_front transport flow v rest c e h some_flow room =
    ap (λ t. scan_transport (t ++ b'\t' ∷ (v ++ c ∷ rest))) e
    ∙ by_front (λ q. scan_transport (codes "tcp4~" ++ (flow ++ b'\t' ∷ q)) ≡ took flow q) v c rest
        (λ d p. transport_taken flow p d h some_flow room)

chat_in_front :
    (verb chat v rest : Bytes) (c : ℕ)
    → IsChat chat
    → chat_allowed verb chat ≡ true
    → scan_chat_history verb (chat ++ b'\t' ∷ (v ++ c ∷ rest))
      ≡ took (at chat (length chat - 1) == b'o') (v ++ c ∷ rest)
chat_in_front verb chat v rest c h allowed =
    by_front
      (λ q. scan_chat_history verb (chat ++ b'\t' ∷ q) ≡ took (at chat (length chat - 1) == b'o') q)
      v c rest (λ d p. scan_chat_history_taken verb chat d p h allowed)

joined :
    (t tr v u ch b s w p : Bytes)
    → (t
          ++ b'\t'
            ∷ (tr
                ++ b'\t'
                  ∷ (v
                      ++ b'\t'
                        ∷ (u
                            ++ b'\t'
                              ∷ (ch ++ b'\t' ∷ (b ++ b'\t' ∷ (s ++ b'.' ∷ (w ++ b'\n' ∷ []))))))))
        ++ p
      ≡ t
        ++ b'\t'
          ∷ (tr
              ++ b'\t'
                ∷ (v
                    ++ b'\t'
                      ∷ (u
                          ++ b'\t'
                            ∷ (ch ++ b'\t' ∷ (b ++ b'\t' ∷ (s ++ b'.' ∷ (w ++ b'\n' ∷ p)))))))
joined t tr v u ch b s w p = simp append_assoc

-- The scanners take the record of a sent request, whatever stands behind it in the array.
pub scan_record-brr_text :
    (frisk_udig : Bytes → Bool) (f : Fields) (p : Bytes)
    → IsSent frisk_udig f
    → scan_record frisk_udig (brr_text f ++ p) ≡ took tt p
unfolding scan_record brr_text
scan_record-brr_text frisk_udig f p h =
    let wall = decimal_text 19 f.sec ++ b'.' ∷ (padded 9 f.wall_nsec ++ b'\n' ∷ p) in
    let size = decimal_text 20 f.blob_size ++ b'\t' ∷ wall in
    let chat = f.chat_history ++ b'\t' ∷ size in
    let udig = udig_text f.algorithm f.digest ++ b'\t' ∷ chat in
    let verb = f.verb ++ b'\t' ∷ udig in
    let transport = f.transport ++ b'\t' ∷ verb in
    let k6 : Scan (Unit {0}) = scan_byte_count >> scan_wall_duration in
    let k5 : Bytes → Bool → Bool → Scan (Unit {0}) =
      λ v without refused. (check_set v without refused >> k6) in
    let k4 : Bytes → Bool → Scan (Unit {0}) = λ v without. (scan_chat_history v >>= k5 v without) in
    let k3 : Bytes → Scan (Unit {0}) = λ v. (scan_udig frisk_udig >>= k4 v) in
    let k2 : Scan (Unit {0}) = scan_verb >>= k3 in
    let k1 : Scan (Unit {0}) = scan_transport >> k2 in
    ap (scan_record frisk_udig) (
      joined (stamp_text f.stamp) f.transport f.verb (udig_text f.algorithm f.digest) f.chat_history
        (decimal_text 20 f.blob_size) (decimal_text 19 f.sec) (padded 9 f.wall_nsec) p)
    ∙ bind_took scan_rfc399nano (λ _. k1) (stamp_text f.stamp ++ b'\t' ∷ transport) transport tt
        (scan_rfc399nano-stamp_text f.stamp transport h.stamp)
    ∙ bind_took scan_transport (λ _. k2) transport verb h.flow
        (transport_in_front f.transport h.flow f.verb udig b'\t' h.transport h.flow_graph
          h.flow_some h.flow_room)
    ∙ bind_took scan_verb k3 verb udig f.verb (scan_verb_taken f.verb udig h.verb)
    ∙ bind_took (scan_udig frisk_udig) (k4 f.verb) udig chat h.without_udig
        (udig_taken frisk_udig (udig_text f.algorithm f.digest) chat h.without_udig h.udig)
    ∙ bind_took (scan_chat_history f.verb) (k5 f.verb h.without_udig) chat size (is_no f) (
        chat_in_front f.verb f.chat_history (decimal_text 20 f.blob_size) wall b'\t' h.chat
          h.allowed)
    ∙ bind_took (check_set f.verb h.without_udig (is_no f)) (λ _. k6) size size tt
        (check_set_agrees f.verb size h.without_udig (is_no f) h.agrees)
    ∙ bind_took scan_byte_count (λ _. scan_wall_duration) size wall tt
        (by_front (λ q. scan_byte_count (decimal_text 20 f.blob_size ++ b'\t' ∷ q) ≡ took tt q)
          (decimal_text 19 f.sec) b'.' (padded 9 f.wall_nsec ++ b'\n' ∷ p)
          (λ c q. scan_byte_count_taken f.blob_size c q h.blob_size))
    ∙ scan_wall_duration_taken f.sec f.wall_nsec p h.sec
