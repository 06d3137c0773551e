-- ===== src/Brr/Taken.antt =====
-- The frisker takes the transport, the verb, the udig and the chat of a record.
use blobio.Base.{
  ℕ, ◌+◌, ◌-◌, ◌≤◌, ◌≡◌, refl, ap, sym, ◌∙◌, Bool, true, false, some, [], ◌∷◌, ◌++◌, Bytes, codes,
  All, length, ltb, ◌==◌, is_digit, is_graph, is_lower, is_ascii, arith,
}
use blobio.Chat.{at}
use blobio.Frisk.Scan.{took, ◌>>◌, expect, scan_set, scan_set_from, at_limit, at_end_fld}
use blobio.Frisk.Fields.{
  between, scan_protocol, scan_transport, scan_verb, verb_name, scan_g, spelled, chat_allowed,
  check_chat, scan_chat_history, to_tab, check_udig, scan_udig,
}
use blobio.Frisk.ScanSet.{InField, scan_set_field}
use blobio.Brr.Stamped.{bind_took, expect_then}

-- A field that is not one character shorter than its limit, in front of its end and one more byte.
pub field_taken :
    (set : ℕ → Bool) (end_fld limit x : ℕ) (u : Bytes) (n d : ℕ) (p : Bytes)
    → All (InField set end_fld) (x ∷ u)
    → length (x ∷ u) + n ≡ limit
    → (n == 1) ≡ false
    → scan_set limit set end_fld ((x ∷ u) ++ end_fld ∷ d ∷ p) ≡ took (x ∷ u) (d ∷ p)
field_taken set end_fld limit x u n d p h size apart =
    ap (λ l. scan_set l set end_fld ((x ∷ u) ++ end_fld ∷ d ∷ p)) (sym size)
    ∙ scan_set_field set end_fld x u n d p h
    ∙ rw apart refl

protocol_taken :
    (x : ℕ) (p : Bytes) → scan_protocol (codes "cp4~" ++ x ∷ p) ≡ took (codes "cp4") (x ∷ p)
unfolding scan_protocol scan_set scan_set_from at_end_fld at_limit is_ascii is_lower is_digit
protocol_taken x p = refl

pub scan_transport_taken :
    (x : ℕ) (u : Bytes) (n d : ℕ) (p : Bytes)
    → All (InField is_graph b'\t') (x ∷ u)
    → length (x ∷ u) + n ≡ 128
    → (n == 1) ≡ false
    → scan_transport (codes "tcp4~" ++ ((x ∷ u) ++ b'\t' ∷ d ∷ p)) ≡ took (x ∷ u) (d ∷ p)
unfolding scan_transport
scan_transport_taken x u n d p h size apart =
    let rest = (x ∷ u) ++ b'\t' ∷ d ∷ p in
    expect_then (between b'a' b'z') (scan_protocol >> scan_set 128 is_graph b'\t') b't'
      (codes "cp4~" ++ rest) refl
    ∙ bind_took scan_protocol (λ _. scan_set 128 is_graph b'\t') (codes "cp4~" ++ rest) rest
        (codes "cp4") (protocol_taken x (u ++ b'\t' ∷ d ∷ p))
    ∙ field_taken is_graph b'\t' 128 x u n d p h size apart

pub data IsVerb : Bytes → Type 0 where
  is_get : IsVerb (codes "get")
  is_put : IsVerb (codes "put")
  is_take : IsVerb (codes "take")
  is_give : IsVerb (codes "give")
  is_eat : IsVerb (codes "eat")
  is_wrap : IsVerb (codes "wrap")
  is_roll : IsVerb (codes "roll")

pub scan_verb_taken : (v : Bytes) (p : Bytes) → IsVerb v → scan_verb (v ++ b'\t' ∷ p) ≡ took v p
unfolding scan_verb verb_name scan_g spelled expect
scan_verb_taken v p is_get = refl
scan_verb_taken v p is_put = refl
scan_verb_taken v p is_take = refl
scan_verb_taken v p is_give = refl
scan_verb_taken v p is_eat = refl
scan_verb_taken v p is_wrap = refl
scan_verb_taken v p is_roll = refl

abbrev pub IsGraph : ℕ → Type 0
IsGraph c = is_graph c ≡ true

graph_no_tab : (c : ℕ) → IsGraph c → (c == b'\t') ≡ false
unfolding is_graph
graph_no_tab c h = ground arith

graph_no_null : (c : ℕ) → IsGraph c → (c == 0) ≡ false
unfolding is_graph
graph_no_null c h = ground arith

graph_ascii : (c : ℕ) → IsGraph c → is_ascii c ≡ true
unfolding is_graph is_ascii
graph_ascii c h = ground arith

pub graph-InField : (u : Bytes) → All IsGraph u → All (InField is_graph b'\t') u
graph-InField [] h = tt
graph-InField (c ∷ u) (h, hs) = (
  record {
    no_end = graph_no_tab c h;
    no_null = graph_no_null c h;
    ascii = graph_ascii c h;
    in_set = h;
  },
  graph-InField u hs,
)

to_tab-append : (u p : Bytes) → All IsGraph u → to_tab (u ++ b'\t' ∷ p) ≡ some (u, p)
unfolding to_tab
to_tab-append [] p h = refl
to_tab-append (c ∷ u) p (h, hs) =
    rw (graph_no_tab c h, graph_no_null c h, to_tab-append u p hs) refl

pub scan_udig_taken :
    (frisk_udig : Bytes → Bool) (u p : Bytes)
    → All IsGraph u
    → 34 ≤ length u
    → length u ≤ 137
    → frisk_udig u ≡ true
    → scan_udig frisk_udig (u ++ b'\t' ∷ p) ≡ took false p
unfolding scan_udig check_udig
scan_udig_taken frisk_udig [] p h low high ok = absurd (omega arith)
scan_udig_taken frisk_udig (c ∷ u) p h low high ok =
    let above : ltb (length (c ∷ u)) 34 ≡ false = ground arith in
    let below : ltb 137 (length (c ∷ u)) ≡ false = ground arith in
    rw (to_tab-append (c ∷ u) p h, above, below, ok) refl

-- The chats that a request can end with.
pub data IsChat : Bytes → Type 0 where
  no : IsChat (codes "no")
  ok : IsChat (codes "ok")
  ok_no : IsChat (codes "ok,no")
  ok_ok : IsChat (codes "ok,ok")
  ok_ok_no : IsChat (codes "ok,ok,no")
  ok_ok_ok : IsChat (codes "ok,ok,ok")

pub scan_chat_history_taken :
    (verb ch : Bytes) (d : ℕ) (p : Bytes)
    → IsChat ch
    → chat_allowed verb ch ≡ true
    → scan_chat_history verb (ch ++ b'\t' ∷ d ∷ p) ≡ took (at ch (length ch - 1) == b'o') (d ∷ p)
unfolding scan_chat_history scan_set scan_set_from at_end_fld at_limit check_chat is_ascii
scan_chat_history_taken verb ch d p no allowed = rw allowed refl
scan_chat_history_taken verb ch d p ok allowed = rw allowed refl
scan_chat_history_taken verb ch d p ok_no allowed = rw allowed refl
scan_chat_history_taken verb ch d p ok_ok allowed = rw allowed refl
scan_chat_history_taken verb ch d p ok_ok_no allowed = rw allowed refl
scan_chat_history_taken verb ch d p ok_ok_ok allowed = rw allowed refl
