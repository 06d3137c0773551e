-- ===== src/Tests/Wrap.antt =====
-- A wrap of an empty directory, and the roll of its set.
use blobio.Base.{
  ℕ, ◌<◌, ◌≡◌, refl, sym, ap, inl, inr, false, not, ◌&&◌, Bool-cases, Option, none, some, List, [],
  ◌∷◌, ◌++◌, Bytes, codes, bytes_eq, bytes_eq_iff, if◌then◌else◌, elem, map, All, is_graph, arith,
}
use blobio.Chat.{Request, write_ok}
use blobio.Verbs.{DigestModule, set_verb, status_roll}
use blobio.UdigSet.Lines.{Line, IsName, IsGraph, name, unlines, udig_of}
use blobio.UdigSet.Sets.{Distinct}
use blobio.Wrap.{
  Entry, CopyStatus, copied, Wrapped, wrap, roll, rename, unlink, extract_wrap_udig, at_colon,
}
use blobio.Wrap.Logs.{logs}
use blobio.Wrap.Rolled.{IsStrcat, concat, elem-roll}
use blobio.Wrap.Sets.{IsTable}
use blobio.Wrap.Cycle.{joined, others, wrap-joined, roll-wrap}
use blobio.Tests.Verbs.{plain, fresh_request}

abbrev sha : DigestModule
sha = record plain { is_digest = λ d. if bytes_eq d (codes "59a0") then 1 else 0 }

abbrev table : Bytes → Option DigestModule
table a = if bytes_eq a (codes "sha") then some sha else none

abbrev pub append_all : ℕ → Bytes → List Bytes → Bytes
append_all size target parts = target ++ concat parts

pub append_all-IsStrcat : IsStrcat append_all
append_all-IsStrcat size target parts fits = refl

sha_IsName : IsName (codes "sha")
unfolding is_graph
sha_IsName = name b's' (codes "ha") (omega arith) (omega arith) (ground arith) (omega arith)

digest_graph : All IsGraph (codes "59a0")
unfolding is_graph
digest_graph = (refl, (refl, (refl, (refl, tt))))

is_digest_only :
    (mp : DigestModule) (d : Bytes)
    → Path (Option DigestModule) (some sha) (some mp)
    → 0 < mp.is_digest d
    → All IsGraph d
is_digest_only mp d e h = graph_of d (rw (sym (ap_digest e d)) at h)
  where
    nothing_below : 0 < 0 → ⊥
    nothing_below z = omega arith

    pick : Option DigestModule → Bytes → ℕ
    pick none x = 0
    pick (some m) x = m.is_digest x

    ap_digest :
        Path (Option DigestModule) (some sha) (some mp)
        → (x : Bytes) → sha.is_digest x ≡ mp.is_digest x
    ap_digest k x = ap (λ o. pick o x) k

    graph_of : (x : Bytes) → 0 < sha.is_digest x → All IsGraph x
    graph_of x k = elim (Bool-cases (bytes_eq x (codes "59a0"))) [
      | inl same ↦ rw ((bytes_eq_iff x (codes "59a0")).0 same) digest_graph
      | inr other ↦ absurd (nothing_below (rw other at k))
    ]

table-IsTable : IsTable table
table-IsTable a mp e = elim (Bool-cases (bytes_eq a (codes "sha"))) [
  | inl same ↦ (
    rw ((bytes_eq_iff a (codes "sha")).0 same) sha_IsName,
    λ d h. is_digest_only mp d (rw same at e) h,
  )
  | inr other ↦ cc (rw other at e)
]

abbrev line : Line
line = record {
  algorithm = codes "sha";
  digest = codes "59a0";
  is_name = sha_IsName;
  is_graph = digest_graph;
}

abbrev same_digest : Bytes → Option Bytes
same_digest stream = some (codes "59a0")

abbrev same_listing : List Entry → List Entry
same_listing dir = dir

abbrev wrapped : Wrapped
wrapped = wrap table append_all same_digest (codes "sha") [] fresh_request same_listing []

wrapped_logs : logs table append_all wrapped.dir ≡ codes "sha:59a0" ∷ []
unfolding wrap rename unlink extract_wrap_udig at_colon bytes_eq
wrapped_logs = refl

logs-Distinct : Distinct (logs table append_all wrapped.dir)
logs-Distinct = rw wrapped_logs (unfold elem in (refl, tt))

abbrev log : Bytes
log = codes "sha:59a0"

abbrev line_copies : Request → Request × CopyStatus × Bytes
line_copies r = (r, copied, unlines (line ∷ []))

elem-roll_example :
    ((roll table append_all line_copies wrapped.dir wrapped.dir fresh_request).0
      ≡ (write_ok (set_verb status_roll fresh_request)).0)
    × ((roll table append_all line_copies wrapped.dir wrapped.dir fresh_request).1
        ≡ (write_ok (set_verb status_roll fresh_request)).1)
    × (elem log (
          logs table append_all
            (roll table append_all line_copies wrapped.dir wrapped.dir fresh_request).2)
        ≡ (elem log (logs table append_all wrapped.dir)
            && not (
                elem log (map udig_of (line ∷ []))
                && elem log (logs table append_all wrapped.dir))))
elem-roll_example =
    elem-roll table append_all append_all-IsStrcat (line ∷ []) line_copies fresh_request
      (set_verb status_roll fresh_request) wrapped.dir wrapped.dir log (λ e. cc e)
      (unfold elem in (refl, tt)) refl

abbrev copies : Request → Request × CopyStatus × Bytes
copies r = (r, copied, wrapped.set)

roll-wrap_example :
    elem log
      (logs table append_all (roll table append_all copies wrapped.dir wrapped.dir fresh_request).2)
    ≡ false
roll-wrap_example =
    roll-wrap table append_all append_all-IsStrcat line same_digest [] fresh_request fresh_request
      (set_verb status_roll fresh_request) same_listing [] wrapped copies table-IsTable refl refl
      (λ y. refl) logs-Distinct refl log

wrap-joined_example :
    wrapped.set
    ≡ joined (codes "sha:59a0" ∷ others (codes "sha:59a0") (logs table append_all wrapped.dir))
wrap-joined_example =
    wrap-joined table append_all append_all-IsStrcat line same_digest [] fresh_request same_listing
      [] wrapped refl refl
