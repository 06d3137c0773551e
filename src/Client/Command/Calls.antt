-- ===== src/Client/Command/Calls.antt =====
-- The call that main makes exists: xref_argv has seen to the service and parse_argv to the digest module.
use blobio.Base.{
  ◌≡◌, ◌≢◌, refl, sym, inl, inr, Bool, true, false, not, ◌&&◌, ◌||◌, Option, none, some, List,
  Bytes, codes, if◌then◌else◌, bytes_eq, bytes_eq_iff, Bool-cases, Option-cases,
}
use mathlib.Core.Path.{subst}
use blobio.Client.Fs.Paths.{DigestKind}
use blobio.Client.Command.{
  Command, Argument, is_set, given, is_verb, parse_options, unset, parse_argv,
}
use blobio.Client.Command.Xref.{
  Xref, accepted, no_opt, enot, xref_eat, xref_empty, xref_argv, Call, service_call, eat_input,
  empty, empty_digest, null_pointer, no_call, of_service, of_digest, called, calls, ran,
  cross_checked, run_main, without,
}
use blobio.Client.Command.Parsed.{Known, Parsed, AllOf, parse_options-Parsed}

abbrev IsCall : Call → Type 0
IsCall k = (k ≢ null_pointer) × (k ≢ no_call)

service_IsCall : (callback : Bytes) → IsCall (service_call callback)
service_IsCall callback = (λ e. cc e, λ e. cc e)

-- The first check of the verbs that need a service.
needs_service :
    (c : Command) (callback : Bytes) (rest : Xref)
    → Path Xref (if not (given c.service) then no_opt (codes "service") else rest) accepted
    → IsCall (of_service c.service callback)
needs_service c callback rest h = elim (Option-cases c.service) [
  | inl missing ↦ absurd (cc (rw missing at h))
  | inr (name, there) ↦ rw there (service_IsCall callback)
]

-- A set algorithm or digest has its module.
digest_IsCall :
    (o : Option DigestKind) (algorithm digest : Bytes) (call : DigestKind → Call)
    → Known o algorithm digest
    → ((d : DigestKind) → IsCall (call d))
    → is_set digest || is_set algorithm ≡ true
    → IsCall (of_digest o call)
digest_IsCall none algorithm digest call (no_algorithm, no_digest) is set =
    absurd (cc (rw (no_algorithm, no_digest) at set))
digest_IsCall (some d) algorithm digest call known is set = is d

local_set :
    (a b : Bool)
    → Path Xref
        (if b
          then no_opt (codes "service")
          else if not a
          then no_opt (codes "algorithm")
          else accepted)
        accepted
    → b || a ≡ true
local_set true true h = cc
local_set false true h = cc
local_set true false h = refl
local_set false false h = cc

eat-IsCall :
    (c : Command)
    → Known c.digest_module c.algorithm c.ascii_digest
    → xref_eat c ≡ accepted
    → IsCall (
        if given c.service
        then of_service c.service (codes "eat")
        else of_digest c.digest_module eat_input)
unfolding xref_eat
eat-IsCall c known h = elim (Option-cases c.service) [
  | inl missing ↦ rw missing (
      digest_IsCall c.digest_module c.algorithm c.ascii_digest eat_input known
        (λ d. (λ e. cc e, λ e. cc e))
        (local_set (is_set c.algorithm) (is_set c.ascii_digest) (rw missing at h)))
  | inr (name, there) ↦ rw there (service_IsCall (codes "eat"))
]

without_inv {ℓ} :
    {A : Type ℓ} (o : Option A) (name : Bytes) (next : Xref)
    → without o name next ≡ accepted
    → next ≡ accepted
without_inv none name next h = h
without_inv (some a) name next h = cc

empty_set :
    (a b : Bool)
    → Path Xref (if not b && not a then no_opt (codes "{udig,algorithm}") else accepted) accepted
    → b || a ≡ true
empty_set true true h = refl
empty_set false true h = refl
empty_set true false h = refl
empty_set false false h = cc

empty-IsCall :
    (c : Command)
    → Known c.digest_module c.algorithm c.ascii_digest
    → xref_empty c ≡ accepted
    → IsCall (
        if is_set c.ascii_digest
        then of_digest c.digest_module empty
        else of_digest c.digest_module empty_digest)
unfolding xref_empty
empty-IsCall c known h =
    let set = empty_set (is_set c.algorithm) (is_set c.ascii_digest) (
      without_inv c.service (codes "service") _ (
        without_inv c.input_path (codes "input-path") _
          (without_inv c.output_path (codes "output-path") _ h))) in
    let is = λ (call : DigestKind → Call) (k : (d : DigestKind) → IsCall (call d)).
      digest_IsCall c.digest_module c.algorithm c.ascii_digest call known k set in
    elim (Bool-cases (is_set c.ascii_digest)) [
      | inl named ↦ rw named (is empty (λ d. (λ e. cc e, λ e. cc e)))
      | inr unnamed ↦ rw unnamed (is empty_digest (λ d. (λ e. cc e, λ e. cc e)))
    ]

is_or_next : (P : Bytes → Type 0) (v w : Bytes) → P w → (bytes_eq v w ≡ false → P v) → P v
is_or_next P v w here next = elim (Bool-cases (bytes_eq v w)) [
  | inl same ↦ subst P (sym ((bytes_eq_iff v w).0 same)) here
  | inr other ↦ next other
]

-- One of the eight verbs.
is_verb_cases :
    (P : Bytes → Type 0) (v : Bytes)
    → is_verb v ≡ true
    → P (codes "get")
    → P (codes "put")
    → P (codes "eat")
    → P (codes "give")
    → P (codes "take")
    → P (codes "wrap")
    → P (codes "roll")
    → P (codes "empty")
    → P v
unfolding is_verb
is_verb_cases P v h get put eat give take wrap roll empties =
    let is = is_or_next P v in
    is (codes "get") get (λ g. is (codes "put") put (λ p. is (codes "eat") eat (λ e.
      is (codes "give") give (λ gi. is (codes "take") take (λ t. is (codes "wrap") wrap (λ w.
        is (codes "roll") roll (λ r.
          is (codes "empty") empties (λ m. absurd (cc (rw (g, p, e, gi, t, w, r, m) at h))))))))))

abbrev MakesCall : Command → Bytes → Type 0
MakesCall c v =
    c.verb ≡ v
    → Known c.digest_module c.algorithm c.ascii_digest
    → xref_argv c ≡ accepted
    → IsCall (called c)

called-IsCall : (c : Command) (v : Bytes) → is_verb v ≡ true → MakesCall c v
unfolding called xref_argv
called-IsCall c v is_v =
    is_verb_cases (MakesCall c) v is_v
      (λ e known h. rw e (needs_service c (codes "get") _ (rw e at h)))
      (λ e known h. rw e (needs_service c (codes "put") _ (rw e at h)))
      (λ e known h. rw e (eat-IsCall c known (rw e at h)))
      (λ e known h. rw e (needs_service c (codes "give") _ (rw e at h)))
      (λ e known h. rw e (needs_service c (codes "take") _ (rw e at h)))
      (λ e known h. rw e (needs_service c (codes "wrap") _ (rw e at h)))
      (λ e known h. rw e (needs_service c (codes "roll") _ (rw e at h)))
      (λ e known h. rw e (empty-IsCall c known (rw e at h)))

ran_inv :
    (c' c : Command) (x : Xref) (k : Call)
    → ran c' x ≡ calls c k
    → (x ≡ accepted) × (c' ≡ c) × (called c' ≡ k)
ran_inv c' c accepted k e = (refl, cc, cc)
ran_inv c' c (no_opt name) k e = cc
ran_inv c' c (enot name) k e = cc

cross_checked-IsCall :
    (v : Bytes) (o : Option Command) (c : Command) (k : Call)
    → is_verb v ≡ true
    → AllOf (Parsed v) o
    → cross_checked o ≡ calls c k
    → IsCall k
cross_checked-IsCall v none c k is_v p e = cc
cross_checked-IsCall v (some c') c k is_v p e =
    let (passed, same, is) = ran_inv c' c (xref_argv c') k e in
    subst IsCall is (called-IsCall c' v is_v p.verb p.known passed)

-- Whatever the command line is: where the client comes as far as a call, it is one, of the service or of a
-- digest module, and never one through a pointer that the options have not set.
pub run_main-IsCall :
    (frisk_udig : Bytes → Bool) (verb : Bytes) (options : List Argument) (c : Command) (k : Call)
    → run_main frisk_udig verb options ≡ calls c k
    → (k ≢ null_pointer) × (k ≢ no_call)
unfolding run_main parse_argv
run_main-IsCall frisk_udig verb options c k e = elim (Bool-cases (is_verb verb)) [
  | inl is_v ↦
      cross_checked-IsCall verb (parse_options frisk_udig options (unset frisk_udig verb)) c k is_v
        (parse_options-Parsed frisk_udig verb options (unset frisk_udig verb)
          (record { verb = refl; known = (refl, refl) }))
        (rw is_v at e)
  | inr unknown ↦ absurd (cc (rw unknown at e))
]
