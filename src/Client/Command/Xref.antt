-- ===== src/Client/Command/Xref.antt =====
-- The options that a verb needs and forbids, and the call that main makes: xref_argv and main of
-- cli/blobio/blobio.c.
use blobio.Base.{Bool, not, ◌&&◌, ◌||◌, Option, none, some, List, Bytes, codes, ◌==◌, if◌then◌else◌}
use blobio.Chat
use blobio.Client.Fs.Paths.{DigestKind}
use blobio.Client.Command.{Command, Argument, is_set, given, parse_argv}

-- `no_opt` is a missing option, `enot` one that the verb does not take.
pub data Xref : Type 0 where
  accepted : Xref
  no_opt enot : Bytes → Xref

abbrev pub without {ℓ} : {A : Type ℓ} → Option A → Bytes → Xref → Xref
without none name next = next
without (some a) name next = enot name

unfoldable pub xref_stored : Command → Xref
xref_stored c =
    let v0 = Chat.at c.verb 0 in
    let v1 = Chat.at c.verb 1 in
    if not (given c.service)
    then no_opt (codes "service")
    else if not (is_set c.ascii_digest)
    then no_opt (codes "udig")
    else if v0 == b'r'
    then without c.input_path (codes "input-path")
        (without c.output_path (codes "output-path") accepted)
    else if v1 == b'i'
    then without c.output_path (codes "output-path") accepted
    else if v1 == b'e'
    then without c.input_path (codes "input-path") accepted
    else if v1 == b'a'
    then without c.input_path (codes "input-path") accepted
    else if v0 == b'p'
    then without c.output_path (codes "output-path") accepted
    else accepted

unfoldable pub xref_eat : Command → Xref
xref_eat c =
    if given c.service
    then without c.input_path (codes "input-path") (
        without c.output_path (codes "output-path") (
          if is_set c.algorithm
          then (if not (is_set c.ascii_digest) then enot (codes "algorithm") else accepted)
          else no_opt (codes "udig")))
    else if is_set c.ascii_digest
    then no_opt (codes "service")
    else if not (is_set c.algorithm)
    then no_opt (codes "algorithm")
    else accepted

unfoldable pub xref_empty : Command → Xref
xref_empty c = without c.output_path (codes "output-path") (
    without c.input_path (codes "input-path") (
      without c.service (codes "service") (
        if not (is_set c.ascii_digest) && not (is_set c.algorithm)
        then no_opt (codes "{udig,algorithm}")
        else accepted)))

unfoldable pub xref_wrap : Command → Xref
xref_wrap c =
    if not (given c.service)
    then no_opt (codes "service")
    else without c.input_path (codes "input-path") (
        if is_set c.ascii_digest
        then enot (codes "udig")
        else if is_set c.algorithm
        then enot (codes "algorithm")
        else accepted)

unfoldable pub xref_argv : Command → Xref
unfolding xref_stored xref_eat xref_empty xref_wrap
xref_argv c =
    let v0 = Chat.at c.verb 0 in
    if v0 == b'g' || v0 == b'p' || v0 == b't' || v0 == b'r'
    then xref_stored c
    else if v0 == b'e'
    then (if Chat.at c.verb 1 == b'a' then xref_eat c else xref_empty c)
    else if v0 == b'w'
    then xref_wrap c
    else accepted

-- What main calls: a callback of the service, or one of the digest module, `eat_input`, `empty` or
-- `empty_digest`. Through a null pointer there is no call.
pub data Call : Type 0 where
  service_call : Bytes → Call
  eat_input empty empty_digest : DigestKind → Call
  null_pointer no_call : Call

abbrev pub of_service : Option Bytes → Bytes → Call
of_service none callback = null_pointer
of_service (some name) callback = service_call callback

abbrev pub of_digest : Option DigestKind → (DigestKind → Call) → Call
of_digest none call = null_pointer
of_digest (some d) call = call d

unfoldable pub called : Command → Call
called c =
    let v0 = Chat.at c.verb 0 in
    let v1 = Chat.at c.verb 1 in
    if v0 == b'g'
    then of_service c.service (if v1 == b'e' then codes "get" else codes "give")
    else if v0 == b'e'
    then (if v1 == b'a'
        then (if given c.service
            then of_service c.service (codes "eat")
            else of_digest c.digest_module eat_input)
        else if is_set c.ascii_digest
        then of_digest c.digest_module empty
        else of_digest c.digest_module empty_digest)
    else if v0 == b'p'
    then of_service c.service (codes "put")
    else if v0 == b't'
    then of_service c.service (codes "take")
    else if v0 == b'w'
    then of_service c.service (codes "wrap")
    else if v0 == b'r'
    then of_service c.service (codes "roll")
    else no_call

pub data Ran : Type 0 where
  dies : Ran
  conflicts : Xref → Ran
  calls : Command → Call → Ran

abbrev pub ran : Command → Xref → Ran
ran c accepted = calls c (called c)
ran c x = conflicts x

abbrev pub cross_checked : Option Command → Ran
cross_checked none = dies
cross_checked (some c) = ran c (xref_argv c)

module _ (frisk_udig : Bytes → Bool) where
  -- main up to its call, where the input and the output open and the service too.
  unfoldable pub run_main : Bytes → List Argument → Ran
  unfolding parse_argv xref_argv called
  run_main verb options = cross_checked (parse_argv frisk_udig verb options)
