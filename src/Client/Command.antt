-- ===== src/Client/Command.antt =====
-- The command line of the client: parse_argv of cli/blobio/blobio.c, with find_digest of
-- cli/blobio/digest.c.
pub mod Xref
pub mod Parsed
pub mod Calls
use blobio.Base.{
  ℕ, Bool, true, false, not, ◌&&◌, ◌||◌, Option, none, some, List, [], ◌∷◌, ◌++◌, Bytes, codes, ltb,
  ◌==◌, if◌then◌else◌, bytes_eq,
}
use blobio.Chat
use blobio.Client.Digests.{syntax}
use blobio.Client.Fs.Paths.{DigestKind, sha, bc160, btc20, client_digest}

-- The global variables that the command line sets; `service` is the name of the service.
pub record Command : Type 0 where
  pub verb : Bytes
  pub algorithm : Bytes
  pub ascii_digest : Bytes
  pub digest_module : Option DigestKind
  pub input_path : Option Bytes
  pub output_path : Option Bytes
  pub service : Option Bytes
  pub io_timeout : Option ℕ
  pub tracing : Bool

-- An option with its value. Of a service there is the name, where its value is taken, and of a timeout the
-- number, where its value is one.
pub data Argument : Type 0 where
  udig_option algorithm_option input_option output_option : Bytes → Argument
  service_option : Option Bytes → Argument
  timeout_option : Option ℕ → Argument
  trace_option help_option unknown_option : Argument

abbrev pub is_set : Bytes → Bool
is_set [] = false
is_set (c ∷ cs) = true

abbrev pub given {ℓ} : {A : Type ℓ} → Option A → Bool
given none = false
given (some a) = true

unfoldable pub is_verb : Bytes → Bool
is_verb v =
    bytes_eq v (codes "get")
    || bytes_eq v (codes "put")
    || bytes_eq v (codes "eat")
    || bytes_eq v (codes "give")
    || bytes_eq v (codes "take")
    || bytes_eq v (codes "wrap")
    || bytes_eq v (codes "roll")
    || bytes_eq v (codes "empty")

unfoldable pub find_digest : Bytes → Option DigestKind
find_digest name =
    if bytes_eq name (codes "btc20")
    then some btc20
    else if bytes_eq name (codes "sha")
    then some sha
    else if bytes_eq name (codes "bc160")
    then some bc160
    else none

-- What is before the first colon and what is behind it.
unfoldable pub split_colon : Bytes → Bytes × Bytes
split_colon [] = ([], [])
split_colon (c ∷ cs) =
    let (algorithm, digest) = split_colon cs in
    if c == b':' then ([], cs) else (c ∷ algorithm, digest)

abbrev with_digest : Bytes → Bytes → Command → Option DigestKind → Option Command
with_digest algorithm digest c none = none
with_digest algorithm digest c (some d) =
    if syntax (client_digest d) digest == 0
    then none
    else some (record c { algorithm = algorithm; ascii_digest = digest; digest_module = some d })

abbrev named_algorithm : Command → Option DigestKind → Option Command
named_algorithm c none = none
named_algorithm c (some d) =
    some (record c { algorithm = (client_digest d).algorithm; digest_module = some d })

-- `jmscott_frisk_udig` of libjmscott takes a udig or not; `none` is that the client ends
-- here, in an error or behind the text of the help.
module _ (frisk_udig : Bytes → Bool) where
  unfoldable pub parse_option : Command → Argument → Option Command
  unfolding find_digest split_colon syntax
  parse_option c (udig_option ud) =
      if is_set c.ascii_digest
      then none
      else if is_set c.algorithm
      then none
      else if not (frisk_udig ud)
      then none
      else with_digest (split_colon ud).0 (split_colon ud).1 c (find_digest (split_colon ud).0)
  parse_option c (algorithm_option n) =
      if is_set c.ascii_digest
      then none
      else if is_set c.algorithm
      then none
      else if not (is_set n)
      then none
      else named_algorithm c (find_digest n)
  parse_option c (input_option path) =
      if given c.input_path
      then none
      else if not (is_set path)
      then none
      else some (record c { input_path = some path })
  parse_option c (output_option path) =
      if given c.output_path then none else some (record c { output_path = some path })
  parse_option c (service_option none) = none
  parse_option c (service_option (some name)) =
      if given c.service then none else some (record c { service = some name })
  parse_option c (timeout_option none) = none
  parse_option c (timeout_option (some ull)) =
      if given c.io_timeout
      then none
      else if ltb 255 ull
      then none
      else some (record c { io_timeout = some ull })
  parse_option c trace_option = if c.tracing then none else some (record c { tracing = true })
  parse_option c help_option = none
  parse_option c unknown_option = none

  abbrev if_parsed : Option Command → (Command → Option Command) → Option Command
  if_parsed none next = none
  if_parsed (some c) next = next c

  unfoldable pub parse_options : List Argument → Command → Option Command
  unfolding parse_option
  parse_options [] c = some c
  parse_options (a ∷ options) c = if_parsed (parse_option c a) (parse_options options)

  abbrev pub unset : Bytes → Command
  unset verb = record {
    verb = verb;
    algorithm = [];
    ascii_digest = [];
    digest_module = none;
    input_path = none;
    output_path = none;
    service = none;
    io_timeout = none;
    tracing = false;
  }

  -- `help` and `--help` in place of the verb end in the help, any other word that is no verb in an error.
  -- The check of the mask of the service at the end is left out; a timeout that was not given, which is then
  -- 0, stays unset.
  unfoldable pub parse_argv : Bytes → List Argument → Option Command
  unfolding is_verb parse_options
  parse_argv verb options = if is_verb verb then parse_options options (unset verb) else none
