-- ===== src/Tests/Command.antt =====
-- Command lines of the client.
use blobio.Base.{◌≡◌, ◌≢◌, refl, Bool, true, false, none, some, [], ◌∷◌, Bytes, codes, bytes_eq}
use blobio.Client.Fs.Paths.{sha}
use blobio.Client.Digests.{syntax, hex_left}
use blobio.Client.Command.{
  Command, udig_option, output_option, service_option, is_verb, find_digest, split_colon,
  parse_option, parse_options, parse_argv,
}
use blobio.Client.Command.Xref.{
  no_opt, xref_argv, xref_stored, xref_eat, called, service_call, null_pointer, no_call, calls,
  conflicts, run_main,
}
use blobio.Client.Command.Calls.{run_main-IsCall}

abbrev any : Bytes → Bool
any ud = true

abbrev empty_digest_of_sha : Bytes
empty_digest_of_sha = codes "da39a3ee5e6b4b0d3255bfef95601890afd80709"

abbrev get_command : Command
get_command = record {
  verb = codes "get";
  algorithm = codes "sha";
  ascii_digest = empty_digest_of_sha;
  digest_module = some sha;
  input_path = none;
  output_path = some (codes "out");
  service = some (codes "bio4");
  io_timeout = none;
  tracing = false;
}

get_called :
    run_main any (codes "get") (
      udig_option (codes "sha:da39a3ee5e6b4b0d3255bfef95601890afd80709")
      ∷ output_option (codes "out")
      ∷ service_option (some (codes "bio4"))
      ∷ [])
    ≡ calls get_command (service_call (codes "get"))
unfolding run_main parse_argv parse_options parse_option is_verb find_digest split_colon syntax
    hex_left xref_argv xref_stored called bytes_eq
get_called = refl

run_main-IsCall_example :
    (service_call (codes "get") ≢ null_pointer) × (service_call (codes "get") ≢ no_call)
run_main-IsCall_example =
    run_main-IsCall any (codes "get")
      (udig_option (codes "sha:da39a3ee5e6b4b0d3255bfef95601890afd80709")
        ∷ output_option (codes "out")
        ∷ service_option (some (codes "bio4"))
        ∷ [])
      get_command (service_call (codes "get")) get_called

-- An eat of a local file needs the algorithm.
eat_refused : run_main any (codes "eat") [] ≡ conflicts (no_opt (codes "algorithm"))
unfolding run_main parse_argv parse_options is_verb xref_argv xref_eat bytes_eq
eat_refused = refl
