-- ===== src/Client/Command/Parsed.antt =====
-- What holds of the variables that parse_argv has set.
use blobio.Base.{
  ◌≡◌, Bool, true, false, not, Option, none, some, List, [], ◌∷◌, Bytes, ltb, ◌==◌, if◌then◌else◌,
}
use blobio.Client.Digests.{syntax}
use blobio.Client.Fs.Paths.{DigestKind, client_digest}
use blobio.Client.Command.{
  Command, Argument, udig_option, algorithm_option, input_option, output_option, service_option,
  timeout_option, trace_option, help_option, unknown_option, is_set, given, find_digest,
  split_colon, with_digest, named_algorithm, parse_option, parse_options, if_parsed,
}

-- Without a digest module there are no algorithm and no digest.
abbrev pub Known : Option DigestKind → Bytes → Bytes → Type 0
Known none algorithm digest = (algorithm ≡ []) × (digest ≡ [])
Known (some d) algorithm digest = Unit

pub record Parsed (v : Bytes) (c : Command) : Type 0 where
  pub verb : c.verb ≡ v
  pub known : Known c.digest_module c.algorithm c.ascii_digest

abbrev pub AllOf : (Command → Type 0) → Option Command → Type 0
AllOf P none = Unit
AllOf P (some c) = P c

or_none :
    (P : Command → Type 0) (b : Bool) (o : Option Command)
    → AllOf P o
    → AllOf P (if b then none else o)
or_none P true o h = tt
or_none P false o h = h

with_digest-Parsed :
    (v algorithm digest : Bytes) (c : Command) (o : Option DigestKind)
    → c.verb ≡ v
    → AllOf (Parsed v) (with_digest algorithm digest c o)
with_digest-Parsed v algorithm digest c none e = tt
with_digest-Parsed v algorithm digest c (some d) e =
    or_none (Parsed v) (syntax (client_digest d) digest == 0) _ (record { verb = e; known = tt })

named_algorithm-Parsed :
    (v : Bytes) (c : Command) (o : Option DigestKind)
    → c.verb ≡ v
    → AllOf (Parsed v) (named_algorithm c o)
named_algorithm-Parsed v c none e = tt
named_algorithm-Parsed v c (some d) e = record { verb = e; known = tt }

module _ (frisk_udig : Bytes → Bool) where
  parse_option-Parsed :
      (v : Bytes) (c : Command) (a : Argument)
      → Parsed v c
      → AllOf (Parsed v) (parse_option frisk_udig c a)
  unfolding parse_option
  parse_option-Parsed v c (udig_option ud) p = or_none (Parsed v) (is_set c.ascii_digest) _ (
      or_none (Parsed v) (is_set c.algorithm) _ (
        or_none (Parsed v) (not (frisk_udig ud)) _ (
          with_digest-Parsed v (split_colon ud).0 (split_colon ud).1 c
            (find_digest (split_colon ud).0) p.verb)))
  parse_option-Parsed v c (algorithm_option n) p = or_none (Parsed v) (is_set c.ascii_digest) _ (
      or_none (Parsed v) (is_set c.algorithm) _
        (or_none (Parsed v) (not (is_set n)) _ (named_algorithm-Parsed v c (find_digest n) p.verb)))
  parse_option-Parsed v c (input_option path) p =
      or_none (Parsed v) (given c.input_path) _
        (or_none (Parsed v) (not (is_set path)) _ (record { verb = p.verb; known = p.known }))
  parse_option-Parsed v c (output_option path) p =
      or_none (Parsed v) (given c.output_path) _ (record { verb = p.verb; known = p.known })
  parse_option-Parsed v c (service_option none) p = tt
  parse_option-Parsed v c (service_option (some name)) p =
      or_none (Parsed v) (given c.service) _ (record { verb = p.verb; known = p.known })
  parse_option-Parsed v c (timeout_option none) p = tt
  parse_option-Parsed v c (timeout_option (some ull)) p =
      or_none (Parsed v) (given c.io_timeout) _
        (or_none (Parsed v) (ltb 255 ull) _ (record { verb = p.verb; known = p.known }))
  parse_option-Parsed v c trace_option p =
      or_none (Parsed v) c.tracing _ (record { verb = p.verb; known = p.known })
  parse_option-Parsed v c help_option p = tt
  parse_option-Parsed v c unknown_option p = tt

  then_parse :
      (v : Bytes) (o : Option Command) (next : Command → Option Command)
      → AllOf (Parsed v) o
      → ((c : Command) → Parsed v c → AllOf (Parsed v) (next c))
      → AllOf (Parsed v) (if_parsed frisk_udig o next)
  then_parse v none next p k = tt
  then_parse v (some c) next p k = k c p

  pub parse_options-Parsed :
      (v : Bytes) (options : List Argument) (c : Command)
      → Parsed v c
      → AllOf (Parsed v) (parse_options frisk_udig options c)
  unfolding parse_options
  parse_options-Parsed v [] c p = p
  parse_options-Parsed v (a ∷ options) c p =
      then_parse v (parse_option frisk_udig c a) (parse_options frisk_udig options)
        (parse_option-Parsed v c a p) (parse_options-Parsed v options)
