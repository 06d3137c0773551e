-- ===== src/Tests/Qarg.antt =====
-- Queries of $BLOBIO_SERVICE.
use blobio.Base.{
  ◌≡◌, ◌≢◌, refl, true, some, ◌++◌, Bytes, codes, All, length, arith, is_lower, is_digit, is_ascii,
  is_graph, if◌then◌else◌, ◌==◌,
}
use blobio.Qarg.{
  Args, frisk_qargs, rejected, accepted, rounds, step, frisk_qarg, match_name, checked_value,
  is_value, after_algo, note_algo, after_brr, brr_noted, after_fnp, note_fnp, scan_chars,
  is_lower_or_digit, is_hex_lower, is_hex_letter, get_algo, get_fnp, get_brr_mask, hex_value,
  overrun, stored,
}
use blobio.Qarg.Bounds.{Fits, frisk_qargs-Fits}
use blobio.Qarg.Algo.{IsAlgoChar, algo_only, get_algo-frisk_qargs}

abbrev query : Bytes
query = codes "algo=sha&brr=0a&fnp=x"

abbrev query_args : Args
query_args = record { algo = some (5, 3); brr_mask = some 13; fnp = some (20, 2) }

query-accepted : frisk_qargs query ≡ accepted query_args
unfolding frisk_qargs rounds step frisk_qarg match_name checked_value is_value after_algo note_algo
    after_brr brr_noted after_fnp note_fnp scan_chars is_lower_or_digit is_hex_lower is_hex_letter
    is_lower is_digit is_ascii is_graph
query-accepted = refl

query_mask : get_brr_mask query query_args.brr_mask ≡ some 10
unfolding get_brr_mask hex_value is_lower
query_mask = refl

-- A mask of two digits is refused, and so is a file name prefix of 32 characters at the end of a query.
digits_refused : frisk_qargs (codes "brr=42") ≡ rejected
unfolding frisk_qargs rounds step frisk_qarg match_name checked_value is_value after_brr
    is_hex_lower is_hex_letter is_digit is_ascii is_graph
digits_refused = refl

long_fnp_refused : frisk_qargs (codes "fnp=abcdefghijklmnopqrstuvwxyz012345") ≡ rejected
unfolding frisk_qargs rounds step frisk_qarg match_name checked_value is_value after_fnp note_fnp
    scan_chars is_ascii is_graph
long_fnp_refused = refl

frisk_qargs-Fits_example :
    Fits 9 (length query) (some (5, 3))
    × Fits 32 (length query) (some (20, 2))
    × (get_fnp query query_args ≢ overrun)
frisk_qargs-Fits_example = frisk_qargs-Fits query query_args query-accepted

s_lower : is_lower b's' ≡ true
unfolding is_lower
s_lower = refl

ha_chars : All IsAlgoChar (codes "ha")
unfolding is_lower_or_digit is_lower is_digit
ha_chars = (refl, (refl, tt))

get_algo-frisk_qargs_example :
    (frisk_qargs (codes "algo=" ++ codes "sha") ≡ accepted (algo_only 4))
    × (get_algo (codes "algo=" ++ codes "sha") (algo_only 4)
        ≡ (if length (codes "ha") == 7 then overrun else stored (codes "sha")))
get_algo-frisk_qargs_example = get_algo-frisk_qargs b's' (codes "ha") s_lower ha_chars (omega arith)
