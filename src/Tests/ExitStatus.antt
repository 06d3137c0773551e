-- ===== src/Tests/ExitStatus.antt =====
-- Two requests that end: a get answered with ok, and an eat with no.
use blobio.Base.{◌≡◌, refl, none, some, List, [], ◌∷◌, arith}
use blobio.ExitStatus.{bump_no}
use blobio.ExitStatus.Reap.{
  VerbTotals, Totals, Death, exited, signaled, reap, reap_all, count_exit, count_process,
  switch_verb, count_verb,
}
use blobio.ExitStatus.Balance.{IsBalanced, reap_all-IsBalanced}

abbrev unused : VerbTotals
unused = record { count = 0; nos = record { v_no = some 0; v_no2 = none; v_no3 = none } }

abbrev idle : Totals
idle = record {
  exit_count = 0;
  signal_count = 0;
  success_count = 0;
  error_count = 0;
  timeout_count = 0;
  fault_count = 0;
  counters = record { ok_count = 0; no_count = 0; no2_count = 0; no3_count = 0 };
  cat = unused;
  get = unused;
  put = unused;
  give = unused;
  take = unused;
  eat = unused;
  wrap = unused;
  roll = unused;
}

abbrev deaths : List Death
deaths = exited 4 ∷ exited 52 ∷ signaled ∷ []

abbrev later : Totals
later = record idle {
  exit_count = 3;
  signal_count = 1;
  success_count = 2;
  counters = record { ok_count = 1; no_count = 1; no2_count = 0; no3_count = 0 };
  get = record unused { count = 1 };
  eat = record { count = 1; nos = record { v_no = some 1; v_no2 = none; v_no3 = none } };
}

run : reap_all deaths idle ≡ some later
unfolding reap_all reap count_exit count_process switch_verb count_verb bump_no
run = refl

idle-IsBalanced : IsBalanced idle
idle-IsBalanced = record { exits = refl; verbs = refl; chats = refl }

reap_all-IsBalanced_example : IsBalanced later
reap_all-IsBalanced_example =
    reap_all-IsBalanced deaths idle later (omega arith, (omega arith, (tt, tt))) idle-IsBalanced run
