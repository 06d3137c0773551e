-- ===== src/Base/Below.antt =====
-- A test on every number below a bound, by evaluation.
use Prim.Native.Nat.{ℕ, zero, suc, ◌<◌}
use mathlib.Core.Path.{◌≡◌}
use mathlib.Core.Logic.{◌⊎◌, inl, inr}
use mathlib.Core.Bool.{Bool, true, ◌&&◌}
use native.Mathlib.Omega.{arith}

unfoldable pub all_below : ℕ → (ℕ → Bool) → Bool
all_below zero test = true
all_below (suc n) test = test n && all_below n test

lt_or_eq : (m n : ℕ) → m < suc n → (m < n) ⊎ (m ≡ n)
lt_or_eq m n lt = ground arith

pub and_left : (a b : Bool) → (a && b) ≡ true → a ≡ true
and_left a b h = ground arith

pub and_right : (a b : Bool) → (a && b) ≡ true → b ≡ true
and_right a b h = ground arith

pub below : (n m : ℕ) (test : ℕ → Bool) → all_below n test ≡ true → m < n → test m ≡ true
unfolding all_below
below zero m test h lt = absurd (omega arith)
below (suc n) m test h lt = elim (lt_or_eq m n lt) [
  | inl less ↦ below n m test (and_right (test n) (all_below n test) h) less
  | inr same ↦ rw same (and_left (test n) (all_below n test) h)
]
