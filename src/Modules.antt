-- ===== src/Modules.antt =====
-- The table of digest modules: bio4d/module.c.
use blobio.Base.{
  ◌≡◌, refl, Bool, true, false, ◌&&◌, ◌||◌, Option, none, some, List, [], ◌∷◌, ◌++◌, Bytes, ltb,
  ◌==◌, if◌then◌else◌, bytes_eq, bytes_eq_refl, arith,
}
use blobio.Verbs.{DigestModule}

-- `strcmp(a, b) < 0`
unfoldable pub precedes : Bytes → Bytes → Bool
precedes [] [] = false
precedes [] (y ∷ b) = true
precedes (x ∷ a) [] = false
precedes (x ∷ a) (y ∷ b) = ltb x y || x == y && precedes a b

-- A compiled module, with its name.
pub record Module : Type 0 where
  pub name : Bytes
  pub callbacks : DigestModule

-- The test of `module_boot`, which panics where it fails.
unfoldable pub in_order : List Module → Bool
in_order [] = true
in_order (m ∷ []) = true
in_order (m ∷ n ∷ ms) = precedes m.name n.name && in_order (n ∷ ms)

unfoldable pub module_get : List Module → Bytes → Option DigestModule
module_get [] name = none
module_get (m ∷ ms) name =
    let rest = module_get ms name in if bytes_eq name m.name then some m.callbacks else rest

precedes_trans : (a b c : Bytes) → precedes a b ≡ true → precedes b c ≡ true → precedes a c ≡ true
unfolding precedes
precedes_trans [] [] c h k = cc
precedes_trans [] (y ∷ b) [] h k = cc
precedes_trans [] (y ∷ b) (z ∷ c) h k = refl
precedes_trans (x ∷ a) [] c h k = cc
precedes_trans (x ∷ a) (y ∷ b) [] h k = cc
precedes_trans (x ∷ a) (y ∷ b) (z ∷ c) h k = ground (arith, precedes_trans a b c)

precedes_ne : (a b : Bytes) → precedes a b ≡ true → bytes_eq b a ≡ false
unfolding precedes bytes_eq
precedes_ne [] [] h = cc
precedes_ne [] (y ∷ b) h = refl
precedes_ne (x ∷ a) [] h = cc
precedes_ne (x ∷ a) (y ∷ b) h = ground (arith, precedes_ne a b)

and_cases : (a b : Bool) → (a && b) ≡ true → (a ≡ true) × (b ≡ true)
and_cases a b h = ground arith

first_precedes :
    (n m : Module) (before after : List Module)
    → in_order (n ∷ (before ++ m ∷ after)) ≡ true
    → precedes n.name m.name ≡ true
unfolding in_order
first_precedes n m [] after h = (and_cases (precedes n.name m.name) (in_order (m ∷ after)) h).0
first_precedes n m (o ∷ before) after h =
    let (now, later) =
      and_cases (precedes n.name o.name) (in_order (o ∷ (before ++ m ∷ after))) h in
    precedes_trans n.name o.name m.name now (first_precedes o m before after later)

tail_in_order : (n : Module) (ms : List Module) → in_order (n ∷ ms) ≡ true → in_order ms ≡ true
unfolding in_order
tail_in_order n [] h = refl
tail_in_order n (m ∷ ms) h = (and_cases (precedes n.name m.name) (in_order (m ∷ ms)) h).1

-- In a table that passes the test of `module_boot`, each module is found by its name.
pub module_get-in_order :
    (before after : List Module) (m : Module)
    → in_order (before ++ m ∷ after) ≡ true
    → module_get (before ++ m ∷ after) m.name ≡ some m.callbacks
unfolding module_get
module_get-in_order [] after m h = rw (bytes_eq_refl m.name) refl
module_get-in_order (n ∷ before) after m h =
    rw (precedes_ne n.name m.name (first_precedes n m before after h))
      (module_get-in_order before after m (tail_in_order n (before ++ m ∷ after) h))
