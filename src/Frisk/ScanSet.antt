-- ===== src/Frisk/ScanSet.antt =====
-- Which fields `scan_set` of cli/bio-frisk-brr.c takes.
use blobio.Base.{
  zero_add, suc_add, ℕ, zero, suc, ◌+◌, ◌≡◌, refl, ◌∙◌, Bool, true, false, [], ◌∷◌, ◌++◌, Bytes,
  length, All, append_assoc, append-nil, ◌==◌, if◌then◌else◌, is_ascii, arith,
}
use blobio.Frisk.Scan.{took, rejected, scan_set, scan_set_from, at_end_fld, at_limit}

-- A character that the loop steps over.
pub record InField (set : ℕ → Bool) (end_fld : ℕ) (c : ℕ) : Type 0 where
  pub no_end : (c == end_fld) ≡ false
  pub no_null : (c == 0) ≡ false
  pub ascii : is_ascii c ≡ true
  pub in_set : set c ≡ true

scan_set_over :
    (set : ℕ → Bool) (end_fld : ℕ) (u field p : Bytes) (n : ℕ)
    → All (InField set end_fld) u
    → scan_set_from field (length u + n) set end_fld (u ++ p)
      ≡ scan_set_from (field ++ u) n set end_fld p
unfolding scan_set_from
scan_set_over set end_fld [] field p n h = rw (zero_add n, append-nil) refl
scan_set_over set end_fld (c ∷ u) field p n (i, h) =
    rw
      (
        suc_add (length u) n,
        i.no_end,
        i.no_null,
        i.ascii,
        i.in_set,
        scan_set_over set end_fld u (field ++ c ∷ []) p n h,
      )
      (simp append_assoc)

at_end :
    (set : ℕ → Bool) (end_fld : ℕ) (x : ℕ) (u : Bytes) (n d : ℕ) (p : Bytes)
    → scan_set_from (x ∷ u) n set end_fld (end_fld ∷ d ∷ p) ≡ (
        if n == 1
        then (if d == end_fld then took ((x ∷ u) ++ end_fld ∷ []) p else rejected)
        else took (x ∷ u) (d ∷ p))
unfolding scan_set_from at_end_fld at_limit
at_end set end_fld x u zero d p = ground arith
at_end set end_fld x u (suc zero) d p = ground arith
at_end set end_fld x u (suc (suc n)) d p = ground arith

-- A field of one character of the set or more, with its end and one more byte behind it, is taken
-- where it has as many characters as the limit, or at least two fewer. Where it has exactly one
-- fewer it is refused, unless the byte behind the end is an end too, which becomes part of the field.
pub scan_set_field :
    (set : ℕ → Bool) (end_fld x : ℕ) (u : Bytes) (n d : ℕ) (p : Bytes)
    → All (InField set end_fld) (x ∷ u)
    → scan_set (length (x ∷ u) + n) set end_fld ((x ∷ u) ++ end_fld ∷ d ∷ p) ≡ (
        if n == 1
        then (if d == end_fld then took ((x ∷ u) ++ end_fld ∷ []) p else rejected)
        else took (x ∷ u) (d ∷ p))
unfolding scan_set
scan_set_field set end_fld x u n d p h =
    scan_set_over set end_fld (x ∷ u) [] (end_fld ∷ d ∷ p) n h ∙ at_end set end_fld x u n d p
