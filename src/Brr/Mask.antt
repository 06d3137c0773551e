-- ===== src/Brr/Mask.antt =====
-- The bits of the mask, and the verbs of the server.
use Prim.Native.Nat.{bit_and}
use blobio.Base.{
  ℕ, ◌≡◌, refl, sym, ap, ◌∙◌, inl, inr, Bool-cases, [], not, Option, none, some, Bytes, codes, ◌==◌,
  if◌then◌else◌, bytes_eq, bytes_eq_iff,
}
use blobio.Dispatch.{
  Callback, to_get, to_put, to_take, to_give, to_eat, to_wrap, to_roll, to_cat, callback_of,
}
use blobio.Brr.{brr_mask_is_set}

abbrev name_of : Callback → Bytes
name_of to_get = codes "get"
name_of to_put = codes "put"
name_of to_take = codes "take"
name_of to_give = codes "give"
name_of to_eat = codes "eat"
name_of to_wrap = codes "wrap"
name_of to_roll = codes "roll"
name_of to_cat = codes "cat"

-- The table of the verbs and their bits that stands above `brr_mask_is_set`.
abbrev pub bit_of : Callback → ℕ
bit_of to_get = 1
bit_of to_take = 2
bit_of to_put = 4
bit_of to_give = 8
bit_of to_eat = 16
bit_of to_wrap = 32
bit_of to_roll = 64
bit_of to_cat = 128

-- One test of the chain.
pick :
    (verb : Bytes) (here callback : Callback) (rest : Option Callback)
    → (rest ≡ some callback → verb ≡ name_of callback)
    → (if bytes_eq (name_of here) verb then some here else rest) ≡ some callback
    → verb ≡ name_of callback
pick verb here callback rest k h = elim (Bool-cases (bytes_eq (name_of here) verb)) [
  | inl same ↦
      sym ((bytes_eq_iff (name_of here) verb).0 same)
      ∙ ap (λ (o : Option Callback). elim o [ none ↦ [] | some c ↦ name_of c ]) (rw same at h)
  | inr differ ↦ k (rw differ at h)
]

named :
    (verb : Bytes) (callback : Callback)
    → callback_of verb ≡ some callback
    → verb ≡ name_of callback
unfolding callback_of
named verb callback = pick verb to_get callback _ (
    pick verb to_put callback _ (
      pick verb to_take callback _ (
        pick verb to_give callback _ (
          pick verb to_eat callback _ (
            pick verb to_wrap callback _
              (pick verb to_roll callback _ (pick verb to_cat callback _ (λ last. cc last))))))))

own_bit :
    (callback : Callback) (mask : ℕ)
    → brr_mask_is_set (name_of callback) mask ≡ not (bit_and mask (bit_of callback) == 0)
unfolding brr_mask_is_set
own_bit to_get mask = refl
own_bit to_put mask = refl
own_bit to_take mask = refl
own_bit to_give mask = refl
own_bit to_eat mask = refl
own_bit to_wrap mask = refl
own_bit to_roll mask = refl
own_bit to_cat mask = refl

-- A verb that has a handler is logged exactly where the bit of that verb is set in the mask.
pub brr_mask_is_set-callback_of :
    (verb : Bytes) (callback : Callback) (mask : ℕ)
    → callback_of verb ≡ some callback
    → brr_mask_is_set verb mask ≡ not (bit_and mask (bit_of callback) == 0)
brr_mask_is_set-callback_of verb callback mask h =
    rw (named verb callback h) (own_bit callback mask)
