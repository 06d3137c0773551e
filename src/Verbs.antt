-- ===== src/Verbs.antt =====
-- The handlers of the verbs in bio4d/bio4d.c, from the reply to a request up to its last ok or no.
pub mod Rules
pub mod Histories
use Prim.Native.Nat.{bit_and, bit_or}
use blobio.Base.{
  ℕ, ◌+◌, ◌*◌, Bool, true, false, List, [], ◌∷◌, ◌++◌, Bytes, codes, ◌==◌, if◌then◌else◌,
}
use blobio.Chat
use blobio.Chat.{
  Request, Status, success, error, panic, write_ok, write_no, Reply, said_ok, said_no, bad_reply,
  read_reply,
}

-- `REQUEST_EXIT_STATUS_CAT` and its kin
abbrev pub status_cat : ℕ
status_cat = 0

abbrev pub status_get : ℕ
status_get = 1

abbrev pub status_put : ℕ
status_put = 2

abbrev pub status_give : ℕ
status_give = 3

abbrev pub status_take : ℕ
status_take = 4

abbrev pub status_eat : ℕ
status_eat = 5

abbrev pub status_wrap : ℕ
status_wrap = 6

abbrev pub status_roll : ℕ
status_roll = 7

-- `struct digest_module`: the callbacks of a module, each on the request, with a status that is 0 or
-- not. They may send bytes and set the exit status, and leave the chat to the handlers.
pub record DigestModule : Type 0 where
  pub is_digest : Bytes → ℕ
  pub get_request : Request → Request × Status
  pub get_bytes : Request → Request × Status
  pub take_request : Request → Request × Status
  pub take_bytes : Request → Request × Status
  pub take_reply : Reply → Request → Request × Status
  pub put_request : Request → Request × Status
  pub put_bytes : Request → Request × Status
  pub give_request : Request → Request × Status
  pub give_bytes : Request → Request × Status
  pub give_reply : Reply → Request → Request × Status
  pub eat : Request → Request × Status

-- `if (m) bad; ok`, and a panic ends the process.
unfoldable pub branch :
    Request × Status
    → (Request → Request × Status)
    → (Request → Request × Status)
    → Request × Status
branch (r, success) ok bad = ok r
branch (r, error) ok bad = bad r
branch (r, panic) ok bad = (r, panic)

-- `return 0` and `return -1`
unfoldable pub return_ok : Request → Request × Status
return_ok r = (r, success)

unfoldable pub return_error : Request → Request × Status
return_error r = (r, error)

-- The verb in bits 3 to 5 of the exit status.
unfoldable pub set_verb : ℕ → Request → Request
set_verb verb r = record r { exit_status = bit_or (bit_and r.exit_status 0x1C) (verb * 4) }

pub cat : Request → Request × Status
unfolding set_verb
cat r = write_no (set_verb status_cat r)

-- What `io_path_exists` says of the file of the digest in spool/wrap/.
pub data PathExists : Type 0 where
  absent exists stat_failed : PathExists

module _ (mp : DigestModule) where
  unfoldable pub get : Bytes → Request → Request × Status
  unfolding set_verb branch return_ok return_error
  get digest r =
      let r0 = set_verb status_get r in
      if mp.is_digest digest == 2
      then branch (write_ok r0) return_ok return_error
      else branch (mp.get_request r0) (λ r1. branch (write_ok r1) mp.get_bytes return_error)
          write_no

  pub eat : Request → Request × Status
  unfolding set_verb branch
  eat r = branch (mp.eat (set_verb status_eat r)) write_ok write_no

  unfoldable pub put : Request → Request × Status
  unfolding set_verb branch return_error
  put r =
      branch (mp.put_request (set_verb status_put r))
        (λ r1. branch (write_ok r1) (λ r2. branch (mp.put_bytes r2) write_ok write_no) return_error)
        write_no

  -- What `take` does with the reply that it read.
  take_replied : Request × Reply × Status → Request × Status
  take_replied (r, said_ok, success) = branch (mp.take_reply said_ok r) write_ok write_no
  take_replied (r, said_no, success) = (r, success)
  take_replied (r, _, panic) = (r, panic)
  take_replied (r, _, _) = (r, error)

  -- `stack` and `reads` are what `read_reply` meets.
  pub take : PathExists → Bytes → List Chat.Read → Request → Request × Status
  unfolding set_verb branch return_error take_replied
  take stat_failed stack reads r = (set_verb status_take r, panic)
  take exists stack reads r = write_no (set_verb status_take r)
  take absent stack reads r =
      branch (mp.take_request (set_verb status_take r))
        (λ r1.
          branch (write_ok r1)
            (λ r2.
              branch (mp.take_bytes r2) (λ r3. take_replied (read_reply stack reads r3))
                return_error)
            return_error)
        write_no

  -- What `give` does with the reply that it read.
  give_replied : Request × Reply × Status → Request × Status
  give_replied (r, bad_reply, success) = (r, error)
  give_replied (r, a, success) = mp.give_reply a r
  give_replied (r, _, panic) = (r, panic)
  give_replied (r, _, error) = (r, error)

  pub give : Bytes → List Chat.Read → Request → Request × Status
  unfolding set_verb branch return_error give_replied
  give stack reads r =
      branch (mp.give_request (set_verb status_give r))
        (λ r1.
          branch (write_ok r1)
            (λ r2.
              branch (mp.give_bytes r2)
                (λ r3.
                  branch (write_ok r3) (λ r4. give_replied (read_reply stack reads r4))
                    return_error)
                write_no)
            return_error)
        write_no
