-- ===== src/Request.antt =====
-- The lexical parser of client requests: `request` of bio4d/bio4d.c, up to the call of `bio4d` and
-- to what follows the read loop.
pub mod Shape
pub mod Chunks
pub mod RoundTrip
use blobio.Base.{
  ℕ, ◌+◌, Bool, true, false, not, ◌&&◌, List, [], ◌∷◌, ◌++◌, Bytes, length, ◌==◌, if◌then◌else◌,
  is_alpha, is_alnum, is_graph,
}

abbrev pub max_verb_size : ℕ
max_verb_size = 5

abbrev pub max_algorithm_size : ℕ
max_algorithm_size = 8

abbrev pub max_digest_size : ℕ
max_digest_size = 128

pub data State : Type 0 where
  scan_verb scan_algorithm scan_new_line scan_digest : State

-- `verb`, `algorithm` and `digest` hold the bytes up to `v_next`, `a_next` and `d_next`.
pub record Parser : Type 0 where
  pub state : State
  pub verb : Bytes
  pub algorithm : Bytes
  pub digest : Bytes

abbrev pub initial : Parser
initial = record { state = scan_verb; verb = []; algorithm = []; digest = [] }

-- The messages of `die_NO`.
pub data Refusal : Type 0 where
  big_verb big_algorithm big_digest no_alpha_com no_num1_algo no_alnum_algo no_print_digest :
      Refusal
  read_failed empty_read : Refusal

-- What becomes of the request: the call of `bio4d` with the bytes that are left in the buffer, a "no"
-- to the client, an exit with no answer, or the end of the input in the midst of a request.
pub data Outcome : Type 0 where
  go : Parser → Bytes → Outcome
  die_no : Refusal → Outcome
  die_no_new_line : Outcome
  incomplete : Outcome

-- One byte leads to the next state, or to an outcome; `STATE_go` is `enter`.
pub data Next : Type 0 where
  next : Parser → Next
  enter : Parser → Next
  refuse : Refusal → Next
  no_new_line : Next

in_verb : Parser → ℕ → Next
in_verb p c =
    if c == b' '
    then next (record p { state = scan_algorithm })
    else if c == b'\n'
    then enter p
    else if c == b'\r'
    then next (record p { state = scan_new_line })
    else if is_alpha c
    then if length p.verb == max_verb_size
      then refuse big_verb
      else next (record p { verb = p.verb ++ c ∷ [] })
    else refuse no_alpha_com

in_algorithm : Parser → ℕ → Next
in_algorithm p c =
    if c == b':'
    then next (record p { state = scan_digest })
    else if c == b'\n'
    then enter p
    else if c == b'\r'
    then next (record p { state = scan_new_line })
    else if is_alnum c
    then if length p.algorithm == max_algorithm_size
      then refuse big_algorithm
      else if length p.algorithm == 0 && not (is_alpha c)
      then refuse no_num1_algo
      else next (record p { algorithm = p.algorithm ++ c ∷ [] })
    else refuse no_alnum_algo

in_new_line : Parser → ℕ → Next
in_new_line p c = if not (c == b'\n') then no_new_line else enter p

in_digest : Parser → ℕ → Next
in_digest p c =
    if c == b'\n'
    then enter p
    else if c == b'\r'
    then next (record p { state = scan_new_line })
    else if is_graph c
    then if length p.digest == max_digest_size
      then refuse big_digest
      else next (record p { digest = p.digest ++ c ∷ [] })
    else refuse no_print_digest

pub step_in : State → Parser → ℕ → Next
unfolding in_verb in_algorithm in_new_line in_digest
step_in scan_verb p c = in_verb p c
step_in scan_algorithm p c = in_algorithm p c
step_in scan_new_line p c = in_new_line p c
step_in scan_digest p c = in_digest p c

-- What `req_read` returns: a positive count of bytes, 0, or a negative number.
pub data Read : Type 0 where
  some_bytes : ℕ → Bytes → Read
  end_of_file : Read
  failed : Read

-- Behind the read loop, with no call of `bio4d` made.
ended : State → Bytes → Outcome
ended scan_verb [] = die_no empty_read
ended _ _ = incomplete

-- One chunk: an outcome, or the parser that waits for the next chunk.
pub data Fed : Type 0 where
  wait : Parser → Fed
  done : Outcome → Fed

after : Next → (Parser → Fed) → Bytes → Fed
after (next p) rest b = rest p
after (enter p) rest b = done (go p b)
after (refuse why) rest b = done (die_no why)
after no_new_line rest b = done die_no_new_line

pub feed : Parser → Bytes → Fed
unfolding step_in after
feed p [] = wait p
feed p (c ∷ b) = after (step_in p.state p c) (λ q. feed q b) b

-- The read loop; a list that ends is a client that closes the connection.
continue : Fed → (Parser → Outcome) → Outcome
continue (wait p) rest = rest p
continue (done o) rest = o

pub reads : Parser → List Read → Outcome
unfolding feed ended continue
reads p [] = ended p.state p.verb
reads p (end_of_file ∷ rs) = ended p.state p.verb
reads p (failed ∷ rs) = die_no read_failed
reads p (some_bytes c cs ∷ rs) = continue (feed p (c ∷ cs)) (λ q. reads q rs)

unfoldable pub request : List Read → Outcome
unfolding reads
request = reads initial
