-- ===== src/Tests/Verbs.antt =====
-- The handlers of the verbs, with a module of callbacks that always succeed.
use blobio.Base.{◌≡◌, refl, [], codes}
use blobio.Chat.{Request, Status, success, write_ok, req_write, note_chat, add_chat_history}
use blobio.Verbs.{DigestModule, branch, set_verb, put}
use blobio.Verbs.Histories.{IsQuiet, Quiet}

abbrev pub fresh_request : Request
fresh_request = record { chat_history = []; sent = []; exit_status = 0; writes = [] }

abbrev fine : Request → Request × Status
fine r = (r, success)

abbrev pub plain : DigestModule
plain = record {
  is_digest = λ d. 1;
  get_request = fine;
  get_bytes = fine;
  take_request = fine;
  take_bytes = fine;
  take_reply = λ a. fine;
  put_request = fine;
  put_bytes = fine;
  give_request = fine;
  give_bytes = fine;
  give_reply = λ a. fine;
  eat = fine;
}

fine_Quiet : Quiet fine
fine_Quiet r = (refl, λ e. cc e)

pub plain-IsQuiet : IsQuiet plain
plain-IsQuiet = record {
  get_request = fine_Quiet;
  get_bytes = fine_Quiet;
  take_request = fine_Quiet;
  take_bytes = fine_Quiet;
  take_reply = λ a. fine_Quiet;
  put_request = fine_Quiet;
  put_bytes = fine_Quiet;
  give_request = fine_Quiet;
  give_bytes = fine_Quiet;
  give_reply = λ a. fine_Quiet;
  eat = fine_Quiet;
}

-- A put is answered twice.
pub put_run : put plain fresh_request ≡ (
  record fresh_request { chat_history = codes "ok,ok"; sent = codes "ok\nok\n"; exit_status = 8 },
  success,
)
unfolding put write_ok req_write note_chat add_chat_history branch set_verb
put_run = refl
