-- ===== src/Command/Tests.antt =====
-- A raw command on its way through the command API.
use Prim.Native.Char.{Char}
use text.Mathlib.TextBridge.{of_list}
use statusengine_worker.Prelude.{
  ℕ, String, true, false, Option, none, some, [], ◌∷◌, Bytes, codes, str_eq, eq_iff, ◌==◌, ◌≡◌,
  refl, sym, ap, subst, ◌∙◌, arith, Bool-cases, ◌⊎◌, inl, inr, if◌then◌else◌, Chars, characters,
  cut_at,
}
use statusengine_worker.Queue.{no_items}
use statusengine_worker.Command.{
  Envelope, envelope, no_messages, more_messages, validate, validate_single, validate_raw,
  raw_command_name, is_denied, add_entry_time, trim_space, trim_left, trim_right, is_space,
  before_semicolon, without_stamp,
}
use statusengine_worker.Command.Accepted.{IsJson}
use statusengine_worker.Command.Validated.{IsSafe, commands_of, validate-IsSafe}
use statusengine_worker.Command.Publisher.{rabbitmq, Attempt, publish, publish_once, is_usable}
use statusengine_worker.Command.Endpoint.{
  Request, Response, World, parsed, authorized, extract_api_key, publish_checked, check_and_publish,
  serve_http,
}
use statusengine_worker.Command.Answers.{IsPublished, IsUnsure, serve_http-IsPublished}

-- A JSON that knows two texts.
abbrev sent_text : String
sent_text = "DISABLE_NOTIFICATIONS;h"

abbrev stored_text : String
stored_text = "[7] DISABLE_NOTIFICATIONS;h"

abbrev unmarshal : Bytes → Option Chars
unmarshal (ℕ.suc ℕ.zero ∷ []) = some (characters sent_text)
unmarshal (ℕ.suc (ℕ.suc ℕ.zero) ∷ []) = some (characters stored_text)
unmarshal _ = none

abbrev marshal : Chars → Option Bytes
marshal s = if str_eq (of_list s) stored_text then some (2 ∷ []) else none

characters-of_list : (s : Chars) → characters (of_list s) ≡ s
characters-of_list [] = refl
characters-of_list (c ∷ s) = ap (λ cs. c ∷ cs) (characters-of_list s)

two_texts : IsJson unmarshal marshal
two_texts = record {
  round_trip = λ s out e. elim (Bool-cases (str_eq (of_list s) stored_text)) [
    | inr other ↦ ground arith
    | inl same ↦
        let is : 2 ∷ [] ≡ out = ground arith in
        let text : characters stored_text ≡ s =
          ap characters (sym ((eq_iff (of_list s) stored_text).0 same)) ∙ characters-of_list s in
        subst (λ o. unmarshal o ≡ some s) is (ap some text)
  ];
  not_empty = λ s out e. elim (Bool-cases (str_eq (of_list s) stored_text)) [
    | inr other ↦ ground arith
    | inl same ↦ let is : 2 ∷ [] ≡ out = ground arith in subst (λ o. no_items o ≡ false) is refl
  ];
}

abbrev same_char : Char → Char
same_char c = c

abbrev raw_envelope : Bytes → Envelope
raw_envelope payload = envelope "raw" payload no_messages

abbrev bulk : Bytes → Envelope
bulk payload = envelope "" [] (more_messages (raw_envelope payload) no_messages)

validate-IsSafe_example :
    IsSafe (characters "7") (refl, tt) same_char unmarshal marshal two_texts (bulk (2 ∷ []))
    × (("raw" ∷ []) ≡ commands_of (bulk (1 ∷ [])))
    × (("raw" ∷ []) ≡ commands_of (bulk (2 ∷ [])))
unfolding validate validate_single validate_raw trim_space trim_left trim_right is_space
    before_semicolon without_stamp raw_command_name add_entry_time cut_at
validate-IsSafe_example =
    validate-IsSafe (characters "7") (refl, tt) same_char unmarshal marshal two_texts
      (bulk (1 ∷ [])) (bulk (2 ∷ [])) ("raw" ∷ []) refl

-- A denied command, in small letters and behind a stamp.
denied_command :
    raw_command_name same_char (characters "[1] shutdown_program;now") ≡ codes "SHUTDOWN_PROGRAM"
unfolding raw_command_name trim_space trim_left trim_right is_space before_semicolon without_stamp
    cut_at
denied_command = refl

-- A semicolon inside the brackets hides the name of the command, whose text stays as it is.
hidden_command :
    (is_denied same_char (characters "[1;] SHUTDOWN_PROGRAM") ≡ false)
    × (add_entry_time (characters "7") (characters "[1;] SHUTDOWN_PROGRAM")
        ≡ characters "[1;] SHUTDOWN_PROGRAM")
unfolding raw_command_name trim_space trim_left trim_right is_space before_semicolon without_stamp
    cut_at add_entry_time
hidden_command = (refl, refl)

abbrev request : Request
request = record {
  method = "POST";
  authorization = characters "Bearer k";
  x_api_key = [];
  body = parsed (bulk (1 ∷ []));
}

abbrev encode : Envelope → Option Bytes
encode env = some (5 ∷ [])

-- The connection in hand turns out to be broken, and the second attempt dials.
abbrev broken : Attempt
broken = record { context_done = false; still_open = true; dialed = true; sent = false }

abbrev redialed : Attempt
redialed = record { context_done = false; still_open = true; dialed = true; sent = true }

abbrev world : World
world = record { publisher = record { connected = true; submissions = [] }; ticks = [] }

abbrev answer : Response × World
answer =
    serve_http same_char (characters "7") unmarshal marshal encode rabbitmq broken redialed
      (characters "k" ∷ []) request world

answered :
    (answer.0.status ≡ 202)
    × (answer.0.accepted ≡ 1)
    × (answer.1.publisher.submissions
        ≡ record { payload = 5 ∷ []; accepted = false }
          ∷ record { payload = 5 ∷ []; accepted = true }
          ∷ [])
unfolding serve_http authorized extract_api_key check_and_publish publish_checked validate
    validate_single validate_raw trim_space trim_left trim_right is_space before_semicolon
    without_stamp raw_command_name add_entry_time cut_at publish publish_once is_usable
answered = (refl, refl, refl)

serve_http-IsPublished_example :
    ((answer.0.status ≡ 202)
      × IsPublished same_char
          (characters "7")
          (refl, tt)
          unmarshal
          marshal
          two_texts
          encode
          rabbitmq
          broken
          redialed
          (characters "k" ∷ [])
          request
          world
          answer)
    ⊎ (((answer.0.status ≡ 503)
          × IsUnsure same_char
              (characters "7")
              (refl, tt)
              unmarshal
              marshal
              two_texts
              encode
              rabbitmq
              broken
              redialed
              (characters "k" ∷ [])
              request
              world
              answer)
        ⊎ (((answer.0.status == 202) ≡ false)
            × ((answer.0.status == 503) ≡ false)
            × (answer.1.publisher.submissions ≡ [])))
serve_http-IsPublished_example =
    serve_http-IsPublished same_char (characters "7") (refl, tt) unmarshal marshal two_texts encode
      rabbitmq broken redialed (characters "k" ∷ []) request world
