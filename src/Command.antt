-- ===== src/Command.antt =====
-- internal/command/validate.go: what the command API accepts. Decoding and encoding a JSON string are
-- parameters, as are the upper case of characters that are not ASCII, and `stamp`, the digits of the
-- clock.
mod Names
mod Spelled
mod Accepted
mod Validated
pub mod Publisher
mod Submitted
pub mod Endpoint
mod Answers
mod Tests
use Prim.Native.Char.{Char, code}
use statusengine_worker.Prelude.{
  ℕ, ◌+◌, ◌-◌, String, Bool, true, false, ◌||◌, ◌&&◌, not, Option, none, some, is_some, List, [],
  ◌∷◌, ◌++◌, Bytes, ◌==◌, leb, ltb, map, codes, bytes_eq, str_eq, length, if◌then◌else◌, Chars,
  cut_at,
}
use statusengine_worker.Queue.{no_items}

abbrev pub max_bulk_messages : ℕ
max_bulk_messages = 1000

pub data RejectReason : Type 0 where
  reason_auth reason_malformed reason_unknown_command reason_denied reason_too_large : RejectReason

mutual
  pub data Envelope : Type 0 where
    envelope : String → Bytes → Messages → Envelope

  pub data Messages : Type 0 where
    no_messages : Messages
    more_messages : Envelope → Messages → Messages

pub data Result {ℓ} (A : Type ℓ) : Type ℓ where
  ok : A → Result A
  rejected : RejectReason → Result A

abbrev pub message_count : Messages → ℕ
message_count no_messages = 0
message_count (more_messages m ms) = message_count ms + 1

-- `unicode.IsSpace`.
unfoldable pub is_space : Char → Bool
is_space c =
    (leb 9 (code c) && leb (code c) 13)
    || ((code c == 32)
        || ((code c == 0x85)
            || ((code c == 0xa0)
                || ((code c == 0x1680)
                    || ((leb 0x2000 (code c) && leb (code c) 0x200a)
                        || ((code c == 0x2028)
                            || ((code c == 0x2029)
                                || ((code c == 0x202f)
                                    || ((code c == 0x205f) || (code c == 0x3000))))))))))

-- `unicode.IsControl`.
abbrev pub is_control : Char → Bool
is_control c = leb (code c) 31 || (leb 127 (code c) && leb (code c) 159)

unfoldable pub trim_left : Chars → Chars
trim_left [] = []
trim_left (c ∷ cs) = elim (is_space c) [ true ↦ trim_left cs | false ↦ c ∷ cs ]

unfoldable pub trim_right : Chars → Chars
trim_right [] = []
trim_right (c ∷ cs) =
    let rest = trim_right cs in if is_space c && no_items rest then [] else c ∷ rest

unfoldable pub trim_space : Chars → Chars
unfolding trim_left trim_right
trim_space cs = trim_right (trim_left cs)

-- Everything before the first semicolon.
unfoldable pub before_semicolon : Chars → Chars
before_semicolon [] = []
before_semicolon (c ∷ cs) = elim (code c == b';') [ true ↦ [] | false ↦ c ∷ before_semicolon cs ]

abbrev pub starts_with_bracket : Chars → Bool
starts_with_bracket [] = false
starts_with_bracket (c ∷ cs) = code c == b'['

abbrev pub has_closing_bracket : Chars → Bool
has_closing_bracket cs = is_some (cut_at "]" cs)

abbrev pub forbidden_control : Char → Bool
forbidden_control c = not (code c == b'\t') && is_control c

-- The loop over the characters of a raw command.
abbrev pub has_control : Chars → Bool
has_control [] = false
has_control (c ∷ cs) = forbidden_control c || has_control cs

abbrev pub known_commands : List String
known_commands = "check_result" ∷ "schedule_check" ∷ "delete_downtime" ∷ "raw" ∷ []

abbrev pub is_one_of : String → List String → Bool
is_one_of name [] = false
is_one_of name (known ∷ rest) = str_eq name known || is_one_of name rest

abbrev pub is_known_command : String → Bool
is_known_command name = is_one_of name known_commands

abbrev pub denied_raw_commands : List Bytes
denied_raw_commands = map codes (
    "SHUTDOWN_PROGRAM" ∷ "SHUTDOWN_PROCESS" ∷ "RESTART_PROGRAM" ∷ "RESTART_PROCESS" ∷ "PROCESS_FILE"
    ∷ [])

abbrev pub is_listed : Bytes → List Bytes → Bool
is_listed name [] = false
is_listed name (x ∷ xs) = bytes_eq name x || is_listed name xs

-- `len(env.Data) == 0` and the other tests of one command.
abbrev pub is_raw : String → Bool
is_raw name = str_eq name "raw"

unfoldable pub add_entry_time : Chars → Chars → Chars
add_entry_time stamp raw =
    if starts_with_bracket raw && has_closing_bracket raw
    then raw
    else "[" ∷ (stamp ++ "]" ∷ " " ∷ raw)

-- A leading stamp in brackets is left out.
unfoldable pub without_stamp : Chars → Chars
unfolding trim_space cut_at
without_stamp name =
    if starts_with_bracket name
    then elim (cut_at "]" name) [ none ↦ name | some (stamp, after) ↦ trim_space after ]
    else name

module _ (upper_beyond_ascii : Char → Char) where
  -- The number of the upper case of a character.
  abbrev pub upper_code : Char → ℕ
  upper_code c =
      if leb (code c) 127
      then (if leb b'a' (code c) && leb (code c) b'z' then code c - 32 else code c)
      else code (upper_beyond_ascii c)

  unfoldable pub raw_command_name : Chars → Bytes
  unfolding trim_space before_semicolon without_stamp
  raw_command_name raw = map upper_code (without_stamp (trim_space (before_semicolon raw)))

  abbrev pub is_denied : Chars → Bool
  is_denied raw = is_listed (raw_command_name raw) denied_raw_commands

  module _ (stamp : Chars) (unmarshal : Bytes → Option Chars) (marshal : Chars → Option Bytes) where
    unfoldable pub validate_raw : Bytes → Result Bytes
    unfolding add_entry_time raw_command_name
    validate_raw payload = elim (unmarshal payload) [
      | none ↦ rejected reason_malformed
      | some raw ↦
          let trimmed = trim_space raw in
          if no_items trimmed
          then rejected reason_malformed
          else if has_control raw
          then rejected reason_malformed
          else if is_denied trimmed
          then rejected reason_denied
          else elim (marshal (add_entry_time stamp trimmed)) [
            | none ↦ rejected reason_malformed
            | some out ↦ ok out
          ]
    ]

    -- An envelope without messages.
    unfoldable pub validate_single : String → Bytes → Result (Envelope × List String)
    unfolding validate_raw
    validate_single command payload =
        if str_eq command ""
        then rejected reason_malformed
        else if no_items payload
        then rejected reason_malformed
        else if not (is_known_command command)
        then rejected reason_unknown_command
        else if is_raw command
        then elim (validate_raw payload) [
          | rejected r ↦ rejected r
          | ok normalized ↦ ok (envelope command normalized no_messages, command ∷ [])
        ]
        else ok (envelope command payload no_messages, command ∷ [])

    -- The envelope in the result is the one that `validate` leaves in place of its argument.
    unfoldable mutual
      unfolding validate_single

      pub validate : ℕ → Envelope → Result (Envelope × List String)
      validate depth (envelope command payload no_messages) =
          if ltb 1 depth then rejected reason_malformed else validate_single command payload
      validate depth (envelope command payload (more_messages m ms)) =
          let inner = validate_all (depth + 1) (more_messages m ms) in
          if ltb 1 depth
          then rejected reason_malformed
          else if not (str_eq command "") || not (no_items payload)
          then rejected reason_malformed
          else if ltb max_bulk_messages (message_count (more_messages m ms))
          then rejected reason_too_large
          else elim inner [
            | rejected r ↦ rejected r
            | ok (checked, names) ↦ ok (envelope command payload checked, names)
          ]

      pub validate_all : ℕ → Messages → Result (Messages × List String)
      validate_all depth no_messages = ok (no_messages, [])
      validate_all depth (more_messages m ms) =
          let first = validate depth m in
          let others = validate_all depth ms in
          elim first [
            | rejected r ↦ rejected r
            | ok (m', names) ↦ elim others [
              | rejected r ↦ rejected r
              | ok (ms', more) ↦ ok (more_messages m' ms', names ++ more)
            ]
          ]
