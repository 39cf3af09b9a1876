-- ===== src/Command/Endpoint.antt =====
-- internal/command/handler.go and auth.go: the request handler of the command API. How the body
-- decodes is part of the request; the encoding of an envelope is a parameter, and so is how the two
-- attempts to publish it go. The text of an error response is left out.
use Prim.Native.Char.{Char, code}
use statusengine_worker.Prelude.{
  ℕ, String, Bool, true, false, ◌||◌, ◌&&◌, not, Option, none, some, List, [], ◌∷◌, Bytes, ◌==◌,
  str_eq, length, if◌then◌else◌, Chars, characters,
}
use statusengine_worker.Metrics.{
  Tick, commands_received, commands_rejected, commands_published, command_publish_errors,
  pipeline_errors, component_command,
}
use statusengine_worker.Queue.{no_items}
use statusengine_worker.Command.{
  RejectReason, reason_auth, reason_malformed, reason_unknown_command, reason_denied,
  reason_too_large, Envelope, ok, rejected, trim_space, validate,
}
use statusengine_worker.Command.Publisher.{Backend, Attempt, Publisher, publish}

-- `dec.Decode(&env)`.
pub data Body : Type 0 where
  parsed : Envelope → Body
  not_json body_too_large : Body

pub record Request : Type 0 where
  pub method : String
  pub authorization : Chars
  pub x_api_key : Chars
  pub body : Body

pub record Response : Type 0 where
  pub status : ℕ
  pub accepted : ℕ

-- The publisher and the metrics.
pub record World : Type 0 where
  pub publisher : Publisher
  pub ticks : List Tick

abbrev pub chars_eq : Chars → Chars → Bool
chars_eq [] [] = true
chars_eq (a ∷ xs) (b ∷ ys) = (code a == code b) && chars_eq xs ys
chars_eq _ _ = false

-- `strings.TrimPrefix(text, prefix)`.
abbrev pub after_prefix : Chars → Chars → Option Chars
after_prefix [] text = some text
after_prefix (p ∷ prefix) [] = none
after_prefix (p ∷ prefix) (c ∷ text) = if code p == code c then after_prefix prefix text else none

abbrev pub trim_prefix : Chars → Chars → Chars
trim_prefix prefix text = elim (after_prefix prefix text) [ none ↦ text | some rest ↦ rest ]

unfoldable pub extract_api_key : Request → Chars
unfolding trim_space
extract_api_key r =
    if no_items r.authorization
    then trim_space r.x_api_key
    else trim_space (trim_prefix (characters "Bearer ") r.authorization)

-- The comparison with every key.
abbrev pub matches : Chars → List Chars → Bool
matches presented [] = false
matches presented (key ∷ keys) = chars_eq presented key || matches presented keys

unfoldable pub authorized : Request → List Chars → Bool
unfolding extract_api_key
authorized r valid_keys =
    if no_items (extract_api_key r) || no_items valid_keys
    then false
    else matches (extract_api_key r) valid_keys

unfoldable pub reason_label : RejectReason → String
reason_label reason_auth = "auth"
reason_label reason_malformed = "malformed"
reason_label reason_unknown_command = "unknown_command"
reason_label reason_denied = "denied"
reason_label reason_too_large = "too_large"

unfoldable pub status_of : RejectReason → ℕ
status_of reason_denied = 403
status_of reason_too_large = 413
status_of _ = 400

abbrev refuse : ℕ → World → Response × World
refuse status w = (record { status = status; accepted = 0 }, w)

abbrev reject : RejectReason → ℕ → World → Response × World
reject reason status w =
    refuse status (record w { ticks = commands_rejected (reason_label reason) ∷ w.ticks })

abbrev received : List String → List Tick → List Tick
received [] ts = ts
received (name ∷ names) ts = received names (commands_received name ∷ ts)

module _ (upper : Char → Char) (stamp : Chars) (unmarshal : Bytes → Option Chars)
    (marshal : Chars → Option Bytes) (encode : Envelope → Option Bytes) (backend : Backend)
    (first second : Attempt) (api_keys : List Chars) where
  -- From the validated envelope on.
  unfoldable pub publish_checked : Envelope → List String → World → Response × World
  unfolding reason_label publish
  publish_checked env names w = elim (encode env) [
    | none ↦ reject reason_malformed 400 w
    | some payload ↦
        let (sent, p) = publish backend payload (first ∷ second ∷ []) w.publisher in
        let w' : World = record w { publisher = p } in
        if not sent
        then refuse 503 (record w' {
          ticks = pipeline_errors component_command ∷ command_publish_errors ∷ w.ticks;
        })
        else (
          record { status = 202; accepted = length names },
          record w' { ticks = commands_published ∷ received names w.ticks },
        )
  ]

  unfoldable pub check_and_publish : Envelope → World → Response × World
  unfolding publish_checked status_of validate
  check_and_publish env w = elim (validate upper stamp unmarshal marshal 0 env) [
    | rejected reason ↦ reject reason (status_of reason) w
    | ok (checked, names) ↦ publish_checked checked names w
  ]

  unfoldable pub serve_http : Request → World → Response × World
  unfolding check_and_publish authorized
  serve_http r w =
      if not (str_eq r.method "POST")
      then refuse 405 w
      else if not (authorized r api_keys)
      then reject reason_auth 401 w
      else elim r.body [
        | body_too_large ↦ reject reason_too_large 413 w
        | not_json ↦ reject reason_malformed 400 w
        | parsed env ↦ check_and_publish env w
      ]
