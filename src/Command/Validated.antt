-- ===== src/Command/Validated.antt =====
-- internal/command/validate.go: what is known of an envelope that `Validate` lets pass.
use Prim.Native.Char.{Char}
use statusengine_worker.Prelude.{
  ℕ, ◌+◌, ◌≤◌, String, Bool, true, false, ◌||◌, not, Option, List, [], ◌∷◌, ◌++◌, Bytes, ltb, ◌≡◌,
  refl, arith, All, str_eq, ◌⊎◌, inl, inr, if◌then◌else◌, if-either, subst, Chars,
}
use statusengine_worker.Queue.{no_items}
use statusengine_worker.Command.{
  Envelope, envelope, Messages, no_messages, more_messages, Result, ok, rejected, message_count,
  max_bulk_messages, is_known_command, is_raw, validate_raw, validate_single, validate,
  validate_all,
}
use statusengine_worker.Command.Accepted.{IsJson, is_digit, IsSafeRaw, validate_raw-safe}

if-known {ℓ κ} :
    {A : Type ℓ} (Q : A → Type κ) (b : Bool) {x y : A}
    → (b ≡ true → Q x)
    → (b ≡ false → Q y)
    → Q (if b then x else y)
if-known Q true f g = f refl
if-known Q false f g = g refl

-- The commands of an envelope, in order.
abbrev mutual
  pub commands_of : Envelope → List String
  commands_of (envelope command payload no_messages) = command ∷ []
  commands_of (envelope command payload (more_messages m ms)) = commands_in (more_messages m ms)

  pub commands_in : Messages → List String
  commands_in no_messages = []
  commands_in (more_messages m ms) = commands_of m ++ commands_in ms

module _ (stamp : Chars) (digits : All (λ c. is_digit c ≡ true) stamp) (upper : Char → Char)
    (unmarshal : Bytes → Option Chars) (marshal : Chars → Option Bytes)
    (json : IsJson unmarshal marshal) where
  -- A single command is known, has data, and if it is raw a safe text. A bulk has no command of its
  -- own and at most the limit of messages, each of them safe.
  abbrev mutual
    pub IsSafe : Envelope → Type 0
    IsSafe (envelope command payload no_messages) =
        (is_known_command command ≡ true)
        × (no_items payload ≡ false)
        × ((is_raw command ≡ false) ⊎ IsSafeRaw stamp digits upper unmarshal marshal json payload)
    IsSafe (envelope command payload (more_messages m ms)) =
        (str_eq command "" ≡ true)
        × (no_items payload ≡ true)
        × (message_count ms + 1 ≤ max_bulk_messages)
        × AllSafe (more_messages m ms)

    pub AllSafe : Messages → Type 0
    AllSafe no_messages = Unit
    AllSafe (more_messages m ms) = IsSafe m × AllSafe ms

  abbrev Sound : Envelope → Envelope × List String → Type 0
  Sound env (env', names) = IsSafe env' × (names ≡ commands_of env) × (names ≡ commands_of env')

  abbrev Passes : Envelope → Result (Envelope × List String) → Type 0
  Passes env (rejected r) = Unit
  Passes env (ok checked) = Sound env checked

  abbrev AllPass : Messages → Result (Messages × List String) → Type 0
  AllPass ms (rejected r) = Unit
  AllPass ms (ok (ms', names)) =
      AllSafe ms'
      × (names ≡ commands_in ms)
      × (names ≡ commands_in ms')
      × (message_count ms' ≡ message_count ms)

  raw_outcome :
      (command : String) (payload : Bytes) (r : Result Bytes)
      → is_known_command command ≡ true
      → validate_raw upper stamp unmarshal marshal payload ≡ r
      → Passes (envelope command payload no_messages) (elim r [
        | rejected why ↦ rejected why
        | ok normalized ↦ ok (envelope command normalized no_messages, command ∷ [])
      ])
  raw_outcome command payload (rejected why) known e = tt
  raw_outcome command payload (ok normalized) known e =
      let (safe, filled) =
        validate_raw-safe stamp digits upper unmarshal marshal json payload normalized e in
      ((known, filled, inr safe), refl, refl)

  single_outcome :
      (command : String) (payload : Bytes)
      → Passes
          (envelope command payload no_messages)
          (validate_single upper stamp unmarshal marshal command payload)
  unfolding validate_single
  single_outcome command payload =
      let here : Result (Envelope × List String) → Type 0 =
        λ r. Passes (envelope command payload no_messages) r in
      if-known here (str_eq command "") (λ unnamed. tt)
        (λ named.
          if-known here (no_items payload) (λ empty. tt)
            (λ filled.
              if-known here (not (is_known_command command)) (λ unknown. tt)
                (λ known.
                  if-known here (is_raw command)
                    (λ raw. raw_outcome command payload _ (ground (arith, known)) refl)
                    (λ other. ((ground (arith, known), filled, inl other), refl, refl)))))

  bulk_outcome :
      (command : String) (payload : Bytes) (m : Envelope) (ms : Messages)
      (inner : Result (Messages × List String))
      → str_eq command "" ≡ true
      → no_items payload ≡ true
      → message_count ms + 1 ≤ max_bulk_messages
      → AllPass (more_messages m ms) inner
      → Passes (envelope command payload (more_messages m ms)) (elim inner [
        | rejected r ↦ rejected r
        | ok (checked, names) ↦ ok (envelope command payload checked, names)
      ])
  bulk_outcome command payload m ms (rejected r) unnamed empty few p = tt
  bulk_outcome command payload m ms (ok (no_messages, names)) unnamed empty few p = ground arith
  bulk_outcome command payload m ms (ok (more_messages m' ms', names)) unnamed empty few p =
      let (safe, before, after, same) = p in
      ((unnamed, empty, omega (arith, same), safe), before, after)

  all_step :
      (m : Envelope) (ms : Messages) (first : Result (Envelope × List String))
      (others : Result (Messages × List String))
      → Passes m first
      → AllPass ms others
      → AllPass (more_messages m ms) (elim first [
        | rejected r ↦ rejected r
        | ok (m', names) ↦ elim others [
          | rejected r ↦ rejected r
          | ok (ms', more) ↦ ok (more_messages m' ms', names ++ more)
        ]
      ])
  all_step m ms (rejected r) others p q = tt
  all_step m ms (ok first) (rejected r) p q = tt
  all_step m ms (ok (m', names)) (ok (ms', more)) (safe, before, after)
        (all, before', after', same) =
      ((safe, all), ground arith, ground arith, omega (arith, same))

  mutual
    unfolding validate

    outcome :
        (depth : ℕ) (env : Envelope) → Passes env (validate upper stamp unmarshal marshal depth env)
    outcome depth (envelope command payload no_messages) =
        if-either (λ r. Passes (envelope command payload no_messages) r) (ltb 1 depth) tt
          (single_outcome command payload)
    outcome depth (envelope command payload (more_messages m ms)) =
        let here : Result (Envelope × List String) → Type 0 =
          λ r. Passes (envelope command payload (more_messages m ms)) r in
        let inner = outcomes (depth + 1) (more_messages m ms) in
        if-known here (ltb 1 depth) (λ deep. tt)
          (λ shallow.
            if-known here (not (str_eq command "") || not (no_items payload)) (λ mixed. tt)
              (λ pure.
                if-known here (ltb max_bulk_messages (message_count ms + 1)) (λ many. tt)
                  (λ few.
                    bulk_outcome command payload m ms _ (ground (arith, pure))
                      (ground (arith, pure)) (ground (arith, few)) inner)))

    outcomes :
        (depth : ℕ) (ms : Messages)
        → AllPass ms (validate_all upper stamp unmarshal marshal depth ms)
    outcomes depth no_messages = (tt, refl, refl, refl)
    outcomes depth (more_messages m ms) = all_step m ms _ _ (outcome depth m) (outcomes depth ms)

  -- An envelope that `Validate` lets pass, as it leaves it to be published: every single command is
  -- known and has data; every raw command begins with a text in square brackets, has no control
  -- character but tabs, and is not `[time] name;arguments` with a name that is, in any case of its
  -- ASCII letters, SHUTDOWN_PROGRAM, SHUTDOWN_PROCESS, RESTART_PROGRAM, RESTART_PROCESS or
  -- PROCESS_FILE, as long as the brackets hold no semicolon; a bulk has no command of its own and at
  -- most 1000 messages. The names returned are the commands of the envelope, before and after, in
  -- order.
  pub validate-IsSafe :
      (env env' : Envelope) (names : List String)
      → validate upper stamp unmarshal marshal 0 env ≡ ok (env', names)
      → IsSafe env' × (names ≡ commands_of env) × (names ≡ commands_of env')
  validate-IsSafe env env' names e = subst (λ r. Passes env r) e (outcome 0 env)
