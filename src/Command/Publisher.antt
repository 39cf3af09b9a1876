-- ===== src/Command/Publisher.antt =====
-- internal/command/publisher.go: `Publish` of the two publishers. How the client library and the context
-- answer is an input, one `Attempt` for each round of the loop. A submission is a call of the library
-- that hands a payload over; one that returned an error may have reached the broker all the same.
use statusengine_worker.Prelude.{
  Bool, true, false, ◌||◌, ◌&&◌, not, List, [], ◌∷◌, ◌++◌, Bytes, if◌then◌else◌,
}

pub data Backend : Type 0 where
  gearman rabbitmq : Backend

-- `ctx.Err()`, whether the channel in hand is open, whether a new connection comes about, and whether
-- the submission returns without an error.
pub record Attempt : Type 0 where
  pub context_done : Bool
  pub still_open : Bool
  pub dialed : Bool
  pub sent : Bool

pub record Submission : Type 0 where
  pub payload : Bytes
  pub accepted : Bool

-- Submissions, oldest first.
pub record Publisher : Type 0 where
  pub connected : Bool
  pub submissions : List Submission

pub data Outcome : Type 0 where
  published gave_up try_again : Outcome

module _ (backend : Backend) (payload : Bytes) where
  -- A Gearman client is used as long as it is there, a channel of RabbitMQ only while it is open.
  unfoldable pub is_usable : Attempt → Publisher → Bool
  is_usable a p = elim backend [ gearman ↦ p.connected | rabbitmq ↦ p.connected && a.still_open ]

  abbrev pub submit : Bool → Publisher → Publisher
  submit accepted p = record {
    connected = accepted;
    submissions = p.submissions ++ record { payload = payload; accepted = accepted } ∷ [];
  }

  -- One round of the loop.
  unfoldable pub publish_once : Attempt → Publisher → Outcome × Publisher
  unfolding is_usable
  publish_once a p =
      if a.context_done
      then (gave_up, p)
      else if not (is_usable a p || a.dialed)
      then (try_again, record p { connected = false })
      else if a.sent
      then (published, submit true p)
      else (try_again, submit false p)

  unfoldable pub publish : List Attempt → Publisher → Bool × Publisher
  unfolding publish_once
  publish [] p = (false, p)
  publish (a ∷ attempts) p =
      let (outcome, p') = publish_once a p in
      elim outcome [
        | published ↦ (true, p')
        | gave_up ↦ (false, p')
        | try_again ↦ publish attempts p'
      ]
