-- ===== src/Hub.antt =====
-- internal/websocket/hub.go, with the part of client.go that the hub touches. A channel is the
-- list of what it holds, oldest first; a pointer to a client is the client's id. Go walks the
-- map of clients in no fixed order, the model in the order of the list. `gone` keeps the clients
-- that left the map, for their send channels.
pub mod Dispatch
pub mod Run
pub mod Encoding
pub mod Delivery
pub mod Invariant
pub mod Fanout
pub mod Reachable
mod Tests
use statusengine_worker.Prelude.{
  u64, ℕ, suc, ◌+◌, ◌%◌, String, Bool, true, false, not, ◌||◌, Option, none, some, List, [], ◌∷◌,
  ◌++◌, ℤ, pos, negsuc, ◌+ℤ◌, ltb_ℤ, Bytes, codes, str_eq, ltb, ◌==◌, if◌then◌else◌, length, filter,
  map,
}
use statusengine_worker.Metrics.{
  Tick, clients_inc, clients_dec, frames_sent, broadcasted, websocket_dropped, publish_dropped,
  pipeline_errors, component_websocket,
}

abbrev pub broadcast_buffer_size : ℕ
broadcast_buffer_size = 1024

abbrev pub send_buffer_size : ℕ
send_buffer_size = 256

pub record Event : Type 0 where
  pub topic : String
  pub payload : Bytes
  pub events : ℕ

pub record Client : Type 0 where
  pub id : ℕ
  pub send : List Bytes
  pub closed : Bool
  pub topics : List String
  pub dropped : ℕ

pub record SubscriptionMessage : Type 0 where
  pub subscribe : List String
  pub unsubscribe : List String

pub record Hub : Type 0 where
  pub broadcast : List Event
  pub clients : List Client
  pub gone : List Client
  pub topic_prefix : List (String × Bytes)
  pub publish_dropped : ℕ
  pub client_count : ℤ
  pub received : ℕ
  pub dispatched : ℕ
  pub dropped : ℕ
  pub done : Bool
  pub ticks : List Tick

unfoldable pub new_hub : Hub
new_hub = record {
  broadcast = [];
  clients = [];
  gone = [];
  topic_prefix = [];
  publish_dropped = 0;
  client_count = pos 0;
  received = 0;
  dispatched = 0;
  dropped = 0;
  done = false;
  ticks = [];
}

unfoldable pub has_clients : Hub → Bool
has_clients h = ltb_ℤ (pos 0) h.client_count

unfoldable pub publish : Hub → String → Bytes → ℕ → Hub
publish h topic payload events =
    if ltb (length h.broadcast) broadcast_buffer_size
    then record h {
      broadcast = h.broadcast ++ record { topic = topic; payload = payload; events = events } ∷ [];
    }
    else record h {
      publish_dropped = u64 (h.publish_dropped + events);
      ticks = publish_dropped events ∷ h.ticks;
    }

-- A set of topics is a list without repetition.
abbrev pub contains : List String → String → Bool
contains [] t = false
contains (s ∷ ss) t = str_eq s t || contains ss t

abbrev pub is_empty : List String → Bool
is_empty [] = true
is_empty (s ∷ ss) = false

unfoldable pub wants_topic : Client → String → Bool
wants_topic c topic = is_empty c.topics || contains c.topics topic

abbrev pub lookup_prefix : String → List (String × Bytes) → Option Bytes
lookup_prefix t [] = none
lookup_prefix t ((k, p) ∷ rest) = if str_eq k t then some p else lookup_prefix t rest

abbrev pub topic_key : Bytes
topic_key = codes "{\"topic\":"

abbrev pub payload_key : Bytes
payload_key = codes ",\"payload\":"

-- The map's entry for a client.
abbrev pub is_registered : ℕ → List Client → Bool
is_registered id [] = false
is_registered id (c ∷ cs) = (c.id == id) || is_registered id cs

abbrev pub add_client : Client → List Client → List Client
add_client c cs = if is_registered c.id cs then cs else cs ++ c ∷ []

abbrev pub delete_client : ℕ → List Client → List Client
delete_client id [] = []
delete_client id (c ∷ cs) = if c.id == id then cs else c ∷ delete_client id cs

-- The clients that are taken out of the map have their send channel closed; what they were is
-- returned, since their write pumps still drain what is buffered.
abbrev pub find_client : ℕ → List Client → List Client
find_client id [] = []
find_client id (c ∷ cs) = if c.id == id then c ∷ [] else find_client id cs

abbrev pub closing : Client → Client
closing c = record c { closed = true }

unfoldable pub register : Client → Hub → Hub
register c h = record h {
  clients = add_client c h.clients;
  client_count = h.client_count +ℤ pos 1;
  ticks = clients_inc ∷ h.ticks;
}

unfoldable pub remove_client : ℕ → Hub → Hub
remove_client id h =
    if is_registered id h.clients
    then record h {
      clients = delete_client id h.clients;
      gone = h.gone ++ map closing (find_client id h.clients);
      client_count = h.client_count +ℤ negsuc 0;
      ticks = clients_dec ∷ h.ticks;
    }
    else h

abbrev pub add_topics : List String → List String → List String
add_topics [] topics = topics
add_topics (t ∷ ts) topics = add_topics ts (if contains topics t then topics else t ∷ topics)

abbrev pub drop_topics : List String → List String → List String
drop_topics [] topics = topics
drop_topics (t ∷ ts) topics = drop_topics ts (filter (λ s. not (str_eq s t)) topics)

abbrev pub subscribe : SubscriptionMessage → Client → Client
subscribe sub c = record c {
  topics = drop_topics sub.unsubscribe (add_topics sub.subscribe c.topics);
}

abbrev pub update_client : ℕ → (Client → Client) → List Client → List Client
update_client id f [] = []
update_client id f (c ∷ cs) = if c.id == id then f c ∷ cs else c ∷ update_client id f cs

unfoldable pub apply_subscription_update : ℕ → SubscriptionMessage → Hub → Hub
apply_subscription_update id sub h =
    if is_registered id h.clients
    then record h { clients = update_client id (subscribe sub) h.clients }
    else h

-- `closeAll` goes through the whole map.
close_from : List Client → Hub → Hub
close_from [] h = record h { clients = [] }
close_from (c ∷ cs) h = close_from cs (record h {
  gone = h.gone ++ closing c ∷ [];
  client_count = h.client_count +ℤ negsuc 0;
  ticks = clients_dec ∷ h.ticks;
})

unfoldable pub close_all : Hub → Hub
unfolding close_from
close_all h = close_from h.clients h

abbrev pub after_first : List Bytes → List Bytes
after_first [] = []
after_first (m ∷ ms) = ms

-- `writePump` receives from the channel of its client; a closed channel still holds what was
-- buffered.
unfoldable pub take_frame : Client → Client
take_frame c = record c { send = after_first c.send }

unfoldable pub write_pump : ℕ → Hub → Hub
unfolding take_frame
write_pump id h = record h {
  clients = update_client id take_frame h.clients;
  gone = update_client id take_frame h.gone;
}
