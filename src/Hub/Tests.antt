-- ===== src/Hub/Tests.antt =====
-- A hub with two clients, one of them behind.
use statusengine_worker.Prelude.{
  ◌≡◌, ◌≢◌, ◌↔◌, refl, String, true, false, Option, some, [], ◌∷◌, ◌++◌, Bytes, pos, codes,
  replicate, arith, map,
}
use statusengine_worker.Hub.{
  Event, Client, Hub, new_hub, has_clients, register, closing, wants_topic,
  apply_subscription_update, write_pump,
}
use statusengine_worker.Hub.Dispatch.{dispatch, encode}
use statusengine_worker.Hub.Run.{cancelled, registers, updates, receives, writes, step, run}
use statusengine_worker.Hub.Delivery.{dispatch-offer}
use statusengine_worker.Hub.Invariant.{Inv}
use statusengine_worker.Hub.Reachable.{
  Reachable, created, stepped, AreDrained, Reachable-Inv, has_clients_iff, cancelled_final,
}

abbrev quoted : String → Option Bytes
quoted topic = some (codes "\"" ++ (codes topic ++ codes "\""))

abbrev watcher : Client
watcher = record { id = 1; send = []; closed = false; topics = []; dropped = 0 }

abbrev picky : Client
picky = record {
  id = 2;
  send = [];
  closed = false;
  topics = "statusngin_hoststatus" ∷ [];
  dropped = 0;
}

abbrev behind : Client
behind = record { id = 3; send = replicate 256 []; closed = false; topics = []; dropped = 7 }

abbrev crowd : Hub
crowd = record {
  broadcast = [];
  clients = watcher ∷ picky ∷ behind ∷ [];
  gone = [];
  topic_prefix = [];
  publish_dropped = 0;
  client_count = pos 3;
  received = 0;
  dispatched = 0;
  dropped = 0;
  done = false;
  ticks = [];
}

abbrev downtime_frame : Event
downtime_frame = record { topic = "statusngin_downtimes"; payload = codes "[{}]"; events = 1 }

abbrev wire : Bytes
wire = codes "{\"topic\":\"statusngin_downtimes\",\"payload\":[{}]}"

frame_bytes : (encode quoted downtime_frame crowd).0 ≡ some wire
unfolding encode
frame_bytes = refl

dispatch-offer_example :
    (dispatch quoted downtime_frame crowd).clients
    ≡ record watcher { send = wire ∷ [] } ∷ picky ∷ record behind { dropped = 8 } ∷ []
unfolding wants_topic
dispatch-offer_example = dispatch-offer quoted downtime_frame wire crowd tt refl

one_client : Reachable quoted (step quoted new_hub (registers watcher))
unfolding new_hub
one_client = stepped (registers watcher) ((refl, omega arith), refl, refl) (created)

Reachable-Inv_example : Inv quoted (step quoted new_hub (registers watcher))
Reachable-Inv_example = Reachable-Inv quoted one_client

has_clients_iff_example :
    (has_clients (step quoted new_hub (registers watcher)) ≡ true)
    ↔ ((step quoted new_hub (registers watcher)).clients ≢ [])
has_clients_iff_example = has_clients_iff quoted one_client

abbrev served : Hub
served =
    step quoted
      (step quoted (step quoted new_hub (registers watcher))
        (updates 1 (record { subscribe = []; unsubscribe = [] })))
      (writes 1)

served_client : Reachable quoted served
unfolding new_hub
served_client = stepped (writes 1) tt (stepped (updates 1 _) tt one_client)

cancelled_final_example :
    let h' = run quoted (step quoted served cancelled) (receives ∷ writes 1 ∷ []) in
    (h'.clients ≡ [])
    × (h'.client_count ≡ pos 0)
    × AreDrained quoted (served.gone ++ map closing served.clients) h'.gone
unfolding step new_hub register apply_subscription_update write_pump
cancelled_final_example = cancelled_final quoted (receives ∷ writes 1 ∷ []) served_client refl
