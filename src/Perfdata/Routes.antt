-- ===== src/Perfdata/Routes.antt =====
-- internal/queue/processor.go: where the metrics of a payload go.
use Prim.Native.String.{String}
use statusengine_worker.Prelude.{
  Chars, Bool, true, false, Option, none, some, List, [], ◌∷◌, ◌++◌, Bytes, ◌≡◌, refl, sym, ap, ◌∙◌,
  arith, map, map-append, inl, inr, Bool-cases, Option-cases, append-nil, append_assoc,
  if◌then◌else◌,
}
use statusengine_worker.Hub.{has_clients}
use statusengine_worker.Queue.{HandlerError, publish_batch}
use statusengine_worker.Queue.Handlers.{World, Enqueue, enqueue_all}
use statusengine_worker.Queue.Enqueued.{Records, itself}
use statusengine_worker.Events.Checks.{ServiceCheckPayload, PerfdataEvent}
use statusengine_worker.Tables.HistoryRows.{PerfdataMetric}
use statusengine_worker.Perfdata.Handler.{
  PerfdataRoute, to_mysql, to_graphite, sanitize_graphite_path_segment, Metric, graphite_metric,
  enqueue_metric, metrics_of, store_events, new_perfdata_handler,
}

abbrev pub only : {A : Type 0} → Bool → List A → List A
only b xs = if b then xs else []

only-append : {A : Type 0} (b : Bool) (xs ys : List A) → only b (xs ++ ys) ≡ only b xs ++ only b ys
only-append true xs ys = refl
only-append false xs ys = refl

module _ {F M G : Type 0} (route : PerfdataRoute) (mysql_ins : Enqueue (PerfdataMetric F) M)
    (gc : Enqueue (Metric F) G) (prefix : Chars) (rows : M → List (PerfdataMetric F))
    (sent : G → List (Metric F)) (rm : Records mysql_ins rows itself)
    (rg : Records gc sent itself) where
  -- The state after metrics that were all taken.
  abbrev pub Takes : List (PerfdataMetric F) → M × G → M × G → Type 0
  Takes ms s s' =
      (rows s'.0 ≡ rows s.0 ++ only (to_mysql route) ms)
      × (sent s'.1 ≡ sent s.1 ++ only (to_graphite route) (map (graphite_metric prefix) ms))

  enqueue_metric-Takes :
      (metric : PerfdataMetric F) (s : M × G)
      → (enqueue_metric route mysql_ins gc prefix metric s).0 ≡ true
      → Takes (metric ∷ []) s (enqueue_metric route mysql_ins gc prefix metric s).1
  unfolding enqueue_metric
  enqueue_metric-Takes metric (m, g) ok = ground (
    arith,
    rm.accepted metric m,
    rg.accepted (graphite_metric prefix metric) g,
    append-nil (rows m),
    append-nil (sent g),
  )

  Takes-append :
      (a b : List (PerfdataMetric F)) (s s' s'' : M × G)
      → Takes a s s'
      → Takes b s' s''
      → Takes (a ++ b) s s''
  Takes-append a b s s' s'' t u = ground (
    arith,
    t,
    u,
    only-append (to_mysql route) a b,
    map-append (graphite_metric prefix) a b,
    only-append (to_graphite route) (map (graphite_metric prefix) a)
        (map (graphite_metric prefix) b),
    append_assoc (rows s.0) (only (to_mysql route) a) (only (to_mysql route) b),
    append_assoc (sent s.1) (only (to_graphite route) (map (graphite_metric prefix) a))
        (only (to_graphite route) (map (graphite_metric prefix) b)),
  )

  Takes-nothing : (s : M × G) → Takes [] s s
  Takes-nothing s = ground (arith, append-nil (rows s.0), append-nil (sent s.1))

  enqueue_all-Takes :
      (ms : List (PerfdataMetric F)) (w w' : World (M × G))
      → enqueue_all (enqueue_metric route mysql_ins gc prefix) ms w ≡ (none, w')
      → Takes ms w.inserters w'.inserters × (w'.hub ≡ w.hub)
  unfolding enqueue_all
  enqueue_all-Takes [] w w' e =
      let same : w ≡ w' = ap (λ (r : Option HandlerError × World (M × G)). r.1) e in
      rw (sym same) (Takes-nothing w.inserters, refl)
  enqueue_all-Takes (m ∷ ms) w w' e =
      let took = enqueue_metric route mysql_ins gc prefix m w.inserters in
      elim (Bool-cases took.0) [
        | inr full ↦ ground arith
        | inl room ↦
            let rest : enqueue_all (enqueue_metric route mysql_ins gc prefix) ms
                  (record w { inserters = took.1 })
                ≡ (none, w') =
              rw (room, enqueue_all) at e in
            let (later, hub) = enqueue_all-Takes ms (record w { inserters = took.1 }) w' rest in
            (
              Takes-append (m ∷ []) ms w.inserters took.1 w'.inserters
                  (enqueue_metric-Takes m w.inserters room) later,
              hub,
            )
      ]

abbrev pub all_metrics :
    {F : Type 0} → (Chars → Option F) → List (PerfdataEvent F) → List (PerfdataMetric F)
all_metrics parse_float [] = []
all_metrics parse_float (ev ∷ events) = metrics_of parse_float ev ++ all_metrics parse_float events

module _ {F M G : Type 0} (parse_float : Chars → Option F)
    (mysql_ins : Enqueue (PerfdataMetric F) M) (gc : Enqueue (Metric F) G)
    (rows : M → List (PerfdataMetric F)) (sent : G → List (Metric F))
    (rm : Records mysql_ins rows itself) (rg : Records gc sent itself) where
  store_events-Takes :
      (route : PerfdataRoute) (prefix : Chars) (events : List (PerfdataEvent F))
      (w w' : World (M × G))
      → store_events route mysql_ins gc prefix parse_float events w ≡ (none, w')
      → Takes route mysql_ins gc prefix rows sent rm rg
          (all_metrics parse_float events)
          w.inserters
          w'.inserters
        × (w'.hub ≡ w.hub)
  unfolding store_events
  store_events-Takes route prefix [] w w' e =
      let same : w ≡ w' = ap (λ (r : Option HandlerError × World (M × G)). r.1) e in
      rw (sym same) (Takes-nothing route mysql_ins gc prefix rows sent rm rg w.inserters, refl)
  store_events-Takes route prefix (ev ∷ events) w w' e =
      let metrics = metrics_of parse_float ev in
      let first = enqueue_all (enqueue_metric route mysql_ins gc prefix) metrics w in
      elim (Option-cases first.0) [
        | inr (err, failed) ↦ ground arith
        | inl ok ↦
            let done : enqueue_all (enqueue_metric route mysql_ins gc prefix) metrics w
                ≡ (none, first.1) =
              ap (λ o. (o, first.1)) ok in
            let rest : store_events route mysql_ins gc prefix parse_float events first.1
                ≡ (none, w') =
              rw (ok, store_events) at e in
            let (t, hub) =
              enqueue_all-Takes route mysql_ins gc prefix rows sent rm rg metrics w first.1 done in
            let (u, hub') = store_events-Takes route prefix events first.1 w' rest in
            (
              Takes-append route mysql_ins gc prefix rows sent rm rg metrics
                  (all_metrics parse_float events) w.inserters first.1.inserters w'.inserters t u,
              hub' ∙ hub,
            )
      ]

  -- A perfdata handler that returns no error has sent every metric of every decoded check to the
  -- destinations of its route, in order: to MySQL unless the route is graphite, to graphite unless
  -- it is mysql. The checks themselves are published unchanged.
  pub new_perfdata_handler-delivers :
      (marshal : List (ServiceCheckPayload F) → Option Bytes) (topic : String)
      (decode : Bytes → Option (List (PerfdataEvent F))) (route : PerfdataRoute) (prefix : Chars)
      (payload : Bytes) (w w' : World (M × G))
      → new_perfdata_handler marshal topic decode parse_float route mysql_ins gc prefix payload w
        ≡ (none, w')
      → (events : List (PerfdataEvent F)) × (decode payload ≡ some events)
        × (rows w'.inserters.0
            ≡ rows w.inserters.0 ++ only (to_mysql route) (all_metrics parse_float events))
        × (sent w'.inserters.1
            ≡ sent w.inserters.1
              ++ only (to_graphite route) (
                  map
                    (graphite_metric (sanitize_graphite_path_segment prefix))
                    (all_metrics parse_float events)))
        × (w'.hub ≡ publish_batch marshal w.hub topic (map (λ ev. ev.payload) events))
  unfolding new_perfdata_handler publish_batch
  new_perfdata_handler-delivers marshal topic decode route prefix payload w w' e =
      elim (Option-cases (decode payload)) [
        | inl bad ↦ ground arith
        | inr (events, good) ↦
            let w₀ : World (M × G) = record w {
              hub =
                  if has_clients w.hub
                  then publish_batch marshal w.hub topic (map (λ ev. ev.payload) events)
                  else w.hub;
            } in
            let (took, hub) =
              store_events-Takes route (sanitize_graphite_path_segment prefix) events w₀ w'
                (rw (good, new_perfdata_handler) at e) in
            (events, good, took.0, took.1, ground (arith, hub))
      ]
