-- ===== src/Downtime/Lifecycle.antt =====
-- What becomes of a downtime's rows over the messages of its life, for a handler whose statements
-- MySQL accepts.
use statusengine_worker.Prelude.{
  String, true, false, Option, none, some, List, Bytes, ◌≡◌, refl, ap, subst, ◌∙◌, pos, eqb_ℤ,
  arith,
}
use statusengine_worker.Queue
use statusengine_worker.Queue.{HandlerError}
use statusengine_worker.Downtime.{
  DowntimeMessage, DowntimePayload, determine_downtime_actions, downtime_attr_stop_cancelled,
  event_type_downtime_add, event_type_downtime_start, event_type_downtime_stop,
}
use statusengine_worker.Downtime.Exec.{Mysql, World, handle_message, downtime_handler}
use statusengine_worker.Downtime.Tables.{Key, Rows, write, write_self, Laws}
use statusengine_worker.Downtime.Effects.{
  exec_actions-effects, effects, effects_rows, key_for, next_history, next_scheduled, fresh,
}

module _ (m : Mysql) (laws : Laws m) (marshal : List DowntimeMessage → Option Bytes)
    (topic node_name : String) where
  open laws use {rows}

  -- The handler is done with the message, and every statement was accepted.
  abbrev pub Accepts : DowntimeMessage → World m → World m → Type 0
  Accepts msg w w' = handle_message m marshal topic node_name msg w ≡ (none, w')

  handle_message-rows :
      (msg : DowntimeMessage) (w w' : World m) (j : Key)
      → Accepts msg w w'
      → ((rows w'.db).history j
          ≡ write
              (key_for msg.downtime node_name)
              (next_history msg ((rows w.db).history (key_for msg.downtime node_name)))
              (rows w.db).history
              j)
        × ((rows w'.db).scheduled j
            ≡ write
                (key_for msg.downtime node_name)
                (next_scheduled msg ((rows w.db).scheduled (key_for msg.downtime node_name)))
                (rows w.db).scheduled
                j)
  unfolding handle_message
  handle_message-rows msg w w' j e =
      let same : rows w'.db ≡ effects (determine_downtime_actions msg node_name) (rows w.db) =
        exec_actions-effects m laws (determine_downtime_actions msg node_name)
          (record w { hub = Queue.publish marshal w.hub topic msg }) w' e in
      let table = effects_rows msg node_name (rows w.db) j in
      (
        ap (λ (r : Rows). r.history j) same ∙ table.0,
        ap (λ (r : Rows). r.scheduled j) same ∙ table.1,
      )

  -- A message changes the two rows of its own downtime in the way that the table of
  -- `DetermineDowntimeActions` says, and no other row.
  pub downtime_handler-rows :
      (decode : Bytes → Option DowntimeMessage) (payload : Bytes) (msg : DowntimeMessage)
      (w w' : World m) (j : Key)
      → decode payload ≡ some msg
      → downtime_handler m marshal topic node_name decode payload w ≡ (none, w')
      → ((rows w'.db).history j
          ≡ write
              (key_for msg.downtime node_name)
              (next_history msg ((rows w.db).history (key_for msg.downtime node_name)))
              (rows w.db).history
              j)
        × ((rows w'.db).scheduled j
            ≡ write
                (key_for msg.downtime node_name)
                (next_scheduled msg ((rows w.db).scheduled (key_for msg.downtime node_name)))
                (rows w.db).scheduled
                j)
  unfolding downtime_handler
  downtime_handler-rows decode payload msg w w' j d e =
      handle_message-rows msg w w' j (rw (d, downtime_handler) at e)

  own_rows :
      (p : DowntimePayload) (msg : DowntimeMessage) (w w' : World m)
      → msg.downtime ≡ p
      → Accepts msg w w'
      → ((rows w'.db).history (key_for p node_name)
          ≡ next_history msg ((rows w.db).history (key_for p node_name)))
        × ((rows w'.db).scheduled (key_for p node_name)
            ≡ next_scheduled msg ((rows w.db).scheduled (key_for p node_name)))
  own_rows p msg w w' same e =
      let k = key_for msg.downtime node_name in
      let r = handle_message-rows msg w w' k e in
      subst
        (λ (q : DowntimePayload).
          ((rows w'.db).history (key_for q node_name)
            ≡ next_history msg ((rows w.db).history (key_for q node_name)))
          × ((rows w'.db).scheduled (key_for q node_name)
              ≡ next_scheduled msg ((rows w.db).scheduled (key_for q node_name))))
        same (r.0 ∙ write_self k _ (rows w.db).history, r.1 ∙ write_self k _ (rows w.db).scheduled)

  -- A downtime that is added, starts and stops, its messages handled in that order, ends with a
  -- history row that holds both times and the reason, and with no scheduled row.
  pub in_order_life :
      (add start stop : DowntimeMessage) (w w₁ w₂ w₃ : World m)
      → add.type ≡ event_type_downtime_add
      → start.type ≡ event_type_downtime_start
      → stop.type ≡ event_type_downtime_stop
      → start.downtime ≡ add.downtime
      → stop.downtime ≡ add.downtime
      → Accepts add w w₁
      → Accepts start w₁ w₂
      → Accepts stop w₂ w₃
      → ((rows w₃.db).history (key_for add.downtime node_name)
          ≡ some (record {
            was_started = true;
            actual_start_time = start.timestamp;
            actual_end_time = stop.timestamp;
            was_cancelled = eqb_ℤ stop.attr downtime_attr_stop_cancelled;
          }))
        × ((rows w₃.db).scheduled (key_for add.downtime node_name) ≡ none)
  in_order_life add start stop w w₁ w₂ w₃ a s t p q x y z = ground (
    arith,
    own_rows add.downtime add w w₁ refl x,
    own_rows add.downtime start w₁ w₂ p y,
    own_rows add.downtime stop w₂ w₃ q z,
  )

  -- Handled before its ADD, on tables with no row of the downtime, a START is lost: the history row
  -- says that the downtime never started, and so does the scheduled row.
  pub start_before_add :
      (add start : DowntimeMessage) (w w₁ w₂ : World m)
      → add.type ≡ event_type_downtime_add
      → start.type ≡ event_type_downtime_start
      → start.downtime ≡ add.downtime
      → (rows w.db).history (key_for add.downtime node_name) ≡ none
      → Accepts start w w₁
      → Accepts add w₁ w₂
      → ((rows w₂.db).history (key_for add.downtime node_name) ≡ some fresh)
        × ((rows w₂.db).scheduled (key_for add.downtime node_name)
            ≡ some (record { was_started = false; actual_start_time = pos 0 }))
        × ((rows w₁.db).history (key_for add.downtime node_name) ≡ none)
  start_before_add add start w w₁ w₂ a s p gone x y =
      ground (arith, own_rows add.downtime start w w₁ p x, own_rows add.downtime add w₁ w₂ refl y)

  -- Handled after its STOP, a START puts the scheduled row of a finished downtime back.
  pub start_after_stop :
      (start stop : DowntimeMessage) (w w₁ w₂ : World m)
      → start.type ≡ event_type_downtime_start
      → stop.type ≡ event_type_downtime_stop
      → start.downtime ≡ stop.downtime
      → Accepts stop w w₁
      → Accepts start w₁ w₂
      → ((rows w₁.db).scheduled (key_for stop.downtime node_name) ≡ none)
        × ((rows w₂.db).scheduled (key_for stop.downtime node_name)
            ≡ some (record { was_started = true; actual_start_time = start.timestamp }))
  start_after_stop start stop w w₁ w₂ s t p x y =
      ground
        (arith, own_rows stop.downtime stop w w₁ refl x, own_rows stop.downtime start w₁ w₂ p y)
