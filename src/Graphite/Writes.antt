-- ===== src/Graphite/Writes.antt =====
-- What a flush puts on the wire, and that it leaves a connection to be written to or none.
use statusengine_worker.Prelude.{
  ℕ, ◌≡◌, inl, inr, sym, ap, ◌∙◌, Bool, true, false, Option, none, some, List, [], ◌∷◌, ◌++◌, Bytes,
  length, append-nil, Bool-cases, if◌then◌else◌,
}
use statusengine_worker.Perfdata.Handler.{Metric}
use statusengine_worker.Graphite.{Client, Attempt, wrote, close_conn, ensure_conn}
use statusengine_worker.Graphite.Flush.{
  dial_failed, write_failed, Batch, record_drop, drop, write_lines, flush_metrics,
}
use statusengine_worker.Graphite.Lines.{lines}
use statusengine_worker.Graphite.Connection.{
  down, up, link_of, writes, IsLinked, close_conn-IsLinked, close_conn-writes, IsUsable, Ensures,
  ensure_conn-Ensures,
}

module _ {F : Type 0} where
  -- What a batch has put on the wire.
  abbrev pub attempted : (F → Bytes) → Batch F → List (Bytes × Bool)
  attempted append_float b = elim b.error [
    | none ↦ (lines append_float b.metrics, true) ∷ []
    | some write_failed ↦ (lines append_float b.metrics, false) ∷ []
    | some dial_failed ↦ []
  ]

  abbrev pub attempted_by : (F → Bytes) → Option (Batch F) → List (Bytes × Bool)
  attempted_by append_float none = []
  attempted_by append_float (some b) = attempted append_float b

module _ {F : Type 0} (lifetime : ℕ) where
  module _ (append_float : F → Bytes) where
    pub record Flushed (c : Client F) (r : Client F × Option (Batch F)) : Type 0 where
      pub stays : IsLinked lifetime r.0
      pub sends : writes r.0.wire ≡ writes c.wire ++ attempted_by append_float r.1

    write_lines-Flushed :
        (a : Attempt) (metrics : List (Metric F)) (c c' : Client F)
        → IsUsable lifetime a.now c'
        → writes c'.wire ≡ writes c.wire
        → Flushed c (write_lines append_float a metrics c')
    unfolding write_lines record_drop
    write_lines-Flushed a metrics c c' u same =
        let text = lines append_float metrics in
        let is_up : link_of c'.wire ≡ up c'.conn_since =
          u.is_linked.linked
          ∙ ap (λ (b : Bool). if b then up c'.conn_since else down) u.is_connected in
        elim (Bool-cases a.write_succeeds) [
          | inl ok ↦
              rw (ok, write_lines)
                (record {
                  stays = record {
                    same_lifetime = u.is_linked.same_lifetime;
                    proper = ((c'.conn_since, is_up, u.is_young), u.is_linked.proper);
                    linked = u.is_linked.linked;
                  };
                  sends = ap (λ ws. ws ++ (text, true) ∷ []) same;
                })
          | inr bad ↦
              let gone : Client F =
                drop (length metrics) (record c' { wire = wrote a.now text false ∷ c'.wire }) in
              let i : IsLinked lifetime (close_conn gone) =
                close_conn-IsLinked lifetime gone u.is_linked.same_lifetime
                  ((c'.conn_since, is_up, u.is_young), u.is_linked.proper) (λ on. cc)
                  (λ off. cc u.is_connected) in
              rw (bad, write_lines)
                (record {
                  stays = record {
                    same_lifetime = i.same_lifetime;
                    proper = i.proper;
                    linked = i.linked;
                  };
                  sends =
                      close_conn-writes lifetime gone ∙ ap (λ ws. ws ++ (text, false) ∷ []) same;
                })
        ]

    pub flush_metrics-Flushed :
        (a : Attempt) (metrics : List (Metric F)) (c : Client F)
        → IsLinked lifetime c
        → Flushed c (flush_metrics append_float a metrics c)
    unfolding flush_metrics record_drop
    flush_metrics-Flushed a [] c i = record { stays = i; sends = sym (append-nil (writes c.wire)) }
    flush_metrics-Flushed a (m ∷ more) c i =
        if-Ensures (ensure_conn a c) (ensure_conn-Ensures lifetime a c i)
      where
        if-Ensures :
            (r : Bool × Client F)
            → Ensures lifetime a c r
            → Flushed c (
                if r.0 then write_lines append_float a (m ∷ more) r.1 else (
                  record (drop (length (m ∷ more)) r.1) { buffer = [] },
                  some (record { metrics = m ∷ more; error = some dial_failed }),
                ))
        if-Ensures (true, c') (u, same) = write_lines-Flushed a (m ∷ more) c c' u same
        if-Ensures (false, c') (j, same) = record {
          stays = record { same_lifetime = j.same_lifetime; proper = j.proper; linked = j.linked };
          sends = same ∙ sym (append-nil (writes c.wire));
        }
