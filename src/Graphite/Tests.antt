-- ===== src/Graphite/Tests.antt =====
-- A client that sends whole numbers to a Carbon that answers, fails and comes back.
use statusengine_worker.Prelude.{
  ℕ, u64, ◌≡◌, refl, true, false, none, some, List, [], ◌∷◌, ◌++◌, codes, characters, ℤ, pos,
  negsuc, map, arith, format_int, if◌then◌else◌,
}
use statusengine_worker.Perfdata.Handler.{Metric}
use statusengine_worker.Graphite.{
  Client, ClientOptions, ensure_conn, Attempt, dialed, wrote, closed, new_client,
  with_max_batch_size, with_conn_max_lifetime,
}
use statusengine_worker.Graphite.Flush.{flush_buffer, drain_pending, log_stats}
use statusengine_worker.Graphite.Lines.{line, lines}
use statusengine_worker.Graphite.Run.{
  Input, enqueues, cancelled, reads, ticks, stats, flush_requested, run, start,
}
use statusengine_worker.Graphite.Batches.{shipped, all_sent, all_lost, written_by, dropped_by}
use statusengine_worker.Graphite.Accounts.{client_accounts}
use statusengine_worker.Graphite.Connection.{link_of, down, IsProper, writes}
use statusengine_worker.Graphite.Sent.{all_attempted, run-IsProper}
use statusengine_worker.Graphite.Numbers.{read_int, read_int-format_int}
use statusengine_worker.Graphite.Reading.{IsPlain, point, read_lines, read_lines-lines}

abbrev load : ℤ → Metric ℤ
load v = record { path = characters "st.host.load"; value = v; timestamp = pos 1700000000 }

-- Batches of two, on connections that live for 10 nanoseconds.
abbrev opts : List (ClientOptions → ClientOptions)
opts = with_max_batch_size (pos 2) ∷ with_conn_max_lifetime (pos 10) ∷ []

abbrev well : ℕ → Attempt
well now = record { now = now; dial = some 3; write_succeeds = true }

abbrev broken : ℕ → Attempt
broken now = record { now = now; dial = some 3; write_succeeds = false }

abbrev unreachable : ℕ → Attempt
unreachable now = record { now = now; dial = none; write_succeeds = true }

-- A full batch, one on a connection that has become too old, a write that fails, a dial that fails,
-- and the last flush.
abbrev events : List (Input ℤ)
events =
    enqueues (load (pos 1))
    ∷ reads (well 100)
    ∷ enqueues (load (negsuc 1))
    ∷ reads (well 100)
    ∷ enqueues (load (pos 3))
    ∷ reads (well 105)
    ∷ ticks (well 113)
    ∷ enqueues (load (pos 4))
    ∷ flush_requested [] (broken 114)
    ∷ enqueues (load (pos 5))
    ∷ flush_requested [] (unreachable 115)
    ∷ stats
    ∷ enqueues (load (pos 6))
    ∷ cancelled (some (load (pos 7)) ∷ []) (well 120)
    ∷ []

abbrev carbon : Client ℤ
carbon = new_client (codes "127.0.0.1:2003") opts

first_line : line format_int (load (negsuc 1)) ≡ codes "st.host.load -2 1700000000\n"
unfolding line format_int
first_line = refl

history :
    (run format_int (start carbon) events).client.wire
    ≡ closed
      ∷ wrote 120 (lines format_int (load (pos 6) ∷ load (pos 7) ∷ [])) true
      ∷ dialed 123
      ∷ closed
      ∷ wrote 114 (lines format_int (load (pos 4) ∷ [])) false
      ∷ wrote 113 (lines format_int (load (pos 3) ∷ [])) true
      ∷ dialed 116
      ∷ closed
      ∷ wrote 100 (lines format_int (load (pos 1) ∷ load (negsuc 1) ∷ [])) true
      ∷ dialed 103
      ∷ []
unfolding run new_client with_max_batch_size with_conn_max_lifetime flush_buffer ensure_conn
    drain_pending log_stats
history = refl

client_accounts_example :
    let w = run format_int (start carbon) events in
    (w.accepted ≡ shipped w.batches ++ (w.client.buffer ++ w.client.in_chan))
    × (written_by w.client.ticks ≡ all_sent w.batches)
    × (w.client.processed ≡ u64 (all_sent w.batches))
    × (dropped_by w.client.ticks ≡ all_lost w.batches)
client_accounts_example = client_accounts format_int (codes "127.0.0.1:2003") opts events

run-IsProper_example :
    let w = run format_int (start carbon) events in
    IsProper carbon.conn_max_lifetime w.client.wire
    × ((if w.returned then link_of w.client.wire else down) ≡ down)
    × (writes w.client.wire ≡ all_attempted format_int w.batches)
run-IsProper_example = run-IsProper format_int (codes "127.0.0.1:2003") opts events

load-IsPlain : IsPlain read_int format_int (load (negsuc 1))
unfolding format_int
load-IsPlain = record {
  path_spaces = ground arith;
  path_lines = ground arith;
  value_spaces = ground arith;
  value_lines = ground arith;
  value_reads = read_int-format_int (negsuc 1);
}

read_lines-lines_example :
    read_lines read_int 1 (lines format_int (load (negsuc 1) ∷ []))
    ≡ some (map (point read_int format_int) (load (negsuc 1) ∷ []))
read_lines-lines_example =
    read_lines-lines read_int format_int 1 (load (negsuc 1) ∷ []) (omega arith) (load-IsPlain, tt)
