-- ===== src/Graphite.antt =====
-- internal/graphite/graphite.go: the client that sends metrics to Carbon, its options and its
-- connection. The network is the input `Attempt` of each flush: when it starts, how long a dial takes
-- or that it fails, and whether the write succeeds; times are nanoseconds. A channel is the list of
-- what it holds, oldest first. What the client does to its sockets is the list `wire`, newest first.
-- `F` is float64.
pub mod Lines
pub mod Flush
pub mod Run
pub mod Batches
pub mod Accounts
pub mod Connection
pub mod Writes
pub mod Sent
pub mod Numbers
pub mod Reading
mod Tests
use statusengine_worker.Prelude.{
  ℕ, zero, suc, ◌+◌, ◌-◌, ◌*◌, Bool, true, false, ◌&&◌, Option, none, some, List, [], ◌∷◌, Bytes, ℤ,
  pos, ltb, leb, ltb_ℤ, pos_part, if◌then◌else◌,
}
use statusengine_worker.Metrics.{Tick}
use statusengine_worker.Perfdata.Handler.{Metric}

abbrev pub default_max_batch_size : ℕ
default_max_batch_size = 100

abbrev pub max_configurable_batch_size : ℕ
max_configurable_batch_size = 1000

-- 15 minutes.
abbrev pub default_conn_max_lifetime : ℕ
default_conn_max_lifetime = 900000000000

pub record ClientOptions : Type 0 where
  pub max_batch_size : ℕ
  pub conn_max_lifetime : ℕ

unfoldable pub with_max_batch_size : ℤ → ClientOptions → ClientOptions
with_max_batch_size n o =
    let n' : ℕ = if ltb_ℤ n (pos 1) then 1 else pos_part n in
    record o {
      max_batch_size =
          if ltb max_configurable_batch_size n' then max_configurable_batch_size else n';
    }

-- A negative duration has no positive part, and counts as 0.
unfoldable pub with_conn_max_lifetime : ℤ → ClientOptions → ClientOptions
with_conn_max_lifetime d o = record o { conn_max_lifetime = pos_part d }

-- A dial, with the time when the connection stood; a write, with the time at which its flush
-- started and whether it succeeded; the closing of the connection.
pub data Event : Type 0 where
  dialed : ℕ → Event
  wrote : ℕ → Bytes → Bool → Event
  closed : Event

pub record Client (F : Type 0) : Type 0 where
  pub addr : Bytes
  pub in_chan : List (Metric F)
  pub max_batch_size : ℕ
  pub buffer : List (Metric F)
  pub connected : Bool
  pub conn_max_lifetime : ℕ
  pub conn_since : ℕ
  pub flushes_since_stats : ℕ
  pub metrics_since_stats : ℕ
  pub processed : ℕ
  pub ticks : List Tick
  pub wire : List Event

abbrev apply_options : List (ClientOptions → ClientOptions) → ClientOptions → ClientOptions
apply_options [] o = o
apply_options (f ∷ fs) o = apply_options fs (f o)

unfoldable pub new_client : {F : Type 0} → Bytes → List (ClientOptions → ClientOptions) → Client F
new_client addr opts =
    let o = apply_options opts (record {
      max_batch_size = default_max_batch_size;
      conn_max_lifetime = default_conn_max_lifetime;
    }) in
    record {
      addr = addr;
      in_chan = [];
      max_batch_size = o.max_batch_size;
      buffer = [];
      connected = false;
      conn_max_lifetime = o.conn_max_lifetime;
      conn_since = 0;
      flushes_since_stats = 0;
      metrics_since_stats = 0;
      processed = 0;
      ticks = [];
      wire = [];
    }

-- How the network answers one flush.
pub record Attempt : Type 0 where
  pub now : ℕ
  pub dial : Option ℕ
  pub write_succeeds : Bool

module _ {F : Type 0} where
  unfoldable pub close_conn : Client F → Client F
  close_conn c = if c.connected then record c { connected = false; wire = closed ∷ c.wire } else c

  abbrev pub is_outlived : Attempt → Client F → Bool
  is_outlived a c =
      c.connected && (ltb 0 c.conn_max_lifetime && leb c.conn_max_lifetime (a.now - c.conn_since))

  -- The dial of a client that has no connection.
  unfoldable pub dial_carbon : Attempt → Option ℕ → Client F → Bool × Client F
  dial_carbon a none c = (false, c)
  dial_carbon a (some took) c = (
    true,
    record c { connected = true; conn_since = a.now + took; wire = dialed (a.now + took) ∷ c.wire },
  )

  -- Whether there is a connection to write to.
  unfoldable pub ensure_conn : Attempt → Client F → Bool × Client F
  unfolding close_conn dial_carbon
  ensure_conn a c =
      let c' = if is_outlived a c then close_conn c else c in
      if c'.connected then (true, c') else dial_carbon a a.dial c'
