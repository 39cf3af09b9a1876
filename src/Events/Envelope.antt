-- ===== src/Events/Envelope.antt =====
-- internal/types/events.go: the header of every queue message. Go's `int` and `int64` fields are
-- integers.
use statusengine_worker.Prelude.{ℤ}

pub record Envelope : Type 0 where
  pub type : ℤ
  pub flags : ℤ
  pub attr : ℤ
  pub timestamp : ℤ
  pub timestamp_usec : ℤ
