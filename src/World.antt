-- ===== src/World.antt =====
-- What the commands of src/cmd_*.c work on besides their request and output: the store, the
-- configuration, the clocks, and the fields of the connection that a blocking command uses.
use pulse_db.Prelude.{ℕ, ◌+◌, ℤ, Bool, ◌≤ℤ◌}
use pulse_db.Config.{Config}
use pulse_db.Store.Types.{Store}

-- `clock` and `mono` give the readings of `now_ms` and `mono_ms`, the next one at `ticks`. A call
-- of the store takes one reading. `waiting` tells whether the connection has a `blocked_req`.
pub record World : Type 0 where
  pub store : Store
  pub cfg : Config
  pub clock : ℕ → ℤ
  pub mono : ℕ → ℤ
  pub ticks : ℕ
  pub waiting : Bool
  pub block_deadline : ℤ

abbrev pub now_ms : World → ℤ
now_ms w = w.clock w.ticks

abbrev pub mono_ms : World → ℤ
mono_ms w = w.mono w.ticks

abbrev pub tick : World → World
tick w = record w { ticks = w.ticks + 1 }

-- The store after a call, with the reading used up.
abbrev pub stored : World → Store → World
stored w s = record w { store = s; ticks = w.ticks + 1 }

-- The readings of the clock do not go back.
abbrev pub Forward : World → Type 0
Forward w = (i : ℕ) → w.clock i ≤ℤ w.clock (i + 1)
