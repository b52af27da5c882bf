-- ===== src/Libc.antt =====
-- What the program takes from the C library and the floating-point unit, beyond the functions that
-- the library models: a record of operations that the commands take as a parameter. Every number
-- is a `Score`, a double that is not a NaN.
use pulse_db.Prelude.{ℕ, ℤ, Bool, Option}
use pulse_db.Prelude.Bytes.{Bytes}
use pulse_db.Store.Types.{Score}

-- What `strtod` tells: the number, `none` for a NaN; whether it stopped at the end of the text; and
-- whether it set `ERANGE`.
pub record Strtod : Type 0 where
  pub value : Option Score
  pub at_end : Bool
  pub range_error : Bool

pub record Libc : Type 0 where
  pub strtod : Bytes → Strtod
  -- `%.<n>g`
  pub print_g : ℕ → Score → Bytes
  -- `fnmatch(pattern, text, 0) == 0`
  pub fnmatch : Bytes → Bytes → Bool
  -- `(int64_t)(t * 1000)`
  pub thousandfold : Score → ℤ
