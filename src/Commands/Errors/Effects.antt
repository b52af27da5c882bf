-- ===== src/Commands/Errors/Effects.antt =====
-- What the commands of src/cmd_*.c do at a key of another type.
use pulse_db.Libc.{Libc}
use pulse_db.World.{World}
