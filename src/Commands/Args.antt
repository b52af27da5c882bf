-- ===== src/Commands/Args.antt =====
-- The macros of src/cmd.h, and the small helpers that the commands share.
use pulse_db.Commands.Lookup.{to_lower}
use pulse_db.World.{World}
use pulse_db.Commands.Process.{c_str}
use pulse_db.Prelude.Bytes.{Bytes, codes, str_eq}
use pulse_db.Txn.{Request, elements}
use pulse_db.Store.Streams.{to_uint64}
use pulse_db.Prelude.{
  [], none, some, pos, negsuc, Option, ℕ, ℤ, if◌then◌else◌, ltb, ◌^◌, ◌-◌, Bool, List, get_elem?,
  length, ◌+ℤ◌, map, drop,
}

-- `ARGC`
abbrev pub argc : Request → ℕ
argc req = length (elements req)

abbrev pub text_or_empty : Option Bytes → Bytes
text_or_empty none = []
text_or_empty (some a) = c_str a

-- `ARG(i)`; a request that passed the check of its arity has an argument at every `i` that its
-- command reads.
unfoldable pub arg : Request → ℕ → Bytes
arg req i = text_or_empty (get_elem? (elements req) i)

-- `ARG(i)`, `ARG(i + 1)` and so on.
unfoldable pub args_from : Request → ℕ → List Bytes
args_from req i = map c_str (drop i (elements req))

abbrev pub err_wrongtype : Bytes
err_wrongtype = codes "WRONGTYPE Operation against a key holding the wrong kind of value"

abbrev pub err_not_int : Bytes
err_not_int = codes "ERR value is not an integer or out of range"

abbrev pub err_not_float : Bytes
err_not_float = codes "ERR value is not a valid float"

abbrev pub err_syntax : Bytes
err_syntax = codes "ERR syntax error"

-- `strcasecmp(a, b) == 0`
abbrev pub str_case_eq : Bytes → Bytes → Bool
str_case_eq a b = str_eq (map to_lower a) (map to_lower b)

-- What a handler that does not block appends to the output, with the world that it leaves.
abbrev pub Answer : Type 0
Answer = Bytes × World

-- `%" PRId64 "` of a sum: C leaves an overflow undefined, and the model wraps it around.
abbrev pub wrap_int64 : ℕ → ℤ
wrap_int64 u = if ltb u (2 ^ 63) then pos u else negsuc (2 ^ 64 - 1 - u)

unfoldable pub add_int64 : ℤ → ℤ → ℤ
add_int64 a b = wrap_int64 (to_uint64 (a +ℤ b))
