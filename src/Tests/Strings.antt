-- ===== src/Tests/Strings.antt =====
-- The string commands of src/cmd_string.c on a small database.
use pulse_db.Prelude.{◌+ℤ◌, [], arith, pos, refl, ◌∷◌, ◌≡◌, ◌≤ℤ◌}
use pulse_db.Commands.Args.{add_int64, args_from}
use pulse_db.Commands.Process.{c_str}
use pulse_db.Commands.Strings.{cmd_get, cmd_set, expires, set_options}
use pulse_db.Commands.Strings.Replies.{after_set, before_set, cmd_get-cmd_set, get_reply, read_at}
use pulse_db.Prelude.Bytes.{codes, str_eq, strcmp}
use pulse_db.Prelude.Decimal.{
  digits_from, negative_int64, positive_int64, skip_spaces, strtoll_signed, strtoll_whole,
  whole_digits,
}
use pulse_db.Reply.{reply_simple}
use pulse_db.Store.Keys.{store_create}
use pulse_db.Store.Keys.Effects.{store_create_empty}
use pulse_db.Store.Strings.{parse_int64}
use pulse_db.Tests.Inputs.{world_of}
use pulse_db.Txn.{Request}
use pulse_db.World.{World, now_ms}

-- `SET b x PX 50`
abbrev set_b : Request
set_b = record { name = codes "SET"; args = codes "b" ∷ codes "x" ∷ codes "PX" ∷ codes "50" ∷ [] }

abbrev get_b : Request
get_b = record { name = codes "GET"; args = codes "b" ∷ [] }

abbrev empty_world : World
empty_world = world_of store_create

-- What the options of the SET compute with.
options : Unit {0}
unfolding set_options args_from c_str str_eq strcmp add_int64 ◌+ℤ◌ parse_int64 strtoll_whole
    strtoll_signed skip_spaces whole_digits digits_from positive_int64 negative_int64
options = tt

set_b_expires : (set_options (args_from set_b 3) (pos 0) empty_world).0 ≡ expires (pos 150)
unfolding options
set_b_expires = refl

set_b_later :
    now_ms (before_set set_b get_b empty_world store_create_empty.0)
    ≤ℤ now_ms (after_set set_b get_b empty_world store_create_empty.0)
unfolding options cmd_set
set_b_later = omega arith

cmd_get-cmd_set_example :
    ((cmd_set set_b empty_world).0 ≡ reply_simple [] (codes "OK"))
    × ((cmd_get get_b (after_set set_b get_b empty_world store_create_empty.0)).0
        ≡ get_reply (
            read_at set_b get_b empty_world store_create_empty.0
              (after_set set_b get_b empty_world store_create_empty.0)
              (pos 150)))
cmd_get-cmd_set_example =
    cmd_get-cmd_set set_b get_b empty_world store_create_empty.0 (pos 150) set_b_expires set_b_later
