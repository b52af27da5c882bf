-- ===== src/Tests/Server.antt =====
-- The clients of src/server.c with the handlers of the program.
use pulse_db.Server.{client_add, Client, Run, null_pointer, returned}
use pulse_db.Commands.{CommandProc, CommandSpec, command_table, kind_normal}
use pulse_db.Commands.Lookup.{
  build_from, build_lookup, command_lookup, free_slot, is_named, name_hash, name_hash_from, probe,
  probe_name,
}
use pulse_db.Commands.Process.{Handlers, c_str, name_of}
use pulse_db.Prelude.{[], negsuc, pos, refl, some, ◌++◌, ◌∷◌, ◌≡◌, ◌≢◌}
use pulse_db.Prelude.Bytes.{codes, str_eq, strcmp}
use pulse_db.Resp.{parse_inline, resp_parse_command, split_newline, split_words, strip_cr}
use pulse_db.Server.Ends.{process_input_ends}
use pulse_db.Server.Input.{input_loop, process_input, retry}
use pulse_db.Server.Nulls.{null_request, process_input_null}
use pulse_db.Server.Pipeline.{process_input-append, with_more}
use pulse_db.Server.Waiting.{blpop_names, given_up, retry-timed_out}
use pulse_db.Store.Keys.{store_create}
use pulse_db.Tests.Inputs.{a_libc, some_floats, world_of}
use pulse_db.Txn.{Request}
use pulse_db.World.{World, now_ms}
use pulse_db.Commands.Args.{arg, argc, args_from}
use pulse_db.Commands.Lists.{timeout_of}
use pulse_db.Commands.Lists.Missing.{Missing}
use pulse_db.Doubles.{parse_double}
use pulse_db.Store.Scores.{score_eq, score_lt}
use pulse_db.Store.Types.{Score, finite}
use pulse_db.Store.Live.{Same}
use pulse_db.Store.Keys.Effects.{store_create_empty}
use pulse_db.Prelude.{◌-◌, arith}
use pulse_db.Commands.Table.{handlers}

abbrev procs : Handlers World
procs = handlers a_libc some_floats

abbrev start : World
start = world_of store_create

-- A blank line, and the beginning of a request.
abbrev half : Client
half = record client_add { input = codes "\r\nPI" }

abbrev waiting_half : Client
waiting_half = record client_add { input = codes "PI" }

half_run : process_input procs half start ≡ returned (waiting_half, start)
unfolding process_input input_loop resp_parse_command parse_inline split_newline strip_cr
    split_words
half_run = refl

process_input-append_example :
    process_input procs (with_more half (codes "NG\r\n")) start
    ≡ process_input procs (with_more waiting_half (codes "NG\r\n")) start
process_input-append_example =
    process_input-append procs (codes "NG\r\n") half start waiting_half start half_run refl

process_input_ends_example : process_input procs half start ≢ Run.out_of_fuel
process_input_ends_example = process_input_ends procs half start

process_input_null_example :
    process_input procs (record client_add { input = null_request ++ codes "PING\r\n" }) start
    ≡ null_pointer
process_input_null_example = process_input_null procs client_add start (codes "PING\r\n") refl

-- `BLPOP a 1`
abbrev blpop : Request
blpop = record { name = codes "BLPOP"; args = codes "a" ∷ codes "1" ∷ [] }

abbrev parked : Client
parked = record client_add { blocked_req = some blpop; block_deadline = pos 90 }

abbrev blpop_spec : CommandSpec
blpop_spec = record {
  name = codes "blpop";
  arity = negsuc 2;
  proc = some CommandProc.cmd_blpop;
  kind = kind_normal;
}

blpop_found : command_lookup (name_of blpop) ≡ some blpop_spec
unfolding command_table name_hash_from name_hash free_slot build_from build_lookup is_named probe
    probe_name strcmp str_eq command_lookup c_str
blpop_found = refl

abbrev blpop_timeout : Score
blpop_timeout = finite (pos 0)

blpop_timeout_of : timeout_of a_libc (arg blpop (argc blpop - 1)) ≡ some blpop_timeout
unfolding arg c_str parse_double score_lt score_eq
blpop_timeout_of = refl

blpop-Missing : Missing start (blpop_names blpop)
unfolding args_from c_str
blpop-Missing = (λ t h. store_create_empty.1 t (codes "a"), tt)

retry-timed_out_example :
    (w' : World) × (retry procs (pos 100) parked start (some blpop)
      ≡ process_input procs (given_up a_libc some_floats parked w') w')
    × Same (now_ms w') start.store w'.store
retry-timed_out_example =
    retry-timed_out a_libc some_floats (pos 100) parked start blpop blpop_spec blpop_timeout refl
      refl blpop_found refl blpop_timeout_of store_create_empty.0 (λ i. omega arith) blpop-Missing
