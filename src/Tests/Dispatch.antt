-- ===== src/Tests/Dispatch.antt =====
-- The dispatch of src/commands.c with a handler that counts its calls.
use pulse_db.Commands.Queued.{IsSound}
use pulse_db.Txn.{Request, txn_init}
use pulse_db.Reply.{reply_array, reply_simple}
use pulse_db.Prelude.{
  inl, [], ◌∷◌, none, some, false, pos, negsuc, refl, ◌≡◌, ◌≢◌, ℕ, ◌++◌, ◌+◌, arith,
}
use pulse_db.Prelude.Bytes.{Bytes, codes, strcmp, str_eq}
use pulse_db.Commands.{command_table, cmd_ping, kind_multi, kind_exec, kind_normal}
use pulse_db.Commands.Lookup.{
  command_lookup, probe_name, out_of_fuel, name_hash_from, name_hash, free_slot, build_from,
  build_lookup, is_named, probe,
}
use pulse_db.Commands.Process.{c_str, has_nul, validate, Handlers, Session, command_process}
use pulse_db.Commands.Scan.{scan, command_lookup-scan, probe_name_ends}
use pulse_db.Commands.Transactions.{Processed, command_process-Processed}
use pulse_db.Commands.Atomic.{
  Calls, process_all, process_all-transaction, effect, executed, queued_out,
}
use pulse_db.Commands.Aborted.{Aborted, in_txn, rejected-Aborted, Stays}

abbrev counting : Handlers ℕ
counting = record { call = λ proc can_block timed_out req w. (false, codes "+PONG\r\n", w + 1) }

abbrev named : Bytes → Request
named name = record { name = name; args = [] }

abbrev start : Session ℕ
start = record { out = []; txn = txn_init; world = 0 }

command_lookup-scan_example : command_lookup (codes "GeT") ≡ scan (codes "GeT")
command_lookup-scan_example = command_lookup-scan (codes "GeT")

probe_name_ends_example : probe_name (codes "nope") ≢ out_of_fuel
probe_name_ends_example = probe_name_ends (codes "nope")

start-IsSound : IsSound start.txn
start-IsSound = record { fits = omega arith; queued = tt }

command_process-Processed_example :
    Processed counting (command_process counting start (named (codes "PING")))
command_process-Processed_example =
    command_process-Processed counting start (named (codes "PING")) start-IsSound

-- What a lookup computes with.
program : Unit {0}
unfolding command_table name_hash_from name_hash free_slot build_from build_lookup is_named probe
    probe_name strcmp str_eq command_lookup c_str has_nul validate
program = tt

multi-Calls : Calls kind_multi (named (codes "MULTI"))
unfolding program
multi-Calls = record {
  spec = record { name = codes "multi"; arity = pos 1; proc = none; kind = kind_multi };
  found = refl;
  arity = refl;
  plain = refl;
  of_kind = refl;
}

exec-Calls : Calls kind_exec (named (codes "EXEC"))
unfolding program
exec-Calls = record {
  spec = record { name = codes "exec"; arity = pos 1; proc = none; kind = kind_exec };
  found = refl;
  arity = refl;
  plain = refl;
  of_kind = refl;
}

ping-Calls : Calls kind_normal (named (codes "PING"))
unfolding program
ping-Calls = record {
  spec = record { name = codes "ping"; arity = negsuc 0; proc = some cmd_ping; kind = kind_normal };
  found = refl;
  arity = refl;
  plain = refl;
  of_kind = refl;
}

process_all-transaction_example :
    (process_all counting
        (named (codes "MULTI") ∷ (named (codes "PING") ∷ []) ++ named (codes "EXEC") ∷ [])
        start
      ≡ executed counting
          (reply_array (queued_out (reply_simple [] (codes "OK")) 1) 1)
          (effect counting (named (codes "PING") ∷ []) 0))
    × (effect counting (named (codes "PING") ∷ []) 0 ≢ none)
process_all-transaction_example =
    process_all-transaction counting (named (codes "MULTI")) (named (codes "EXEC"))
      (named (codes "PING") ∷ []) start refl multi-Calls (ping-Calls, tt) (omega arith) exec-Calls

refused : (validate [] (named (codes "NOPE"))).0 ≡ none
unfolding program
refused = refl

ping-Stays : Stays (named (codes "PING"))
unfolding program
ping-Stays spec e = ground (arith, e)

rejected-Aborted_example : Aborted counting 0 (
    process_all counting
      (named (codes "NOPE") ∷ (named (codes "PING") ∷ []) ++ named (codes "EXEC") ∷ [])
      (in_txn counting [] false [] 0))
rejected-Aborted_example =
    rejected-Aborted counting (named (codes "NOPE")) (named (codes "EXEC"))
      (named (codes "PING") ∷ []) [] false [] 0 (inl refused) (ping-Stays, tt) exec-Calls
