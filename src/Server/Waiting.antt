-- ===== src/Server/Waiting.antt =====
-- A client of src/server.c that is parked in BLPOP does not wait beyond its deadline.
use pulse_db.Commands.{CommandProc, CommandSpec}
use pulse_db.Commands.Args.{arg, argc, args_from}
use pulse_db.Commands.Lists.{
  block_or_give_up, blpop_after, blpop_keys, blpop_with, cmd_blpop, timeout_of,
}
use pulse_db.Commands.Lists.Missing.{Missing, blpop_keys-Nothing}
use pulse_db.Commands.Lookup.{command_lookup}
use pulse_db.Commands.Table.{call_proc, handlers}
use pulse_db.Geo.{Floats}
use pulse_db.Libc.{Libc}
use pulse_db.Prelude.{
  Bool, [], refl, ◌-◌, ◌∙◌, ◌≡◌, if◌then◌else◌, some, ◌++◌, none, true, false, ℤ, List, take,
}
use pulse_db.Prelude.Bytes.{Bytes}
use pulse_db.Reply.{reply_null_array}
use pulse_db.Server.{Client, session_of}
use pulse_db.Server.Input.{after_retry, process_input, retry, timed_out_at}
use pulse_db.Store.Invariant.{IsValid}
use pulse_db.Store.Live.{Same}
use pulse_db.Store.Types.{Score}
use pulse_db.Store.Update.{opened}
use pulse_db.Txn.{Request}
use pulse_db.World.{Forward, World, now_ms}
use pulse_db.Commands.Process.{command_retry_blocked, finish, name_of, run, run_proc, Handlers}

-- The keys of a BLPOP.
abbrev pub blpop_names : Request → List Bytes
blpop_names req = take (argc req - 2) (args_from req 1)

-- A BLPOP that finds nothing behind its deadline does not block, and answers with the null array.
cmd_blpop-timed_out :
    (libc : Libc) (req : Request) (t : Score) (w : World)
    → timeout_of libc (arg req (argc req - 1)) ≡ some t
    → (blpop_keys (blpop_names req) w).0 ≡ none
    → cmd_blpop libc req true true w
      ≡ (false, reply_null_array [], (blpop_keys (blpop_names req) w).1)
unfolding cmd_blpop blpop_with blpop_after block_or_give_up
cmd_blpop-timed_out libc req t w h nothing =
    rw (h, cmd_blpop, blpop_with, nothing, blpop_after) refl

open_client :
    {A : Type 0} (closed : Bool) (x y : A) → closed ≡ false → (if closed then x else y) ≡ y
open_client closed x y h = rw h refl

module _ (libc : Libc) (floats : Floats) where
  abbrev procs : Handlers World
  procs = handlers libc floats

  -- The client with the null array behind its output, waiting for nothing.
  abbrev pub given_up : Client → World → Client
  given_up c w = record c {
    out = c.out ++ reply_null_array [];
    blocked_req = none;
    block_deadline = w.block_deadline;
  }

  run_proc_done :
      (c : Client) (w w' : World) (req : Request)
      → cmd_blpop libc req true true (session_of c w).world ≡ (false, reply_null_array [], w')
      → after_retry procs c (
          finish procs (run_proc procs (some CommandProc.cmd_blpop) (session_of c w) req true true))
        ≡ process_input procs (given_up c w') w'
  unfolding run_proc call_proc
  run_proc_done c w w' req h = rw h refl

  -- At an open client whose deadline has passed and which is parked in a BLPOP with a timeout
  -- that is a number, on a valid store in which none of its keys stands for anything and with a
  -- clock that does not go back, the turn of `service_blocked` for that client (`retry`) ends the
  -- wait: the null array is appended to its output, it waits no longer, the database is the same,
  -- and the requests behind it are run.
  pub retry-timed_out :
      (now : ℤ) (c : Client) (w : World) (req : Request) (spec : CommandSpec) (t : Score)
      → c.closed ≡ false
      → timed_out_at procs now c ≡ true
      → command_lookup (name_of req) ≡ some spec
      → spec.proc ≡ some CommandProc.cmd_blpop
      → timeout_of libc (arg req (argc req - 1)) ≡ some t
      → IsValid w.store
      → Forward w
      → Missing w (blpop_names req)
      → (w' : World) × (retry procs now c w (some req) ≡ process_input procs (given_up c w') w')
        × Same (now_ms w') w.store w'.store
  unfolding command_retry_blocked run
  retry-timed_out now c w req spec t opened late found handler timeout v forward missing =
      let w₁ = (session_of c w).world in
      let nothing = blpop_keys-Nothing (blpop_names req) w₁ v forward missing in
      (
        (blpop_keys (blpop_names req) w₁).1,
        open_client c.closed _ _ opened
            ∙ rw (late, found, handler)
                (run_proc_done c w _ req (cmd_blpop-timed_out libc req t w₁ timeout nothing.0)),
        nothing.2,
      )
