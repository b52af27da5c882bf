-- ===== src/Commands/Process.antt =====
-- src/commands.c: the checks on a request, and the state machine of MULTI, EXEC and DISCARD.
use pulse_db.Prelude.{
  suc, [], ◌∷◌, none, some, true, false, pos, negsuc, ◌>>=◌, List, Option, if◌then◌else◌, ◌++◌,
  Bool, take, ◌==◌, not, length, ◌||◌, ℕ, ltb, leb,
}
use pulse_db.Commands.{
  kind_multi, kind_exec, kind_discard, kind_normal, CommandKind, CommandProc, CommandSpec,
}
use pulse_db.Commands.Lookup.{command_lookup}
use pulse_db.Reply.{reply_error, reply_errorf, reply_simple, reply_array}
use pulse_db.Txn.{Request, Txn, txn_reset, txn_queue, elements}
use pulse_db.Prelude.Bytes.{Bytes, codes}

-- A C string of the bytes: what stands before the first NUL.
unfoldable pub c_str : Bytes → Bytes
c_str [] = []
c_str (c ∷ s) = if c == 0 then [] else c ∷ c_str s

-- `req->elements[0].str`
abbrev pub name_of : Request → Bytes
name_of req = c_str req.name

abbrev pub arity_ok : CommandSpec → ℕ → Bool
arity_ok spec argc = elim spec.arity [
  | pos n ↦ if ltb 0 n then argc == n else leb 0 argc
  | negsuc n ↦ leb (suc n) argc
]

-- `strlen(str) != len` for an element.
unfoldable pub has_nul : List Bytes → Bool
has_nul [] = false
has_nul (a ∷ args) = not (length (c_str a) == length a) || has_nul args

abbrev pub unknown_command : Bytes → Bytes
unknown_command name = codes "ERR unknown command '" ++ (take 64 name ++ codes "'")

abbrev pub wrong_arity : Bytes → Bytes
wrong_arity name = codes "ERR wrong number of arguments for '" ++ (name ++ codes "' command")

-- The command that a request calls, or no command and the output with an error.
unfoldable pub validate : Bytes → Request → Option CommandSpec × Bytes
validate out req = elim (command_lookup (name_of req)) [
  | none ↦ (none, reply_errorf out (unknown_command (name_of req)))
  | some spec ↦
      if not (arity_ok spec (length (elements req)))
      then (none, reply_errorf out (wrong_arity spec.name))
      else if has_nul (elements req)
      then (none, reply_error out (codes "ERR arguments containing NUL bytes are not supported"))
      else (some spec, out)
]

-- What the connection and the server hold, with the data of the handlers in `world`.
pub record Session {ℓ} (W : Type ℓ) : Type ℓ where
  pub out : Bytes
  pub txn : Txn
  pub world : W

-- The handlers: `cmd_x` at `can_block` and `timed_out` returns whether it blocks, the bytes that it
-- appends to the output, and the changed world.
pub record Handlers {ℓ} (W : Type ℓ) : Type ℓ where
  pub call : CommandProc → Bool → Bool → Request → W → Bool × Bytes × W

pub data CommandResult : Type 0 where
  result_done result_blocked result_queued : CommandResult

module _ {ℓ} {W : Type ℓ} (handlers : Handlers W) where
  -- `none` is a call through a null pointer.
  unfoldable pub run_proc :
      Option CommandProc → Session W → Request → Bool → Bool → Option (Bool × Session W)
  run_proc none c req can_block timed_out = none
  run_proc (some proc) c req can_block timed_out =
      let (blocks, out, world) = handlers.call proc can_block timed_out req c.world in
      some (blocks, record c { out = c.out ++ out; world = world })

  unfoldable pub run :
      Option CommandSpec → Session W → Request → Bool → Bool → Option (Bool × Session W)
  run none c req can_block timed_out = none
  run (some spec) c req can_block timed_out = run_proc spec.proc c req can_block timed_out

  -- The loop of `exec_transaction`.
  unfoldable pub run_all : List Request → Session W → Option (Session W)
  run_all [] c = some c
  run_all (req ∷ cmds) c = do
    r ← run (command_lookup (name_of req)) c req false false
    run_all cmds r.1

  unfoldable pub exec_transaction : Session W → Option (Session W)
  exec_transaction c =
      if c.txn.error
      then some (record c {
        txn = txn_reset c.txn;
        out =
            reply_error c.out (codes "EXECABORT Transaction discarded because of previous errors.");
      })
      else do
        c' ← run_all c.txn.cmds (record c { out = reply_array c.out (length c.txn.cmds) })
        some (record c' { txn = txn_reset c'.txn })

  abbrev pub finish : Option (Bool × Session W) → Option (CommandResult × Session W)
  finish none = none
  finish (some (blocks, c)) = some (if blocks then result_blocked else result_done, c)

  abbrev pub done : Option (Session W) → Option (CommandResult × Session W)
  done none = none
  done (some c) = some (result_done, c)

  unfoldable pub queue : Session W → Request → Option (CommandResult × Session W)
  queue c req = elim (txn_queue c.txn req) [
    | none ↦ some (
      result_done,
      record c {
        txn = record c.txn { error = true };
        out = reply_error c.out (codes "ERR transaction queue is full");
      },
    )
    | some txn ↦
        some (result_queued, record c { txn = txn; out = reply_simple c.out (codes "QUEUED") })
  ]

  -- The `switch` and what follows it.
  unfoldable pub dispatch :
      CommandKind → CommandSpec → Session W → Request → Option (CommandResult × Session W)
  dispatch kind_multi spec c req =
      if c.txn.active
      then some (
        result_done,
        record c { out = reply_error c.out (codes "ERR MULTI calls can not be nested") },
      )
      else some (
        result_done,
        record c { txn = record c.txn { active = true }; out = reply_simple c.out (codes "OK") },
      )
  dispatch kind_exec spec c req =
      if not c.txn.active
      then some (result_done, record c { out = reply_error c.out (codes "ERR EXEC without MULTI") })
      else done (exec_transaction c)
  dispatch kind_discard spec c req =
      if not c.txn.active
      then some
          (result_done, record c { out = reply_error c.out (codes "ERR DISCARD without MULTI") })
      else some
          (result_done, record c { txn = txn_reset c.txn; out = reply_simple c.out (codes "OK") })
  dispatch kind_normal spec c req =
      if c.txn.active then queue c req else finish (run (some spec) c req true false)

  unfoldable pub command_process : Session W → Request → Option (CommandResult × Session W)
  command_process c req =
      let (spec, out) = validate c.out req in
      elim spec [
        | none ↦ some (
          result_done,
          record c {
            out = out;
            txn = if c.txn.active then record c.txn { error = true } else c.txn;
          },
        )
        | some spec ↦ dispatch spec.kind spec (record c { out = out }) req
      ]

  unfoldable pub command_retry_blocked :
      Session W → Request → Bool → Option (CommandResult × Session W)
  command_retry_blocked c req timed_out =
      finish (run (command_lookup (name_of req)) c req true timed_out)
