-- ===== src/Commands/Aborted.antt =====
-- A transaction of src/commands.c in which a request was rejected runs none of its commands.
use pulse_db.Reply.{reply_error}
use pulse_db.Prelude.{
  [], ◌∷◌, none, some, true, Bool-cases, Option-cases, inl, inr, refl, ◌≡◌, ◌≢◌, ◌>>=◌, ◌++◌, All,
  Bool, leb, length, ◌⊎◌, ◌≤◌, arith,
}
use pulse_db.Commands.Process.{
  Handlers, Session, command_process, dispatch, name_of, CommandResult, exec_transaction, queue,
  validate,
}
use pulse_db.Txn.{Request, txn_queue, txn_reset, txn_max_cmds, txn_init}
use pulse_db.Prelude.Bytes.{Bytes, codes}
use pulse_db.Commands.{
  kind_multi, kind_exec, kind_discard, kind_normal, CommandKind, CommandSpec, List, Option,
}
use pulse_db.Commands.Lookup.{command_lookup}
use pulse_db.Commands.Queued.{validate-lookup}
use pulse_db.Commands.Atomic.{Calls, process_all, process-Calls, process_all_one}

-- A request that is neither EXEC nor DISCARD.
abbrev pub Stays : Request → Type 0
Stays req =
    (spec : CommandSpec)
    → command_lookup (name_of req) ≡ some spec
    → (spec.kind ≢ kind_exec) × (spec.kind ≢ kind_discard)

-- A request that fails the checks, or a valid command that finds the queue full.
abbrev pub IsRejected : List Request → Bytes → Request → Type 0
IsRejected cmds out req =
    ((validate out req).0 ≡ none) ⊎ (Calls kind_normal req × (txn_max_cmds ≤ length cmds))

module _ {W : Type 0} (handlers : Handlers W) where
  -- A connection in a transaction.
  abbrev pub in_txn : List Request → Bool → Bytes → W → Session W
  in_txn cmds error out w = record {
    out = out;
    txn = record { cmds = cmds; active = true; error = error };
    world = w;
  }

  -- Still in a transaction with an error, and the same world.
  abbrev Poisoned : W → Session W → Type 0
  Poisoned w c = (cmds : List Request) × (out : Bytes) × (c ≡ in_txn cmds true out w)

  abbrev Keeps : W → Option (CommandResult × Session W) → Type 0
  Keeps w none = ⊥
  Keeps w (some (result, c)) = Poisoned w c

  refused-Keeps :
      (cmds : List Request) (error : Bool) (out : Bytes) (w : W) (req : Request)
      → (validate out req).0 ≡ none
      → Keeps w (command_process handlers (in_txn cmds error out w) req)
  unfolding command_process
  refused-Keeps cmds error out w req e = rw (e, command_process) (cmds, (validate out req).1, refl)

  -- A valid command that finds the queue full.
  full-Keeps :
      (cmds : List Request) (error : Bool) (out : Bytes) (w : W) (req : Request)
      → Calls kind_normal req
      → txn_max_cmds ≤ length cmds
      → Keeps w (command_process handlers (in_txn cmds error out w) req)
  unfolding dispatch queue txn_queue
  full-Keeps cmds error out w req t h =
      let full : leb txn_max_cmds (length cmds) ≡ true = ground arith in
      rw (process-Calls handlers kind_normal req (in_txn cmds error out w) t, full, queue, dispatch)
        (cmds, reply_error out (codes "ERR transaction queue is full"), refl)

  rejected-Keeps :
      (cmds : List Request) (error : Bool) (out : Bytes) (w : W) (req : Request)
      → IsRejected cmds out req
      → Keeps w (command_process handlers (in_txn cmds error out w) req)
  rejected-Keeps cmds error out w req (inl e) = refused-Keeps cmds error out w req e
  rejected-Keeps cmds error out w req (inr (t, h)) = full-Keeps cmds error out w req t h

  dispatch-Keeps :
      (k : CommandKind) (spec : CommandSpec) (cmds : List Request) (out : Bytes) (w : W)
      (req : Request)
      → k ≢ kind_exec
      → k ≢ kind_discard
      → Keeps w (dispatch handlers k spec (in_txn cmds true out w) req)
  unfolding dispatch queue txn_queue
  dispatch-Keeps kind_multi spec cmds out w req x d = (cmds, _, refl)
  dispatch-Keeps kind_exec spec cmds out w req x d = absurd (x refl)
  dispatch-Keeps kind_discard spec cmds out w req x d = absurd (d refl)
  dispatch-Keeps kind_normal spec cmds out w req x d =
      elim (Bool-cases (leb txn_max_cmds (length cmds))) [
        | inl full ↦ rw (full, queue) (cmds, _, refl)
        | inr room ↦ rw (room, queue) (cmds ++ req ∷ [], _, refl)
      ]

  process-Keeps :
      (cmds : List Request) (out : Bytes) (w : W) (req : Request)
      → Stays req
      → Keeps w (command_process handlers (in_txn cmds true out w) req)
  unfolding command_process
  process-Keeps cmds out w req s = elim (Option-cases (validate out req).0) [
    | inl e ↦ refused-Keeps cmds true out w req e
    | inr (spec, e) ↦
        let t = s spec (validate-lookup out req spec e).0 in
        rw (e, command_process)
          (dispatch-Keeps spec.kind spec cmds (validate out req).1 w req t.0 t.1)
  ]

  -- The transaction was thrown away: nothing has changed, and the last reply is EXECABORT.
  abbrev pub Aborted : W → Option (Session W) → Type 0
  Aborted w none = ⊥
  Aborted w (some c) =
      (out : Bytes) × (c ≡ record {
        out = reply_error out (codes "EXECABORT Transaction discarded because of previous errors.");
        txn = txn_init;
        world = w;
      })

  exec-Aborted :
      (cmds : List Request) (out : Bytes) (w : W) (x : Request)
      → Calls kind_exec x
      → Aborted w (process_all handlers (x ∷ []) (in_txn cmds true out w))
  unfolding dispatch exec_transaction txn_reset
  exec-Aborted cmds out w x t =
      rw
        (
          process_all_one handlers x (in_txn cmds true out w),
          process-Calls handlers kind_exec x (in_txn cmds true out w) t,
        )
        (out, refl)

  process_all-Aborted :
      (reqs : List Request) (x : Request) (c : Session W) (w : W)
      → All Stays reqs
      → Calls kind_exec x
      → Poisoned w c
      → Aborted w (process_all handlers (reqs ++ x ∷ []) c)
  unfolding process_all
  process_all-Aborted [] x c w s t (cmds, out, e) = rw e (exec-Aborted cmds out w x t)
  process_all-Aborted (req ∷ reqs) x c w s t (cmds, out, e) = rw e (
      (elim (command_process handlers (in_txn cmds true out w) req)
          as (λ r. Keeps w r → Aborted w (r >>= (λ r. process_all handlers (reqs ++ x ∷ []) r.1))) [
            | none ↦ λ h. h
            | some (result, c') ↦ λ h. process_all-Aborted reqs x c' w s.1 t h
          ])
        (process-Keeps cmds out w req s.0))

  -- In a transaction, once a request failed the checks (name, number of arguments, NUL bytes), or
  -- a valid command found the queue full, a valid EXEC answers with EXECABORT, whatever requests
  -- other than EXEC and DISCARD came in between; the world is as it was, the connection is out of
  -- the transaction, and no null pointer is called.
  pub rejected-Aborted :
      (bad x : Request) (reqs cmds : List Request) (error : Bool) (out : Bytes) (w : W)
      → IsRejected cmds out bad
      → All Stays reqs
      → Calls kind_exec x
      → Aborted w (process_all handlers (bad ∷ (reqs ++ x ∷ [])) (in_txn cmds error out w))
  unfolding process_all
  rejected-Aborted bad x reqs cmds error out w b s t =
      (elim (command_process handlers (in_txn cmds error out w) bad)
          as (λ r. Keeps w r → Aborted w (r >>= (λ r. process_all handlers (reqs ++ x ∷ []) r.1))) [
            | none ↦ λ h. h
            | some (result, c') ↦ λ h. process_all-Aborted reqs x c' w s t h
          ])
        (rejected-Keeps cmds error out w bad b)
