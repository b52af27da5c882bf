-- ===== src/Commands/Transactions.antt =====
-- The state machine of MULTI, EXEC and DISCARD in src/commands.c calls no null pointer.
use pulse_db.Prelude.{
  [], ◌∷◌, none, some, true, false, Option-cases, inl, inr, if_both, refl, subst, Option, not, All,
  Bool, length, ◌≡◌, arith, ◌>>=◌,
}
use pulse_db.Commands.{
  kind_multi, kind_exec, kind_discard, kind_normal, CommandSpec, CommandProc, List, CommandKind,
}
use pulse_db.Reply.{reply_array}
use pulse_db.Commands.Lookup.{command_lookup}
use pulse_db.Commands.Process.{
  validate, name_of, Handlers, CommandResult, Session, run, run_all, run_proc, command_process,
  dispatch, exec_transaction, finish, queue, done,
}
use pulse_db.Txn.{Request, Txn, txn_queue, txn_reset}
use pulse_db.Commands.Queued.{
  IsQueued, IsSound, lookup-IsQueued, validate-lookup, txn_queue-IsSound, empty-IsSound,
}

module _ {ℓ} {W : Type ℓ} (handlers : Handlers W) where
  -- A call through a pointer that is not null, which leaves the transaction alone.
  abbrev Runs : Session W → Option (Bool × Session W) → Type 0
  Runs c none = ⊥
  Runs c (some (blocks, c')) = c'.txn ≡ c.txn

  run_proc-Runs :
      (proc : CommandProc) (c : Session W) (req : Request) (can_block timed_out : Bool)
      → Runs c (run_proc handlers (some proc) c req can_block timed_out)
  unfolding run_proc
  run_proc-Runs proc c req can_block timed_out = refl

  queued-Runs :
      (c : Session W) (req : Request) (can_block timed_out : Bool)
      → IsQueued req
      → Runs c (run handlers (command_lookup (name_of req)) c req can_block timed_out)
  unfolding run
  queued-Runs c req can_block timed_out (proc, e) =
      elim (Option-cases (command_lookup (name_of req))) [
        | inl missing ↦ absurd (ground (arith, e, missing))
        | inr (spec, found) ↦
            let there : spec.proc ≡ some proc = rw found at e in
            rw (found, run, there) (run_proc-Runs proc c req can_block timed_out)
      ]

  -- No call through a null pointer, and the transaction as before.
  abbrev pub RunsAll : Txn → Option (Session W) → Type 0
  RunsAll txn none = ⊥
  RunsAll txn (some c) = c.txn ≡ txn

  pub run_all-RunsAll :
      (cmds : List Request) (c : Session W)
      → All IsQueued cmds
      → RunsAll c.txn (run_all handlers cmds c)
  unfolding run_all
  run_all-RunsAll [] c q = refl
  run_all-RunsAll (req ∷ cmds) c q =
      (elim (run handlers (command_lookup (name_of req)) c req false false)
          as (λ r. Runs c r → RunsAll c.txn (r >>= (λ x. run_all handlers cmds x.1))) [
            | none ↦ λ h. h
            | some (blocks, c') ↦ λ h.
                subst (λ t. RunsAll t (run_all handlers cmds c')) h (run_all-RunsAll cmds c' q.1)
          ])
        (queued-Runs c req false false q.0)

  -- What the server may rely on after a request: no null pointer was called, and the queue is
  -- sound.
  abbrev pub Processed : Option (CommandResult × Session W) → Type 0
  Processed none = ⊥
  Processed (some (result, c)) = IsSound c.txn

  reset-IsSound : (txn : Txn) → IsSound (txn_reset txn)
  unfolding txn_reset
  reset-IsSound txn = empty-IsSound _ refl

  exec-Processed :
      (c : Session W) → IsSound c.txn → Processed (done handlers (exec_transaction handlers c))
  unfolding exec_transaction
  exec-Processed c s =
      if_both (λ r. Processed (done handlers r)) c.txn.error _ _ (reset-IsSound c.txn)
        ((elim (run_all handlers c.txn.cmds
              (record c { out = reply_array c.out (length c.txn.cmds) }))
            as (λ r.
              RunsAll c.txn r
              → Processed
                  (done handlers (r >>= (λ c'. some (record c' { txn = txn_reset c'.txn }))))) [
                    | none ↦ λ h. h
                    | some c' ↦ λ h. reset-IsSound c'.txn
                  ])
          (run_all-RunsAll c.txn.cmds (record c { out = reply_array c.out (length c.txn.cmds) })
            s.queued))

  queue-Processed :
      (c : Session W) (req : Request)
      → IsSound c.txn
      → IsQueued req
      → Processed (queue handlers c req)
  unfolding queue
  queue-Processed c req s q = elim (Option-cases (txn_queue c.txn req)) [
    | inl full ↦ rw (full, queue) (record { fits = s.fits; queued = s.queued })
    | inr (txn, e) ↦ rw (e, queue) (txn_queue-IsSound c.txn txn req s q e)
  ]

  finish-Processed :
      (c : Session W) (r : Option (Bool × Session W))
      → IsSound c.txn
      → Runs c r
      → Processed (finish handlers r)
  finish-Processed c none s h = h
  finish-Processed c (some (blocks, c')) s h = rw h s

  direct-Processed :
      (spec : CommandSpec) (c : Session W) (req : Request)
      → IsSound c.txn
      → command_lookup (name_of req) ≡ some spec
      → spec.kind ≡ kind_normal
      → Processed (finish handlers (run handlers (some spec) c req true false))
  direct-Processed spec c req s found k =
      finish-Processed c (run handlers (some spec) c req true false) s
        (rw found at (queued-Runs c req true false (lookup-IsQueued req spec found k)))

  dispatch-Processed :
      (k : CommandKind) (spec : CommandSpec) (c : Session W) (req : Request)
      → IsSound c.txn
      → command_lookup (name_of req) ≡ some spec
      → spec.kind ≡ k
      → Processed (dispatch handlers k spec c req)
  unfolding dispatch
  dispatch-Processed kind_multi spec c req s found k =
      if_both Processed c.txn.active _ _ s (record { fits = s.fits; queued = s.queued })
  dispatch-Processed kind_exec spec c req s found k =
      if_both Processed (not c.txn.active) _ _ s (exec-Processed c s)
  dispatch-Processed kind_discard spec c req s found k =
      if_both Processed (not c.txn.active) _ _ s (reset-IsSound c.txn)
  dispatch-Processed kind_normal spec c req s found k =
      if_both Processed c.txn.active _ _
        (queue-Processed c req s (lookup-IsQueued req spec found k))
        (direct-Processed spec c req s found k)

  -- In a connection whose queue fits its array and holds only commands with a handler, every
  -- request is processed without a call through a null pointer, and the queue is again of that
  -- kind.
  pub command_process-Processed :
      (c : Session W) (req : Request) → IsSound c.txn → Processed (command_process handlers c req)
  unfolding command_process
  command_process-Processed c req s = elim (Option-cases (validate c.out req).0) [
    | inl refused ↦
        rw (refused, command_process)
          (if_both IsSound c.txn.active _ _ (record { fits = s.fits; queued = s.queued }) s)
    | inr (spec, e) ↦
        rw (e, command_process)
          (dispatch-Processed spec.kind spec (record c { out = (validate c.out req).1 }) req s
            (validate-lookup c.out req spec e).0 refl)
  ]
