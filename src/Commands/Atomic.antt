-- ===== src/Commands/Atomic.antt =====
-- A transaction of src/commands.c from MULTI to EXEC: its commands run in order, all of them or
-- none.
use pulse_db.Prelude.{
  zero, suc, [], ◌∷◌, none, some, true, false, Option-cases, inl, inr, refl, ◌≡◌, ◌≢◌, ◌∙◌, ap,
  append_assoc, length-append, ℕ, ◌++◌, ◌>>=◌, append-nil, length, All, ◌+◌, ◌<◌, ◌≤◌, arith, leb,
}
use pulse_db.Commands.Queued.{lookup-IsQueued}
use pulse_db.Commands.Lookup.{command_lookup}
use pulse_db.Commands.Process.{
  Handlers, validate, Session, command_process, run_all, dispatch, run, run_proc, name_of, arity_ok,
  has_nul, queue, result_queued, exec_transaction, result_done, done,
}
use pulse_db.Txn.{Request, elements, txn_queue, txn_max_cmds, txn_init, txn_reset}
use pulse_db.Reply.{reply_simple, reply_array}
use pulse_db.Prelude.Bytes.{Bytes, codes}
use pulse_db.Commands.{kind_multi, kind_exec, kind_normal, CommandKind, CommandSpec, List, Option}

-- A request that is valid and calls a command of this kind.
pub record Calls (kind : CommandKind) (req : Request) : Type 0 where
  pub spec : CommandSpec
  pub found : command_lookup (name_of req) ≡ some spec
  pub arity : arity_ok spec (length (elements req)) ≡ true
  pub plain : has_nul (elements req) ≡ false
  pub of_kind : spec.kind ≡ kind

validate-Calls :
    (kind : CommandKind) (req : Request) (out : Bytes)
    → (t : Calls kind req) → validate out req ≡ (some t.spec, out)
unfolding validate
validate-Calls kind req out t = rw (t.found, validate, t.arity, t.plain) refl

-- The output after so many replies to queued requests.
abbrev pub queued_out : Bytes → ℕ → Bytes
queued_out out zero = out
queued_out out (suc n) = queued_out (reply_simple out (codes "QUEUED")) n

module _ {ℓ} {W : Type ℓ} (handlers : Handlers W) where
  -- The commands one after the other, outside of a transaction and none of them blocking: what
  -- they append to the output, and the world they leave.
  unfoldable pub effect : List Request → W → Option (Bytes × W)
  effect [] w = some ([], w)
  effect (req ∷ cmds) w = do
    spec ← command_lookup (name_of req)
    proc ← spec.proc
    r ← effect cmds (handlers.call proc false false req w).2
    some ((handlers.call proc false false req w).1 ++ r.0, r.1)

  -- The requests of a connection, one after the other.
  unfoldable pub process_all : List Request → Session W → Option (Session W)
  process_all [] c = some c
  process_all (req ∷ reqs) c = command_process handlers c req >>= (λ r. process_all reqs r.1)

  -- A connection with this much more output and this world.
  abbrev after : Session W → Option (Bytes × W) → Option (Session W)
  after c none = none
  after c (some (bytes, w)) = some (record c { out = c.out ++ bytes; world = w })

  after_step :
      (c : Session W) (bytes : Bytes) (w : W) (o : Option (Bytes × W))
      → after (record c { out = c.out ++ bytes; world = w }) o
        ≡ after c (o >>= (λ r. some (bytes ++ r.0, r.1)))
  after_step c bytes w none = refl
  after_step c bytes w (some (more, w')) = rw (append_assoc c.out bytes more) refl

  pub process-Calls :
      (kind : CommandKind) (req : Request) (c : Session W) (t : Calls kind req)
      → command_process handlers c req ≡ dispatch handlers kind t.spec c req
  unfolding command_process
  process-Calls kind req c t =
      let v = validate-Calls kind req c.out t in
      rw (ap (λ x. x.0) v, command_process, ap (λ x. x.1) v, t.of_kind) refl

  run_all-effect :
      (cmds : List Request) (c : Session W)
      → run_all handlers cmds c ≡ after c (effect cmds c.world)
  unfolding run_all effect run run_proc
  run_all-effect [] c = rw (append-nil c.out) refl
  run_all-effect (req ∷ cmds) c = elim (Option-cases (command_lookup (name_of req))) [
    | inl e ↦ rw (e, run) refl
    | inr (spec, e) ↦ elim (Option-cases spec.proc) [
      | inl f ↦ rw (e, run, f, run_proc) refl
      | inr (proc, f) ↦
          rw (e, run, f, run_proc)
            (run_all-effect cmds _
              ∙ after_step c (handlers.call proc false false req c.world).1
                  (handlers.call proc false false req c.world).2
                  (effect cmds (handlers.call proc false false req c.world).2))
    ]
  ]

  queue-Calls :
      (req : Request) (c : Session W)
      → Calls kind_normal req
      → c.txn.active ≡ true
      → length c.txn.cmds < txn_max_cmds
      → command_process handlers c req
        ≡ some (
          result_queued,
          record c {
            txn = record c.txn { cmds = c.txn.cmds ++ req ∷ [] };
            out = reply_simple c.out (codes "QUEUED");
          },
        )
  unfolding dispatch queue txn_queue
  queue-Calls req c t active room =
      let free : leb txn_max_cmds (length c.txn.cmds) ≡ false = ground arith in
      process-Calls kind_normal req c t ∙ rw (active, queue, free) refl

  process_all-queue :
      (reqs : List Request) (c : Session W)
      → All (Calls kind_normal) reqs
      → c.txn.active ≡ true
      → length c.txn.cmds + length reqs ≤ txn_max_cmds
      → process_all reqs c
        ≡ some (record c {
          txn = record c.txn { cmds = c.txn.cmds ++ reqs };
          out = queued_out c.out (length reqs);
        })
  unfolding process_all
  process_all-queue [] c t active room = rw (append-nil c.txn.cmds) refl
  process_all-queue (req ∷ reqs) c t active room = rw (queue-Calls req c t.0 active (omega arith)) (
      process_all-queue reqs _ t.1 active (omega (arith, length-append c.txn.cmds (req ∷ [])))
      ∙ rw (append_assoc c.txn.cmds (req ∷ []) reqs) refl)

  pub process_all-append :
      (xs ys : List Request) (c : Session W)
      → process_all (xs ++ ys) c ≡ (process_all xs c >>= process_all ys)
  unfolding process_all
  process_all-append [] ys c = refl
  process_all-append (x ∷ xs) ys c = elim (Option-cases (command_process handlers c x)) [
    | inl e ↦ rw e refl
    | inr (r, e) ↦ rw e (process_all-append xs ys r.1)
  ]

  multi-Calls :
      (m : Request) (c : Session W)
      → Calls kind_multi m
      → c.txn ≡ txn_init
      → command_process handlers c m
        ≡ some (
          result_done,
          record c {
            txn = record txn_init { active = true };
            out = reply_simple c.out (codes "OK");
          },
        )
  unfolding dispatch
  multi-Calls m c t e = process-Calls kind_multi m c t ∙ rw e refl

  -- A connection in a transaction without an error.
  abbrev in_multi : List Request → Bytes → W → Session W
  in_multi cmds out w = record {
    out = out;
    txn = record { cmds = cmds; active = true; error = false };
    world = w;
  }

  -- A connection behind a transaction that appended these bytes.
  abbrev pub executed : Bytes → Option (Bytes × W) → Option (Session W)
  executed out none = none
  executed out (some (bytes, w)) = some (record { out = out ++ bytes; txn = txn_init; world = w })

  reset-after :
      (cmds : List Request) (out : Bytes) (w : W) (o : Option (Bytes × W))
      → (done handlers
            (after (in_multi cmds out w) o >>= (λ c. some (record c { txn = txn_reset c.txn })))
          >>= (λ r. some r.1))
        ≡ executed out o
  unfolding txn_reset
  reset-after cmds out w none = refl
  reset-after cmds out w (some (bytes, w')) = refl

  exec-Calls :
      (x : Request) (cmds : List Request) (out : Bytes) (w : W)
      → Calls kind_exec x
      → (command_process handlers (in_multi cmds out w) x >>= (λ r. some r.1))
        ≡ executed (reply_array out (length cmds)) (effect cmds w)
  unfolding dispatch exec_transaction
  exec-Calls x cmds out w t =
      rw
        (
          process-Calls kind_exec x (in_multi cmds out w) t,
          run_all-effect cmds (in_multi cmds (reply_array out (length cmds)) w),
        )
        (reset-after cmds (reply_array out (length cmds)) w (effect cmds w))

  pub process_all_one :
      (x : Request) (c : Session W)
      → process_all (x ∷ []) c ≡ (command_process handlers c x >>= (λ r. some r.1))
  unfolding process_all
  process_all_one x c = elim (Option-cases (command_process handlers c x)) [
    | inl e ↦ rw e refl
    | inr (r, e) ↦ rw e refl
  ]

  effect_defined :
      (reqs : List Request) (w : W) → All (Calls kind_normal) reqs → effect reqs w ≢ none
  unfolding effect
  effect_defined [] w t h = cc
  effect_defined (req ∷ reqs) w t h =
      let (proc, e) = lookup-IsQueued req t.0.spec t.0.found t.0.of_kind in
      let there : t.0.spec.proc ≡ some proc = rw t.0.found at e in
      let w' = (handlers.call proc false false req w).2 in
      elim (Option-cases (effect reqs w')) [
        | inl nothing ↦ effect_defined reqs w' t.1 nothing
        | inr (r, some_there) ↦ absurd (ground (arith, rw (t.0.found, there, some_there) at h))
      ]

  -- In a connection that is in no transaction, MULTI, up to 1024 valid commands and EXEC append
  -- the replies OK, one QUEUED for each command and an array of what the commands append when
  -- they run one after the other from the world as it was; the world is what they leave, the
  -- connection is out of the transaction, and no null pointer is called.
  pub process_all-transaction :
      (m x : Request) (reqs : List Request) (c : Session W)
      → c.txn ≡ txn_init
      → Calls kind_multi m
      → All (Calls kind_normal) reqs
      → length reqs ≤ txn_max_cmds
      → Calls kind_exec x
      → (process_all (m ∷ (reqs ++ x ∷ [])) c
          ≡ executed
              (reply_array
                (queued_out (reply_simple c.out (codes "OK")) (length reqs))
                (length reqs))
              (effect reqs c.world))
        × (effect reqs c.world ≢ none)
  unfolding process_all
  process_all-transaction m x reqs c start tm tr room tx =
      let c₁ = in_multi [] (reply_simple c.out (codes "OK")) c.world in
      (
        rw
            (
              multi-Calls m c tm start,
              process_all-append reqs (x ∷ []) c₁,
              process_all-queue reqs c₁ tr refl (omega arith),
              process_all_one x (
                  in_multi reqs (queued_out (reply_simple c.out (codes "OK")) (length reqs))
                    c.world),
            )
            (exec-Calls x reqs _ c.world tx),
        effect_defined reqs c.world tr,
      )
