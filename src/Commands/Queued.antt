-- ===== src/Commands/Queued.antt =====
-- What the queue of a connection holds in src/txn.c and src/commands.c.
use pulse_db.Prelude.{
  [], ◌∷◌, none, some, true, false, Bool-cases, Option-cases, inl, inr, refl, subst, leb,
  length-append, All-append, ◌++◌, All, Bool, length, ◌≡◌, ◌≤◌, arith, ◌&&◌, ◌>>=◌,
}
use pulse_db.Commands.{kind_normal, CommandSpec, command_table, CommandProc, List, Bytes}
use pulse_db.Table.Chain.{find}
use pulse_db.Commands.Scan.{command_lookup-scan}
use pulse_db.Commands.Lookup.{command_lookup}
use pulse_db.Commands.Process.{validate, name_of}
use pulse_db.Txn.{Request, Txn, txn_max_cmds, txn_queue}

-- A queued request calls a command with a handler.
abbrev pub IsQueued : Request → Type 0
IsQueued req =
    (proc : CommandProc) × ((command_lookup (name_of req) >>= (λ spec. spec.proc)) ≡ some proc)

-- The invariant of a connection: the queue fits its array and holds only commands with a handler.
pub record IsSound (txn : Txn) : Type 0 where
  pub fits : length txn.cmds ≤ txn_max_cmds
  pub queued : All IsQueued txn.cmds

-- Only the three control commands of the table have no handler.
has_handler : CommandSpec → Bool
has_handler spec = elim spec.kind [
  | kind_normal ↦ elim spec.proc [ none ↦ false | some proc ↦ true ]
  | _ ↦ true
]

every : {A : Type 0} → (A → Bool) → List A → Bool
every f [] = true
every f (x ∷ c) = f x && every f c

every-find :
    {A : Type 0} (f p : A → Bool) (c : List A) (a : A)
    → every f c ≡ true
    → find p c ≡ some a
    → f a ≡ true
unfolding every find
every-find f p [] a h e = absurd (cc)
every-find f p (x ∷ c) a h e = elim (Bool-cases (p x)) [
  | inl hit ↦ ground (arith, hit)
  | inr miss ↦ every-find f p c a (ground arith) (ground (arith, miss))
]

all_handlers : every has_handler command_table ≡ true
unfolding command_table has_handler every
all_handlers = refl

has_handler-proc :
    (spec : CommandSpec)
    → has_handler spec ≡ true
    → spec.kind ≡ kind_normal
    → (proc : CommandProc) × (spec.proc ≡ some proc)
unfolding has_handler
has_handler-proc spec h k = elim (Option-cases spec.proc) [
  | inl e ↦ absurd (ground (arith, e))
  | inr (proc, e) ↦ (proc, e)
]

-- A command of the table that is not a control command can be queued.
pub lookup-IsQueued :
    (req : Request) (spec : CommandSpec)
    → command_lookup (name_of req) ≡ some spec
    → spec.kind ≡ kind_normal
    → IsQueued req
lookup-IsQueued req spec e k =
    let found = rw (command_lookup-scan (name_of req)) at e in
    let (proc, there) =
      has_handler-proc spec (every-find has_handler _ command_table spec all_handlers found) k in
    (proc, rw e there)

-- What a validated request calls.
pub validate-lookup :
    (out : Bytes) (req : Request) (spec : CommandSpec)
    → (validate out req).0 ≡ some spec
    → (command_lookup (name_of req) ≡ some spec) × ((validate out req).1 ≡ out)
unfolding validate
validate-lookup out req spec h = elim (Option-cases (command_lookup (name_of req))) [
  | inl e ↦ absurd (ground (arith, e))
  | inr (found, e) ↦ ground (arith, e)
]

pub txn_queue-IsSound :
    (txn txn' : Txn) (req : Request)
    → IsSound txn
    → IsQueued req
    → txn_queue txn req ≡ some txn'
    → IsSound txn'
unfolding txn_queue
txn_queue-IsSound txn txn' req s q h = elim (Bool-cases (leb txn_max_cmds (length txn.cmds))) [
  | inl full ↦ absurd (ground (arith, full))
  | inr room ↦
      let grown : record txn { cmds = txn.cmds ++ req ∷ [] } ≡ txn' = ground (arith, room) in
      subst IsSound grown (record {
        fits = ground (arith, length-append txn.cmds (req ∷ []));
        queued = All-append IsQueued txn.cmds (req ∷ []) s.queued (q, tt);
      })
]

pub empty-IsSound : (txn : Txn) → txn.cmds ≡ [] → IsSound txn
empty-IsSound txn e = record { fits = rw e (omega arith); queued = rw e tt }
