-- ===== src/Txn.antt =====
-- src/txn.c and src/txn.h: the state of MULTI and EXEC of a connection.
use pulse_db.Prelude.Bytes.{Bytes}
use pulse_db.Prelude.{
  List, Option, Bool, [], if◌then◌else◌, ℕ, ◌∷◌, false, leb, length, none, some, ◌++◌,
}

-- A request with its elements as bytes. The server passes on none without elements, so the name
-- stands by itself.
pub record Request : Type 0 where
  pub name : Bytes
  pub args : List Bytes

abbrev pub elements : Request → List Bytes
elements req = req.name ∷ req.args

abbrev pub txn_max_cmds : ℕ
txn_max_cmds = 1024

-- `cmds` is the part of the array below `count`.
pub record Txn : Type 0 where
  pub cmds : List Request
  pub active : Bool
  pub error : Bool

abbrev pub txn_init : Txn
txn_init = record { cmds = []; active = false; error = false }

unfoldable pub txn_reset : Txn → Txn
txn_reset txn = record { cmds = []; active = false; error = false }

-- `none` is -1.
unfoldable pub txn_queue : Txn → Request → Option Txn
txn_queue txn cmd =
    if leb txn_max_cmds (length txn.cmds)
    then none
    else some (record txn { cmds = txn.cmds ++ cmd ∷ [] })
