-- ===== src/Commands.antt =====
-- src/commands.c: the table of commands. A handler stands for itself by its name.
use pulse_db.Prelude.Bytes.{Bytes, codes}
use pulse_db.Prelude.{List, pos, ℤ, Option, negsuc, none, some, ◌∷◌, []}
pub mod Lookup
pub mod Scan
pub mod Process
pub mod Args
pub mod Strings
pub mod Lists
pub mod Hashes
pub mod Streams
pub mod ZSets
pub mod Table
pub mod Errors
pub mod Queued
pub mod Transactions
pub mod Atomic
pub mod Aborted

pub data CommandKind : Type 0 where
  kind_normal kind_multi kind_exec kind_discard : CommandKind

-- The handlers that the table names.
pub data CommandProc : Type 0 where
  cmd_ping cmd_echo cmd_config cmd_keys cmd_set cmd_get cmd_incr cmd_decr : CommandProc
  cmd_incrby cmd_decrby cmd_del cmd_exists cmd_type cmd_ttl cmd_pttl cmd_lpush : CommandProc
  cmd_rpush cmd_lpop cmd_rpop cmd_llen cmd_lrange cmd_blpop cmd_hset cmd_hget : CommandProc
  cmd_hgetall cmd_hmget cmd_hdel cmd_hlen cmd_zadd cmd_zrange cmd_zrangebyscore cmd_zrank :
      CommandProc
  cmd_zcard cmd_zscore cmd_geoadd cmd_geodist cmd_geopos cmd_xadd cmd_xrange cmd_xread : CommandProc

-- `proc` is `none` where the table has `NULL`.
pub record CommandSpec : Type 0 where
  pub name : Bytes
  pub arity : ℤ
  pub proc : Option CommandProc
  pub kind : CommandKind

abbrev row : Bytes → ℤ → CommandProc → CommandSpec
row name arity proc = record { name = name; arity = arity; proc = some proc; kind = kind_normal }

abbrev control : Bytes → CommandKind → CommandSpec
control name kind = record { name = name; arity = pos 1; proc = none; kind = kind }

unfoldable pub command_table : List CommandSpec
command_table =
    row (codes "ping") (negsuc 0) cmd_ping
    ∷ row (codes "echo") (pos 2) cmd_echo
    ∷ row (codes "config") (negsuc 1) cmd_config
    ∷ row (codes "keys") (pos 2) cmd_keys
    ∷ row (codes "set") (negsuc 2) cmd_set
    ∷ row (codes "get") (pos 2) cmd_get
    ∷ row (codes "incr") (pos 2) cmd_incr
    ∷ row (codes "decr") (pos 2) cmd_decr
    ∷ row (codes "incrby") (pos 3) cmd_incrby
    ∷ row (codes "decrby") (pos 3) cmd_decrby
    ∷ row (codes "del") (negsuc 1) cmd_del
    ∷ row (codes "exists") (negsuc 1) cmd_exists
    ∷ row (codes "type") (pos 2) cmd_type
    ∷ row (codes "ttl") (pos 2) cmd_ttl
    ∷ row (codes "pttl") (pos 2) cmd_pttl
    ∷ row (codes "lpush") (negsuc 2) cmd_lpush
    ∷ row (codes "rpush") (negsuc 2) cmd_rpush
    ∷ row (codes "lpop") (pos 2) cmd_lpop
    ∷ row (codes "rpop") (pos 2) cmd_rpop
    ∷ row (codes "llen") (pos 2) cmd_llen
    ∷ row (codes "lrange") (pos 4) cmd_lrange
    ∷ row (codes "blpop") (negsuc 2) cmd_blpop
    ∷ row (codes "hset") (negsuc 3) cmd_hset
    ∷ row (codes "hget") (pos 3) cmd_hget
    ∷ row (codes "hgetall") (pos 2) cmd_hgetall
    ∷ row (codes "hmget") (negsuc 2) cmd_hmget
    ∷ row (codes "hdel") (negsuc 2) cmd_hdel
    ∷ row (codes "hlen") (pos 2) cmd_hlen
    ∷ row (codes "zadd") (negsuc 3) cmd_zadd
    ∷ row (codes "zrange") (negsuc 3) cmd_zrange
    ∷ row (codes "zrangebyscore") (pos 4) cmd_zrangebyscore
    ∷ row (codes "zrank") (pos 3) cmd_zrank
    ∷ row (codes "zcard") (pos 2) cmd_zcard
    ∷ row (codes "zscore") (pos 3) cmd_zscore
    ∷ row (codes "geoadd") (negsuc 4) cmd_geoadd
    ∷ row (codes "geodist") (negsuc 3) cmd_geodist
    ∷ row (codes "geopos") (negsuc 2) cmd_geopos
    ∷ row (codes "xadd") (negsuc 4) cmd_xadd
    ∷ row (codes "xrange") (pos 4) cmd_xrange
    ∷ row (codes "xread") (negsuc 3) cmd_xread
    ∷ control (codes "multi") kind_multi
    ∷ control (codes "exec") kind_exec
    ∷ control (codes "discard") kind_discard
    ∷ []
