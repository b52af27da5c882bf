-- ===== src/Commands/Errors.antt =====
-- The commands of src/cmd_*.c on one key of a type, with the error that each answers where the key
-- holds another type.
use pulse_db.Commands.Args.{
  Answer, arg, argc, args_from, err_not_float, err_not_int, err_syntax, err_wrongtype,
}
use pulse_db.Commands.Hashes.{cmd_hdel, cmd_hget, cmd_hgetall, cmd_hlen, cmd_hmget, cmd_hset}
use pulse_db.Commands.Lists.{
  cmd_llen, cmd_lpop, cmd_lpush, cmd_lrange, cmd_rpop, cmd_rpush, lrange_bounds,
}
use pulse_db.Commands.Streams.{cmd_xadd, cmd_xrange, xrange_bounds}
use pulse_db.Commands.Strings.{cmd_decr, cmd_decrby, cmd_get, cmd_incr, cmd_incrby}
use pulse_db.Commands.ZSets.{
  cmd_zadd, cmd_zcard, cmd_zrange, cmd_zrank, cmd_zscore, score_pairs, withscores_of,
}
use pulse_db.Libc.{Libc}
use pulse_db.Prelude.{
  Bool, Option, eqb_ℤ, none, not, some, ℕ, ℤ, ◌%◌, ◌-◌, ◌==◌, ◌≡◌, if◌then◌else◌, List, [], ◌∷◌,
}
use pulse_db.Prelude.Bytes.{Bytes, codes}
use pulse_db.Reply.{reply_error}
use pulse_db.Store.Live.{Same}
use pulse_db.Store.Strings.{min_ℤ, parse_int64}
use pulse_db.Store.Types.{Score, StoreType, StreamId}
use pulse_db.Txn.{Request}
use pulse_db.World.{World, now_ms}
pub mod Types
pub mod Calls
pub mod Strings
pub mod Lists
pub mod Hashes
pub mod ZSets
pub mod Streams
pub mod Effects

-- An error, and the same database from the next reading of the clock on.
abbrev pub Refuses : World → Bytes → Answer → Type 0
Refuses w msg a = (a.0 ≡ reply_error [] msg) × Same (now_ms a.1) w.store a.1.store

-- The error of INCRBY and DECRBY: the number of the request comes before the type of the key.
abbrev pub incrby_error : Option ℤ → Bytes
incrby_error none = err_not_int
incrby_error (some delta) = err_wrongtype

abbrev pub decrby_error : Option ℤ → Bytes
decrby_error none = err_not_int
decrby_error (some delta) = if eqb_ℤ delta min_ℤ then err_not_int else err_wrongtype

-- The error of LRANGE, whose indexes come before the type of the key.
abbrev pub lrange_error : Option (ℤ × ℤ) → Bytes
lrange_error none = err_not_int
lrange_error (some bounds) = err_wrongtype

-- The error of XRANGE, whose bounds come before the type of the key.
abbrev pub xrange_error : Option (StreamId × StreamId) → Bytes
xrange_error none = codes "ERR Invalid stream ID specified as stream command argument"
xrange_error (some bounds) = err_wrongtype

abbrev pub zrange_error : Option Bool → Option (ℤ × ℤ) → Bytes
zrange_error none bounds = err_syntax
zrange_error (some withscores) none = err_not_int
zrange_error (some withscores) (some bounds) = err_wrongtype

abbrev pub zadd_error : ℕ → Option (List (Score × Bytes)) → Bytes
zadd_error count pairs =
    if not (count % 2 == 0)
    then codes "ERR wrong number of arguments for 'zadd' command"
    else elim pairs [ none ↦ err_not_float | some _ ↦ err_wrongtype ]

abbrev pub xadd_error : ℕ → Bytes
xadd_error count =
    if not ((count - 3) % 2 == 0)
    then codes "ERR wrong number of arguments for 'xadd' command"
    else err_wrongtype

abbrev pub hset_error : ℕ → Bytes
hset_error count =
    if not (count % 2 == 0)
    then codes "ERR wrong number of arguments for 'hset' command"
    else err_wrongtype

-- HDEL with a field, and HSET with a field and a value.
abbrev pub field_commands : Request → List Bytes → List (Bytes × (World → Answer))
field_commands req [] = []
field_commands req (field ∷ []) = (err_wrongtype, cmd_hdel req) ∷ []
field_commands req (field ∷ value ∷ rest) =
    (err_wrongtype, cmd_hdel req) ∷ (hset_error (argc req), cmd_hset req) ∷ []

-- The commands on one key of a type, each with the error that it answers at a key of another.
abbrev pub commands_on : Libc → Request → StoreType → List (Bytes × (World → Answer))
commands_on libc req StoreType.none = []
commands_on libc req StoreType.string =
    (err_wrongtype, cmd_get req)
    ∷ (err_wrongtype, cmd_incr req)
    ∷ (err_wrongtype, cmd_decr req)
    ∷ (incrby_error (parse_int64 (arg req 2)), cmd_incrby req)
    ∷ (decrby_error (parse_int64 (arg req 2)), cmd_decrby req)
    ∷ []
commands_on libc req StoreType.list =
    (err_wrongtype, cmd_lpush req)
    ∷ (err_wrongtype, cmd_rpush req)
    ∷ (err_wrongtype, cmd_lpop req)
    ∷ (err_wrongtype, cmd_rpop req)
    ∷ (err_wrongtype, cmd_llen req)
    ∷ (lrange_error (lrange_bounds req), cmd_lrange req)
    ∷ []
commands_on libc req StoreType.hash =
    (err_wrongtype, cmd_hget req)
    ∷ (err_wrongtype, cmd_hgetall req)
    ∷ (err_wrongtype, cmd_hlen req)
    ∷ (err_wrongtype, cmd_hmget req)
    ∷ field_commands req (args_from req 2)
commands_on libc req StoreType.zset =
    (err_wrongtype, cmd_zrank req)
    ∷ (err_wrongtype, cmd_zcard req)
    ∷ (err_wrongtype, cmd_zscore libc req)
    ∷ (zrange_error (withscores_of req) (lrange_bounds req), cmd_zrange libc req)
    ∷ (zadd_error (argc req) (score_pairs libc (args_from req 2)), cmd_zadd libc req)
    ∷ []
commands_on libc req StoreType.stream =
    (xadd_error (argc req), cmd_xadd req) ∷ (xrange_error (xrange_bounds req), cmd_xrange req) ∷ []
