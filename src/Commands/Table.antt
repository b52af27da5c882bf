-- ===== src/Commands/Table.antt =====
-- The column `proc` of the command table of src/commands.c: the function that every entry names.
use pulse_db.Commands.Args.{Answer}
use pulse_db.Commands.Hashes.{cmd_hdel, cmd_hget, cmd_hgetall, cmd_hlen, cmd_hmget, cmd_hset}
use pulse_db.Commands.Lists.{
  cmd_blpop, cmd_llen, cmd_lpop, cmd_lpush, cmd_lrange, cmd_rpop, cmd_rpush,
}
use pulse_db.Commands.Process.{Handlers}
use pulse_db.Commands.Streams.{cmd_xadd, cmd_xrange, cmd_xread}
use pulse_db.Commands.Strings.{
  cmd_config, cmd_decr, cmd_decrby, cmd_del, cmd_echo, cmd_exists, cmd_get, cmd_incr, cmd_incrby,
  cmd_keys, cmd_ping, cmd_pttl, cmd_set, cmd_ttl, cmd_type,
}
use pulse_db.Commands.ZSets.{
  cmd_geoadd, cmd_geodist, cmd_geopos, cmd_zadd, cmd_zcard, cmd_zrange, cmd_zrangebyscore,
  cmd_zrank, cmd_zscore,
}
use pulse_db.Geo.{Floats}
use pulse_db.Libc.{Libc}
use pulse_db.Prelude.{Bool, false}
use pulse_db.Prelude.Bytes.{Bytes}
use pulse_db.Txn.{Request}
use pulse_db.World.{World}
use pulse_db.Commands.{CommandProc}
use pulse_db.Commands.Strings
use pulse_db.Commands.Lists
use pulse_db.Commands.Hashes
use pulse_db.Commands.ZSets
use pulse_db.Commands.Streams

-- The call of a function that never blocks.
abbrev pub answered : Answer → Bool × Bytes × World
answered (out, w) = (false, out, w)

module _ (libc : Libc) (floats : Floats) where
  unfoldable pub call_proc : CommandProc → Bool → Bool → Request → World → Bool × Bytes × World
  call_proc CommandProc.cmd_ping can_block timed_out req w = answered (Strings.cmd_ping req w)
  call_proc CommandProc.cmd_echo can_block timed_out req w = answered (Strings.cmd_echo req w)
  call_proc CommandProc.cmd_set can_block timed_out req w = answered (Strings.cmd_set req w)
  call_proc CommandProc.cmd_get can_block timed_out req w = answered (Strings.cmd_get req w)
  call_proc CommandProc.cmd_incr can_block timed_out req w = answered (Strings.cmd_incr req w)
  call_proc CommandProc.cmd_decr can_block timed_out req w = answered (Strings.cmd_decr req w)
  call_proc CommandProc.cmd_incrby can_block timed_out req w = answered (Strings.cmd_incrby req w)
  call_proc CommandProc.cmd_decrby can_block timed_out req w = answered (Strings.cmd_decrby req w)
  call_proc CommandProc.cmd_del can_block timed_out req w = answered (Strings.cmd_del req w)
  call_proc CommandProc.cmd_exists can_block timed_out req w = answered (Strings.cmd_exists req w)
  call_proc CommandProc.cmd_type can_block timed_out req w = answered (Strings.cmd_type req w)
  call_proc CommandProc.cmd_ttl can_block timed_out req w = answered (Strings.cmd_ttl req w)
  call_proc CommandProc.cmd_pttl can_block timed_out req w = answered (Strings.cmd_pttl req w)
  call_proc CommandProc.cmd_lpush can_block timed_out req w = answered (Lists.cmd_lpush req w)
  call_proc CommandProc.cmd_rpush can_block timed_out req w = answered (Lists.cmd_rpush req w)
  call_proc CommandProc.cmd_lpop can_block timed_out req w = answered (Lists.cmd_lpop req w)
  call_proc CommandProc.cmd_rpop can_block timed_out req w = answered (Lists.cmd_rpop req w)
  call_proc CommandProc.cmd_llen can_block timed_out req w = answered (Lists.cmd_llen req w)
  call_proc CommandProc.cmd_lrange can_block timed_out req w = answered (Lists.cmd_lrange req w)
  call_proc CommandProc.cmd_hset can_block timed_out req w = answered (Hashes.cmd_hset req w)
  call_proc CommandProc.cmd_hget can_block timed_out req w = answered (Hashes.cmd_hget req w)
  call_proc CommandProc.cmd_hgetall can_block timed_out req w = answered (Hashes.cmd_hgetall req w)
  call_proc CommandProc.cmd_hmget can_block timed_out req w = answered (Hashes.cmd_hmget req w)
  call_proc CommandProc.cmd_hdel can_block timed_out req w = answered (Hashes.cmd_hdel req w)
  call_proc CommandProc.cmd_hlen can_block timed_out req w = answered (Hashes.cmd_hlen req w)
  call_proc CommandProc.cmd_zrank can_block timed_out req w = answered (ZSets.cmd_zrank req w)
  call_proc CommandProc.cmd_zcard can_block timed_out req w = answered (ZSets.cmd_zcard req w)
  call_proc CommandProc.cmd_xadd can_block timed_out req w = answered (Streams.cmd_xadd req w)
  call_proc CommandProc.cmd_xrange can_block timed_out req w = answered (Streams.cmd_xrange req w)
  call_proc CommandProc.cmd_xread can_block timed_out req w = answered (Streams.cmd_xread req w)
  call_proc CommandProc.cmd_config can_block timed_out req w =
      answered (Strings.cmd_config libc req w)
  call_proc CommandProc.cmd_keys can_block timed_out req w = answered (Strings.cmd_keys libc req w)
  call_proc CommandProc.cmd_zadd can_block timed_out req w = answered (ZSets.cmd_zadd libc req w)
  call_proc CommandProc.cmd_zrange can_block timed_out req w =
      answered (ZSets.cmd_zrange libc req w)
  call_proc CommandProc.cmd_zrangebyscore can_block timed_out req w =
      answered (ZSets.cmd_zrangebyscore libc req w)
  call_proc CommandProc.cmd_zscore can_block timed_out req w =
      answered (ZSets.cmd_zscore libc req w)
  call_proc CommandProc.cmd_geoadd can_block timed_out req w =
      answered (ZSets.cmd_geoadd libc floats req w)
  call_proc CommandProc.cmd_geodist can_block timed_out req w =
      answered (ZSets.cmd_geodist libc floats req w)
  call_proc CommandProc.cmd_geopos can_block timed_out req w =
      answered (ZSets.cmd_geopos libc floats req w)
  call_proc CommandProc.cmd_blpop can_block timed_out req w =
      Lists.cmd_blpop libc req can_block timed_out w

  abbrev pub handlers : Handlers World
  handlers = record { call = call_proc }
