-- ===== src/Commands/Hashes.antt =====
-- src/cmd_hash.c
use pulse_db.Table.Buckets.{nodes}
use pulse_db.Commands.Args.{Answer, arg, argc, args_from, err_wrongtype}
use pulse_db.Commands.Lists.{wrong_type_at}
use pulse_db.Commands.Strings.{bool_int}
use pulse_db.Prelude.{
  Bool, List, Option, [], false, if◌then◌else◌, not, pos, some, true, ℕ, ◌%◌, ◌*◌, ◌++◌, ◌+◌, ◌-◌,
  ◌==◌, ◌∷◌,
}
use pulse_db.Prelude.Bytes.{Bytes, codes}
use pulse_db.Reply.{reply_array, reply_bulk, reply_error, reply_integer, reply_null}
use pulse_db.Store.Hashes.{
  hash_num_buckets, store_get_hash, store_hash_del, store_hash_get, store_hash_set,
}
use pulse_db.Store.Keys.{absent, held, mismatched}
use pulse_db.Store.Types.{HashField, StoreStatus, StoreType}
use pulse_db.Txn.{Request}
use pulse_db.World.{World, now_ms, stored}

abbrev pub is_hash_type : StoreType → Bool
is_hash_type StoreType.hash = true
is_hash_type _ = false

abbrev pub is_wrong_type : StoreStatus → Bool
is_wrong_type StoreStatus.wrong_type = true
is_wrong_type _ = false

-- The loop of `cmd_hset`, with the number of fields so far.
unfoldable pub hset_all : Bytes → List Bytes → ℕ → World → Answer
hset_all key [] added w = (reply_integer [] (pos added), w)
hset_all key (field ∷ []) added w = (reply_integer [] (pos added), w)
hset_all key (field ∷ value ∷ rest) added w =
    let (st, created, s) = store_hash_set w.store key field value (now_ms w) in
    let more = hset_all key rest (added + bool_int created) (stored w s) in
    if is_wrong_type st then (reply_error [] err_wrongtype, stored w s) else more

unfoldable pub cmd_hset : Request → World → Answer
cmd_hset req w =
    if not (argc req % 2 == 0)
    then (reply_error [] (codes "ERR wrong number of arguments for 'hset' command"), w)
    else hset_all (arg req 1) (args_from req 2) 0 w

abbrev pub hget_reply : StoreStatus → Option Bytes → Bytes
hget_reply StoreStatus.wrong_type value = reply_error [] err_wrongtype
hget_reply StoreStatus.ok (some value) = reply_bulk [] value
hget_reply _ value = reply_null []

unfoldable pub cmd_hget : Request → World → Answer
cmd_hget req w =
    let (st, value, s) = store_hash_get w.store (arg req 1) (arg req 2) (now_ms w) in
    (hget_reply st value, stored w s)

unfoldable pub field_bulks : List HashField → Bytes
field_bulks [] = []
field_bulks (hf ∷ hfs) = reply_bulk [] hf.field ++ (reply_bulk [] hf.value ++ field_bulks hfs)

unfoldable pub cmd_hgetall : Request → World → Answer
cmd_hgetall req w =
    let (r, s) = store_get_hash w.store (arg req 1) (now_ms w) in
    (
      elim r [
        | mismatched ↦ reply_error [] err_wrongtype
        | absent ↦ reply_array [] 0
        | held h ↦ reply_array [] (h.len * 2) ++ field_bulks (nodes h.buckets 0 hash_num_buckets)
      ],
      stored w s,
    )

abbrev pub hmget_reply : StoreStatus → Option Bytes → Bytes
hmget_reply StoreStatus.ok (some value) = reply_bulk [] value
hmget_reply _ value = reply_null []

-- The loop of `cmd_hmget`.
unfoldable pub hmget_all : Bytes → List Bytes → World → Answer
hmget_all key [] w = ([], w)
hmget_all key (field ∷ fields) w =
    let (st, value, s) = store_hash_get w.store key field (now_ms w) in
    let (out, w') = hmget_all key fields (stored w s) in (hmget_reply st value ++ out, w')

unfoldable pub cmd_hmget : Request → World → Answer
cmd_hmget req w =
    let (wrong, w₁) = wrong_type_at is_hash_type (arg req 1) w in
    let (out, w₂) = hmget_all (arg req 1) (args_from req 2) w₁ in
    if wrong then (reply_error [] err_wrongtype, w₁) else (reply_array [] (argc req - 2) ++ out, w₂)

-- The loop of `cmd_hdel`, with the number of deleted fields so far.
unfoldable pub hdel_all : Bytes → List Bytes → ℕ → World → Answer
hdel_all key [] deleted w = (reply_integer [] (pos deleted), w)
hdel_all key (field ∷ fields) deleted w =
    let (st, d, s) = store_hash_del w.store key field (now_ms w) in
    let more = hdel_all key fields (deleted + bool_int d) (stored w s) in
    if is_wrong_type st then (reply_error [] err_wrongtype, stored w s) else more

unfoldable pub cmd_hdel : Request → World → Answer
cmd_hdel req w = hdel_all (arg req 1) (args_from req 2) 0 w

unfoldable pub cmd_hlen : Request → World → Answer
cmd_hlen req w =
    let (r, s) = store_get_hash w.store (arg req 1) (now_ms w) in
    (
      elim r [
        | mismatched ↦ reply_error [] err_wrongtype
        | absent ↦ reply_integer [] (pos 0)
        | held h ↦ reply_integer [] (pos h.len)
      ],
      stored w s,
    )
