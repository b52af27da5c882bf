-- ===== src/Commands/Strings.antt =====
-- src/cmd_string.c, and the commands of src/commands.c that work on no key.
pub mod Replies
use pulse_db.Commands.Args.{
  Answer, add_int64, arg, argc, args_from, err_not_int, err_syntax, err_wrongtype, str_case_eq,
  text_or_empty,
}
use pulse_db.Config.{Config}
use pulse_db.Libc.{Libc}
use pulse_db.Prelude.{
  Bool, List, [], eqb_ℤ, false, get_elem?, if◌then◌else◌, ltb_ℤ, negsuc, none, not, pos, pos_part,
  some, true, ℕ, ℤ, ◌&&◌, ◌*◌, ◌++◌, ◌+◌, ◌-ℤ◌, ◌/◌, ◌==◌, ◌||◌, ◌∷◌,
}
use pulse_db.Prelude.Bytes.{Bytes, codes}
use pulse_db.Prelude.Decimal.{int64_max, signed_decimal}
use pulse_db.Reply.{
  reply_array, reply_bulk, reply_error, reply_errorf, reply_integer, reply_null, reply_simple,
}
use pulse_db.Store.Keys.{
  absent, held, mismatched, store_del, store_exists, store_get_expiry, store_scan, store_type,
}
use pulse_db.Store.Strings.{min_ℤ, parse_int64, store_get, store_incrby, store_set}
use pulse_db.Store.Types.{StoreEntry, StoreStatus, StoreType}
use pulse_db.Txn.{Request, elements}
use pulse_db.World.{World, now_ms, stored, tick}

-- What the loop over the options of SET ends with: the expiry, or an error message.
pub data SetOptions : Type 0 where
  expires : ℤ → SetOptions
  rejected : Bytes → SetOptions

abbrev pub err_expire : Bytes
err_expire = codes "ERR invalid expire time in 'set' command"

-- `n <= 0 || (is_ex && n > INT64_MAX / 1000 / 2)`
abbrev pub bad_expire : Bool → ℤ → Bool
bad_expire is_ex n = ltb_ℤ n (pos 1) || is_ex && ltb_ℤ (pos (int64_max / 1000 / 2)) n

-- The time an option adds to the clock, in milliseconds.
abbrev pub lifetime : Bool → ℤ → ℤ
lifetime is_ex n = if is_ex then pos (pos_part n * 1000) else n

-- The loop of `cmd_set`, with the expiry so far. Each accepted option reads the clock.
unfoldable pub set_options : List Bytes → ℤ → World → SetOptions × World
set_options [] e w = (expires e, w)
set_options (opt ∷ []) e w = (rejected err_syntax, w)
set_options (opt ∷ value ∷ opts) e w =
    let is_ex = str_case_eq opt (codes "EX") in
    let is_px = str_case_eq opt (codes "PX") in
    if is_ex || is_px
    then elim (parse_int64 value) [
      | none ↦ (rejected err_not_int, w)
      | some n ↦ elim (bad_expire is_ex n) [
        | true ↦ (rejected err_expire, w)
        | false ↦ set_options opts (add_int64 (now_ms w) (lifetime is_ex n)) (tick w)
      ]
    ]
    else (rejected err_syntax, w)

unfoldable pub cmd_set : Request → World → Answer
cmd_set req w =
    let (r, w') = set_options (args_from req 3) (pos 0) w in
    elim r [
      | rejected msg ↦ (reply_error [] msg, w')
      | expires e ↦ (
        reply_simple [] (codes "OK"),
        stored w' (store_set w'.store (arg req 1) (arg req 2) e (now_ms w')),
      )
    ]

unfoldable pub cmd_get : Request → World → Answer
cmd_get req w =
    let (r, s) = store_get w.store (arg req 1) (now_ms w) in
    (
      elim r [
        | held value ↦ reply_bulk [] value
        | mismatched ↦ reply_error [] err_wrongtype
        | absent ↦ reply_null []
      ],
      stored w s,
    )

abbrev pub incr_reply : StoreStatus → ℤ → Bytes
incr_reply StoreStatus.ok result = reply_integer [] result
incr_reply StoreStatus.wrong_type result = reply_error [] err_wrongtype
incr_reply StoreStatus.overflow result =
    reply_error [] (codes "ERR increment or decrement would overflow")
incr_reply _ result = reply_error [] err_not_int

unfoldable pub incr_common : Request → ℤ → World → Answer
incr_common req delta w =
    let (st, result, s) = store_incrby w.store (arg req 1) delta (now_ms w) in
    (incr_reply st result, stored w s)

unfoldable pub cmd_incr : Request → World → Answer
cmd_incr req w = incr_common req (pos 1) w

unfoldable pub cmd_decr : Request → World → Answer
cmd_decr req w = incr_common req (negsuc 0) w

unfoldable pub cmd_incrby : Request → World → Answer
cmd_incrby req w = elim (parse_int64 (arg req 2)) [
  | none ↦ (reply_error [] err_not_int, w)
  | some delta ↦ incr_common req delta w
]

abbrev pub negated : ℤ → ℤ
negated z = pos 0 -ℤ z

unfoldable pub cmd_decrby : Request → World → Answer
cmd_decrby req w = elim (parse_int64 (arg req 2)) [
  | none ↦ (reply_error [] err_not_int, w)
  | some delta ↦
      if eqb_ℤ delta min_ℤ
      then (reply_error [] err_not_int, w)
      else incr_common req (negated delta) w
]

abbrev pub bool_int : Bool → ℕ
bool_int true = 1
bool_int false = 0

-- The loops of `cmd_del` and `cmd_exists`: how many keys there were.
unfoldable pub del_all : List Bytes → World → ℕ × World
del_all [] w = (0, w)
del_all (key ∷ keys) w =
    let (deleted, s) = store_del w.store key (now_ms w) in
    let (n, w') = del_all keys (stored w s) in (bool_int deleted + n, w')

unfoldable pub cmd_del : Request → World → Answer
cmd_del req w = let (n, w') = del_all (args_from req 1) w in (reply_integer [] (pos n), w')

unfoldable pub exists_all : List Bytes → World → ℕ × World
exists_all [] w = (0, w)
exists_all (key ∷ keys) w =
    let (found, s) = store_exists w.store key (now_ms w) in
    let (n, w') = exists_all keys (stored w s) in (bool_int found + n, w')

unfoldable pub cmd_exists : Request → World → Answer
cmd_exists req w = let (n, w') = exists_all (args_from req 1) w in (reply_integer [] (pos n), w')

abbrev pub type_name : StoreType → Bytes
type_name StoreType.none = codes "none"
type_name StoreType.string = codes "string"
type_name StoreType.list = codes "list"
type_name StoreType.hash = codes "hash"
type_name StoreType.zset = codes "zset"
type_name StoreType.stream = codes "stream"

unfoldable pub cmd_type : Request → World → Answer
cmd_type req w =
    let (t, s) = store_type w.store (arg req 1) (now_ms w) in
    (reply_simple [] (type_name t), stored w s)

-- `expiry - now_ms()`, not below zero
abbrev pub remaining : ℤ → ℤ → ℕ
remaining expiry now = pos_part (expiry -ℤ now)

unfoldable pub ttl_common : Request → Bool → World → Answer
ttl_common req in_ms w =
    let (expiry, s) = store_get_expiry w.store (arg req 1) (now_ms w) in
    let w' = stored w s in
    if ltb_ℤ expiry (pos 0) then (reply_integer [] expiry, w') else (
      reply_integer [] (
          pos (
            if in_ms
            then remaining expiry (now_ms w')
            else (remaining expiry (now_ms w') + 500) / 1000)),
      tick w',
    )

unfoldable pub cmd_ttl : Request → World → Answer
cmd_ttl req w = ttl_common req false w

unfoldable pub cmd_pttl : Request → World → Answer
cmd_pttl req w = ttl_common req true w

unfoldable pub cmd_ping : Request → World → Answer
cmd_ping req w =
    if argc req == 1
    then (reply_simple [] (codes "PONG"), w)
    else if argc req == 2
    then (reply_bulk [] (text_or_empty (get_elem? (elements req) 1)), w)
    else (reply_error [] (codes "ERR wrong number of arguments for 'ping' command"), w)

unfoldable pub cmd_echo : Request → World → Answer
cmd_echo req w = (reply_bulk [] (arg req 1), w)

module _ (libc : Libc) where
  -- `keys_visit` on the entries that `store_scan` visits: the matches and their number.
  unfoldable pub keys_visit : Bytes → List StoreEntry → ℕ × Bytes
  keys_visit pattern_text [] = (0, [])
  keys_visit pattern_text (e ∷ es) =
      let (n, matches) = keys_visit pattern_text es in
      if libc.fnmatch pattern_text e.key
      then (n + 1, reply_bulk [] e.key ++ matches)
      else (n, matches)

  unfoldable pub cmd_keys : Request → World → Answer
  cmd_keys req w =
      let (n, matches) = keys_visit (arg req 1) (store_scan w.store (now_ms w)) in
      (reply_array [] n ++ matches, tick w)

  -- The settings that CONFIG GET knows, in order.
  abbrev pub settings : Config → List (Bytes × Bytes)
  settings cfg =
      (codes "port", signed_decimal cfg.port)
      ∷ (codes "hz", signed_decimal cfg.hz)
      ∷ (codes "bind", cfg.bind)
      ∷ (codes "loglevel", cfg.loglevel)
      ∷ (codes "dir", cfg.dir)
      ∷ (codes "dbfilename", cfg.dbfilename)
      ∷ []

  -- Both loops of `cmd_config`: how many settings match, and their names and values.
  unfoldable pub matching : Bytes → List (Bytes × Bytes) → ℕ × Bytes
  matching pattern_text [] = (0, [])
  matching pattern_text ((name, value) ∷ rest) =
      let (n, out) = matching pattern_text rest in
      if libc.fnmatch pattern_text name
      then (n + 1, reply_bulk [] name ++ (reply_bulk [] value ++ out))
      else (n, out)

  unfoldable pub cmd_config : Request → World → Answer
  cmd_config req w =
      if not (str_case_eq (arg req 1) (codes "GET"))
      then (
        reply_errorf [] (codes "ERR unsupported CONFIG subcommand '" ++ (arg req 1 ++ codes "'")),
        w,
      )
      else if not (argc req == 3)
      then (reply_error [] (codes "ERR wrong number of arguments for 'config|get' command"), w)
      else let (n, out) = matching (arg req 2) (settings w.cfg) in
        (reply_array [] (n * 2) ++ out, w)
