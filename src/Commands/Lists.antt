-- ===== src/Commands/Lists.antt =====
-- src/cmd_list.c
use pulse_db.Store.Types.{wrong_type, ListValue, Score, StoreStatus, StoreType, infinity}
pub mod Ranges
pub mod Missing
pub mod Replies
use pulse_db.Commands.Args.{Answer, add_int64, arg, argc, args_from, err_not_int, err_wrongtype}
use pulse_db.Doubles.{parse_double}
use pulse_db.Libc.{Libc}
use pulse_db.Prelude.{
  Bool, List, Option, [], drop, false, if◌then◌else◌, ltb_ℤ, none, not, pos, pos_part, some, take,
  true, ℕ, ℤ, ◌++◌, ◌+ℤ◌, ◌+◌, ◌-ℤ◌, ◌-◌, ◌==◌, ◌||◌, ◌∷◌,
}
use pulse_db.Prelude.Bytes.{Bytes, codes}
use pulse_db.Reply.{
  reply_array, reply_bulk, reply_error, reply_integer, reply_null, reply_null_array,
}
use pulse_db.Store.Keys.{Typed, absent, held, mismatched, store_type}
use pulse_db.Store.Lists.{store_get_list, store_list_pop, store_list_push}
use pulse_db.Store.Scores.{score_eq, score_lt, zero_score}
use pulse_db.Store.Strings.{parse_int64}
use pulse_db.Txn.{Request}
use pulse_db.World.{World, mono_ms, now_ms, stored, tick}

-- `x += n` where `x` is negative
abbrev pub from_end : ℤ → ℕ → ℤ
from_end x n = if ltb_ℤ x (pos 0) then x +ℤ pos n else x

-- `if (start < 0) start = 0`
abbrev pub not_negative : ℤ → ℤ
not_negative x = if ltb_ℤ x (pos 0) then pos 0 else x

-- `if (stop >= n) stop = n - 1`
abbrev pub below_len : ℤ → ℕ → ℤ
below_len x n = if ltb_ℤ x (pos n) then x else pos n -ℤ pos 1

-- `none` is 0, an empty range.
unfoldable pub normalise_range : ℤ → ℤ → ℕ → Option (ℕ × ℕ)
normalise_range start stop len =
    let start' = not_negative (from_end start len) in
    let stop' = below_len (from_end stop len) len in
    if len == 0 || ltb_ℤ stop' start' then none else some (pos_part start', pos_part stop')

-- A bulk reply for each text.
unfoldable pub bulks : List Bytes → Bytes
bulks [] = []
bulks (x ∷ xs) = reply_bulk [] x ++ bulks xs

abbrev pub is_none_type : StoreType → Bool
is_none_type StoreType.none = true
is_none_type _ = false

abbrev pub is_list_type : StoreType → Bool
is_list_type StoreType.list = true
is_list_type _ = false

-- `store_type(key) != NONE && store_type(key) != <type>`: the second call is made if the first
-- one found something.
unfoldable pub wrong_type_at : (StoreType → Bool) → Bytes → World → Bool × World
wrong_type_at is_right key w =
    let (t, s) = store_type w.store key (now_ms w) in
    let w' = stored w s in
    let (t', s') = store_type w'.store key (now_ms w') in
    if is_none_type t then (false, w') else (not (is_right t'), stored w' s')

-- `*len` is written where the push succeeds.
abbrev pub len_after : StoreStatus → ℕ → ℕ → ℕ
len_after StoreStatus.ok new old = new
len_after _ new old = old

-- The loop of `push_common`.
unfoldable pub push_all : Bytes → Bool → List Bytes → ℕ → World → ℕ × World
push_all key at_head [] len w = (len, w)
push_all key at_head (value ∷ values) len w =
    let (st, len', s) = store_list_push w.store key value at_head (now_ms w) in
    push_all key at_head values (len_after st len' len) (stored w s)

unfoldable pub push_common : Request → Bool → World → Answer
push_common req at_head w =
    let (wrong, w₁) = wrong_type_at is_list_type (arg req 1) w in
    let (len, w₂) = push_all (arg req 1) at_head (args_from req 2) 0 w₁ in
    if wrong then (reply_error [] err_wrongtype, w₁) else (reply_integer [] (pos len), w₂)

unfoldable pub cmd_lpush : Request → World → Answer
cmd_lpush req w = push_common req true w

unfoldable pub cmd_rpush : Request → World → Answer
cmd_rpush req w = push_common req false w

abbrev pub pop_reply : StoreStatus → Option Bytes → Bytes
pop_reply StoreStatus.wrong_type value = reply_error [] err_wrongtype
pop_reply StoreStatus.ok (some value) = reply_bulk [] value
pop_reply _ value = reply_null []

unfoldable pub pop_common : Request → Bool → World → Answer
pop_common req at_head w =
    let (st, value, s) = store_list_pop w.store (arg req 1) at_head (now_ms w) in
    (pop_reply st value, stored w s)

unfoldable pub cmd_lpop : Request → World → Answer
cmd_lpop req w = pop_common req true w

unfoldable pub cmd_rpop : Request → World → Answer
cmd_rpop req w = pop_common req false w

unfoldable pub cmd_llen : Request → World → Answer
cmd_llen req w =
    let (r, s) = store_get_list w.store (arg req 1) (now_ms w) in
    (
      elim r [
        | mismatched ↦ reply_error [] err_wrongtype
        | absent ↦ reply_integer [] (pos 0)
        | held l ↦ reply_integer [] (pos l.len)
      ],
      stored w s,
    )

-- The reply to LRANGE at a list: the nodes from `first` to `last`.
abbrev pub range_reply : Option (ℕ × ℕ) → List Bytes → Bytes
range_reply none items = reply_array [] 0
range_reply (some (first, last)) items =
    reply_array [] (last - first + 1) ++ bulks (take (last - first + 1) (drop first items))

abbrev pub list_range : Typed ListValue → ℤ → ℤ → Bytes
list_range mismatched start stop = reply_error [] err_wrongtype
list_range absent start stop = reply_array [] 0
list_range (held l) start stop = range_reply (normalise_range start stop l.len) l.items

-- Two arguments as numbers, if both are.
abbrev pub both_numbers : Option ℤ → Option ℤ → Option (ℤ × ℤ)
both_numbers none b = none
both_numbers (some a) none = none
both_numbers (some a) (some b) = some (a, b)

abbrev pub lrange_bounds : Request → Option (ℤ × ℤ)
lrange_bounds req = both_numbers (parse_int64 (arg req 2)) (parse_int64 (arg req 3))

-- The rest of `cmd_lrange`, behind the indexes.
unfoldable pub lrange_at : Request → World → Option (ℤ × ℤ) → Answer
lrange_at req w none = (reply_error [] err_not_int, w)
lrange_at req w (some (start, stop)) =
    let (r, s) = store_get_list w.store (arg req 1) (now_ms w) in
    (list_range r start stop, stored w s)

unfoldable pub cmd_lrange : Request → World → Answer
cmd_lrange req w = lrange_at req w (lrange_bounds req)

-- The loop of `cmd_blpop`: the reply of the first key that is not missing, or none.
unfoldable pub blpop_keys : List Bytes → World → Option Bytes × World
blpop_keys [] w = (none, w)
blpop_keys (key ∷ keys) w =
    let (st, value, s) = store_list_pop w.store key true (now_ms w) in
    let rest = blpop_keys keys (stored w s) in
    elim st [
      | StoreStatus.wrong_type ↦ (some (reply_error [] err_wrongtype), stored w s)
      | StoreStatus.ok ↦ elim value [
        | some v ↦ (some (reply_array [] 2 ++ (reply_bulk [] key ++ reply_bulk [] v)), stored w s)
        | none ↦ rest
      ]
      | _ ↦ rest
    ]

module _ (libc : Libc) where
  -- A timeout that is neither negative nor infinite.
  abbrev pub timeout_of : Bytes → Option Score
  timeout_of text = elim (parse_double libc text) [
    | none ↦ none
    | some t ↦ if score_lt t zero_score || score_eq t infinity then none else some t
  ]

  -- `timeout > 0 ? mono_ms() + (int64_t)(timeout * 1000) : 0`
  unfoldable pub park : Score → World → World
  park timeout w =
      if score_lt zero_score timeout
      then tick (record w { block_deadline = add_int64 (mono_ms w) (libc.thousandfold timeout) })
      else record w { block_deadline = pos 0 }

  unfoldable pub block_or_give_up : Bool → Bool → Score → World → Bool × Bytes × World
  block_or_give_up can_block timed_out timeout w =
      if not can_block || timed_out
      then (false, reply_null_array [], w)
      else (true, [], if w.waiting then w else park timeout w)

  -- Behind the loop over the keys.
  unfoldable pub blpop_after : Bool → Bool → Score → Option Bytes × World → Bool × Bytes × World
  blpop_after can_block timed_out timeout (some out, w) = (false, out, w)
  blpop_after can_block timed_out timeout (none, w) = block_or_give_up can_block timed_out timeout w

  -- Behind the check of the timeout.
  unfoldable pub blpop_with : Request → Bool → Bool → Option Score → World → Bool × Bytes × World
  blpop_with req can_block timed_out none w =
      (false, reply_error [] (codes "ERR timeout is not a float or out of range"), w)
  blpop_with req can_block timed_out (some timeout) w =
      blpop_after can_block timed_out timeout (blpop_keys (take (argc req - 2) (args_from req 1)) w)

  -- Whether the command blocks, what it appends, and the world.
  unfoldable pub cmd_blpop : Request → Bool → Bool → World → Bool × Bytes × World
  cmd_blpop req can_block timed_out w =
      blpop_with req can_block timed_out (timeout_of (arg req (argc req - 1))) w
