-- ===== src/Commands/Streams.antt =====
-- src/cmd_stream.c
use pulse_db.Store.Types.{
  id_too_small, id_zero, wrong_type, StoreStatus, Stream, StreamEntry, StreamField, StreamId,
}
pub mod Ranges
pub mod Replies
pub mod Reads
use pulse_db.Commands.Args.{
  Answer, arg, argc, args_from, err_not_int, err_syntax, err_wrongtype, str_case_eq,
}
use pulse_db.Prelude.{
  Bool, List, Option, Ordering, [], drop, false, if◌then◌else◌, inl, inr, length, negsuc, none, not,
  pos, some, take, true, ℕ, ◌%◌, ◌*◌, ◌++◌, ◌+◌, ◌-◌, ◌/◌, ◌==◌, ◌||◌, ◌∷◌, ◌⊎◌,
}
use pulse_db.Prelude.Bytes.{Bytes, codes, str_eq}
use pulse_db.Prelude.Decimal.{decimal}
use pulse_db.Reply.{reply_array, reply_bulk, reply_error, reply_null_array}
use pulse_db.Store.Keys.{Typed, absent, held, mismatched}
use pulse_db.Store.Streams.{
  store_get_stream, store_stream_add, stream_id_cmp, stream_id_parse, uint64_max,
}
use pulse_db.Store.Strings.{parse_int64}
use pulse_db.Txn.{Request}
use pulse_db.World.{World, now_ms, stored, tick}

unfoldable pub id_text : StreamId → Bytes
id_text i = decimal i.ms ++ b'-' ∷ decimal i.seq

abbrev pub reply_stream_id : Bytes → StreamId → Bytes
reply_stream_id out i = reply_bulk out (id_text i)

unfoldable pub stream_field_bulks : List StreamField → Bytes
stream_field_bulks [] = []
stream_field_bulks (f ∷ fs) =
    reply_bulk [] f.field ++ (reply_bulk [] f.value ++ stream_field_bulks fs)

unfoldable pub reply_stream_entry : StreamEntry → Bytes
reply_stream_entry e =
    reply_array [] 2
    ++ (reply_stream_id [] e.id
        ++ (reply_array [] (e.num_fields * 2) ++ stream_field_bulks e.fields))

unfoldable pub reply_stream_entries : List StreamEntry → Bytes
reply_stream_entries [] = []
reply_stream_entries (e ∷ es) = reply_stream_entry e ++ reply_stream_entries es

-- The fields and values of XADD.
unfoldable pub field_pairs : List Bytes → List StreamField
field_pairs [] = []
field_pairs (field ∷ []) = []
field_pairs (field ∷ value ∷ rest) = record { field = field; value = value } ∷ field_pairs rest

abbrev pub err_stream_id : Bytes
err_stream_id = codes "ERR Invalid stream ID specified as stream command argument"

abbrev pub xadd_reply : StoreStatus → Option StreamId → Bytes
xadd_reply StoreStatus.ok (some i) = reply_stream_id [] i
xadd_reply StoreStatus.wrong_type i = reply_error [] err_wrongtype
xadd_reply StoreStatus.id_zero i =
    reply_error [] (codes "ERR The ID specified in XADD must be greater than 0-0")
xadd_reply StoreStatus.id_too_small i =
    reply_error []
      (codes "ERR The ID specified in XADD is equal or smaller than the target stream top item")
xadd_reply _ i = reply_error [] err_stream_id

-- The store reads the clock for the key and for the ID.
unfoldable pub cmd_xadd : Request → World → Answer
cmd_xadd req w =
    let (st, i, s) =
      store_stream_add w.store (arg req 1) (arg req 2) (field_pairs (args_from req 3)) (now_ms w)
        (now_ms (tick w)) in
    if not ((argc req - 3) % 2 == 0)
    then (reply_error [] (codes "ERR wrong number of arguments for 'xadd' command"), w)
    else (xadd_reply st i, stored (tick w) s)

-- `stream_id_cmp(a, b) < 0`, `<= 0`
abbrev pub id_lt : StreamId → StreamId → Bool
id_lt a b = elim (stream_id_cmp a b) [ Ordering.lt ↦ true | _ ↦ false ]

abbrev pub id_le : StreamId → StreamId → Bool
id_le a b = elim (stream_id_cmp a b) [ Ordering.gt ↦ false | _ ↦ true ]

-- The entries from the first one on whose ID is not below `start`.
unfoldable pub skip_below : StreamId → List StreamEntry → List StreamEntry
skip_below start [] = []
skip_below start (e ∷ es) = if id_lt e.id start then skip_below start es else e ∷ es

-- The entries before the first one whose ID is above `end`.
unfoldable pub run_to : StreamId → List StreamEntry → List StreamEntry
run_to last [] = []
run_to last (e ∷ es) = if id_le e.id last then e ∷ run_to last es else []

abbrev pub least_id : StreamId
least_id = record { ms = 0; seq = 0 }

abbrev pub greatest_id : StreamId
greatest_id = record { ms = uint64_max; seq = uint64_max }

-- A bound of XRANGE: a sign for the whole range on that side, or an ID.
abbrev pub range_bound : Bytes → Bytes → ℕ → StreamId → Option StreamId
range_bound sign text default_seq whole =
    if str_eq text sign then some whole else stream_id_parse text default_seq

abbrev pub both_bounds : Option StreamId → Option StreamId → Option (StreamId × StreamId)
both_bounds none b = none
both_bounds (some a) none = none
both_bounds (some a) (some b) = some (a, b)

-- The entries that XRANGE returns.
unfoldable pub entries_between : StreamId → StreamId → List StreamEntry → List StreamEntry
entries_between start last es = run_to last (skip_below start es)

abbrev pub xrange_reply : StreamId → StreamId → Typed Stream → Bytes
xrange_reply start last mismatched = reply_error [] err_wrongtype
xrange_reply start last absent = reply_array [] 0
xrange_reply start last (held x) =
    let es = entries_between start last x.entries in
    reply_array [] (length es) ++ reply_stream_entries es

abbrev pub xrange_bounds : Request → Option (StreamId × StreamId)
xrange_bounds req =
    both_bounds (range_bound (codes "-") (arg req 2) 0 least_id)
      (range_bound (codes "+") (arg req 3) uint64_max greatest_id)

-- The rest of `cmd_xrange`, behind the bounds.
unfoldable pub xrange_at : Request → World → Option (StreamId × StreamId) → Answer
xrange_at req w none = (reply_error [] err_stream_id, w)
xrange_at req w (some (start, last)) =
    let (r, s) = store_get_stream w.store (arg req 1) (now_ms w) in
    (xrange_reply start last r, stored w s)

unfoldable pub cmd_xrange : Request → World → Answer
cmd_xrange req w = xrange_at req w (xrange_bounds req)

-- The option of XREAD: a limit, 0 for none, and the arguments behind it; `none` is an error.
unfoldable pub xread_count : List Bytes → Option (ℕ × List Bytes)
xread_count [] = some (0, [])
xread_count (a ∷ []) = if str_case_eq a (codes "COUNT") then none else some (0, a ∷ [])
xread_count (a ∷ n ∷ rest) =
    if str_case_eq a (codes "COUNT")
    then elim (parse_int64 n) [
      | none ↦ none
      | some (negsuc _) ↦ none
      | some (pos limit) ↦ some (limit, rest)
    ]
    else some (0, a ∷ n ∷ rest)

abbrev pub err_unbalanced : Bytes
err_unbalanced =
    codes
      "ERR Unbalanced 'xread' list of streams: for each stream key an ID or '$' must be specified."

-- Behind `STREAMS`, as many IDs as keys; otherwise an error.
unfoldable pub xread_streams : List Bytes → Bytes ⊎ (List Bytes × List Bytes)
xread_streams [] = inl err_syntax
xread_streams (a ∷ rest) =
    if not (str_case_eq a (codes "STREAMS"))
    then inl err_syntax
    else if length rest == 0 || not (length rest % 2 == 0)
    then inl err_unbalanced
    else inr (take (length rest / 2) rest, drop (length rest / 2) rest)

-- The ID after which a stream is read: `$` is the last one there.
abbrev pub after_id : Typed Stream → Bytes → Bytes ⊎ StreamId
after_id mismatched i = inl err_wrongtype
after_id absent i =
    if str_eq i (codes "$")
    then inr least_id
    else elim (stream_id_parse i 0) [ none ↦ inl err_stream_id | some x ↦ inr x ]
after_id (held x) i =
    if str_eq i (codes "$")
    then inr x.last_id
    else elim (stream_id_parse i 0) [ none ↦ inl err_stream_id | some y ↦ inr y ]

-- The first loop of `cmd_xread`: an ID for each key, or an error.
unfoldable pub xread_check :
    List Bytes → List Bytes → World → (Bytes ⊎ List (Bytes × StreamId)) × World
xread_check [] ids w = (inr [], w)
xread_check (key ∷ keys) [] w = (inr [], w)
xread_check (key ∷ keys) (i ∷ ids) w =
    let (r, s) = store_get_stream w.store key (now_ms w) in
    let rest = xread_check keys ids (stored w s) in
    elim (after_id r i) [
      | inl msg ↦ (inl msg, stored w s)
      | inr x ↦ elim rest.0 [
        | inl msg ↦ (inl msg, rest.1)
        | inr afters ↦ (inr ((key, x) ∷ afters), rest.1)
      ]
    ]

-- The entries above an ID, as many as the limit allows.
unfoldable pub skip_through : StreamId → List StreamEntry → List StreamEntry
skip_through last [] = []
skip_through last (e ∷ es) = if id_le e.id last then skip_through last es else e ∷ es

unfoldable pub entries_after : StreamId → ℕ → List StreamEntry → List StreamEntry
entries_after last limit es =
    if limit == 0 then skip_through last es else take limit (skip_through last es)

abbrev pub stream_entries : Typed Stream → List StreamEntry
stream_entries (held x) = x.entries
stream_entries absent = []
stream_entries mismatched = []

-- A stream with entries to return: its number, 1, and its reply.
abbrev pub xread_one : Bytes → List StreamEntry → ℕ × Bytes
xread_one key [] = (0, [])
xread_one key (e ∷ es) = (
  1,
  reply_array [] 2
      ++ (reply_bulk [] key ++ (reply_array [] (length (e ∷ es)) ++ reply_stream_entries (e ∷ es))),
)

-- The second loop of `cmd_xread`: how many streams have entries to return, and their replies.
unfoldable pub xread_collect : ℕ → List (Bytes × StreamId) → World → (ℕ × Bytes) × World
xread_collect limit [] w = ((0, []), w)
xread_collect limit ((key, last) ∷ afters) w =
    let (r, s) = store_get_stream w.store key (now_ms w) in
    let (n, out) = xread_one key (entries_after last limit (stream_entries r)) in
    let rest = xread_collect limit afters (stored w s) in ((n + rest.0.0, out ++ rest.0.1), rest.1)

abbrev pub xread_reply : ℕ × Bytes → Bytes
xread_reply (with_data, body) =
    if with_data == 0 then reply_null_array [] else reply_array [] with_data ++ body

unfoldable pub cmd_xread : Request → World → Answer
cmd_xread req w = elim (xread_count (args_from req 1)) [
  | none ↦ (reply_error [] err_not_int, w)
  | some (limit, rest) ↦ elim (xread_streams rest) [
    | inl msg ↦ (reply_error [] msg, w)
    | inr (keys, ids) ↦
        let (checks, w') = xread_check keys ids w in
        elim checks [
          | inl msg ↦ (reply_error [] msg, w')
          | inr afters ↦
              let (found, w'') = xread_collect limit afters w' in (xread_reply found, w'')
        ]
  ]
]
