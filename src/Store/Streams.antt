-- ===== src/Store/Streams.antt =====
-- src/store.c, "streams": the IDs of stream entries and `store_stream_add`. An ID is two `uint64_t`.
pub mod Ids
pub mod Effects
use pulse_db.Prelude.{
  ℕ, zero, suc, ◌+◌, ◌-◌, ◌*◌, ◌/◌, ◌%◌, ◌^◌, ◌==◌, ltb, leb, ℤ, pos, negsuc, compare, Ordering,
  Bool, true, false, not, ◌&&◌, ◌||◌, List, [], ◌∷◌, ◌++◌, map, Option, none, some, if◌then◌else◌,
  length,
}
use pulse_db.Prelude.Bytes.{Bytes, codes, str_eq}
use pulse_db.Prelude.Decimal.{is_digit}
use pulse_db.Store.Types.{Store, Value, StoreStatus, StreamId, StreamField, StreamEntry, Stream}
use pulse_db.Store.Keys.{put_value, create_entry, lookup_typed, Typed, held, absent, mismatched}

abbrev pub uint64_max : ℕ
uint64_max = 2 ^ 64 - 1

-- `(uint64_t)` of an `int64_t`
abbrev pub to_uint64 : ℤ → ℕ
to_uint64 (pos n) = n % 2 ^ 64
to_uint64 (negsuc n) = 2 ^ 64 - 1 - n % 2 ^ 64

unfoldable pub stream_id_cmp : StreamId → StreamId → Ordering
stream_id_cmp a b = elim (compare a.ms b.ms) [
  | Ordering.lt ↦ Ordering.lt
  | Ordering.gt ↦ Ordering.gt
  | Ordering.eq ↦ compare a.seq b.seq
]

-- The loop of `parse_u64`, from the value `v`.
unfoldable pub parse_u64_from : ℕ → Bytes → Option ℕ
parse_u64_from v [] = some v
parse_u64_from v (c ∷ s) =
    if is_digit c
    then if ltb ((uint64_max - (c - 48)) / 10) v then none else parse_u64_from (v * 10 + (c - 48)) s
    else none

unfoldable pub parse_u64 : Bytes → Option ℕ
parse_u64 s = if length s == 0 || ltb 20 (length s) then none else parse_u64_from 0 s

-- The text before the first `-` and the text behind it, as `strchr` finds it.
unfoldable pub split_dash : Bytes → Option (Bytes × Bytes)
split_dash [] = none
split_dash (c ∷ s) =
    let rest = split_dash s in
    if c == b'-' then some ([], s) else elim rest [ none ↦ none | some (a, b) ↦ some (c ∷ a, b) ]

-- An ID of two parts, if both are there.
abbrev pub both_parts : Option ℕ → Option ℕ → Option StreamId
both_parts none seq = none
both_parts (some ms) none = none
both_parts (some ms) (some seq) = some (record { ms = ms; seq = seq })

unfoldable pub stream_id_parse : Bytes → ℕ → Option StreamId
stream_id_parse s default_seq = elim (split_dash s) [
  | none ↦ both_parts (parse_u64 s) (some default_seq)
  | some (ms, seq) ↦ both_parts (parse_u64 ms) (parse_u64 seq)
]

-- What stands before a final `-*`.
unfoldable pub strip_auto : Bytes → Option Bytes
strip_auto [] = none
strip_auto (c ∷ s) =
    let rest = strip_auto s in
    if str_eq (c ∷ s) (b'-' ∷ b'*' ∷ [])
    then some []
    else elim rest [ none ↦ none | some p ↦ some (c ∷ p) ]

pub data Resolved : Type 0 where
  id : StreamId → Resolved
  refused : StoreStatus → Resolved

abbrev pub last_id_of : Option Stream → StreamId
last_id_of none = record { ms = 0; seq = 0 }
last_id_of (some stream) = stream.last_id

abbrev pub has_entries : Option Stream → Bool
has_entries none = false
has_entries (some stream) = ltb 0 stream.len

-- The ID after `last`, in its millisecond.
unfoldable pub next_id : StreamId → Resolved
next_id last =
    if last.seq == uint64_max
    then refused StoreStatus.id_too_small
    else Resolved.id (record { ms = last.ms; seq = last.seq + 1 })

-- `*`, at the clock reading `ms`
unfoldable pub resolve_clock : StreamId → ℕ → Resolved
resolve_clock last ms =
    if ltb last.ms ms then Resolved.id (record { ms = ms; seq = 0 }) else next_id last

-- `<ms>-*`
unfoldable pub resolve_auto : Option Stream → Option ℕ → Resolved
resolve_auto stream none = refused StoreStatus.invalid_id
resolve_auto stream (some ms) =
    let last = last_id_of stream in
    if ltb ms last.ms
    then refused StoreStatus.id_too_small
    else if ms == last.ms && has_entries stream
    then next_id (record { ms = ms; seq = last.seq })
    else Resolved.id (record { ms = ms; seq = if ms == 0 then 1 else 0 })

-- `<ms>-<seq>` or `<ms>`
unfoldable pub resolve_explicit : StreamId → Option StreamId → Resolved
resolve_explicit last none = refused StoreStatus.invalid_id
resolve_explicit last (some i) =
    if i.ms == 0 && i.seq == 0 then refused StoreStatus.id_zero else elim (stream_id_cmp i last) [
      | Ordering.gt ↦ Resolved.id i
      | _ ↦ refused StoreStatus.id_too_small
    ]

-- `clock` is the reading of `now_ms`.
unfoldable pub resolve_new_id : Option Stream → Bytes → ℤ → Resolved
resolve_new_id stream spec clock =
    if str_eq spec (b'*' ∷ [])
    then resolve_clock (last_id_of stream) (to_uint64 clock)
    else elim (strip_auto spec) [
      | some prefix ↦ resolve_auto stream (parse_u64 prefix)
      | none ↦ resolve_explicit (last_id_of stream) (stream_id_parse spec 0)
    ]

abbrev pub as_stream : Value → Option Stream
as_stream (Value.str s) = none
as_stream (Value.list l) = none
as_stream (Value.hash h) = none
as_stream (Value.zset z) = none
as_stream (Value.stream x) = some x

abbrev pub empty_stream : Stream
empty_stream = record { entries = []; len = 0; last_id = record { ms = 0; seq = 0 } }

unfoldable pub new_entry : StreamId → List StreamField → StreamEntry
new_entry i fields = record { id = i; fields = fields; num_fields = length fields }

-- The new entry at the tail.
unfoldable pub append_entry : Stream → StreamEntry → Stream
append_entry x e = record { entries = x.entries ++ e ∷ []; len = x.len + 1; last_id = e.id }

-- The status, `*out_id` and the store. `clock` is read after the lookup at `now`.
unfoldable pub store_stream_add :
    Store → Bytes → Bytes → List StreamField → ℤ → ℤ → StoreStatus × Option StreamId × Store
store_stream_add s key id_spec fields now clock =
    let (r, s') = lookup_typed as_stream s key now in
    elim r [
      | mismatched ↦ (StoreStatus.wrong_type, none, s')
      | held x ↦ elim (resolve_new_id (some x) id_spec clock) [
        | refused st ↦ (st, none, s')
        | id i ↦ (
          StoreStatus.ok,
          some i,
          put_value s' key (Value.stream (append_entry x (new_entry i fields))),
        )
      ]
      | absent ↦ elim (resolve_new_id none id_spec clock) [
        | refused st ↦ (st, none, s')
        | id i ↦ (
          StoreStatus.ok,
          some i,
          put_value (create_entry s' key (Value.stream empty_stream)) key
              (Value.stream (append_entry empty_stream (new_entry i fields))),
        )
      ]
    ]

unfoldable pub store_get_stream : Store → Bytes → ℤ → Typed Stream × Store
store_get_stream s key now = lookup_typed as_stream s key now
