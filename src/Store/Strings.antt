-- ===== src/Store/Strings.antt =====
-- src/store.c, "strings": `store_set`, `store_get` and `store_incrby`, with `parse_int64` of
-- src/util.c.
pub mod Effects
use pulse_db.Prelude.{
  ℤ, pos, negsuc, ◌+ℤ◌, ◌-ℤ◌, ltb_ℤ, Bool, ◌&&◌, ◌||◌, [], ◌∷◌, Option, none, some, if◌then◌else◌,
}
use pulse_db.Prelude.Bytes.{Bytes}
use pulse_db.Prelude.Decimal.{int64_max, strtoll_whole, signed_decimal}
use pulse_db.Store.Types.{StoreEntry, Store, Value, StoreStatus}
use pulse_db.Store.Keys.{
  lookup, write_entry, create_entry, put_value, lookup_typed, Typed, held, absent, mismatched,
}

-- The union member of a string.
abbrev pub as_str : Value → Option Bytes
as_str (Value.str s) = some s
as_str (Value.list l) = none
as_str (Value.hash h) = none
as_str (Value.zset z) = none
as_str (Value.stream x) = none

-- The assignments to the entry, new or old.
abbrev pub set_string : Bytes → ℤ → StoreEntry → StoreEntry
set_string value expires_at e = record e { expires_at = expires_at; value = Value.str value }

unfoldable pub store_set : Store → Bytes → Bytes → ℤ → ℤ → Store
store_set s key value expires_at now =
    let (e, s') = lookup s key now in
    elim e [
      | some _ ↦ write_entry s' key (set_string value expires_at)
      | none ↦ write_entry (create_entry s' key (Value.str [])) key (set_string value expires_at)
    ]

unfoldable pub store_get : Store → Bytes → ℤ → Typed Bytes × Store
store_get s key now = lookup_typed as_str s key now

unfoldable pub parse_int64 : Bytes → Option ℤ
parse_int64 [] = none
parse_int64 (c ∷ s) = strtoll_whole (c ∷ s)

abbrev pub max_ℤ : ℤ
max_ℤ = pos int64_max

abbrev pub min_ℤ : ℤ
min_ℤ = negsuc int64_max

-- `(delta > 0 && val > INT64_MAX - delta) || (delta < 0 && val < INT64_MIN - delta)`
unfoldable pub would_overflow : ℤ → ℤ → Bool
would_overflow val delta =
    ltb_ℤ (pos 0) delta && ltb_ℤ (max_ℤ -ℤ delta) val
    || ltb_ℤ delta (pos 0) && ltb_ℤ val (min_ℤ -ℤ delta)

-- The string that stands for the sum is written in place, or under a new key.
unfoldable pub store_number : Typed Bytes → Store → Bytes → ℤ → ℤ → Store
store_number (held _) s key val now = put_value s key (Value.str (signed_decimal val))
store_number absent s key val now = store_set s key (signed_decimal val) (pos 0) now
store_number mismatched s key val now = s

unfoldable pub add_number : Typed Bytes → ℤ → Store → Bytes → ℤ → ℤ → StoreStatus × ℤ × Store
add_number r val s key delta now =
    if would_overflow val delta
    then (StoreStatus.overflow, pos 0, s)
    else (StoreStatus.ok, val +ℤ delta, store_number r s key (val +ℤ delta) now)

-- The status, `*result` (0 where it is not set) and the store.
unfoldable pub store_incrby : Store → Bytes → ℤ → ℤ → StoreStatus × ℤ × Store
store_incrby s key delta now =
    let (r, s') = lookup_typed as_str s key now in
    elim r [
      | mismatched ↦ (StoreStatus.wrong_type, pos 0, s')
      | absent ↦ add_number absent (pos 0) s' key delta now
      | held text ↦ elim (parse_int64 text) [
        | none ↦ (StoreStatus.not_integer, pos 0, s')
        | some val ↦ add_number (held text) val s' key delta now
      ]
    ]
