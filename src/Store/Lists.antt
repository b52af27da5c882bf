-- ===== src/Store/Lists.antt =====
-- src/store.c, "lists": `store_list_push`, `store_list_pop` and `store_get_list`.
pub mod Effects
pub mod RoundTrip
use pulse_db.Prelude.{
  ℕ, ◌+◌, ◌-◌, ◌==◌, ℤ, Bool, List, [], ◌∷◌, ◌++◌, Option, none, some, if◌then◌else◌,
}
use pulse_db.Prelude.Bytes.{Bytes}
use pulse_db.Store.Types.{Store, Value, StoreStatus, ListValue}
use pulse_db.Store.Keys.{
  put_value, get_or_create, lookup_typed, store_del, Typed, held, absent, mismatched,
}

abbrev pub as_list : Value → Option ListValue
as_list (Value.str s) = none
as_list (Value.list l) = some l
as_list (Value.hash h) = none
as_list (Value.zset z) = none
as_list (Value.stream x) = none

abbrev pub empty_list : ListValue
empty_list = record { items = []; len = 0 }

-- The new node at one end.
unfoldable pub list_insert : ListValue → Bytes → Bool → ListValue
list_insert l value at_head = record {
  items = if at_head then value ∷ l.items else l.items ++ value ∷ [];
  len = l.len + 1;
}

-- The status, `*len` and the store.
unfoldable pub store_list_push : Store → Bytes → Bytes → Bool → ℤ → StoreStatus × ℕ × Store
store_list_push s key value at_head now =
    let (o, s') = get_or_create as_list Value.list empty_list s key now in
    elim o [
      | none ↦ (StoreStatus.wrong_type, 0, s')
      | some l ↦
          let l' = list_insert l value at_head in
          (StoreStatus.ok, l'.len, put_value s' key (Value.list l'))
    ]

-- The last value of `x ∷ xs`, and those before it.
unfoldable pub split_last : Bytes → List Bytes → Bytes × List Bytes
split_last x [] = (x, [])
split_last x (y ∷ xs) = let (last, before) = split_last y xs in (last, x ∷ before)

-- The node at one end, unlinked.
unfoldable pub list_take : List Bytes → Bool → Option (Bytes × List Bytes)
list_take [] at_head = none
list_take (x ∷ xs) at_head = some (if at_head then (x, xs) else split_last x xs)

-- The list after a pop; an empty one takes its key with it.
unfoldable pub after_pop : Store → Bytes → List Bytes → ℕ → ℤ → Store
after_pop s key rest len now =
    let s' = put_value s key (Value.list (record { items = rest; len = len })) in
    if len == 0 then (store_del s' key now).1 else s'

unfoldable pub store_list_pop : Store → Bytes → Bool → ℤ → StoreStatus × Option Bytes × Store
store_list_pop s key at_head now =
    let (r, s') = lookup_typed as_list s key now in
    elim r [
      | absent ↦ (StoreStatus.not_found, none, s')
      | mismatched ↦ (StoreStatus.wrong_type, none, s')
      | held l ↦ elim (list_take l.items at_head) [
        | none ↦ (StoreStatus.not_found, none, s')
        | some (value, rest) ↦ (StoreStatus.ok, some value, after_pop s' key rest (l.len - 1) now)
      ]
    ]

unfoldable pub store_get_list : Store → Bytes → ℤ → Typed ListValue × Store
store_get_list s key now = lookup_typed as_list s key now
