-- ===== src/Store/Hashes.antt =====
-- src/store.c, "hashes": the table of 64 chains of a hash value, and the operations on a key.
use pulse_db.Store.Hashing.{hash_key}
use pulse_db.Prelude.Bytes.{Bytes}
use pulse_db.Store.Types.{Hash, HashField, Store, Value, StoreStatus}
use pulse_db.Prelude.{
  zero, suc, [], ◌∷◌, none, some, true, false, pos, negsuc, Bool-cases, Option-cases, inl, inr, ℕ,
  Bool, List, Option, ℤ, if◌then◌else◌, ◌+◌, ◌-◌, ◌==◌,
}
pub mod Effects
use pulse_db.Table.Chain.{find, remove, modify, has_key}
use pulse_db.Table.Buckets.{set}
use pulse_db.Store.Keys.{
  held, absent, mismatched, Typed, lookup_typed, get_or_create, put_value, store_del,
}

abbrev pub as_hash : Value → Option Hash
as_hash (Value.str s) = none
as_hash (Value.list l) = none
as_hash (Value.hash h) = some h
as_hash (Value.zset z) = none
as_hash (Value.stream x) = none

abbrev pub hash_num_buckets : ℕ
hash_num_buckets = 64

abbrev pub empty_hash : Hash
empty_hash = record { buckets = λ i. []; len = 0 }

abbrev pub field_of : HashField → Bytes
field_of hf = hf.field

-- `hash_key(field, HASH_NUM_BUCKETS)`
unfoldable pub field_slot : Bytes → ℕ
field_slot field = hash_key field hash_num_buckets

abbrev pub fields_of : Hash → Bytes → List HashField
fields_of hash field = hash.buckets (field_slot field)

-- The part of `store_hash_set` on the hash: whether a field was created, and the changed hash.
unfoldable pub hash_put : Hash → Bytes → Bytes → Bool × Hash
hash_put hash field value = elim (find (has_key field_of field) (fields_of hash field)) [
  | some _ ↦ (
    false,
    record hash {
      buckets = set hash.buckets (field_slot field) (
          modify (has_key field_of field) (λ hf. record hf { value = value })
            (fields_of hash field));
    },
  )
  | none ↦ (
    true,
    record {
      buckets =
          set hash.buckets (field_slot field)
            (record { field = field; value = value } ∷ fields_of hash field);
      len = hash.len + 1;
    },
  )
]

-- The loop of `store_hash_get`.
unfoldable pub hash_fetch : Hash → Bytes → Option Bytes
hash_fetch hash field = elim (find (has_key field_of field) (fields_of hash field)) [
  | none ↦ none
  | some hf ↦ some hf.value
]

-- The loop of `store_hash_del`.
unfoldable pub hash_unlink : Hash → Bytes → Bool × Hash
hash_unlink hash field = elim (find (has_key field_of field) (fields_of hash field)) [
  | none ↦ (false, hash)
  | some _ ↦ (
    true,
    record {
      buckets =
          set hash.buckets (field_slot field)
            (remove (has_key field_of field) (fields_of hash field));
      len = hash.len - 1;
    },
  )
]

-- The status, `*created` and the store.
unfoldable pub store_hash_set : Store → Bytes → Bytes → Bytes → ℤ → StoreStatus × Bool × Store
store_hash_set s key field value now =
    let (o, s') = get_or_create as_hash Value.hash empty_hash s key now in
    elim o [
      | none ↦ (StoreStatus.wrong_type, false, s')
      | some hash ↦
          let (created, hash') = hash_put hash field value in
          (StoreStatus.ok, created, put_value s' key (Value.hash hash'))
    ]

-- The status, `*value` and the store.
unfoldable pub store_hash_get : Store → Bytes → Bytes → ℤ → StoreStatus × Option Bytes × Store
store_hash_get s key field now =
    let (r, s') = lookup_typed as_hash s key now in
    elim r [
      | absent ↦ (StoreStatus.not_found, none, s')
      | mismatched ↦ (StoreStatus.wrong_type, none, s')
      | held hash ↦ elim (hash_fetch hash field) [
        | none ↦ (StoreStatus.not_found, none, s')
        | some value ↦ (StoreStatus.ok, some value, s')
      ]
    ]

-- A hash without fields takes its key with it.
unfoldable pub after_unlink : Store → Bytes → Hash → ℤ → Store
after_unlink s key hash now =
    if hash.len == 0
    then (store_del (put_value s key (Value.hash hash)) key now).1
    else put_value s key (Value.hash hash)

-- The status, `*deleted` and the store.
unfoldable pub store_hash_del : Store → Bytes → Bytes → ℤ → StoreStatus × Bool × Store
store_hash_del s key field now =
    let (r, s') = lookup_typed as_hash s key now in
    elim r [
      | absent ↦ (StoreStatus.ok, false, s')
      | mismatched ↦ (StoreStatus.wrong_type, false, s')
      | held hash ↦
          let (deleted, hash') = hash_unlink hash field in
          (StoreStatus.ok, deleted, after_unlink s' key hash' now)
    ]

unfoldable pub store_get_hash : Store → Bytes → ℤ → Typed Hash × Store
store_get_hash s key now = lookup_typed as_hash s key now
