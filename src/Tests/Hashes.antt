-- ===== src/Tests/Hashes.antt =====
-- The hashes of src/store.c on a hash of one field.
use pulse_db.Store.Types.{Store}
use pulse_db.Prelude.{some, pos, ◌≡◌, ◌≢◌, if◌then◌else◌}
use pulse_db.Prelude.Bytes.{Bytes, codes, strcmp, str_eq}
use pulse_db.Store.Live.{live}
use pulse_db.Store.Invariant.{IsValid}
use pulse_db.Store.Update.{opened, typed_content}
use pulse_db.Store.Keys.{
  mismatched, store_create, store_grow, entry_is_expired, unlink_entry, lookup, write_entry,
  push_entry, create_entry, typed, lookup_typed, put_value, get_or_create,
}
use pulse_db.Store.Keys.Effects.{store_create_empty}
use pulse_db.Store.Hashes.Effects.{
  Sets, store_hash_set-Sets, set_valid, store_hash_get-store_hash_set,
}
use pulse_db.Store.Hashes.{
  hash_put, store_hash_set, store_hash_get, field_slot, as_hash, empty_hash,
}
use pulse_db.Store.Hashing.{hash_key, hash_key_from, hash64, hash64_from}
use pulse_db.Table.Chain.{find, remove, modify}
use pulse_db.Table.Rehash.{move_chain, move_all}
use pulse_db.Table.Buckets
use pulse_db.Table.Buckets.{slot, nodes}

abbrev a_key : Bytes
a_key = codes "a"

-- `HSET a f 1`, at time 100.
abbrev one_field : Store
one_field = (store_hash_set store_create a_key (codes "f") (codes "1") (pos 100)).2

one_field-IsValid : IsValid one_field
one_field-IsValid =
    set_valid store_create store_create_empty.0 a_key (pos 100) (codes "f") (codes "1")

one_field_fits : typed_content as_hash (live one_field (pos 100) a_key) ≢ mismatched
unfolding strcmp str_eq find remove modify slot nodes move_chain move_all hash64_from hash64
    hash_key hash_key_from Buckets.view store_create store_grow entry_is_expired unlink_entry lookup
    write_entry push_entry create_entry typed lookup_typed put_value get_or_create live hash_put
    store_hash_set field_slot
one_field_fits h = cc

store_hash_get-store_hash_set_example :
    (store_hash_get
      (store_hash_set one_field a_key (codes "g") (codes "2") (pos 100)).2
      a_key
      (codes "f")
      (pos 100)).1
    ≡ (if str_eq (codes "g") (codes "f")
        then some (codes "2")
        else (store_hash_get one_field a_key (codes "f") (pos 100)).1)
store_hash_get-store_hash_set_example =
    store_hash_get-store_hash_set one_field one_field-IsValid a_key (pos 100) (codes "g")
      (codes "2") (codes "f") one_field_fits

store_hash_set-Sets_example :
    Sets one_field one_field-IsValid a_key
      (pos 100)
      (codes "g")
      (codes "2")
      (opened as_hash one_field one_field-IsValid a_key
        (pos 100)
        empty_hash
        (typed_content as_hash (live one_field (pos 100) a_key)))
      (store_hash_set one_field a_key (codes "g") (codes "2") (pos 100))
store_hash_set-Sets_example =
    store_hash_set-Sets one_field one_field-IsValid a_key (pos 100) (codes "g") (codes "2")
