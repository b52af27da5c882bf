-- ===== src/Tests/Keyspace.antt =====
-- The keyspace of src/store.c on a small database.
use pulse_db.Commands.Args.{arg}
use pulse_db.Commands.Lists.{lrange_bounds, cmd_lrange}
use pulse_db.Commands.Lists.Replies.{cmd_lrange-picked, is_within, picked, texts_reply}
use pulse_db.Commands.Process.{c_str}
use pulse_db.Prelude.{
  negsuc, ◌≡◌, refl, pos, ◌≤◌, true, false, if◌then◌else◌, [], ◌∷◌, some, arith, ℤ, ◌≢◌, ◌≤ℤ◌,
}
use pulse_db.Prelude.Decimal.{
  digits_from, negative_int64, positive_int64, skip_spaces, strtoll_signed, strtoll_whole,
  whole_digits,
}
use pulse_db.Store.Strings.{parse_int64, as_str, store_set, store_get, store_incrby}
use pulse_db.Store.Types.{ListValue, Store, Value}
use pulse_db.Tests.Inputs.{world_of}
use pulse_db.Txn.{Request}
use pulse_db.Store.Lists.RoundTrip.{pop-push}
use pulse_db.Prelude.Bytes.{Bytes, codes, strcmp, str_eq}
use pulse_db.Table.Chain.{find, remove, modify, count, has_key}
use pulse_db.Table.Buckets.{slot, nodes, view}
use pulse_db.Table.Rehash.{move_chain, move_all}
use pulse_db.Store.Hashing.{hash64_from, hash64}
use pulse_db.Store.Keys.{
  store_create, store_grow, entry_is_expired, unlink_entry, write_entry, push_entry, create_entry,
  typed, lookup_typed, put_value, get_or_create, lookup, store_del, store_scan, held, absent,
  store_exists, store_get_expiry, mismatched,
}
use pulse_db.Store.Keys.Effects.{
  store_create_empty, store_del-Deletes, Deletes, store_scan-live, content_expiry, is_some,
  store_exists-live, store_get_expiry-live,
}
use pulse_db.Store.Invariant.{IsValid, key_of}
use pulse_db.Store.Live.{live, Writes, Looks, lookup-Looks, content, expired, Same}
use pulse_db.Store.Update.{typed_content, opened}
use pulse_db.Store.Strings.Effects.{
  store_set-Writes, get-set, Increments, increment, store_incrby-Increments,
}
use pulse_db.Store.Lists.{
  as_list, empty_list, list_insert, split_last, list_take, after_pop, store_list_push,
  store_list_pop,
}
use pulse_db.Store.Lists.Effects.{
  Pushes, store_list_push-Pushes, Pops, store_list_pop-Pops, IsCounted,
}
use mathlib.Core.Option

abbrev a_key : Bytes
a_key = codes "a"

abbrev b_key : Bytes
b_key = codes "b"

-- `SET a 41` without an expiry, at time 100.
abbrev one_key : Store
one_key = store_set store_create a_key (codes "41") (pos 0) (pos 100)

one_key-IsValid : IsValid one_key
one_key-IsValid =
    (store_set-Writes store_create a_key (codes "41") (pos 0) (pos 100) store_create_empty.0).valid

-- `SET b x PX 50` after it.
abbrev two_keys : Store
two_keys = store_set one_key b_key (codes "x") (pos 150) (pos 100)

two_keys-IsValid : IsValid two_keys
two_keys-IsValid =
    (store_set-Writes one_key b_key (codes "x") (pos 150) (pos 100) one_key-IsValid).valid

lookup-Looks_example :
    Looks two_keys two_keys-IsValid b_key (pos 151) (lookup two_keys b_key (pos 151))
lookup-Looks_example = lookup-Looks two_keys two_keys-IsValid b_key (pos 151)

store_del-Deletes_example :
    Deletes two_keys two_keys-IsValid b_key (pos 120) (store_del two_keys b_key (pos 120))
store_del-Deletes_example = store_del-Deletes two_keys two_keys-IsValid b_key (pos 120)

store_scan-live_example :
    (Option.map content (find (has_key key_of b_key) (store_scan two_keys (pos 200)))
      ≡ live two_keys (pos 200) b_key)
    × (count key_of b_key (store_scan two_keys (pos 200)) ≤ 1)
store_scan-live_example = store_scan-live (pos 200) b_key two_keys two_keys-IsValid

store_set-Writes_example :
    Writes (pos 100) one_key b_key (some (Value.str (codes "x"), pos 150)) two_keys
store_set-Writes_example =
    store_set-Writes one_key b_key (codes "x") (pos 150) (pos 100) one_key-IsValid

get-set_example : (store_get two_keys b_key (pos 150)).0 ≡ (
    if str_eq b_key b_key
    then (if expired (pos 150) (pos 150) then absent else held (codes "x"))
    else typed_content as_str (live one_key (pos 150) b_key))
get-set_example =
    get-set one_key b_key (codes "x") b_key (pos 150) (pos 100) (pos 150) one_key-IsValid
      (omega arith)

store_incrby-Increments_example :
    Increments one_key one_key-IsValid a_key
      (pos 1)
      (pos 120)
      (increment (typed_content as_str (live one_key (pos 120) a_key)) (pos 1))
      (store_incrby one_key a_key (pos 1) (pos 120))
store_incrby-Increments_example =
    store_incrby-Increments one_key one_key-IsValid a_key (pos 1) (pos 120) (omega arith)

-- What a run of the keyspace computes with.
program : Unit {0}
unfolding strcmp str_eq find remove modify slot nodes move_chain move_all hash64_from hash64
    store_create store_grow entry_is_expired unlink_entry lookup write_entry push_entry create_entry
    typed lookup_typed put_value get_or_create view live list_insert store_list_push split_last
    list_take after_pop store_list_pop store_set store_get
program = tt

-- `RPUSH a x y`, at time 100.
abbrev one_list : Store
one_list =
    (store_list_push (store_list_push store_create a_key (codes "x") false (pos 100)).2 a_key
      (codes "y") false (pos 100)).2

one_list-IsValid : IsValid one_list
unfolding program
one_list-IsValid =
    let t =
      store_list_push-Pushes store_create store_create_empty.0 a_key (pos 100) (codes "x") false in
    let u = store_list_push-Pushes _ t.2.valid a_key (pos 100) (codes "y") false in u.2.valid

one_list_held :
    typed_content as_list (live one_list (pos 100) a_key)
    ≡ held (record { items = codes "x" ∷ codes "y" ∷ []; len = 2 })
unfolding program
one_list_held = refl

one_list-IsCounted :
    (l : ListValue) → typed_content as_list (live one_list (pos 100) a_key) ≡ held l → IsCounted l
unfolding program
one_list-IsCounted l h = ground arith

store_list_push-Pushes_example :
    Pushes one_list one_list-IsValid a_key
      (pos 100)
      (codes "z")
      true
      (opened as_list one_list one_list-IsValid a_key
        (pos 100)
        empty_list
        (typed_content as_list (live one_list (pos 100) a_key)))
      (store_list_push one_list a_key (codes "z") true (pos 100))
store_list_push-Pushes_example =
    store_list_push-Pushes one_list one_list-IsValid a_key (pos 100) (codes "z") true

store_list_pop-Pops_example :
    Pops one_list one_list-IsValid a_key
      (pos 100)
      false
      (typed_content as_list (live one_list (pos 100) a_key))
      (store_list_pop one_list a_key false (pos 100))
store_list_pop-Pops_example =
    store_list_pop-Pops one_list one_list-IsValid a_key (pos 100) false one_list-IsCounted

one_list_fits : typed_content as_list (live one_list (pos 100) a_key) ≢ mismatched
unfolding program
one_list_fits h = cc

pop-push_example :
    ((store_list_pop
        (store_list_push one_list a_key (codes "z") false (pos 100)).2
        a_key
        false
        (pos 100)).1
      ≡ some (codes "z"))
    × ((later : ℤ) (q : Bytes)
        → pos 100 ≤ℤ later
        → live
            (store_list_pop
              (store_list_push one_list a_key (codes "z") false (pos 100)).2
              a_key
              false
              (pos 100)).2
            later
            q
          ≡ live one_list later q)
pop-push_example =
    pop-push one_list one_list-IsValid a_key (pos 100) (codes "z") false one_list_fits
      one_list-IsCounted

store_exists-live_example :
    ((store_exists two_keys b_key (pos 151)).0 ≡ is_some (live two_keys (pos 151) b_key))
    × Same (pos 151) two_keys (store_exists two_keys b_key (pos 151)).1
store_exists-live_example = store_exists-live two_keys two_keys-IsValid b_key (pos 151)

store_get_expiry-live_example :
    ((store_get_expiry two_keys b_key (pos 120)).0
      ≡ content_expiry two_keys two_keys-IsValid b_key (pos 120) (live two_keys (pos 120) b_key))
    × Same (pos 120) two_keys (store_get_expiry two_keys b_key (pos 120)).1
store_get_expiry-live_example = store_get_expiry-live two_keys two_keys-IsValid b_key (pos 120)

abbrev get_a : Request
get_a = record { name = codes "GET"; args = a_key ∷ [] }

-- `LRANGE a -1 5`
abbrev lrange_a : Request
lrange_a = record { name = codes "LRANGE"; args = a_key ∷ codes "-1" ∷ codes "5" ∷ [] }

abbrev a_list : Value
a_list = Value.list (record { items = codes "x" ∷ codes "y" ∷ []; len = 2 })

-- What the arguments of a command compute with.
arguments : Unit {0}
unfolding arg c_str parse_int64 strtoll_whole strtoll_signed skip_spaces whole_digits digits_from
    positive_int64 negative_int64
arguments = tt

lrange_a_bounds : lrange_bounds lrange_a ≡ some (negsuc 0, pos 5)
unfolding arguments
lrange_a_bounds = refl

cmd_lrange-picked_example :
    ((cmd_lrange lrange_a (world_of one_list)).0
      ≡ texts_reply (picked (is_within (negsuc 0) (pos 5) 2) 0 (codes "x" ∷ codes "y" ∷ [])))
    × Same (pos 100) one_list (cmd_lrange lrange_a (world_of one_list)).1.store
unfolding arg c_str
cmd_lrange-picked_example =
    cmd_lrange-picked lrange_a (world_of one_list) one_list-IsValid (negsuc 0) (pos 5)
      (record { items = codes "x" ∷ codes "y" ∷ []; len = 2 }) lrange_a_bounds one_list_held refl
