-- ===== src/Tests/ZSets.antt =====
-- The sorted sets of src/store.c on a set of one member.
use pulse_db.Prelude.{arith, pos, refl, subst, sym, ◌∙◌, ◌≡◌}
use pulse_db.Prelude.Bytes.{Bytes, codes, str_eq, strcmp}
use pulse_db.Store.Hashing.{hash64, hash64_from}
use pulse_db.Store.Invariant.{IsValid}
use pulse_db.Store.Keys.{
  create_entry, entry_is_expired, get_or_create, lookup, lookup_typed, push_entry, put_value,
  store_create, store_grow, typed, unlink_entry, write_entry, held, Typed,
}
use pulse_db.Store.Keys.Effects.{store_create_empty}
use pulse_db.Store.Live.{live}
use pulse_db.Store.Types.{Store, ZSet, finite}
use pulse_db.Store.Update.{typed_content}
use pulse_db.Store.ZSets.{
  as_zset, bisect, empty_zset, store_zset_add, store_zset_rank, zindex_add, zindex_find,
  zindex_grow, zindex_push, zset_insert, zset_lower_bound, zset_put,
}
use pulse_db.Store.ZSets.Effects.{
  Ranks, ZAdds, empty_zset-IsZSet, store_zset_add-ZAdds, store_zset_rank-Ranks, zset_at,
}
use pulse_db.Store.ZSets.Move.{zset_put-Put}
use pulse_db.Store.ZSets.Put.{IsZSet}
use pulse_db.Table.Buckets.{Buckets, slot, nodes}
use pulse_db.Table.Rehash.{move_all, move_chain}
use pulse_db.Table.Chain.{find, remove, modify}
use pulse_db.Table.Buckets

abbrev a_key : Bytes
a_key = codes "a"

-- What a run computes with.
program : Unit {0}
unfolding strcmp str_eq find remove modify slot nodes move_chain move_all hash64_from hash64
    Buckets.view store_create store_grow entry_is_expired unlink_entry lookup write_entry push_entry
    create_entry typed lookup_typed put_value get_or_create live store_zset_add zset_put zindex_find
    zindex_add zindex_grow zindex_push zset_insert zset_lower_bound bisect
program = tt

-- `ZADD a 3 x`, at time 100.
abbrev one_member : Store
one_member = (store_zset_add store_create a_key (finite (pos 3)) (codes "x") (pos 100)).2

abbrev one_zset : ZSet
one_zset = (zset_put empty_zset (finite (pos 3)) (codes "x")).1

one_zset-IsZSet : IsZSet one_zset
one_zset-IsZSet = (zset_put-Put empty_zset (finite (pos 3)) (codes "x") empty_zset-IsZSet).1.valid

nothing_held :
    (z : ZSet) → typed_content as_zset (live store_create (pos 100) a_key) ≡ held z → IsZSet z
unfolding program
nothing_held z h = absurd (ground arith)

one_member-IsValid : IsValid one_member
unfolding program
one_member-IsValid =
    let t =
      store_zset_add-ZAdds store_create store_create_empty.0 a_key (pos 100) (finite (pos 3))
        (codes "x") nothing_held in
    t.4.valid

one_member_held : typed_content as_zset (live one_member (pos 100) a_key) ≡ held one_zset
unfolding program
one_member_held = refl

SoundTyped : Typed ZSet → Type 0
SoundTyped (held z) = IsZSet z
SoundTyped _ = Unit

one_member-IsZSet :
    (z : ZSet) → typed_content as_zset (live one_member (pos 100) a_key) ≡ held z → IsZSet z
unfolding SoundTyped
one_member-IsZSet z h = subst SoundTyped (sym one_member_held ∙ h) one_zset-IsZSet

store_zset_add-ZAdds_example :
    ZAdds one_member one_member-IsValid a_key
      (pos 100)
      (finite (pos 1))
      (codes "y")
      (zset_at one_member one_member-IsValid a_key (pos 100))
      (store_zset_add one_member a_key (finite (pos 1)) (codes "y") (pos 100))
store_zset_add-ZAdds_example =
    store_zset_add-ZAdds one_member one_member-IsValid a_key (pos 100) (finite (pos 1)) (codes "y")
      one_member-IsZSet

store_zset_rank-Ranks_example :
    Ranks one_member one_member-IsValid a_key
      (pos 100)
      (codes "x")
      (typed_content as_zset (live one_member (pos 100) a_key))
      (store_zset_rank one_member a_key (codes "x") (pos 100))
store_zset_rank-Ranks_example =
    store_zset_rank-Ranks one_member one_member-IsValid a_key (pos 100) (codes "x")
      one_member-IsZSet
