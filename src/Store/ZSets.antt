-- ===== src/Store/ZSets.antt =====
-- src/store.c, "sorted sets": the array of entries in order, the index of members, and the
-- operations on a key.
pub mod Order
pub mod Rank
pub mod Insert
pub mod Entries
pub mod Put
pub mod Taken
pub mod Move
pub mod Effects
use pulse_db.Prelude.{
  Bool, List, Option, Ordering, [], drop, false, get_elem?, if◌then◌else◌, leb, ltb, none, some,
  suc, take, true, zero, ℕ, ℤ, ◌*◌, ◌++◌, ◌+◌, ◌-◌, ◌/◌, ◌==◌, ◌∷◌,
}
use pulse_db.Prelude.Bytes.{Bytes, strcmp}
use pulse_db.Store.Hashing.{hash64}
use pulse_db.Store.Scores.{score_eq, score_lt}
use pulse_db.Store.Types.{Score, Store, StoreStatus, Value, ZIndexNode, ZSet, ZSetEntry}
use pulse_db.Table.Holds.{is_hit}
use pulse_db.Table.Rehash.{move_all}
use pulse_db.Table.Chain.{find, modify}
use pulse_db.Table.Buckets.{slot, set}
use pulse_db.Store.Keys.{held, absent, mismatched, Typed, lookup_typed, get_or_create, put_value}

abbrev pub as_zset : Value → Option ZSet
as_zset (Value.str s) = none
as_zset (Value.list l) = none
as_zset (Value.hash h) = none
as_zset (Value.zset z) = some z
as_zset (Value.stream x) = none

abbrev pub empty_zset : ZSet
empty_zset = record { entries = []; len = 0; index = λ i. []; index_size = 0 }

-- The sign of `zset_cmp`.
unfoldable pub zset_cmp : Score → Bytes → ZSetEntry → Ordering
zset_cmp score member e =
    if score_lt score e.score
    then Ordering.lt
    else if score_lt e.score score
    then Ordering.gt
    else strcmp member e.member

-- `zset_cmp(score, member, e) > 0`: the entry is below the pair.
abbrev pub is_below : Score → Bytes → ZSetEntry → Bool
is_below score member e = elim (zset_cmp score member e) [ Ordering.gt ↦ true | _ ↦ false ]

abbrev pub is_member : ℕ → Bytes → ZIndexNode → Bool
is_member h member = is_hit (λ n. n.member) (λ n. n.hash) h member

unfoldable pub zindex_find : ZSet → Bytes → ℕ → Option ZIndexNode
zindex_find z member h =
    if z.index_size == 0 then none else find (is_member h member) (z.index (slot h z.index_size))

-- The growth of the index where the set is as long as it.
unfoldable pub zindex_grow : ZSet → ZSet
zindex_grow z =
    let size = if z.index_size == 0 then 8 else z.index_size * 2 in
    record z {
      index = move_all (λ n. n.hash) size z.index 0 z.index_size (λ i. []);
      index_size = size;
    }

unfoldable pub zindex_push : ZSet → Bytes → ℕ → Score → ZSet
zindex_push z member h score = record z {
  index =
      set z.index (slot h z.index_size)
        (record { member = member; hash = h; score = score } ∷ z.index (slot h z.index_size));
}

unfoldable pub zindex_add : ZSet → Bytes → ℕ → Score → ZSet
zindex_add z member h score =
    zindex_push (if leb z.index_size z.len then zindex_grow z else z) member h score

-- The loop of `zset_lower_bound`. The array is read below `len`, where there is an entry.
unfoldable pub bisect : (ZSetEntry → Bool) → List ZSetEntry → ℕ → ℕ → ℕ → ℕ
bisect below entries zero lo hi = lo
bisect below entries (suc fuel) lo hi =
    let mid = lo + (hi - lo) / 2 in
    let up = bisect below entries fuel (mid + 1) hi in
    let down = bisect below entries fuel lo mid in
    if ltb lo hi
    then elim (get_elem? entries mid) [ none ↦ lo | some e ↦ if below e then up else down ]
    else lo

unfoldable pub zset_lower_bound : ZSet → Score → Bytes → ℕ
zset_lower_bound z score member = bisect (is_below score member) z.entries z.len 0 z.len

-- The entry at a position, and the ones from there on moved up by one.
abbrev pub insert_at : List ZSetEntry → ℕ → ZSetEntry → List ZSetEntry
insert_at entries i e = take i entries ++ e ∷ drop i entries

-- The entries behind a position moved down by one.
abbrev pub remove_at : List ZSetEntry → ℕ → List ZSetEntry
remove_at entries i = take i entries ++ drop (i + 1) entries

unfoldable pub zset_insert : ZSet → Score → Bytes → ZSet
zset_insert z score member = record z {
  entries =
      insert_at z.entries (zset_lower_bound z score member)
        (record { member = member; score = score });
  len = z.len + 1;
}

-- `zset->entries[i].member`
abbrev pub owned_at : ZSet → ℕ → Bytes → Bytes
owned_at z i member = elim (get_elem? z.entries i) [ none ↦ member | some e ↦ e.member ]

unfoldable pub zset_remove : ZSet → ℕ → ZSet
zset_remove z i = record z { entries = remove_at z.entries i; len = z.len - 1 }

-- `node->score = score`
unfoldable pub zindex_rescore : ZSet → Bytes → ℕ → Score → ZSet
zindex_rescore z member h score = record z {
  index = set z.index (slot h z.index_size) (
      modify (is_member h member) (λ n. record n { score = score })
        (z.index (slot h z.index_size)));
}

-- A member with a new score: its entry is taken out and inserted where it belongs.
unfoldable pub zset_move : ZSet → Score → Score → Bytes → ℕ → ZSet
zset_move z old score member h =
    let i = zset_lower_bound z old member in
    zindex_rescore (zset_insert (zset_remove z i) score (owned_at z i member)) member h score

-- The part of `store_zset_add` on the set: whether the member is new, and the changed set.
unfoldable pub zset_put : ZSet → Score → Bytes → Bool × ZSet
zset_put z score member = elim (zindex_find z member (hash64 member)) [
  | some node ↦ (
    false,
    if score_eq node.score score then z else zset_move z node.score score member (hash64 member),
  )
  | none ↦ (true, zset_insert (zindex_add z member (hash64 member) score) score member)
]

-- The status, `*added` and the store.
unfoldable pub store_zset_add : Store → Bytes → Score → Bytes → ℤ → StoreStatus × Bool × Store
store_zset_add s key score member now =
    let (o, s') = get_or_create as_zset Value.zset empty_zset s key now in
    elim o [
      | none ↦ (StoreStatus.wrong_type, false, s')
      | some z ↦
          let (added, z') = zset_put z score member in
          (StoreStatus.ok, added, put_value s' key (Value.zset z'))
    ]

-- The status, `*score` and the store.
unfoldable pub store_zset_score : Store → Bytes → Bytes → ℤ → StoreStatus × Option Score × Store
store_zset_score s key member now =
    let (r, s') = lookup_typed as_zset s key now in
    elim r [
      | absent ↦ (StoreStatus.not_found, none, s')
      | mismatched ↦ (StoreStatus.wrong_type, none, s')
      | held z ↦ elim (zindex_find z member (hash64 member)) [
        | none ↦ (StoreStatus.not_found, none, s')
        | some node ↦ (StoreStatus.ok, some node.score, s')
      ]
    ]

-- The status, `*rank` and the store.
unfoldable pub store_zset_rank : Store → Bytes → Bytes → ℤ → StoreStatus × Option ℕ × Store
store_zset_rank s key member now =
    let (r, s') = lookup_typed as_zset s key now in
    elim r [
      | absent ↦ (StoreStatus.not_found, none, s')
      | mismatched ↦ (StoreStatus.wrong_type, none, s')
      | held z ↦ elim (zindex_find z member (hash64 member)) [
        | none ↦ (StoreStatus.not_found, none, s')
        | some node ↦ (StoreStatus.ok, some (zset_lower_bound z node.score member), s')
      ]
    ]

unfoldable pub store_get_zset : Store → Bytes → ℤ → Typed ZSet × Store
store_get_zset s key now = lookup_typed as_zset s key now
