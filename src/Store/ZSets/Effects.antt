-- ===== src/Store/ZSets/Effects.antt =====
-- What `store_zset_add` and `store_zset_rank` of src/store.c do.
use pulse_db.Store.Update.{
  lookup_typed-Finds, expiry_of, get_or_create-Opens, opened, typed_content,
}
use pulse_db.Prelude.{
  Option-cases, ap, get_elem?, inl, inr, length, subst, ℕ, Bool, Option, arith, false, none, refl,
  some, sym, ℤ, ◌∙◌, ◌≡◌,
}
use pulse_db.Store.Keys.{lookup_typed, Typed, absent, get_or_create, held, mismatched}
use pulse_db.Store.Types.{ZSetEntry, Score, Store, StoreStatus, Value, ZSet}
use pulse_db.Store.ZSets.{
  store_zset_rank, zindex_find, zset_lower_bound, as_zset, empty_zset, store_zset_add,
}
use pulse_db.Store.ZSets.Entries.{entry_at-Stands, member_of, entry_at}
use pulse_db.Store.ZSets.Put.{node_of, zindex_find-entry_at, IsZSet, Puts, node_hash, node_member}
use pulse_db.Store.ZSets.Taken.{get-length, position}
use pulse_db.Table.Chain.{find-key, count, find}
use pulse_db.Prelude.Bytes.{Bytes}
use pulse_db.Store.Hashing.{hash64}
use pulse_db.Store.Invariant.{IsValid}
use pulse_db.Store.Live.{Same, Writes, live}
use pulse_db.Store.ZSets.Move.{is_fresh, zset_put-Put}
use pulse_db.Table.Holds.{empty-Holds}
use mathlib.Core.Option

pub empty_zset-IsZSet : IsZSet empty_zset
unfolding count find
empty_zset-IsZSet = record {
  sorted = tt;
  counted = refl;
  once = λ q. omega arith;
  indexed = empty-Holds node_member node_hash hash64 0;
  room = omega arith;
}

module _ (s : Store) (v : IsValid s) (k : Bytes) (now : ℤ) where
  -- The set under the key, or an empty one where the key is free.
  abbrev pub zset_at : Option ZSet
  zset_at = opened as_zset s v k now empty_zset (typed_content as_zset (live s now k))

  -- An addition: to the set there, or to an empty one of a new key without expiry.
  abbrev pub ZAdds : Score → Bytes → Option ZSet → StoreStatus × Bool × Store → Type 0
  ZAdds score member none r = (r.0 ≡ StoreStatus.wrong_type) × (r.1 ≡ false) × Same now s r.2
  ZAdds score member (some z) r =
      (r.0 ≡ StoreStatus.ok)
      × (r.1 ≡ is_fresh (entry_at z.entries member))
      × (z' : ZSet) × Puts z (record { member = member; score = score }) z'
      × Writes now s k (some (Value.zset z', expiry_of (live s now k))) r.2

  opened-IsZSet :
      (c : Typed ZSet)
      → ((z : ZSet) → c ≡ held z → IsZSet z)
      → (z : ZSet) → opened as_zset s v k now empty_zset c ≡ some z
      → IsZSet z
  opened-IsZSet (held y) sound z e = sound z (ground arith)
  opened-IsZSet absent sound z e =
      subst (λ o. elim o as (λ p. Type 0) [ none ↦ Unit | some y ↦ IsZSet y ]) e empty_zset-IsZSet
  opened-IsZSet mismatched sound z e = absurd (cc)

  -- On a valid store whose sorted set under the key, if there is one, is sound (its array is
  -- sorted by score and member and counted, a member occurs once, and the index holds the nodes
  -- of the entries), `store_zset_add` gives the member the score and leaves a sound set in which
  -- every other member has its old entry; it says whether the member is new, makes a set at a
  -- free key, keeps the expiry and the other keys, and where the key holds another type says so
  -- and leaves the database the same.
  pub store_zset_add-ZAdds :
      (score : Score) (member : Bytes)
      → ((z : ZSet) → typed_content as_zset (live s now k) ≡ held z → IsZSet z)
      → ZAdds score member zset_at (store_zset_add s k score member now)
  unfolding store_zset_add
  store_zset_add-ZAdds score member sound =
      let t = get_or_create-Opens as_zset s v k now Value.zset empty_zset in
      let g = get_or_create as_zset Value.zset empty_zset s k now in
      let valid = opened-IsZSet (typed_content as_zset (live s now k)) sound in
      rw (← t.value) (
        (elim g.0 as (λ o. g.0 ≡ o → ZAdds score member o (store_zset_add s k score member now)) [
          | none ↦ λ e. rw (e, store_zset_add) (refl, refl, t.refused e)
          | some z ↦ λ e.
              let put = zset_put-Put z score member (valid z (sym t.value ∙ e)) in
              rw (e, store_zset_add) (refl, put.0, _, put.1, t.written z _ e)
        ])
          refl)

  -- The rank of a member: the position of its entry in the array of the set under the key.
  abbrev pub RanksIn : ZSet → Option ZSetEntry → StoreStatus × Option ℕ × Store → Type 0
  RanksIn z none r = (r.0 ≡ StoreStatus.not_found) × (r.1 ≡ none)
  RanksIn z (some e) r =
      (r.0 ≡ StoreStatus.ok) × (i : ℕ) × (r.1 ≡ some i) × (get_elem? z.entries i ≡ some e)

  abbrev pub Ranks : Bytes → Typed ZSet → StoreStatus × Option ℕ × Store → Type 0
  Ranks member absent r = (r.0 ≡ StoreStatus.not_found) × (r.1 ≡ none)
  Ranks member mismatched r = (r.0 ≡ StoreStatus.wrong_type) × (r.1 ≡ none)
  Ranks member (held z) r = RanksIn z (entry_at z.entries member) r

  rank_there :
      (z : ZSet) (e : ZSetEntry)
      → IsZSet z
      → entry_at z.entries e.member ≡ some e
      → (i : ℕ) × (zset_lower_bound z e.score e.member ≡ i) × (get_elem? z.entries i ≡ some e)
  rank_there z e sound h =
      let t = entry_at-Stands e.member z.entries e h in
      (
        length t.before,
        position z e sound t,
        subst (λ es. get_elem? es (length t.before) ≡ some e) (sym t.whole)
            (get-length t.before t.behind e),
      )

  rank_held :
      (z : ZSet) (member : Bytes)
      → IsZSet z
      → (lookup_typed as_zset s k now).0 ≡ held z
      → Ranks member (held z) (store_zset_rank s k member now)
  unfolding store_zset_rank
  rank_held z member sound h = elim (Option-cases (entry_at z.entries member)) [
    | inl e ↦
        let nothing : zindex_find z member (hash64 member) ≡ none =
          zindex_find-entry_at z member sound ∙ ap (Option.map node_of) e in
        rw (e, h, store_zset_rank, nothing) (refl, refl)
    | inr (x, e) ↦
        let node : zindex_find z member (hash64 member) ≡ some (node_of x) =
          zindex_find-entry_at z member sound ∙ ap (Option.map node_of) e in
        let name : x.member ≡ member = find-key member_of member z.entries x e in
        let (i, low, found) =
          rank_there z x sound (subst (λ m. entry_at z.entries m ≡ some x) (sym name) e) in
        let low' : zset_lower_bound z x.score member ≡ i =
          subst (λ m. zset_lower_bound z x.score m ≡ i) name low in
        rw (e, h, store_zset_rank, node) (refl, i, ap some low', found)
  ]

  -- On a valid store whose sorted set under the key, if there is one, is sound, `store_zset_rank`
  -- gives the position in the array at which the entry of the member stands, or says that the key
  -- or the member is missing or that the key holds another type.
  pub store_zset_rank-Ranks :
      (member : Bytes)
      → ((z : ZSet) → typed_content as_zset (live s now k) ≡ held z → IsZSet z)
      → Ranks member (typed_content as_zset (live s now k)) (store_zset_rank s k member now)
  unfolding store_zset_rank
  store_zset_rank-Ranks member sound =
      let t = lookup_typed-Finds as_zset s v k now in
      let r = (lookup_typed as_zset s k now).0 in
      rw (← t.returns) (
        (elim r as (λ o. r ≡ o → Ranks member o (store_zset_rank s k member now)) [
          | absent ↦ λ e. rw (e, store_zset_rank) (refl, refl)
          | mismatched ↦ λ e. rw (e, store_zset_rank) (refl, refl)
          | held z ↦ λ e. rank_held z member (sound z (sym t.returns ∙ e)) e
        ])
          refl)
