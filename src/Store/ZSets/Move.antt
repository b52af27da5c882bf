-- ===== src/Store/ZSets/Move.antt =====
-- A member of a sorted set of src/store.c with a new score, and `store_zset_add` on the set.
use pulse_db.Table.Holds.{update, modify-Holds}
use pulse_db.Prelude.{
  Bool, Bool-cases, List, Option, Option-cases, ap, arith, eqb_ℤ→eq, false, if◌then◌else◌, inl, inr,
  none, refl, some, subst, sym, true, ℕ, ◌∙◌, ◌≡◌, ◌≤◌,
}
use pulse_db.Prelude.Bytes.{Bytes, str_eq, str_eq_refl, str_eq→eq}
use pulse_db.Store.Hashing.{hash64}
use pulse_db.Store.Scores.{score_eq}
use pulse_db.Store.Types.{Score, ZIndexNode, ZSet, ZSetEntry, finite, infinity, neg_infinity}
use pulse_db.Store.ZSets.{zindex_add, zindex_rescore, zset_insert, zset_move, zset_put, zset_remove}
use pulse_db.Store.ZSets.Entries.{Stands, entry_at, entry_at-Stands, member_of, times}
use pulse_db.Store.ZSets.Put.{
  Added, IsZSet, Puts, index_of, insert-Puts, node_hash, node_member, node_of, one_more,
  zindex_add-HasNode, zindex_find-entry_at, zset_insert-Added,
}
use pulse_db.Store.ZSets.Taken.{Removed, owner, zset_remove-Removed}
use pulse_db.Table.Chain.{count-eq-zero, find-key}
use pulse_db.Table.Grow.{Holds-congr}
use mathlib.Core.Option

-- An entry with a new score.
abbrev rescored : ZSetEntry → Score → ZSetEntry
rescored e score = record { member = e.member; score = score }

module _ (z : ZSet) (e : ZSetEntry) (v : IsZSet z) (score : Score) (bs : List ZSetEntry) (n : ℕ)
    (r : Removed z e (record z { entries = bs; len = n })) where
  abbrev left : ZSet
  left = record z { entries = bs; len = n }

  here : entry_at z.entries e.member ≡ some e
  here = r.reads e.member ∙ rw (str_eq_refl e.member) refl

  -- The index with the changed node reads as the entries with the new one.
  same_index :
      (q : Bytes) (o : Option ZSetEntry)
      → o ≡ (if str_eq e.member q then some (rescored e score) else entry_at bs q)
      → update node_member node_hash hash64
          (index_of z.entries)
          e.member
          (Option.map
            (λ (m : ZIndexNode). record m { score = score })
            (index_of z.entries e.member))
          q
        ≡ Option.map node_of o
  same_index q o h = elim (Bool-cases (str_eq e.member q)) [
    | inl k ↦ rw (h, k, here) refl
    | inr k ↦ rw (h, k) (ap (Option.map node_of) (r.reads q ∙ rw k refl))
  ]

  once_rest : (q : Bytes) → times q bs ≤ 1
  once_rest q = omega (arith, r.often q, v.once q)

  same_elsewhere :
      (q : Bytes)
      → (if str_eq e.member q then some (rescored e score) else entry_at bs q)
        ≡ (if str_eq e.member q then some (rescored e score) else entry_at z.entries q)
  same_elsewhere q = elim (Bool-cases (str_eq e.member q)) [
    | inl k ↦ rw k refl
    | inr k ↦ rw k (sym (r.reads q ∙ rw k refl))
  ]

  -- The rest of `zset_move`: the pair is inserted in the array, and its node changed.
  move_insert :
      Puts z
        (rescored e score)
        (zindex_rescore (zset_insert left score e.member) e.member (hash64 e.member) score)
  unfolding zindex_rescore zset_insert
  move_insert =
      let a : Added bs (rescored e score) (zset_insert left score e.member) =
        zset_insert-Added left (rescored e score) r.sorted r.counted r.fresh in
      record {
        valid = record {
          sorted = a.sorted;
          counted = a.counted;
          once = λ q. omega (arith, a.often q, one_more (rescored e score) bs r.fresh once_rest q);
          indexed =
              Holds-congr node_member node_hash hash64 _ _
                (modify-Holds node_member node_hash hash64 z.index z.index_size z.len
                  (index_of z.entries) (omega (arith, r.fewer, v.room)) v.indexed e.member
                  (λ (m : ZIndexNode). record m { score = score }) (λ m. refl) (λ m. refl))
                (sym r.fewer) (λ q. same_index q _ (a.reads q));
          room = omega (arith, r.fewer, v.room);
        };
        reads = λ q. a.reads q ∙ same_elsewhere q;
      }

-- A member that is there gets the new score.
zset_move-Puts :
    (z : ZSet) (e : ZSetEntry) (score : Score)
    → IsZSet z
    → Stands e.member z.entries e
    → Puts z (rescored e score) (zset_move z e.score score e.member (hash64 e.member))
unfolding zset_move zset_remove
zset_move-Puts z e score v t =
    rw (owner z e v t) (move_insert z e v score _ _ (zset_remove-Removed z e v t))

score_eq→eq : (a b : Score) → score_eq a b ≡ true → a ≡ b
unfolding score_eq
score_eq→eq neg_infinity neg_infinity h = refl
score_eq→eq neg_infinity (finite b) h = absurd (cc)
score_eq→eq neg_infinity infinity h = absurd (cc)
score_eq→eq (finite a) neg_infinity h = absurd (cc)
score_eq→eq (finite a) (finite b) h = ap finite (eqb_ℤ→eq a b h)
score_eq→eq (finite a) infinity h = absurd (cc)
score_eq→eq infinity neg_infinity h = absurd (cc)
score_eq→eq infinity (finite b) h = absurd (cc)
score_eq→eq infinity infinity h = refl

-- The score is the one that the entry has.
same-Puts :
    (z : ZSet) (e : ZSetEntry) (score : Score)
    → IsZSet z
    → entry_at z.entries e.member ≡ some e
    → score_eq e.score score ≡ true
    → Puts z (rescored e score) z
same-Puts z e score v h same = record {
  valid = v;
  reads = λ q. elim (Bool-cases (str_eq e.member q)) [
    | inl k ↦ rw k (
        subst (λ m. entry_at z.entries m ≡ some (rescored e score)) (str_eq→eq e.member q k)
          (h ∙ ap (λ s. some (rescored e s)) (score_eq→eq e.score score same)))
    | inr k ↦ rw k refl
  ];
}

-- A member without an entry is new.
abbrev pub is_fresh : Option ZSetEntry → Bool
is_fresh none = true
is_fresh (some e) = false

abbrev pub Put : ZSet → Score → Bytes → Bool × ZSet → Type 0
Put z score member r =
    (r.0 ≡ is_fresh (entry_at z.entries member))
    × Puts z (record { member = member; score = score }) r.1

new_member-Put :
    (z : ZSet) (score : Score) (member : Bytes)
    → IsZSet z
    → entry_at z.entries member ≡ none
    → Put z score member (zset_put z score member)
unfolding zset_put
new_member-Put z score member v h =
    let nothing : index_of z.entries member ≡ none = ap (Option.map node_of) h in
    let x : ZSetEntry = record { member = member; score = score } in
    rw (zindex_find-entry_at z member v ∙ nothing, zset_put)
      (
        ap is_fresh (sym h),
        insert-Puts z (zindex_add z member (hash64 member) score) x v
            (zindex_add-HasNode z x v nothing) (count-eq-zero member_of member z.entries h),
      )

old_member-Put :
    (z : ZSet) (score : Score) (e : ZSetEntry)
    → IsZSet z
    → entry_at z.entries e.member ≡ some e
    → Put z score e.member (zset_put z score e.member)
unfolding zset_put
old_member-Put z score e v h =
    let node : index_of z.entries e.member ≡ some (node_of e) = ap (Option.map node_of) h in
    rw (zindex_find-entry_at z e.member v ∙ node, zset_put)
      (
        ap is_fresh (sym h),
        elim (Bool-cases (score_eq e.score score)) [
          | inl same ↦ rw same (same-Puts z e score v h same)
          | inr other ↦
              rw other (zset_move-Puts z e score v (entry_at-Stands e.member z.entries e h))
        ],
      )

-- On a sound set, `zset_put` says that the member is new exactly where it has no entry, and
-- leaves a sound set in which the member has the score, and every other member its old entry or
-- none.
pub zset_put-Put :
    (z : ZSet) (score : Score) (member : Bytes)
    → IsZSet z
    → Put z score member (zset_put z score member)
zset_put-Put z score member v = elim (Option-cases (entry_at z.entries member)) [
  | inl h ↦ new_member-Put z score member v h
  | inr (e, h) ↦
      let name : e.member ≡ member = find-key member_of member z.entries e h in
      subst (λ m. Put z score m (zset_put z score m)) name
        (old_member-Put z score e v (subst (λ m. entry_at z.entries m ≡ some e) (sym name) h))
]
