-- ===== src/Store/ZSets/Put.antt =====
-- `store_zset_add` of src/store.c on a set: the array stays sorted, and the index agrees with it.
use pulse_db.Store.ZSets.Entries.{times-insert, entry_at-insert, times-IsNew, entry_at, times}
use pulse_db.Prelude.{
  Bool, false, ◌++◌, ◌∙◌, ap, some, subst, sym, ◌*◌, ◌+◌, Bool-cases, List, Option, [], arith,
  if◌then◌else◌, inl, inr, leb, length, none, refl, true, ℕ, ◌<◌, ◌==◌, ◌∷◌, ◌≡◌, ◌≤◌,
}
use pulse_db.Prelude.Bytes.{str_eq→eq, str_eq, Bytes}
use pulse_db.Table.Chain.{to_nat, find}
use pulse_db.Table.Holds.{update, empty-Holds, push-Holds, Holds, find_hit}
use pulse_db.Store.ZSets.{zindex_add, zindex_push, zset_insert, zindex_find, zindex_grow}
use pulse_db.Store.ZSets.Insert.{zset_insert-Inserts}
use pulse_db.Table.Grow.{Holds-congr, rehash-Holds}
use pulse_db.Store.Hashing.{hash64}
use pulse_db.Store.Types.{ZIndexNode, ZSet, ZSetEntry}
use pulse_db.Store.ZSets.Rank.{Sorted}
use pulse_db.Table.Rehash.{move_all}
use mathlib.Core.Option

abbrev pub node_member : ZIndexNode → Bytes
node_member n = n.member

abbrev pub node_hash : ZIndexNode → ℕ
node_hash n = n.hash

-- The node of the index for an entry.
abbrev pub node_of : ZSetEntry → ZIndexNode
node_of e = record { member = e.member; hash = hash64 e.member; score = e.score }

abbrev pub index_of : List ZSetEntry → Bytes → Option ZIndexNode
index_of es q = Option.map node_of (entry_at es q)

-- The invariant of a sorted set: the entries stand in order and are counted, a member occurs once,
-- and the index holds their nodes, with room for them.
pub record IsZSet (z : ZSet) : Type 0 where
  pub sorted : Sorted z.entries
  pub counted : z.len ≡ length z.entries
  pub once : (q : Bytes) → times q z.entries ≤ 1
  pub indexed : Holds node_member node_hash hash64 z.index z.index_size z.len (index_of z.entries)
  pub room : z.len ≤ z.index_size

-- A set without entries has no entry of a member.
nothing_at : (es : List ZSetEntry) (q : Bytes) → length es ≡ 0 → entry_at es q ≡ none
unfolding find
nothing_at [] q h = refl
nothing_at (e ∷ es) q h = absurd (omega arith)

pub zindex_find-entry_at :
    (z : ZSet) (member : Bytes)
    → IsZSet z
    → zindex_find z member (hash64 member) ≡ index_of z.entries member
unfolding zindex_find
zindex_find-entry_at z member v = elim (Bool-cases (z.index_size == 0)) [
  | inl zero_size ↦
      let small : length z.entries ≡ 0 = ground (arith, v.counted, v.room) in
      rw (zero_size, nothing_at z.entries member small) refl
  | inr some_size ↦ rw some_size (
      find_hit node_member node_hash hash64 z.index z.index_size z.len (index_of z.entries)
        (ground arith) v.indexed member)
]

-- The set with room for one more node.
record HasRoom (z z' : ZSet) : Type 0 where
  fits : z.len < z'.index_size
  holds : Holds node_member node_hash hash64 z'.index z'.index_size z.len (index_of z.entries)
  same_entries : z'.entries ≡ z.entries
  same_len : z'.len ≡ z.len

zindex_grow-HasRoom :
    (z : ZSet) → IsZSet z → leb z.index_size z.len ≡ true → HasRoom z (zindex_grow z)
unfolding zindex_grow move_all
zindex_grow-HasRoom z v full = elim (Bool-cases (z.index_size == 0)) [
  | inl zero_size ↦
      let size : z.index_size ≡ 0 = ground arith in
      let small : length z.entries ≡ 0 = omega (arith, v.counted, v.room, size) in
      record {
        fits = rw zero_size (omega (arith, v.room, size));
        holds =
            rw (zero_size, size)
              (Holds-congr node_member node_hash hash64 (λ q. none) (index_of z.entries)
                (empty-Holds node_member node_hash hash64 8) (omega (arith, v.room, size))
                (λ q. rw (nothing_at z.entries q small) refl));
        same_entries = refl;
        same_len = refl;
      }
  | inr some_size ↦ record {
    fits = rw some_size (ground (arith, v.room));
    holds = rw some_size (
        rehash-Holds node_member node_hash hash64 z.index z.index_size (z.index_size * 2) z.len
          (index_of z.entries) (ground arith) (ground arith) v.indexed);
    same_entries = refl;
    same_len = refl;
  }
]

make_room : ZSet → ZSet
make_room z = if leb z.index_size z.len then zindex_grow z else z

make_room-HasRoom : (z : ZSet) → IsZSet z → HasRoom z (make_room z)
unfolding make_room
make_room-HasRoom z v = elim (Bool-cases (leb z.index_size z.len)) [
  | inl full ↦ rw full (zindex_grow-HasRoom z v full)
  | inr free ↦
      rw free
        (record { fits = ground arith; holds = v.indexed; same_entries = refl; same_len = refl })
]

-- The set with the node of a new member at the head of its chain.
pub record HasNode (z : ZSet) (x : ZSetEntry) (z' : ZSet) : Type 0 where
  fits : z.len < z'.index_size
  holds :
      Holds node_member node_hash hash64 z'.index z'.index_size
        (z.len + 1)
        (update node_member node_hash hash64 (index_of z.entries) x.member (some (node_of x)))
  same_entries : z'.entries ≡ z.entries
  same_len : z'.len ≡ z.len

push-HasNode :
    (z z₁ : ZSet) (x : ZSetEntry)
    → HasRoom z z₁
    → index_of z.entries x.member ≡ none
    → HasNode z x (zindex_push z₁ x.member (hash64 x.member) x.score)
unfolding zindex_push
push-HasNode z z₁ x r fresh = record {
  fits = r.fits;
  holds =
      push-Holds node_member node_hash hash64 z₁.index z₁.index_size z.len (index_of z.entries)
        (omega (arith, r.fits)) r.holds x.member (node_of x) fresh refl refl;
  same_entries = r.same_entries;
  same_len = r.same_len;
}

pub zindex_add-HasNode :
    (z : ZSet) (x : ZSetEntry)
    → IsZSet z
    → index_of z.entries x.member ≡ none
    → HasNode z x (zindex_add z x.member (hash64 x.member) x.score)
unfolding zindex_add make_room
zindex_add-HasNode z x v fresh = push-HasNode z (make_room z) x (make_room-HasRoom z v) fresh

-- What an insertion leaves of the entries `bs`.
pub record Added (bs : List ZSetEntry) (x : ZSetEntry) (z' : ZSet) : Type 0 where
  pub sorted : Sorted z'.entries
  pub counted : z'.len ≡ length z'.entries
  pub often : (q : Bytes) → times q z'.entries ≡ to_nat (str_eq x.member q) + times q bs
  pub reads :
      (q : Bytes) → entry_at z'.entries q ≡ (if str_eq x.member q then some x else entry_at bs q)

pub zset_insert-Added :
    (z : ZSet) (x : ZSetEntry)
    → Sorted z.entries
    → z.len ≡ length z.entries
    → times x.member z.entries ≡ 0
    → Added z.entries x (zset_insert z x.score x.member)
zset_insert-Added z x s n fresh =
    let i = zset_insert-Inserts z x s n (times-IsNew x.member z.entries fresh) in
    let none_left : times x.member (i.before ++ i.behind) ≡ 0 =
      subst (λ es. times x.member es ≡ 0) i.old fresh in
    record {
      sorted = i.sorted;
      counted = i.counted;
      often = λ q.
          ap (times q) i.new
          ∙ times-insert q x i.before i.behind
          ∙ ap (λ es. to_nat (str_eq x.member q) + times q es) (sym i.old);
      reads = λ q.
          ap (λ es. entry_at es q) i.new
          ∙ entry_at-insert q x i.before i.behind none_left
          ∙ ap (λ es. if str_eq x.member q then some x else entry_at es q) (sym i.old);
    }

-- One more of a member that does not occur.
pub one_more :
    (x : ZSetEntry) (bs : List ZSetEntry)
    → times x.member bs ≡ 0
    → ((q : Bytes) → times q bs ≤ 1)
    → (q : Bytes) → to_nat (str_eq x.member q) + times q bs ≤ 1
one_more x bs fresh once q = elim (Bool-cases (str_eq x.member q)) [
  | inl k ↦
      let t : times q bs ≡ 0 = subst (λ m. times m bs ≡ 0) (str_eq→eq x.member q k) fresh in
      rw k (omega (arith, t))
  | inr k ↦ rw k (omega (arith, once q))
]

-- The nodes of the entries, where an entry was added.
pub index_of-if :
    (b : Bool) (x : ZSetEntry) (o : Option ZSetEntry)
    → Option.map node_of (if b then some x else o)
      ≡ (if b then some (node_of x) else Option.map node_of o)
index_of-if true x o = refl
index_of-if false x o = refl

-- What `zset_put` leaves: a set with the pair, in which every other member has its old entry.
pub record Puts (z : ZSet) (x : ZSetEntry) (z' : ZSet) : Type 0 where
  pub valid : IsZSet z'
  pub reads :
      (q : Bytes)
      → entry_at z'.entries q ≡ (if str_eq x.member q then some x else entry_at z.entries q)

-- The insertion of a new member, whose node the index has.
pub insert-Puts :
    (z z₁ : ZSet) (x : ZSetEntry)
    → IsZSet z
    → HasNode z x z₁
    → times x.member z.entries ≡ 0
    → Puts z x (zset_insert z₁ x.score x.member)
unfolding zset_insert
insert-Puts z z₁ x v h fresh =
    let counted : z₁.len ≡ length z₁.entries =
      omega (arith, h.same_len, ap length h.same_entries, v.counted) in
    let a : Added z₁.entries x (zset_insert z₁ x.score x.member) =
      zset_insert-Added z₁ x (subst Sorted (sym h.same_entries) v.sorted) counted
        (subst (λ es. times x.member es ≡ 0) (sym h.same_entries) fresh) in
    let b : Added z.entries x (zset_insert z₁ x.score x.member) =
      subst (λ es. Added es x (zset_insert z₁ x.score x.member)) h.same_entries a in
    record {
      valid = record {
        sorted = b.sorted;
        counted = b.counted;
        once = λ q. omega (arith, b.often q, one_more x z.entries fresh v.once q);
        indexed =
            Holds-congr node_member node_hash hash64 _ _ h.holds (omega (arith, h.same_len)) (λ q.
              sym (
                ap (Option.map node_of) (b.reads q)
                ∙ index_of-if (str_eq x.member q) x (entry_at z.entries q)));
        room = omega (arith, h.fits, h.same_len);
      };
      reads = b.reads;
    }
