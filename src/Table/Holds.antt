-- ===== src/Table/Holds.antt =====
-- What an array of chains holds, and the writes of the program: a new node at the head of its
-- chain, a node changed in place, a node unlinked, and the move into a larger array.
use pulse_db.Prelude.{
  ℕ, zero, suc, ◌+◌, ◌-◌, ◌≤◌, ◌<◌, max, ◌≡◌, refl, ◌∙◌, Bool, true, List, [], ◌∷◌, Option, none,
  some, arith, if◌then◌else◌, length, All, ◌==◌, ==_iff, ◌&&◌, Bool-cases, inl, inr, subst,
}
use pulse_db.Prelude.Bytes.{Bytes, str_eq, str_eq_iff, str_eq→eq}
use pulse_db.Table.Chain.{
  find, remove, modify, count, to_nat, has_key, count-eq-zero, find_congr, remove_congr,
  modify_congr, find-modify, count-modify, find-remove, count-remove-le, length-modify,
  length-remove, remove-All, modify-All,
}
use pulse_db.Table.Buckets.{
  Buckets, slot-lt, set, nodes, length-nodes-set, home, IsPlaced, view, set-IsPlaced, view-set,
}
use mathlib.Core.Option
use mathlib.Core.Option.{or_else}

length-nodes_empty : (N : Type 0) (i n : ℕ) → length (nodes {N = N} (λ i. []) i n) ≡ 0
unfolding nodes
length-nodes_empty N i zero = refl
length-nodes_empty N i (suc n) = length-nodes_empty N (suc i) n

-- `e->hash == h && strcmp(e->key, key) == 0`
abbrev pub is_hit : {N : Type 0} → (N → Bytes) → (N → ℕ) → ℕ → Bytes → N → Bool
is_hit key hash_of h k e = hash_of e == h && str_eq (key e) k

module _ {N : Type 0} (key : N → Bytes) (hash_of : N → ℕ) (hash : Bytes → ℕ) where
  -- The cached hash of a node is that of its key.
  abbrev pub IsCached : N → Type 0
  IsCached e = hash_of e ≡ hash (key e)

  is_hit-has_key :
      (k : Bytes) (c : List N)
      → All IsCached c
      → All (λ e. is_hit key hash_of (hash k) k e ≡ has_key key k e) c
  is_hit-has_key k [] h = tt
  is_hit-has_key k (x ∷ c) h = (
    ground (arith, h.0, ==_iff (hash_of x) (hash k), str_eq_iff (key x) k),
    is_hit-has_key k c h.1,
  )

  -- An array of `size` chains with `total` nodes in all, that reads as `f`.
  pub record Holds (b : Buckets N) (size total : ℕ) (f : Bytes → Option N) : Type 0 where
    pub placed : IsPlaced key hash b size
    pub cached : (i : ℕ) → All IsCached (b i)
    pub entries : length (nodes b 0 size) ≡ total
    pub reads : (q : Bytes) → view key hash b size q ≡ f q

  pub empty-Holds : (size : ℕ) → Holds (λ i. []) size 0 (λ q. none)
  unfolding view find count
  empty-Holds size = record {
    placed = λ q i. (omega arith, λ n. refl);
    cached = λ i. tt;
    entries = length-nodes_empty N 0 size;
    reads = λ q. refl;
  }

  -- `f` with `v` at `k`
  abbrev pub update : (Bytes → Option N) → Bytes → Option N → Bytes → Option N
  update f k v q = if str_eq k q then v else f q

  set-All :
      (P : N → Type 0) (b : Buckets N) (h : ℕ) (c : List N)
      → ((i : ℕ) → All P (b i))
      → All P c
      → (i : ℕ) → All P (set b h c i)
  set-All P b h c old new i = elim (Bool-cases (i == h)) [ inl e ↦ rw e new | inr e ↦ rw e (old i) ]

  module _ (b : Buckets N) (size total : ℕ) (f : Bytes → Option N) (pos : 0 < size)
      (t : Holds b size total f) (k : Bytes) where
    abbrev old : List N
    old = b (home key hash k size)

    -- All three writes replace the home chain of `k`.
    write-Holds :
        (c : List N) (total' : ℕ) (v : Option N)
        → total' + length old ≡ total + length c
        → All IsCached c
        → ((q : Bytes) → count key q c ≤ max (to_nat (str_eq q k)) (count key q old))
        → ((q : Bytes)
            → find (has_key key q) c ≡ (if str_eq k q then v else find (has_key key q) old))
        → Holds (set b (home key hash k size) c) size total' (update f k v)
    write-Holds c total' v len cached few reads =
        let h = home key hash k size in
        record {
          placed = set-IsPlaced key hash b size k c t.placed few;
          cached = set-All IsCached b h c t.cached cached;
          entries = omega (
            arith,
            t.entries,
            length-nodes-set b h c 0 size (omega arith) (omega (arith, slot-lt (hash k) size pos)),
          );
          reads =
              λ q. ground (arith, view-set key hash b size k c t.placed few v reads q, t.reads q);
        }

    old_reads : find (has_key key k) old ≡ f k
    old_reads = unfold view in t.reads k

    old_fresh : f k ≡ none → (q : Bytes) → str_eq k q ≡ true → count key q old ≡ 0
    old_fresh fresh q same =
        subst (λ n. count key n old ≡ 0) (str_eq→eq k q same)
          (count-eq-zero key k old (old_reads ∙ fresh))

    old_same : (q : Bytes) → str_eq k q ≡ true → find (has_key key q) old ≡ f k
    old_same q same = subst (λ n. find (has_key key n) old ≡ f k) (str_eq→eq k q same) old_reads

    pub push-Holds :
        (e : N)
        → f k ≡ none
        → key e ≡ k
        → IsCached e
        → Holds (set b (home key hash k size) (e ∷ old)) size (total + 1) (update f k (some e))
    push-Holds e fresh name cached =
        write-Holds (e ∷ old) (total + 1) (some e) (omega arith) (cached, t.cached _)
          (λ q.
            unfold count in ground (arith, name, str_eq_iff k q, str_eq_iff q k, old_fresh fresh q))
          (λ q. unfold find in ground (arith, name))

    -- The walk along the home chain, by hash and then by key.
    pub find_hit : find (is_hit key hash_of (hash k) k) old ≡ f k
    find_hit =
        find_congr (is_hit key hash_of (hash k) k) (has_key key k) old
          (is_hit-has_key k old (t.cached _))
        ∙ old_reads

    pub modify-Holds :
        (g : N → N)
        → ((x : N) → key (g x) ≡ key x)
        → ((x : N) → hash_of (g x) ≡ hash_of x)
        → Holds
            (set b (home key hash k size) (modify (is_hit key hash_of (hash k) k) g old))
            size
            total
            (update f k (Option.map g (f k)))
    modify-Holds g keep same =
        rw
          (modify_congr (is_hit key hash_of (hash k) k) (has_key key k) g old
            (is_hit-has_key k old (t.cached _)))
          (write-Holds _ total _ (omega (arith, length-modify (has_key key k) g old))
            (modify-All IsCached (has_key key k) g (λ x h. ground (arith, keep x, same x, h)) old
              (t.cached _))
            (λ q. omega (arith, count-modify key k q g keep old))
            (λ q. ground (arith, find-modify key k q g keep old, old_same q)))

    pub remove-Holds :
        (x : N)
        → f k ≡ some x
        → Holds
            (set b (home key hash k size) (remove (is_hit key hash_of (hash k) k) old))
            size
            (total - 1)
            (update f k none)
    remove-Holds x there =
        let c = remove (has_key key k) old in
        let len = length-remove (has_key key k) old x (old_reads ∙ there) in
        let some_left =
          length-nodes-set b (home key hash k size) [] 0 size (omega arith)
            (omega (arith, slot-lt (hash k) size pos)) in
        rw
          (remove_congr (is_hit key hash_of (hash k) k) (has_key key k) old
            (is_hit-has_key k old (t.cached _)))
          (write-Holds c (total - 1) none (omega (arith, len, some_left, t.entries))
            (remove-All IsCached (has_key key k) old (t.cached _))
            (λ q. omega (arith, count-remove-le key k q old))
            (λ q. find-remove key k q old (t.placed q _).0))
