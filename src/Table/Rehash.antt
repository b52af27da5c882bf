-- ===== src/Table/Rehash.antt =====
-- The move of every node into an array of another size, as the program grows its tables, and what
-- the move keeps.
use pulse_db.Prelude.{
  ℕ, zero, suc, ◌+◌, ◌≤◌, ◌<◌, ◌≡◌, ◌≢◌, refl, sym, ◌∙◌, List, [], ◌∷◌, ◌++◌, arith, eq-cases, inl,
  inr,
}
use pulse_db.Prelude.Bytes.{Bytes}
use pulse_db.Table.Chain.{find, count, has_key, find-eq-none}
use pulse_db.Table.Buckets.{Buckets, slot, slot-lt, set, nodes, home, IsPlaced, view}
use mathlib.Core.Option.{or_else}

module _ {N : Type 0} (hash_of : N → ℕ) (size : ℕ) where
  -- Each node of one chain becomes the head of its chain in the new array.
  unfoldable pub move_chain : List N → Buckets N → Buckets N
  move_chain [] nb = nb
  move_chain (e ∷ es) nb =
      move_chain es (set nb (slot (hash_of e) size) (e ∷ nb (slot (hash_of e) size)))

  -- The chains `i`, …, `i + n - 1` of the old array, one after the other.
  unfoldable pub move_all : Buckets N → ℕ → ℕ → Buckets N → Buckets N
  move_all b i zero nb = nb
  move_all b i (suc n) nb = move_all b (suc i) n (move_chain (b i) nb)

  move_chain-append :
      (xs ys : List N) (nb : Buckets N)
      → move_chain (xs ++ ys) nb ≡ move_chain ys (move_chain xs nb)
  unfolding move_chain
  move_chain-append [] ys nb = refl
  move_chain-append (x ∷ xs) ys nb = move_chain-append xs ys _

  -- The two nested loops are one loop over all the nodes.
  pub move_all-nodes :
      (b : Buckets N) (i n : ℕ) (nb : Buckets N) → move_all b i n nb ≡ move_chain (nodes b i n) nb
  unfolding move_all nodes
  move_all-nodes b i zero nb = unfold move_chain in refl
  move_all-nodes b i (suc n) nb =
      move_all-nodes b (suc i) n _ ∙ sym (move_chain-append (b i) (nodes b (suc i) n) nb)

module _ {N : Type 0} (key : N → Bytes) where
  find-append :
      (q : Bytes) (xs ys : List N)
      → find (has_key key q) (xs ++ ys)
        ≡ or_else (find (has_key key q) xs) (find (has_key key q) ys)
  unfolding find or_else
  find-append q [] ys = refl
  find-append q (x ∷ xs) ys = ground (arith, find-append q xs ys)

  count-append :
      (q : Bytes) (xs ys : List N) → count key q (xs ++ ys) ≡ count key q xs + count key q ys
  unfolding count
  count-append q [] ys = omega arith
  count-append q (x ∷ xs) ys = omega (arith, count-append q xs ys)

  module _ (q : Bytes) (b : Buckets N) (h : ℕ)
      (only : (j : ℕ) → j ≢ h → count key q (b j) ≡ 0) where
    count-nodes_nowhere : (i n : ℕ) → h < i → count key q (nodes b i n) ≡ 0
    unfolding nodes
    count-nodes_nowhere i zero l = unfold count in refl
    count-nodes_nowhere i (suc n) l = omega (
      arith,
      count-append q (b i) (nodes b (suc i) n),
      count-nodes_nowhere (suc i) n,
      only i (omega arith),
    )

    -- A walk over all the chains finds the key in its home chain.
    nodes_only :
        (i n : ℕ)
        → i ≤ h
        → h < i + n
        → (find (has_key key q) (nodes b i n) ≡ find (has_key key q) (b h))
          × (count key q (nodes b i n) ≡ count key q (b h))
    unfolding nodes or_else
    nodes_only i zero l m = absurd (omega arith)
    nodes_only i (suc n) l m =
        let rest = nodes b (suc i) n in
        elim (eq-cases i h) [
          | inl e ↦ ground (
            arith,
            e,
            find-append q (b i) rest,
            count-append q (b i) rest,
            count-nodes_nowhere (suc i) n,
            find-eq-none key q rest,
          )
          | inr e ↦ ground (
            arith,
            find-append q (b i) rest,
            count-append q (b i) rest,
            only i e,
            find-eq-none key q (b i),
            nodes_only (suc i) n,
          )
        ]

  module _ (hash : Bytes → ℕ) where
    pub nodes-view :
        (b : Buckets N) (size : ℕ) (q : Bytes)
        → 0 < size
        → IsPlaced key hash b size
        → (find (has_key key q) (nodes b 0 size) ≡ view key hash b size q)
          × (count key q (nodes b 0 size) ≤ 1)
    unfolding view
    nodes-view b size q pos placed =
        let h = home key hash q size in
        let only = nodes_only q b h (λ j n. (placed q j).1 (λ e. n (sym e))) 0 size in
        let (found, counted) = only (omega arith) (omega (arith, slot-lt (hash q) size pos)) in
        (found, omega (arith, (placed q h).0))
