-- ===== src/Table/Buckets.antt =====
-- The bucket array: where nodes stand, what the array means, and the write of one chain.
use pulse_db.Prelude.{
  ℕ, zero, suc, ◌+◌, ◌-◌, ◌≤◌, ◌<◌, max, bit_and, bit_and-le, ◌≡◌, ◌≢◌, refl, List, [], ◌++◌,
  Option, arith, if◌then◌else◌, length, length-append, All, All-append, ◌==◌, ==_iff,
}
use pulse_db.Prelude.Bytes.{Bytes, str_eq, str_eq_iff}
use pulse_db.Table.Chain.{find, count, to_nat, has_key}

abbrev pub Buckets : Type 0 → Type 0
Buckets N = ℕ → List N

-- `h & (size - 1)`
unfoldable pub slot : ℕ → ℕ → ℕ
slot h size = bit_and h (size - 1)

pub slot-lt : (h size : ℕ) → 0 < size → slot h size < size
unfolding slot
slot-lt h size p = omega (arith, bit_and-le h (size - 1))

module _ {N : Type 0} where
  -- `buckets[i] = c`
  abbrev pub set : Buckets N → ℕ → List N → Buckets N
  set b i c j = if j == i then c else b j

  -- The nodes in the order of a walk over the chains `i`, …, `i + n - 1`.
  unfoldable pub nodes : Buckets N → ℕ → ℕ → List N
  nodes b i zero = []
  nodes b i (suc n) = b i ++ nodes b (suc i) n

  pub nodes-set_outside :
      (b : Buckets N) (i : ℕ) (c : List N) (k n : ℕ) → i < k → nodes (set b i c) k n ≡ nodes b k n
  unfolding nodes
  nodes-set_outside b i c k zero h = refl
  nodes-set_outside b i c k (suc n) h = ground (arith, nodes-set_outside b i c (suc k) n)

  pub length-nodes-set :
      (b : Buckets N) (i : ℕ) (c : List N) (k n : ℕ)
      → k ≤ i
      → i < k + n
      → length (nodes (set b i c) k n) + length (b i) ≡ length (nodes b k n) + length c
  unfolding nodes
  length-nodes-set b i c k zero h l = absurd (omega arith)
  length-nodes-set b i c k (suc n) h l = ground (
    arith,
    ==_iff k i,
    length-append (set b i c k) (nodes (set b i c) (suc k) n),
    length-append (b k) (nodes b (suc k) n),
    length-nodes-set b i c (suc k) n,
    nodes-set_outside b i c (suc k) n,
  )

  pub nodes-All :
      (P : N → Type 0) (b : Buckets N) (i n : ℕ) → ((j : ℕ) → All P (b j)) → All P (nodes b i n)
  unfolding nodes
  nodes-All P b i zero h = tt
  nodes-All P b i (suc n) h = All-append P (b i) _ (h i) (nodes-All P b (suc i) n h)

module _ {N : Type 0} (key : N → Bytes) (hash : Bytes → ℕ) where
  abbrev pub home : Bytes → ℕ → ℕ
  home q size = slot (hash q) size

  -- A key occurs at most once, and only in its home bucket.
  abbrev pub IsPlaced : Buckets N → ℕ → Type 0
  IsPlaced b size =
      (q : Bytes) (i : ℕ) → (count key q (b i) ≤ 1) × (home q size ≢ i → count key q (b i) ≡ 0)

  -- The abstract map: the node that carries the key.
  unfoldable pub view : Buckets N → ℕ → Bytes → Option N
  view b size q = find (has_key key q) (b (home q size))

  -- A write of one chain, that agrees with the old one up to the key `k`.
  module _ (b : Buckets N) (size : ℕ) (k : Bytes) (c : List N) (placed : IsPlaced b size)
      (few : (q : Bytes)
        → count key q c ≤ max (to_nat (str_eq q k)) (count key q (b (home k size)))) where
    pub set-IsPlaced : IsPlaced (set b (home k size) c) size
    set-IsPlaced q i =
        ground
          (arith, placed q i, placed q (home k size), few q, str_eq_iff q k, ==_iff i (home k size))

    pub view-set :
        (v : Option N)
        → ((q : Bytes)
            → find (has_key key q) c
              ≡ (if str_eq k q then v else find (has_key key q) (b (home k size))))
        → (q : Bytes)
        → view (set b (home k size) c) size q ≡ (if str_eq k q then v else view b size q)
    unfolding view
    view-set v reads q = ground (arith, reads q, str_eq_iff k q, ==_iff (home q size) (home k size))
