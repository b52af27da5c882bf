-- ===== src/Table/Grow.antt =====
-- The move into another array keeps what the table holds.
use pulse_db.Prelude.{
  ℕ, ◌+◌, ◌≤◌, ◌<◌, ◌≡◌, refl, ◌∙◌, List, [], ◌∷◌, Option, none, arith, length, All,
}
use pulse_db.Prelude.Bytes.{Bytes, str_eq_refl}
use pulse_db.Table.Chain.{find, count, has_key, find-eq-none}
use pulse_db.Table.Buckets.{Buckets, nodes, nodes-All}
use pulse_db.Table.Rehash.{move_chain, move_all, move_all-nodes, nodes-view}
use pulse_db.Table.Holds.{IsCached, Holds, empty-Holds, push-Holds}
use mathlib.Core.Option.{or_else}

module _ {N : Type 0} (key : N → Bytes) (hash_of : N → ℕ) (hash : Bytes → ℕ) where
  pub Holds-congr :
      {b : Buckets N} {size total total' : ℕ} (f g : Bytes → Option N)
      → Holds key hash_of hash b size total f
      → total ≡ total'
      → ((q : Bytes) → f q ≡ g q)
      → Holds key hash_of hash b size total' g
  Holds-congr f g t e h = record {
    placed = t.placed;
    cached = t.cached;
    entries = t.entries ∙ e;
    reads = λ q. t.reads q ∙ h q;
  }

  move_chain-Holds :
      (es : List N) (nb : Buckets N) (size total : ℕ) (f : Bytes → Option N)
      → 0 < size
      → Holds key hash_of hash nb size total f
      → All (IsCached key hash_of hash) es
      → ((q : Bytes) → count key q es ≤ 1)
      → ((q : Bytes) → 0 < count key q es → f q ≡ none)
      → Holds key hash_of hash
          (move_chain hash_of size es nb)
          size
          (total + length es)
          (λ q. or_else (find (has_key key q) es) (f q))
  unfolding move_chain find count or_else
  move_chain-Holds [] nb size total f pos t cached once apart =
      Holds-congr f f t (omega arith) (λ q. refl)
  move_chain-Holds (e ∷ es) nb size total f pos t cached once apart =
      let k = key e in
      let free = apart k (rw str_eq_refl (omega arith)) in
      let t' = push-Holds key hash_of hash nb size total f pos t k e free refl cached.0 in
      rw cached.0 (
        Holds-congr _ _
          (move_chain-Holds es _ size (total + 1) _ pos t' cached.1 (λ q. omega (arith, once q))
            (λ q h. ground (arith, once q, apart q)))
          (omega arith) (λ q. ground (arith, once q, find-eq-none key q es)))

  pub rehash-Holds :
      (b : Buckets N) (size size' total : ℕ) (f : Bytes → Option N)
      → 0 < size
      → 0 < size'
      → Holds key hash_of hash b size total f
      → Holds key hash_of hash (move_all hash_of size' b 0 size (λ i. [])) size' total f
  unfolding or_else
  rehash-Holds b size size' total f pos pos' t =
      let es = nodes b 0 size in
      let seen = λ (q : Bytes). nodes-view key hash b size q pos t.placed in
      rw move_all-nodes (
        Holds-congr _ f
          (move_chain-Holds es (λ i. []) size' 0 (λ q. none) pos'
            (empty-Holds key hash_of hash size') (nodes-All _ b 0 size t.cached) (λ q. (seen q).1)
            (λ q h. refl))
          (omega (arith, t.entries)) (λ q. ground (arith, (seen q).0, t.reads q)))
