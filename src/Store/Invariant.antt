-- ===== src/Store/Invariant.antt =====
-- The invariant of the keyspace, the map that it stands for, and the three writes of a chain.
use pulse_db.Prelude.{
  ℕ, ◌+◌, ◌-◌, ◌*◌, ◌≤◌, ◌<◌, ◌≡◌, refl, sym, ◌∙◌, pos, Option, none, some, arith, if◌then◌else◌,
  leb, Bool-cases, inl, inr,
}
use pulse_db.Prelude.Bytes.{Bytes, str_eq}
use pulse_db.Table.Chain.{find}
use pulse_db.Table.Buckets.{slot, set, nodes}
use pulse_db.Table.Buckets
use pulse_db.Table.Holds.{Holds, empty-Holds, push-Holds, modify-Holds, remove-Holds, find_hit}
use pulse_db.Table.Grow.{rehash-Holds, Holds-congr}
use pulse_db.Store.Types.{StoreEntry, Store, Value}
use pulse_db.Store.Hashing.{hash64}
use pulse_db.Store.Keys.{
  store_create, store_grow, is_entry, chain_of, unlink_entry, write_entry, push_entry, create_entry,
}
use mathlib.Core.Option

abbrev pub key_of : StoreEntry → Bytes
key_of e = e.key

abbrev pub hash_of : StoreEntry → ℕ
hash_of e = e.hash

-- The entry under a key, expired or not.
abbrev pub view : Store → Bytes → Option StoreEntry
view s = Buckets.view key_of hash64 s.buckets s.size

pub record IsValid (s : Store) : Type 0 where
  pub some_buckets : 0 < s.size
  pub load : s.count ≤ s.size
  pub holds : Holds key_of hash_of hash64 s.buckets s.size s.count (view s)

-- `f` with `v` at the key
abbrev pub put_at :
    (Bytes → Option StoreEntry) → Bytes → Option StoreEntry → Bytes → Option StoreEntry
put_at f k v q = if str_eq k q then v else f q

-- The entry that `create_entry` makes.
abbrev pub fresh_entry : Bytes → Value → StoreEntry
fresh_entry k value = record { key = k; hash = hash64 k; expires_at = pos 0; value = value }

-- The store is valid, counts `n` entries, and reads as `f`.
pub record Models (n : ℕ) (f : Bytes → Option StoreEntry) (s : Store) : Type 0 where
  pub valid : IsValid s
  pub counts : s.count ≡ n
  pub reads : (q : Bytes) → view s q ≡ f q

pub store_create-Models : Models 0 (λ q. none) store_create
unfolding store_create
store_create-Models =
    let t = empty-Holds key_of hash_of hash64 16 in
    record {
      valid = record {
        some_buckets = omega arith;
        load = omega arith;
        holds = Holds-congr key_of hash_of hash64 _ _ t refl (λ q. sym (t.reads q));
      };
      counts = refl;
      reads = t.reads;
    }

module _ (s : Store) (v : IsValid s) where
  of_Holds :
      (s' : Store) (f : Bytes → Option StoreEntry)
      → Holds key_of hash_of hash64 s'.buckets s'.size s'.count f
      → 0 < s'.size
      → s'.count ≤ s'.size
      → Models s'.count f s'
  of_Holds s' f t p l = record {
    valid = record {
      some_buckets = p;
      load = l;
      holds = Holds-congr key_of hash_of hash64 f (view s') t refl (λ q. sym (t.reads q));
    };
    counts = refl;
    reads = t.reads;
  }

  pub store_grow-Models : Models s.count (view s) (store_grow s)
  unfolding store_grow
  store_grow-Models =
      of_Holds (store_grow s) (view s)
        (rehash-Holds key_of hash_of hash64 s.buckets s.size (s.size * 2) s.count (view s)
          v.some_buckets (omega (arith, v.some_buckets)) v.holds)
        (omega (arith, v.some_buckets)) (omega (arith, v.load))

  pub find-view : (k : Bytes) → find (is_entry k) (chain_of s k) ≡ view s k
  find-view k =
      find_hit key_of hash_of hash64 s.buckets s.size s.count (view s) v.some_buckets v.holds k

  pub unlink_entry-Models :
      (k : Bytes) (e : StoreEntry)
      → view s k ≡ some e
      → Models (s.count - 1) (put_at (view s) k none) (unlink_entry s k)
  unfolding unlink_entry
  unlink_entry-Models k e there =
      of_Holds (unlink_entry s k) _
        (remove-Holds key_of hash_of hash64 s.buckets s.size s.count (view s) v.some_buckets v.holds
          k e there)
        v.some_buckets (omega (arith, v.load))

  pub write_entry-Models :
      (k : Bytes) (f : StoreEntry → StoreEntry)
      → ((e : StoreEntry) → (f e).key ≡ e.key)
      → ((e : StoreEntry) → (f e).hash ≡ e.hash)
      → Models s.count (put_at (view s) k (Option.map f (view s k))) (write_entry s k f)
  unfolding write_entry
  write_entry-Models k f same_key same_hash =
      of_Holds (write_entry s k f) _
        (modify-Holds key_of hash_of hash64 s.buckets s.size s.count (view s) v.some_buckets v.holds
          k f same_key same_hash)
        v.some_buckets v.load

  pub push_entry-Models :
      (k : Bytes) (value : Value)
      → s.count < s.size
      → view s k ≡ none
      → Models
          (s.count + 1)
          (put_at (view s) k (some (fresh_entry k value)))
          (push_entry s (fresh_entry k value))
  unfolding push_entry
  push_entry-Models k value room fresh =
      of_Holds (push_entry s (fresh_entry k value)) _
        (push-Holds key_of hash_of hash64 s.buckets s.size s.count (view s) v.some_buckets v.holds k
          (fresh_entry k value) fresh refl refl)
        v.some_buckets (omega arith)

-- A missing key gets a fresh entry, and every other key keeps its own, across the growth too.
pub create_entry-Models :
    (s : Store)
    → IsValid s
    → (k : Bytes) (value : Value) → view s k ≡ none
    → Models (s.count + 1) (put_at (view s) k (some (fresh_entry k value))) (create_entry s k value)
unfolding create_entry
create_entry-Models s v k value fresh = elim (Bool-cases (leb s.size s.count)) [
  | inr room ↦ rw room (push_entry-Models s v k value (ground arith) fresh)
  | inl full ↦
      let g = store_grow-Models s v in
      let wide : s.size < (store_grow s).size =
        unfold store_grow in omega (arith, v.some_buckets) in
      let t =
        push_entry-Models (store_grow s) g.valid k value (omega (arith, g.counts, v.load))
          (g.reads k ∙ fresh) in
      rw full (record {
        valid = t.valid;
        counts = omega (arith, t.counts, g.counts);
        reads = λ q. ground (arith, t.reads q, g.reads q);
      })
]
