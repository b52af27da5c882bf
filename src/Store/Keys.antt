-- ===== src/Store/Keys.antt =====
-- src/store.c, "lookup" and "keys": the keyspace as a chained table with lazy expiry. `now` is the
-- reading of `now_ms` in the call; a call that reads the clock twice for one key gives the same
-- result at both readings, and takes one.
pub mod Effects
use pulse_db.Prelude.{
  ℕ, ◌+◌, ◌-◌, ◌*◌, ℤ, pos, negsuc, ltb_ℤ, eqb_ℤ, leb, Bool, true, false, not, ◌&&◌, List, [], ◌∷◌,
  Option, none, some, if◌then◌else◌,
}
use pulse_db.Prelude.Bytes.{Bytes}
use pulse_db.Table.Chain.{find, remove, modify}
use pulse_db.Table.Buckets.{slot, set, nodes}
use pulse_db.Table.Rehash.{move_all}
use pulse_db.Table.Holds.{is_hit}
use pulse_db.Store.Types.{StoreEntry, Store, Value, StoreType, type_of}
use pulse_db.Store.Hashing.{hash64}

abbrev pub initial_buckets : ℕ
initial_buckets = 16

unfoldable pub store_create : Store
store_create = record { buckets = λ i. []; size = initial_buckets; count = 0 }

unfoldable pub store_grow : Store → Store
store_grow s = record s {
  buckets = move_all (λ e. e.hash) (s.size * 2) s.buckets 0 s.size (λ i. []);
  size = s.size * 2;
}

unfoldable pub entry_is_expired : StoreEntry → ℤ → Bool
entry_is_expired e now = not (eqb_ℤ e.expires_at (pos 0)) && ltb_ℤ e.expires_at now

-- `e->hash == h && strcmp(e->key, key) == 0`, with `h` the hash of the key.
abbrev pub is_entry : Bytes → StoreEntry → Bool
is_entry key = is_hit (λ e. e.key) (λ e. e.hash) (hash64 key) key

-- The chain that holds the key.
abbrev pub chain_of : Store → Bytes → List StoreEntry
chain_of s key = s.buckets (slot (hash64 key) s.size)

-- `*curr = e->next; entry_free(e); store->count--`
unfoldable pub unlink_entry : Store → Bytes → Store
unlink_entry s key = record s {
  buckets = set s.buckets (slot (hash64 key) s.size) (remove (is_entry key) (chain_of s key));
  count = s.count - 1;
}

unfoldable pub lookup : Store → Bytes → ℤ → Option StoreEntry × Store
lookup s key now = elim (find (is_entry key) (chain_of s key)) [
  | none ↦ (none, s)
  | some e ↦
      if not (eqb_ℤ e.expires_at (pos 0)) && entry_is_expired e now
      then (none, unlink_entry s key)
      else (some e, s)
]

-- The entry that `lookup` returned, changed through its pointer.
unfoldable pub write_entry : Store → Bytes → (StoreEntry → StoreEntry) → Store
write_entry s key f = record s {
  buckets = set s.buckets (slot (hash64 key) s.size) (modify (is_entry key) f (chain_of s key));
}

-- The part of `create_entry` after the growth check.
unfoldable pub push_entry : Store → StoreEntry → Store
push_entry s e = record s {
  buckets = set s.buckets (slot e.hash s.size) (e ∷ s.buckets (slot e.hash s.size));
  count = s.count + 1;
}

-- The new entry holds the value that the caller stores in it at once.
unfoldable pub create_entry : Store → Bytes → Value → Store
create_entry s key value =
    push_entry (if leb s.size s.count then store_grow s else s)
      (record { key = key; hash = hash64 key; expires_at = pos 0; value = value })

-- What `lookup_typed` returns: the value of an entry of the expected type, or `STORE_NOT_FOUND`,
-- or `STORE_WRONG_TYPE`.
pub data Typed {ℓ} (A : Type ℓ) : Type ℓ where
  held : A → Typed A
  absent : Typed A
  mismatched : Typed A

-- `read` takes the member of the union for the expected type, and is `none` for another type.
unfoldable pub typed {ℓ} : {A : Type ℓ} → (Value → Option A) → Option StoreEntry → Typed A
typed read none = absent
typed read (some e) = elim (read e.value) [ some a ↦ held a | none ↦ mismatched ]

unfoldable pub lookup_typed {ℓ} :
    {A : Type ℓ} → (Value → Option A) → Store → Bytes → ℤ → Typed A × Store
lookup_typed read s key now = let (e, s') = lookup s key now in (typed read e, s')

-- `e->v = value`, of the entry under the key
unfoldable pub put_value : Store → Bytes → Value → Store
put_value s key value = write_entry s key (λ e. record e { value = value })

-- The first lines of the calls that write a list, a hash or a sorted set: the value of an entry of
-- the expected type, or of a new entry with an empty value; `none` is `STORE_WRONG_TYPE`.
unfoldable pub get_or_create {ℓ} :
    {A : Type ℓ} → (Value → Option A) → (A → Value) → A → Store → Bytes → ℤ → Option A × Store
get_or_create read wrap empty s key now =
    let (r, s') = lookup_typed read s key now in
    elim r [
      | held a ↦ (some a, s')
      | absent ↦ (some empty, create_entry s' key (wrap empty))
      | mismatched ↦ (none, s')
    ]

-- 1 if a live entry was removed.
unfoldable pub store_del : Store → Bytes → ℤ → Bool × Store
store_del s key now = elim (find (is_entry key) (chain_of s key)) [
  | none ↦ (false, s)
  | some e ↦ (not (entry_is_expired e now), unlink_entry s key)
]

unfoldable pub store_exists : Store → Bytes → ℤ → Bool × Store
store_exists s key now =
    let (e, s') = lookup s key now in (elim e [ none ↦ false | some _ ↦ true ], s')

unfoldable pub store_type : Store → Bytes → ℤ → StoreType × Store
store_type s key now =
    let (e, s') = lookup s key now in
    (elim e [ none ↦ StoreType.none | some e ↦ type_of e.value ], s')

abbrev pub store_count : Store → ℕ
store_count s = s.count

unfoldable pub store_get_expiry : Store → Bytes → ℤ → ℤ × Store
store_get_expiry s key now =
    let (e, s') = lookup s key now in
    (
      elim e [
        | none ↦ negsuc 1
        | some e ↦ if eqb_ℤ e.expires_at (pos 0) then negsuc 0 else e.expires_at
      ],
      s',
    )

unfoldable pub live_entries : ℤ → List StoreEntry → List StoreEntry
live_entries now [] = []
live_entries now (e ∷ es) =
    if not (entry_is_expired e now) then e ∷ live_entries now es else live_entries now es

-- The entries that `visit` is called with, in order.
unfoldable pub store_scan : Store → ℤ → List StoreEntry
store_scan s now = live_entries now (nodes s.buckets 0 s.size)
