-- ===== src/Store/Hashing.antt =====
-- The hash functions of src/store.c: wrap-around is written out as a remainder.
use pulse_db.Prelude.{ℕ, ◌+◌, ◌*◌, ◌%◌, ◌^◌, bit_xor, [], ◌∷◌}
use pulse_db.Prelude.Bytes.{Bytes}

-- The loop of `hash64`, from the accumulator `h`.
unfoldable pub hash64_from : ℕ → Bytes → ℕ
hash64_from h [] = h
hash64_from h (c ∷ key) = hash64_from (bit_xor h c * 1099511628211 % 2 ^ 64) key

-- 64-bit FNV-1a
unfoldable pub hash64 : Bytes → ℕ
unfolding hash64_from
hash64 key = hash64_from 1469598103934665603 key

-- The loop of `hash_key`: `((h << 5) + h) + c` on an `unsigned int`.
unfoldable pub hash_key_from : ℕ → Bytes → ℕ
hash_key_from h [] = h
hash_key_from h (c ∷ key) = hash_key_from ((h * 32 % 2 ^ 32 + h + c) % 2 ^ 32) key

-- djb2
unfoldable pub hash_key : Bytes → ℕ → ℕ
unfolding hash_key_from
hash_key key num_buckets = hash_key_from 5381 key % num_buckets
