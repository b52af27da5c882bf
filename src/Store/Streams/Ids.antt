-- ===== src/Store/Streams/Ids.antt =====
-- A new ID is greater than every ID of the stream, and fits its two words.
use pulse_db.Prelude.{ltb, ◌==◌, ◌&&◌}
use pulse_db.Prelude.{
  ℕ, ◌+◌, ◌-◌, ◌*◌, ◌≤◌, ◌<◌, ◌≡◌, refl, ◌⊎◌, inl, inr, true, false, Ordering, [], ◌∷◌, Option,
  none, some, arith, if◌then◌else◌, Bool-cases, Option-cases, ℤ, pos, negsuc,
}
use pulse_db.Prelude.Bytes.{Bytes, str_eq}
use pulse_db.Store.Types.{StoreStatus, StreamId, Stream}
use pulse_db.Store.Streams.{
  uint64_max, to_uint64, stream_id_cmp, parse_u64_from, parse_u64, split_dash, both_parts,
  stream_id_parse, strip_auto, Resolved, refused, last_id_of, has_entries, next_id, resolve_clock,
  resolve_auto, resolve_explicit, resolve_new_id,
}
use pulse_db.Prelude.{ltb}

-- The order of IDs: by milliseconds, then by sequence number.
infix 50 ◌≺◌
abbrev pub ◌≺◌ : StreamId → StreamId → Type 0
a ≺ b = (a.ms < b.ms) ⊎ ((a.ms ≡ b.ms) × (a.seq < b.seq))

pub record IsId (i : StreamId) : Type 0 where
  pub ms_fits : i.ms ≤ uint64_max
  pub seq_fits : i.seq ≤ uint64_max

pub stream_id_cmp-gt : (a b : StreamId) → stream_id_cmp a b ≡ Ordering.gt → b ≺ a
unfolding stream_id_cmp
stream_id_cmp-gt a b h = ground arith

parse_u64_from-le :
    (v n : ℕ) (s : Bytes) → v ≤ uint64_max → parse_u64_from v s ≡ some n → n ≤ uint64_max
unfolding parse_u64_from
parse_u64_from-le v n [] p h = ground arith
parse_u64_from-le v n (c ∷ s) p h = ground (arith, parse_u64_from-le (v * 10 + (c - 48)) n s)

parse_u64-le : (s : Bytes) (n : ℕ) → parse_u64 s ≡ some n → n ≤ uint64_max
unfolding parse_u64
parse_u64-le s n h = ground (arith, parse_u64_from-le 0 n s)

-- The ID is above `last` and fits.
abbrev pub Exceeds : StreamId → Resolved → Type 0
Exceeds last (Resolved.id i) = (last ≺ i) × IsId i
Exceeds last (refused st) = Unit

next_id-Exceeds : (last : StreamId) → IsId last → Exceeds last (next_id last)
unfolding next_id
next_id-Exceeds last v = elim (Bool-cases (last.seq == uint64_max)) [
  | inl full ↦ rw full tt
  | inr room ↦
      rw room (inr (refl, omega arith), record { ms_fits = v.ms_fits; seq_fits = ground arith })
]

to_uint64-le : (z : ℤ) → to_uint64 z ≤ uint64_max
to_uint64-le (pos n) = omega arith
to_uint64-le (negsuc n) = omega arith

resolve_clock-Exceeds :
    (last : StreamId) (ms : ℕ) → IsId last → ms ≤ uint64_max → Exceeds last (resolve_clock last ms)
unfolding resolve_clock
resolve_clock-Exceeds last ms v h = elim (Bool-cases (ltb last.ms ms)) [
  | inl later ↦ rw later (inl (ground arith), record { ms_fits = h; seq_fits = omega arith })
  | inr same ↦ rw same (next_id-Exceeds last v)
]

-- A stream that is there has an entry, and its last ID fits; a missing one starts from 0-0.
pub record IsStarted (stream : Option Stream) : Type 0 where
  pub filled :
      has_entries stream ≡ true ⊎ ((last_id_of stream).ms ≡ 0) × ((last_id_of stream).seq ≡ 0)
  pub last_fits : IsId (last_id_of stream)

auto_same :
    (stream : Option Stream) (ms : ℕ)
    → IsStarted stream
    → ms ≡ (last_id_of stream).ms
    → Exceeds (last_id_of stream) (next_id (record { ms = ms; seq = (last_id_of stream).seq }))
auto_same stream ms v h = rw h (next_id-Exceeds (last_id_of stream) v.last_fits)

auto_other :
    (stream : Option Stream) (ms : ℕ)
    → IsStarted stream
    → (last_id_of stream).ms ≤ ms
    → (ms == (last_id_of stream).ms && has_entries stream) ≡ false
    → ms ≤ uint64_max
    → Exceeds (last_id_of stream) (Resolved.id (record { ms = ms; seq = if ms == 0 then 1 else 0 }))
auto_other stream ms v l h b =
    (ground (arith, v.filled), record { ms_fits = b; seq_fits = ground arith })

resolve_auto-Exceeds :
    (stream : Option Stream) (ms : Option ℕ)
    → IsStarted stream
    → ((n : ℕ) → ms ≡ some n → n ≤ uint64_max)
    → Exceeds (last_id_of stream) (resolve_auto stream ms)
unfolding resolve_auto
resolve_auto-Exceeds stream none v b = tt
resolve_auto-Exceeds stream (some ms) v b = elim (Bool-cases (ltb ms (last_id_of stream).ms)) [
  | inl small ↦ rw small tt
  | inr l ↦ elim (Bool-cases (ms == (last_id_of stream).ms && has_entries stream)) [
    | inl same ↦ rw (l, same) (auto_same stream ms v (ground arith))
    | inr other ↦ rw (l, other) (auto_other stream ms v (ground arith) other (b ms refl))
  ]
]

resolve_explicit-Exceeds :
    (last : StreamId) (o : Option StreamId)
    → ((i : StreamId) → o ≡ some i → IsId i)
    → Exceeds last (resolve_explicit last o)
unfolding resolve_explicit
resolve_explicit-Exceeds last none b = tt
resolve_explicit-Exceeds last (some i) b = elim (Bool-cases (i.ms == 0 && i.seq == 0)) [
  | inl z ↦ rw z tt
  | inr nz ↦ rw nz (
      (elim (stream_id_cmp i last)
          as (λ o.
            stream_id_cmp i last ≡ o
            → Exceeds last
                (elim o [ Ordering.gt ↦ Resolved.id i | _ ↦ refused StoreStatus.id_too_small ])) [
                  | Ordering.gt ↦ λ e. (stream_id_cmp-gt i last e, b i refl)
                  | Ordering.lt ↦ λ e. tt
                  | Ordering.eq ↦ λ e. tt
                ])
        refl)
]

both_parts-IsId :
    (a b : Option ℕ) (i : StreamId)
    → ((n : ℕ) → a ≡ some n → n ≤ uint64_max)
    → ((n : ℕ) → b ≡ some n → n ≤ uint64_max)
    → both_parts a b ≡ some i
    → IsId i
both_parts-IsId none b i p q h = absurd (cc)
both_parts-IsId (some m) none i p q h = absurd (cc)
both_parts-IsId (some m) (some n) i p q h = ground (arith, p m refl, q n refl)

-- A parsed ID fits, so no part of it has wrapped.
pub stream_id_parse-IsId :
    (s : Bytes) (default_seq : ℕ) (i : StreamId)
    → default_seq ≤ uint64_max
    → stream_id_parse s default_seq ≡ some i
    → IsId i
unfolding stream_id_parse
stream_id_parse-IsId s d i l h = elim (Option-cases (split_dash s)) [
  | inl e ↦
      both_parts-IsId _ _ i (parse_u64-le s) (λ n k. ground arith) (rw (e, stream_id_parse) at h)
  | inr ((a, b), e) ↦
      both_parts-IsId _ _ i (parse_u64-le a) (parse_u64-le b) (rw (e, stream_id_parse) at h)
]

-- For a missing stream, or one with entries whose last ID fits, an ID that `resolve_new_id` gives
-- for any text and any clock is above the last ID and fits two 64-bit words.
pub resolve_new_id-Exceeds :
    (stream : Option Stream) (spec : Bytes) (clock : ℤ)
    → IsStarted stream
    → Exceeds (last_id_of stream) (resolve_new_id stream spec clock)
unfolding resolve_new_id
resolve_new_id-Exceeds stream spec clock v = elim (Bool-cases (str_eq spec (b'*' ∷ []))) [
  | inl e ↦ rw e (resolve_clock-Exceeds (last_id_of stream) _ v.last_fits (to_uint64-le clock))
  | inr n ↦ elim (Option-cases (strip_auto spec)) [
    | inl e ↦
        rw (n, e)
          (resolve_explicit-Exceeds (last_id_of stream) _
            (λ i. stream_id_parse-IsId spec 0 i (omega arith)))
    | inr (prefix, e) ↦ rw (n, e) (resolve_auto-Exceeds stream _ v (parse_u64-le prefix))
  ]
]
