-- ===== src/Store/Strings/Effects.antt =====
-- What `store_set`, `store_get` and `store_incrby` of src/store.c return and do.
use pulse_db.Prelude.{
  ◌≡◌, refl, sym, ◌∙◌, ℤ, pos, negsuc, ◌≤ℤ◌, ◌+ℤ◌, ◌-ℤ◌, leb, Bool, not, [], ◌∷◌, none, some, arith,
  if◌then◌else◌, Option-cases, Bool-cases, inl, inr,
}
use pulse_db.Prelude.Bytes.{Bytes, str_eq}
use pulse_db.Prelude.Decimal.{IsInt64, int64_max, signed_decimal, strtoll_whole-IsInt64}
use pulse_db.Store.Types.{Store, Value, StoreStatus}
use pulse_db.Store.Keys.{lookup, lookup_typed, Typed, held, absent, mismatched}
use pulse_db.Store.Invariant.{IsValid}
use pulse_db.Store.Live.{live, expired, Same, Writes, lookup-Looks, Same-Writes}
use pulse_db.Store.Update.{
  write-Writes, create_write-Writes, typed_content, expiry_of, expiry-absent, lookup_typed-Finds,
  put_value-Writes,
}
use pulse_db.Store.Strings.{
  as_str, set_string, store_set, store_get, parse_int64, would_overflow, store_number, add_number,
  store_incrby,
}

-- On a valid store `store_set` leaves a valid store in which the key has the string with its
-- expiry, whatever it held before, and every other key is as before.
pub store_set-Writes :
    (s : Store) (k value : Bytes) (expires_at now : ℤ)
    → IsValid s
    → Writes now s k (some (Value.str value, expires_at)) (store_set s k value expires_at now)
unfolding store_set
store_set-Writes s k value x now v =
    let t = lookup-Looks s v k now in
    let s' = (lookup s k now).1 in
    elim (Option-cases (lookup s k now).0) [
      | inl h ↦
          rw (h, store_set)
            (create_write-Writes s s' k now t.same (Value.str []) (set_string value x)
              (t.stands ∙ h) (λ e. refl) (λ e. refl))
      | inr (e, h) ↦
          rw (h, store_set)
            (write-Writes s s' k now t.same e (set_string value x) (t.stands ∙ h) (λ e. refl)
              (λ e. refl))
    ]

-- On a valid store, `store_get` after `store_set` at a later or the same time returns the new
-- value under its key unless its expiry has passed, and under any other key what the store held
-- there.
pub get-set :
    (s : Store) (k value q : Bytes) (expires_at now later : ℤ)
    → IsValid s
    → now ≤ℤ later
    → (store_get (store_set s k value expires_at now) q later).0 ≡ (
        if str_eq k q
        then (if expired expires_at later then absent else held value)
        else typed_content as_str (live s later q))
unfolding store_get
get-set s k value q x now later v l =
    let w = store_set-Writes s k value x now v in
    (lookup_typed-Finds as_str (store_set s k value x now) w.valid q later).returns
    ∙ rw (w.writes later l q) (ground arith)

-- What an increment should do to a content: the new number, or the status of a refusal. The sum is
-- that of the integers, and its range is tested afterwards.
pub data Increment : Type 0 where
  becomes : ℤ → Increment
  refused : StoreStatus → Increment

abbrev pub in_int64 : ℤ → Bool
in_int64 (pos n) = leb n int64_max
in_int64 (negsuc n) = leb n int64_max

unfoldable pub sum_in_range : ℤ → ℤ → Increment
sum_in_range n delta =
    if in_int64 (n +ℤ delta) then becomes (n +ℤ delta) else refused StoreStatus.overflow

unfoldable pub increment : Typed Bytes → ℤ → Increment
increment absent delta = sum_in_range (pos 0) delta
increment mismatched delta = refused StoreStatus.wrong_type
increment (held text) delta = elim (parse_int64 text) [
  | none ↦ refused StoreStatus.not_integer
  | some n ↦ sum_in_range n delta
]

-- The tests before the addition tell whether the sum leaves the range, without leaving it.
pub would_overflow_exact :
    (n delta : ℤ) → IsInt64 n → IsInt64 delta → would_overflow n delta ≡ not (in_int64 (n +ℤ delta))
unfolding would_overflow ◌+ℤ◌ ◌-ℤ◌
would_overflow_exact (pos n) (pos d) p q = ground arith
would_overflow_exact (pos n) (negsuc d) p q = ground arith
would_overflow_exact (negsuc n) (pos d) p q = ground arith
would_overflow_exact (negsuc n) (negsuc d) p q = ground arith

parse_int64-IsInt64 : (s : Bytes) (z : ℤ) → parse_int64 s ≡ some z → IsInt64 z
unfolding parse_int64
parse_int64-IsInt64 [] z h = absurd (cc)
parse_int64-IsInt64 (c ∷ s) z h = strtoll_whole-IsInt64 (c ∷ s) z h

module _ (s : Store) (v : IsValid s) (k : Bytes) (delta now : ℤ) where
  -- The run of `store_incrby` does what the increment says: the sum is stored as text under the
  -- expiry that the key had, and a refusal changes nothing.
  abbrev pub Increments : Increment → StoreStatus × ℤ × Store → Type 0
  Increments (becomes z) r =
      (r.0 ≡ StoreStatus.ok)
      × (r.1 ≡ z)
      × Writes now s k (some (Value.str (signed_decimal z), expiry_of (live s now k))) r.2
  Increments (refused st) r = (r.0 ≡ st) × Same now s r.2

  add_number-Increments :
      (r : Typed Bytes) (n : ℤ)
      → IsInt64 n
      → IsInt64 delta
      → Same now s (lookup_typed as_str s k now).1
      → ((z : ℤ)
          → Writes now s k
              (some (Value.str (signed_decimal z), expiry_of (live s now k)))
              (store_number r (lookup_typed as_str s k now).1 k z now))
      → Increments
          (sum_in_range n delta)
          (add_number r n (lookup_typed as_str s k now).1 k delta now)
  unfolding add_number sum_in_range
  add_number-Increments r n p q same writes = elim (Bool-cases (in_int64 (n +ℤ delta))) [
    | inl fits ↦ rw (would_overflow_exact n delta p q, fits) (refl, refl, writes _)
    | inr big ↦ rw (would_overflow_exact n delta p q, big) (refl, same)
  ]

  written_fresh :
      (lookup_typed as_str s k now).0 ≡ absent
      → (z : ℤ)
      → Writes now s k
          (some (Value.str (signed_decimal z), expiry_of (live s now k)))
          (store_number absent (lookup_typed as_str s k now).1 k z now)
  unfolding store_number
  written_fresh e z =
      let t = lookup_typed-Finds as_str s v k now in
      let s' = (lookup_typed as_str s k now).1 in
      rw (expiry-absent as_str (live s now k) (sym t.returns ∙ e)) (
        Same-Writes now s s' _ k _ t.same
          (store_set-Writes s' k (signed_decimal z) (pos 0) now t.same.valid))

  -- For a delta in the range of int64_t on a valid store, `store_incrby` stores and returns the
  -- sum of the integers under the expiry that the key had, if that sum is in range; otherwise it
  -- returns the status that fits (not an integer, overflow, wrong type) and the database is the
  -- same.
  pub store_incrby-Increments :
      IsInt64 delta
      → Increments
          (increment (typed_content as_str (live s now k)) delta)
          (store_incrby s k delta now)
  unfolding store_incrby increment
  store_incrby-Increments q =
      let t = lookup_typed-Finds as_str s v k now in
      rw (← t.returns) (
        (elim (lookup_typed as_str s k now).0
            as (λ r.
              (lookup_typed as_str s k now).0 ≡ r
              → Increments (increment r delta) (store_incrby s k delta now)) [
                | absent ↦ λ e.
                    rw (e, store_incrby)
                      (unfold increment in
                        add_number-Increments absent (pos 0) (omega arith) q t.same
                          (written_fresh e))
                | mismatched ↦ λ e. rw (e, store_incrby) (unfold increment in (refl, t.same))
                | held text ↦ λ e.
                    rw (e, store_incrby)
                      (elim (Option-cases (parse_int64 text)) [
                        | inl h ↦ rw (h, increment) (refl, t.same)
                        | inr (n, h) ↦
                            rw (h, increment)
                              (add_number-Increments (held text) n (parse_int64-IsInt64 text n h) q
                                t.same
                                (λ z.
                                  unfold store_number in
                                  put_value-Writes as_str s v k now text _ e))
                      ])
              ])
          refl)
