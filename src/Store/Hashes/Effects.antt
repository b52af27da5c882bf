-- ===== src/Store/Hashes/Effects.antt =====
-- What `store_hash_set` and `store_hash_get` of src/store.c do: HGET after HSET.
use pulse_db.Prelude.{
  none, some, false, true, ◌+◌, Option-cases, inl, inr, if◌then◌else◌, ℤ, Bool, Option, refl, ◌≡◌,
  ◌≢◌, ◌∙◌, ==_iff, arith,
}
use pulse_db.Store.Live.{live, Same, Writes}
use pulse_db.Store.Lists.RoundTrip.{unexpired}
use pulse_db.Store.Invariant.{IsValid}
use pulse_db.Store.Update.{
  opened, typed_content, expiry_of, lookup_typed-Finds, get_or_create-Opens,
}
use pulse_db.Store.Types.{Store}
use pulse_db.Store.Hashes.{
  hash_fetch, hash_put, Hash, store_hash_get, store_hash_set, StoreStatus, Value, as_hash, field_of,
  empty_hash, fields_of, field_slot,
}
use pulse_db.Prelude.Bytes.{Bytes, str_eq, str_eq_refl, str_eq_iff}
use pulse_db.Table.Chain.{find, has_key, find-modify}
use pulse_db.Store.Keys.{held, absent, mismatched, Typed, lookup_typed, get_or_create}
use mathlib.Core.Option.{Option}

-- A field is read as it was written last, and every other one as before.
pub hash_fetch-hash_put :
    (hash : Hash) (field value g : Bytes)
    → hash_fetch (hash_put hash field value).1 g
      ≡ (if str_eq field g then some value else hash_fetch hash g)
unfolding hash_fetch hash_put find
hash_fetch-hash_put hash field value g =
    elim (Option-cases (find (has_key field_of field) (fields_of hash field))) [
      | inl e ↦ ground (arith, e, str_eq_iff field g, ==_iff (field_slot g) (field_slot field))
      | inr (hf, e) ↦ ground (
        arith,
        e,
        str_eq_iff field g,
        ==_iff (field_slot g) (field_slot field),
        find-modify field_of field g (λ hf. record hf { value = value }) (λ hf. refl)
            (fields_of hash field),
      )
    ]

-- A field without a value is new.
abbrev pub is_new : Option Bytes → Bool
is_new none = true
is_new (some value) = false

-- What a write of a field leaves of a hash: the field has the value, every other one what it had,
-- and the number of fields grows by one where the field is new.
pub record Puts (h : Hash) (field value : Bytes) (h' : Hash) : Type 0 where
  pub reads :
      (g : Bytes) → hash_fetch h' g ≡ (if str_eq field g then some value else hash_fetch h g)
  pub counted : h'.len ≡ (if is_new (hash_fetch h field) then h.len + 1 else h.len)

hash_put-Puts :
    (h : Hash) (field value : Bytes)
    → ((hash_put h field value).0 ≡ is_new (hash_fetch h field))
      × Puts h field value (hash_put h field value).1
unfolding hash_put hash_fetch
hash_put-Puts h field value =
    let reads = hash_fetch-hash_put h field value in
    elim (Option-cases (find (has_key field_of field) (fields_of h field))) [
      | inl e ↦ (
        rw (e, hash_put, hash_fetch) refl,
        record { reads = reads; counted = rw (e, hash_put, hash_fetch) refl },
      )
      | inr (hf, e) ↦ (
        rw (e, hash_put, hash_fetch) refl,
        record { reads = reads; counted = rw (e, hash_put, hash_fetch) refl },
      )
    ]

module _ (s : Store) (v : IsValid s) (k : Bytes) (now : ℤ) where
  -- A write of a field: of the hash there, or of an empty one of a new key without expiry.
  abbrev pub Sets : Bytes → Bytes → Option Hash → StoreStatus × Bool × Store → Type 0
  Sets field value none r = (r.0 ≡ StoreStatus.wrong_type) × (r.1 ≡ false) × Same now s r.2
  Sets field value (some h) r =
      (r.0 ≡ StoreStatus.ok)
      × (r.1 ≡ is_new (hash_fetch h field))
      × (h' : Hash) × Puts h field value h'
      × Writes now s k (some (Value.hash h', expiry_of (live s now k))) r.2

  -- On a valid store `store_hash_set` leaves a hash in which the field has the value, every other
  -- field has what it had in the hash under the key, or nothing under a new key, and the number
  -- of fields is one more if the field had no value; it says whether the field was created, keeps
  -- the expiry and the other keys, and at a key of another type it returns the wrong-type status
  -- and the database is the same.
  pub store_hash_set-Sets :
      (field value : Bytes)
      → Sets field value
          (opened as_hash s v k now empty_hash (typed_content as_hash (live s now k)))
          (store_hash_set s k field value now)
  unfolding store_hash_set
  store_hash_set-Sets field value =
      let t = get_or_create-Opens as_hash s v k now Value.hash empty_hash in
      let g = get_or_create as_hash Value.hash empty_hash s k now in
      rw (← t.value) (
        (elim g.0 as (λ o. g.0 ≡ o → Sets field value o (store_hash_set s k field value now)) [
          | none ↦ λ e. rw (e, store_hash_set) (refl, refl, t.refused e)
          | some h ↦ λ e.
              let put = hash_put-Puts h field value in
              rw (e, store_hash_set) (refl, put.0, _, put.1, t.written h _ e)
        ])
          refl)

  -- The value of a field of a hash that is there, or not.
  abbrev pub field_in : Typed Hash → Bytes → Option Bytes
  field_in (held h) field = hash_fetch h field
  field_in absent field = none
  field_in mismatched field = none

  pub store_hash_get-live :
      (field : Bytes)
      → (store_hash_get s k field now).1 ≡ field_in (typed_content as_hash (live s now k)) field
  unfolding store_hash_get
  store_hash_get-live field =
      let t = lookup_typed-Finds as_hash s v k now in
      let r = (lookup_typed as_hash s k now).0 in
      rw (← t.returns) (
        (elim r as (λ o. r ≡ o → (store_hash_get s k field now).1 ≡ field_in o field) [
          | absent ↦ λ e. rw (e, store_hash_get) refl
          | mismatched ↦ λ e. rw (e, store_hash_get) refl
          | held h ↦ λ e. elim (Option-cases (hash_fetch h field)) [
            | inl f ↦ rw (e, store_hash_get, f) refl
            | inr (value, f) ↦ rw (e, store_hash_get, f) refl
          ]
        ])
          refl)

module _ (s : Store) (v : IsValid s) (k : Bytes) (now : ℤ) where
  set_then_get :
      (field value g : Bytes) (h : Hash)
      → opened as_hash s v k now empty_hash (typed_content as_hash (live s now k)) ≡ some h
      → field_in s v k now (typed_content as_hash (live s now k)) g ≡ hash_fetch h g
      → field_in s v k now
          (typed_content as_hash (live (store_hash_set s k field value now).2 now k))
          g
        ≡ (if str_eq field g then some value else (store_hash_get s k g now).1)
  set_then_get field value g h e same =
      let t = rw e at (store_hash_set-Sets s v k now field value) in
      let h' : Hash = t.2 in
      let here : live (store_hash_set s k field value now).2 now k
          ≡ some (Value.hash h', expiry_of (live s now k)) =
        t.4.writes now (omega arith) k ∙ ground (arith, unexpired s now k, str_eq_refl k) in
      rw (here, store_hash_get-live s v k now g, same) (t.3.reads g)

  pub set_valid : (field value : Bytes) → IsValid (store_hash_set s k field value now).2
  set_valid field value =
      (elim (opened as_hash s v k now empty_hash (typed_content as_hash (live s now k)))
          as (λ o.
            Sets s v k now field value o (store_hash_set s k field value now)
            → IsValid (store_hash_set s k field value now).2) [
              | none ↦ λ t. t.2.valid
              | some h ↦ λ t. t.4.valid
            ])
        (store_hash_set-Sets s v k now field value)

  opened_hash :
      (c : Typed Hash) (g : Bytes)
      → c ≢ mismatched
      → (h : Hash) × (opened as_hash s v k now empty_hash c ≡ some h)
        × (field_in s v k now c g ≡ hash_fetch h g)
  unfolding hash_fetch find
  opened_hash (held h) g fits = (h, refl, refl)
  opened_hash absent g fits = (empty_hash, refl, refl)
  opened_hash mismatched g fits = absurd (fits refl)

  -- HGET after HSET at the same time, on a valid store and at a key that is free or holds a hash,
  -- gives the new value for its field, and for any other field what was there before.
  pub store_hash_get-store_hash_set :
      (field value g : Bytes)
      → typed_content as_hash (live s now k) ≢ mismatched
      → (store_hash_get (store_hash_set s k field value now).2 k g now).1
        ≡ (if str_eq field g then some value else (store_hash_get s k g now).1)
  store_hash_get-store_hash_set field value g fits =
      let (h, e, same) = opened_hash (typed_content as_hash (live s now k)) g fits in
      store_hash_get-live (store_hash_set s k field value now).2 (set_valid field value) k now g
      ∙ set_then_get field value g h e same
