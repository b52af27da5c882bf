-- ===== src/Store/Update.antt =====
-- What a write does to the abstract database: of an entry that `lookup` found, of a new one, and
-- of one that is removed.
use pulse_db.Prelude.{
  ◌≡◌, refl, ◌∙◌, ap, ℤ, pos, Option, none, some, arith, Option-cases, inl, inr, subst,
}
use pulse_db.Prelude.Bytes.{Bytes, str_eq_refl}
use pulse_db.Store.Types.{StoreEntry, Store, Value}
use pulse_db.Store.Keys.{
  write_entry, create_entry, lookup, put_value, get_or_create, Typed, held, absent, mismatched,
  typed, lookup_typed,
}
use pulse_db.Store.Invariant.{IsValid, view, fresh_entry, write_entry-Models, create_entry-Models}
use pulse_db.Store.Live.{Content, content, live, Same, Writes, lookup-Looks}
use mathlib.Core.Option

module _ (s s₁ : Store) (k : Bytes) (now : ℤ) (same : Same now s s₁) where
  pub write-Writes :
      (e : StoreEntry) (f : StoreEntry → StoreEntry)
      → view s₁ k ≡ some e
      → ((e : StoreEntry) → (f e).key ≡ e.key)
      → ((e : StoreEntry) → (f e).hash ≡ e.hash)
      → Writes now s k (some (content (f e))) (write_entry s₁ k f)
  unfolding live
  write-Writes e f there same_key same_hash =
      let t = write_entry-Models s₁ same.valid k f same_key same_hash in
      record {
        valid = t.valid;
        writes = λ later l q. ground (arith, t.reads q, same.keeps later l q);
      }

  pub create_write-Writes :
      (v : Value) (f : StoreEntry → StoreEntry)
      → view s₁ k ≡ none
      → ((e : StoreEntry) → (f e).key ≡ e.key)
      → ((e : StoreEntry) → (f e).hash ≡ e.hash)
      → Writes now s k
          (some (content (f (fresh_entry k v))))
          (write_entry (create_entry s₁ k v) k f)
  unfolding live
  create_write-Writes v f free same_key same_hash =
      let c = create_entry-Models s₁ same.valid k v free in
      let t = write_entry-Models (create_entry s₁ k v) c.valid k f same_key same_hash in
      record {
        valid = t.valid;
        writes = λ later l q.
            ground (arith, t.reads q, c.reads q, c.reads k, str_eq_refl k, same.keeps later l q);
      }

-- The type test of `lookup_typed`, on the abstract database.
abbrev pub typed_content {ℓ} : {A : Type ℓ} → (Value → Option A) → Option Content → Typed A
typed_content read none = absent
typed_content read (some (v, x)) = elim (read v) [ some a ↦ held a | none ↦ mismatched ]

-- The expiry that a write leaves: that of a live entry, and none for a new one.
abbrev pub expiry_of : Option Content → ℤ
expiry_of none = pos 0
expiry_of (some (v, x)) = x

typed-content {ℓ} :
    {A : Type ℓ} (read : Value → Option A) (o : Option StoreEntry)
    → typed read o ≡ typed_content read (Option.map content o)
unfolding typed
typed-content read none = refl
typed-content read (some e) = refl

module _ {ℓ} {A : Type ℓ} (read : Value → Option A) (s : Store) (v : IsValid s) (k : Bytes)
    (now : ℤ) where
  -- What `lookup_typed` returns.
  pub record Finds (r : Typed A × Store) : Type ℓ where
    pub returns : r.0 ≡ typed_content read (live s now k)
    pub same : Same now s r.1

  pub lookup_typed-Finds : Finds (lookup_typed read s k now)
  unfolding lookup_typed
  lookup_typed-Finds =
      let t = lookup-Looks s v k now in
      record { returns = typed-content read _ ∙ ap (typed_content read) t.returns; same = t.same }

  -- A value written through the entry that was found, and one written in a new entry.
  pub put_value-Writes :
      (a : A) (v' : Value)
      → (lookup_typed read s k now).0 ≡ held a
      → Writes now s k
          (some (v', expiry_of (live s now k)))
          (put_value (lookup_typed read s k now).1 k v')
  unfolding lookup_typed put_value typed
  put_value-Writes a v' found =
      let t = lookup-Looks s v k now in
      elim (Option-cases (lookup s k now).0) [
        | inl nothing ↦ let no : ⊥ = ground (arith, nothing) in absurd no
        | inr (e, there) ↦
            let w =
              write-Writes s (lookup s k now).1 k now t.same e (λ e. record e { value = v' })
                (t.stands ∙ there) (λ e. refl) (λ e. refl) in
            let keeps : e.expires_at ≡ expiry_of (live s now k) =
              ground (arith, t.returns, there) in
            subst (λ x. Writes now s k (some (v', x)) (put_value (lookup s k now).1 k v')) keeps w
      ]

  pub create_put-Writes :
      (v₀ v' : Value)
      → (lookup_typed read s k now).0 ≡ absent
      → Writes now s k
          (some (v', expiry_of (live s now k)))
          (put_value (create_entry (lookup_typed read s k now).1 k v₀) k v')
  unfolding lookup_typed put_value typed
  create_put-Writes v₀ v' missing =
      let t = lookup-Looks s v k now in
      elim (Option-cases (lookup s k now).0) [
        | inr (e, there) ↦
            let no : ⊥ = elim (Option-cases (read e.value)) [
              | inl q ↦ ground (arith, there, q)
              | inr (a, q) ↦ ground (arith, there, q)
            ] in
            absurd no
        | inl nothing ↦
            let w =
              create_write-Writes s (lookup s k now).1 k now t.same v₀
                (λ e. record e { value = v' }) (t.stands ∙ nothing) (λ e. refl) (λ e. refl) in
            let fresh : pos 0 ≡ expiry_of (live s now k) = ground (arith, t.returns, nothing) in
            subst
              (λ x.
                Writes now s k (some (v', x))
                  (put_value (create_entry (lookup s k now).1 k v₀) k v'))
              fresh w
      ]

  -- The value that is opened for a write: the one there, or an empty one.
  abbrev pub opened : A → Typed A → Option A
  opened empty (held a) = some a
  opened empty absent = some empty
  opened empty mismatched = none

  -- What `get_or_create` returns, and what a value written next through its pointer does.
  pub record Opens (empty : A) (r : Option A × Store) : Type ℓ where
    pub value : r.0 ≡ opened empty (typed_content read (live s now k))
    pub refused : r.0 ≡ none → Same now s r.1
    pub written :
        (a : A) (v' : Value)
        → r.0 ≡ some a
        → Writes now s k (some (v', expiry_of (live s now k))) (put_value r.1 k v')

  pub get_or_create-Opens :
      (wrap : A → Value) (empty : A) → Opens empty (get_or_create read wrap empty s k now)
  unfolding get_or_create
  get_or_create-Opens wrap empty =
      let t = lookup_typed-Finds in
      (elim (lookup_typed read s k now).0
          as (λ r.
            (lookup_typed read s k now).0 ≡ r
            → Opens empty (get_or_create read wrap empty s k now)) [
              | held a ↦ λ e.
                  rw (e, get_or_create)
                    (record {
                      value = rw (← t.returns, e);
                      refused = λ h. cc;
                      written = λ _ v' _. put_value-Writes a v' e;
                    })
              | absent ↦ λ e.
                  rw (e, get_or_create)
                    (record {
                      value = rw (← t.returns, e);
                      refused = λ h. cc;
                      written = λ _ v' _. create_put-Writes (wrap empty) v' e;
                    })
              | mismatched ↦ λ e.
                  rw (e, get_or_create)
                    (record {
                      value = rw (← t.returns, e);
                      refused = λ _. t.same;
                      written = λ a v' h. absurd (cc);
                    })
            ])
        refl

pub expiry-absent {ℓ} :
    {A : Type ℓ} (read : Value → Option A) (c : Option Content)
    → typed_content read c ≡ absent
    → expiry_of c ≡ pos 0
expiry-absent read none h = refl
expiry-absent read (some (v, x)) h = elim (Option-cases (read v)) [
  | inl e ↦ ground (arith, e)
  | inr (a, e) ↦ ground (arith, e)
]
