-- ===== src/Store/Live.antt =====
-- The abstract database: the value and the expiry under each key that is live at a time. What the
-- calls of "lookup" and "keys" in src/store.c do to it.
use pulse_db.Prelude.{
  ◌≡◌, refl, ◌∙◌, ℤ, pos, ◌≤ℤ◌, ltb_ℤ, eqb_ℤ, Bool, true, false, not, ◌&&◌, Option, none, some,
  arith, if◌then◌else◌, Option-cases, Bool-cases, inl, inr,
}
use pulse_db.Prelude.Bytes.{Bytes, str_eq, str_eq_refl, str_eq_iff, str_eq_image}
use pulse_db.Store.Types.{StoreEntry, Store, Value}
use pulse_db.Store.Keys.{entry_is_expired, unlink_entry, lookup}
use pulse_db.Store.Invariant.{IsValid, view, find-view, unlink_entry-Models}
use mathlib.Core.Option

-- What a key stands for: its value and its expiry.
abbrev pub Content : Type 0
Content = Value × ℤ

abbrev pub content : StoreEntry → Content
content e = (e.value, e.expires_at)

-- `entry_is_expired`, of the expiry alone
abbrev pub expired : ℤ → ℤ → Bool
expired expires_at now = not (eqb_ℤ expires_at (pos 0)) && ltb_ℤ expires_at now

abbrev pub keep_live : ℤ → Option Content → Option Content
keep_live now none = none
keep_live now (some (v, expires_at)) = if expired expires_at now then none else some (v, expires_at)

unfoldable pub live : Store → ℤ → Bytes → Option Content
live s now q = keep_live now (Option.map content (view s q))

-- What has expired stays expired.
pub expired_later :
    (e : StoreEntry) (now later : ℤ)
    → entry_is_expired e now ≡ true
    → now ≤ℤ later
    → entry_is_expired e later ≡ true
unfolding entry_is_expired
expired_later e now later h l = ground arith

-- The same database from `now` on.
pub record Same (now : ℤ) (s s' : Store) : Type 0 where
  pub valid : IsValid s'
  pub keeps : (later : ℤ) → now ≤ℤ later → (q : Bytes) → live s' later q ≡ live s later q

pub Same-refl : (now : ℤ) (s : Store) → IsValid s → Same now s s
Same-refl now s v = record { valid = v; keeps = λ later l q. refl }

-- The database from `now` on with the content `c` at the key, or without the key.
pub record Writes (now : ℤ) (s : Store) (k : Bytes) (c : Option Content) (s' : Store) : Type 0 where
  pub valid : IsValid s'
  pub writes :
      (later : ℤ)
      → now ≤ℤ later
      → (q : Bytes) → live s' later q ≡ (if str_eq k q then keep_live later c else live s later q)

module _ (s : Store) (v : IsValid s) (k : Bytes) (now : ℤ) where
  -- What `lookup` returns: the live entry, in a database that is the same from now on.
  pub record Looks (r : Option StoreEntry × Store) : Type 0 where
    pub returns : Option.map content r.0 ≡ live s now k
    pub same : Same now s r.1
    pub stands : view r.1 k ≡ r.0

  lookup_missing : view s k ≡ none → lookup s k now ≡ (none, s)
  unfolding lookup
  lookup_missing h = ground (arith, find-view s v k)

  lookup_expired :
      (e : StoreEntry)
      → view s k ≡ some e
      → entry_is_expired e now ≡ true
      → lookup s k now ≡ (none, unlink_entry s k)
  unfolding lookup entry_is_expired
  lookup_expired e h x = ground (arith, find-view s v k)

  lookup_found :
      (e : StoreEntry)
      → view s k ≡ some e
      → entry_is_expired e now ≡ false
      → lookup s k now ≡ (some e, s)
  unfolding lookup entry_is_expired
  lookup_found e h x = ground (arith, find-view s v k)

  -- Unlinking a key whose entry has expired shows no one any change.
  unlink-Same :
      (e : StoreEntry)
      → view s k ≡ some e
      → entry_is_expired e now ≡ true
      → Same now s (unlink_entry s k)
  unfolding live entry_is_expired
  unlink-Same e there x =
      let t = unlink_entry-Models s v k e there in
      record {
        valid = t.valid;
        keeps = λ later l q. ground (
          arith,
          t.reads q,
          str_eq_iff k q,
          expired_later e now later x l,
          str_eq_image (view s) k q,
        );
      }

  -- On a valid store `lookup` returns the content that is live under the key at the time of the
  -- call, the database is the same at every later time, the store stays valid, and what it
  -- returns is what stands in the table afterwards.
  pub lookup-Looks : Looks (lookup s k now)
  unfolding live entry_is_expired
  lookup-Looks = elim (Option-cases (view s k)) [
    | inl e ↦
        rw (lookup_missing e) (record { returns = rw e; same = Same-refl now s v; stands = e })
    | inr (x, e) ↦ elim (Bool-cases (entry_is_expired x now)) [
      | inl dead ↦ rw (lookup_expired x e dead) (record {
        returns = rw (e, dead);
        same = unlink-Same x e dead;
        stands = (unlink_entry-Models s v k x e).reads k ∙ rw str_eq_refl;
      })
      | inr alive ↦
          rw (lookup_found x e alive)
            (record { returns = rw (e, alive); same = Same-refl now s v; stands = e })
    ]
  ]

-- The same database from a later time on.
pub Same-later : (now later : ℤ) (s t : Store) → now ≤ℤ later → Same now s t → Same later s t
Same-later now later s t h p = record {
  valid = p.valid;
  keeps = λ x l q. p.keeps x (omega (arith, h, l)) q;
}

pub Same-trans : (now : ℤ) (s t u : Store) → Same now s t → Same now t u → Same now s u
Same-trans now s t u p q = record {
  valid = q.valid;
  keeps = λ later l k. q.keeps later l k ∙ p.keeps later l k;
}

pub Same-Writes :
    (now : ℤ) (s t u : Store) (k : Bytes) (c : Option Content)
    → Same now s t
    → Writes now t k c u
    → Writes now s k c u
Same-Writes now s t u k c p w = record {
  valid = w.valid;
  writes = λ later l q. ground (arith, w.writes later l q, p.keeps later l q);
}

pub Writes-Same :
    (now : ℤ) (s t u : Store) (k : Bytes) (c : Option Content)
    → Writes now s k c t
    → Same now t u
    → Writes now s k c u
Writes-Same now s t u k c w p = record {
  valid = p.valid;
  writes = λ later l q. p.keeps later l q ∙ w.writes later l q;
}

-- The last of two writes at one key counts.
pub Writes-over :
    (now : ℤ) (s t u : Store) (k : Bytes) (c d : Option Content)
    → Writes now s k c t
    → Writes now t k d u
    → Writes now s k d u
Writes-over now s t u k c d w x = record {
  valid = x.valid;
  writes = λ later l q. ground (arith, w.writes later l q, x.writes later l q);
}

-- What is live later is what is live now, less what expires in between.
pub live_later :
    (s : Store) (now later : ℤ) (k : Bytes)
    → now ≤ℤ later
    → live s later k ≡ keep_live later (live s now k)
unfolding live
live_later s now later k l = elim (Option-cases (view s k)) [
  | inl h ↦ ground (arith, h)
  | inr (e, h) ↦ ground (arith, h, expired_later e now later)
]
