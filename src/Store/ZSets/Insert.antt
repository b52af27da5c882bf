-- ===== src/Store/ZSets/Insert.antt =====
-- An insertion in the array of a sorted set in src/store.c.
use pulse_db.Prelude.{
  All, All-append, Bool-cases, List, [], ap, arith, drop, drop-length, false, if◌then◌else◌, inl,
  inr, length, length-append, refl, subst, sym, take, take-length, true, ◌++◌, ◌∷◌, ◌≡◌,
}
use pulse_db.Prelude.Bytes.{Bytes, str_eq}
use pulse_db.Store.Types.{ZSet, ZSetEntry}
use pulse_db.Store.ZSets.{bisect, insert_at, is_below, zset_insert, zset_lower_bound}
use pulse_db.Store.ZSets.Order.{entry_lt, entry_lt_total, entry_lt_trans}
use pulse_db.Store.ZSets.Rank.{Every, Sorted, bisect_lem}

-- The entries before the first one that is not below `x`, and the others.
below_part : ZSetEntry → List ZSetEntry → List ZSetEntry × List ZSetEntry
below_part x [] = ([], [])
below_part x (e ∷ es) =
    let (xs, ys) = below_part x es in if entry_lt e x then (e ∷ xs, ys) else ([], e ∷ es)

-- A split of the array: below `x`, and not below it.
record Splits (x : ZSetEntry) (es : List ZSetEntry) : Type 0 where
  xs : List ZSetEntry
  ys : List ZSetEntry
  whole : xs ++ ys ≡ es
  left : Every (λ e. entry_lt e x) true xs
  right : Every (λ e. entry_lt e x) false ys

-- Behind an entry that is not below `x` there is none below it.
none_lower :
    (x e : ZSetEntry) (es : List ZSetEntry)
    → All (λ f. entry_lt e f ≡ true) es
    → entry_lt e x ≡ false
    → Every (λ f. entry_lt f x) false es
none_lower x e [] a h = tt
none_lower x e (f ∷ es) a h = (
  elim (Bool-cases (entry_lt f x)) [
    | inl k ↦ let t = entry_lt_trans e f x a.0 k in absurd (cc)
    | inr k ↦ k
  ],
  none_lower x e es a.1 h,
)

splits : (x : ZSetEntry) (es : List ZSetEntry) → Sorted es → Splits x es
splits x [] s = record { xs = []; ys = []; whole = refl; left = tt; right = tt }
splits x (e ∷ es) s = elim (Bool-cases (entry_lt e x)) [
  | inl k ↦
      let t = splits x es s.1 in
      record {
        xs = e ∷ t.xs;
        ys = t.ys;
        whole = ap (λ zs. e ∷ zs) t.whole;
        left = (k, t.left);
        right = t.right;
      }
  | inr k ↦ record {
    xs = [];
    ys = e ∷ es;
    whole = refl;
    left = tt;
    right = (k, none_lower x e es s.0 k);
  }
]

-- The member is not among the entries.
abbrev pub IsNew : Bytes → List ZSetEntry → Type 0
IsNew member es = All (λ e. str_eq e.member member ≡ false) es

each_above :
    (x : ZSetEntry) (ys : List ZSetEntry)
    → Every (λ e. entry_lt e x) false ys
    → IsNew x.member ys
    → All (λ e. entry_lt x e ≡ true) ys
each_above x [] h n = tt
each_above x (e ∷ ys) h n = (entry_lt_total e x h.0 n.0, each_above x ys h.1 n.1)

pub All-prefix :
    (P : ZSetEntry → Type 0) (xs ys : List ZSetEntry) → All P (xs ++ ys) → All P xs × All P ys
All-prefix P [] ys h = (tt, h)
All-prefix P (x ∷ xs) ys h = let t = All-prefix P xs ys h.1 in ((h.0, t.0), t.1)

Sorted-insert :
    (x : ZSetEntry) (xs ys : List ZSetEntry)
    → Sorted (xs ++ ys)
    → Every (λ e. entry_lt e x) true xs
    → All (λ e. entry_lt x e ≡ true) ys
    → Sorted (xs ++ x ∷ ys)
Sorted-insert x [] ys s l r = (r, s)
Sorted-insert x (e ∷ xs) ys s l r =
    let t = All-prefix (λ f. entry_lt e f ≡ true) xs ys s.0 in
    (
      All-append (λ f. entry_lt e f ≡ true) xs (x ∷ ys) t.0 (l.0, t.1),
      Sorted-insert x xs ys s.1 l.1 r,
    )

-- What an insertion leaves: the array with the entry between two parts of the old one, sorted and
-- counted.
pub record Inserts (z : ZSet) (x : ZSetEntry) (z' : ZSet) : Type 0 where
  pub before : List ZSetEntry
  pub behind : List ZSetEntry
  pub old : z.entries ≡ before ++ behind
  pub new : z'.entries ≡ before ++ x ∷ behind
  pub sorted : Sorted z'.entries
  pub counted : z'.len ≡ length z'.entries

module _ (z : ZSet) (x : ZSetEntry) (s : Sorted z.entries) (n : z.len ≡ length z.entries) where
  found_at : (t : Splits x z.entries) → zset_lower_bound z x.score x.member ≡ length t.xs
  unfolding zset_lower_bound
  found_at t =
      subst (λ es. bisect (is_below x.score x.member) es z.len 0 z.len ≡ length t.xs) t.whole
        (bisect_lem (λ e. entry_lt e x) t.xs t.ys t.left t.right z.len 0 z.len (omega arith)
          (omega (arith, n, ap length t.whole, length-append t.xs t.ys))
          (omega (arith, n, ap length t.whole)) (omega arith))

  inserted_entries :
      (t : Splits x z.entries)
      → insert_at z.entries (zset_lower_bound z x.score x.member) x ≡ t.xs ++ x ∷ t.ys
  inserted_entries t = rw (found_at t) (
      subst (λ es. take (length t.xs) es ++ x ∷ drop (length t.xs) es ≡ t.xs ++ x ∷ t.ys) t.whole
        (rw (take-length t.xs t.ys, drop-length t.xs t.ys) refl))

  -- In a sorted array whose length is counted, `zset_insert` puts a pair whose member is new
  -- between two parts of the array, which stays sorted and counted.
  pub zset_insert-Inserts : IsNew x.member z.entries → Inserts z x (zset_insert z x.score x.member)
  unfolding zset_insert
  zset_insert-Inserts fresh =
      let t = splits x z.entries s in
      let e = inserted_entries t in
      let parts =
        All-prefix (λ e. str_eq e.member x.member ≡ false) t.xs t.ys
          (subst (IsNew x.member) (sym t.whole) fresh) in
      let sorted_old = subst Sorted (sym t.whole) s in
      record {
        before = t.xs;
        behind = t.ys;
        old = sym t.whole;
        new = e;
        sorted =
            subst Sorted (sym e)
              (Sorted-insert x t.xs t.ys sorted_old t.left (each_above x t.ys t.right parts.1));
        counted = omega (
          arith,
          n,
          ap length e,
          ap length t.whole,
          length-append t.xs t.ys,
          length-append t.xs (x ∷ t.ys),
        );
      }
