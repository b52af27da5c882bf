-- ===== src/Store/ZSets/Entries.antt =====
-- The entries of a sorted set in src/store.c by their member: what an insertion and a removal
-- change.
use pulse_db.Prelude.{
  Bool-cases, List, Option, [], ap, arith, if◌then◌else◌, inl, inr, refl, some, ℕ, ◌++◌, ◌+◌, ◌∷◌,
  ◌≡◌,
}
use pulse_db.Prelude.Bytes.{Bytes, str_eq, str_eq_iff}
use pulse_db.Store.Types.{ZSetEntry}
use pulse_db.Store.ZSets.Insert.{IsNew}
use pulse_db.Table.Chain.{has_key, to_nat, find, count}

abbrev pub member_of : ZSetEntry → Bytes
member_of e = e.member

-- The entry of a member.
abbrev pub entry_at : List ZSetEntry → Bytes → Option ZSetEntry
entry_at es q = find (has_key member_of q) es

abbrev pub times : Bytes → List ZSetEntry → ℕ
times q es = count member_of q es

pub times-insert :
    (q : Bytes) (x : ZSetEntry) (xs ys : List ZSetEntry)
    → times q (xs ++ x ∷ ys) ≡ to_nat (str_eq x.member q) + times q (xs ++ ys)
unfolding count
times-insert q x [] ys = ground arith
times-insert q x (e ∷ xs) ys = omega (arith, times-insert q x xs ys)

pub entry_at-insert :
    (q : Bytes) (x : ZSetEntry) (xs ys : List ZSetEntry)
    → times x.member (xs ++ ys) ≡ 0
    → entry_at (xs ++ x ∷ ys) q ≡ (if str_eq x.member q then some x else entry_at (xs ++ ys) q)
unfolding find count
entry_at-insert q x [] ys h = refl
entry_at-insert q x (e ∷ xs) ys h = ground (
  arith,
  entry_at-insert q x xs ys,
  str_eq_iff x.member q,
  str_eq_iff e.member q,
  str_eq_iff e.member x.member,
)

-- A member that is not counted is new.
pub times-IsNew : (member : Bytes) (es : List ZSetEntry) → times member es ≡ 0 → IsNew member es
unfolding count
times-IsNew member [] h = tt
times-IsNew member (e ∷ es) h = (ground arith, times-IsNew member es (ground arith))

-- The entry of a member stands between two parts of the array.
pub record Stands (q : Bytes) (es : List ZSetEntry) (e : ZSetEntry) : Type 0 where
  pub before : List ZSetEntry
  pub behind : List ZSetEntry
  pub whole : es ≡ before ++ e ∷ behind

pub entry_at-Stands :
    (q : Bytes) (es : List ZSetEntry) (e : ZSetEntry) → entry_at es q ≡ some e → Stands q es e
unfolding find
entry_at-Stands q [] e h = absurd (cc)
entry_at-Stands q (f ∷ es) e h = elim (Bool-cases (str_eq f.member q)) [
  | inl k ↦
      let same : f ≡ e = ground arith in
      record { before = []; behind = es; whole = ap (λ g. g ∷ es) same }
  | inr k ↦
      let t = entry_at-Stands q es e (rw k at h) in
      record { before = f ∷ t.before; behind = t.behind; whole = ap (λ gs. f ∷ gs) t.whole }
]
