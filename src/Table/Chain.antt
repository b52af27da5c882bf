-- ===== src/Table/Chain.antt =====
-- One chain: the first node that passes a test is read, changed or unlinked.
use pulse_db.Prelude.{
  ℕ, ◌+◌, ◌≤◌, ◌≡◌, refl, Bool, true, false, List, [], ◌∷◌, Option, none, some, arith,
  if◌then◌else◌, length, All, Bool-cases, inl, inr, subst,
}
use pulse_db.Prelude.Bytes.{Bytes, str_eq, str_eq_iff}
use mathlib.Core.Option

module _ {N : Type 0} where
  unfoldable pub find : (N → Bool) → List N → Option N
  find p [] = none
  find p (x ∷ c) = if p x then some x else find p c

  unfoldable pub remove : (N → Bool) → List N → List N
  remove p [] = []
  remove p (x ∷ c) = if p x then c else x ∷ remove p c

  unfoldable pub modify : (N → Bool) → (N → N) → List N → List N
  modify p f [] = []
  modify p f (x ∷ c) = if p x then f x ∷ c else x ∷ modify p f c

  module _ (p q : N → Bool) where
    pub find_congr : (c : List N) → All (λ x. p x ≡ q x) c → find p c ≡ find q c
    unfolding find
    find_congr [] h = refl
    find_congr (x ∷ c) h = ground (arith, find_congr c, h.0)

    pub remove_congr : (c : List N) → All (λ x. p x ≡ q x) c → remove p c ≡ remove q c
    unfolding remove
    remove_congr [] h = refl
    remove_congr (x ∷ c) h = ground (arith, remove_congr c, h.0)

    pub modify_congr :
        (f : N → N) (c : List N) → All (λ x. p x ≡ q x) c → modify p f c ≡ modify q f c
    unfolding modify
    modify_congr f [] h = refl
    modify_congr f (x ∷ c) h = ground (arith, modify_congr f c, h.0)

  pub length-modify : (p : N → Bool) (f : N → N) (c : List N) → length (modify p f c) ≡ length c
  unfolding modify
  length-modify p f [] = refl
  length-modify p f (x ∷ c) = ground (arith, length-modify p f c)

  pub length-remove :
      (p : N → Bool) (c : List N) (x : N) → find p c ≡ some x → length (remove p c) + 1 ≡ length c
  unfolding remove find
  length-remove p [] x h = ground arith
  length-remove p (y ∷ c) x h = ground (arith, length-remove p c x)

  pub remove_absent : (p : N → Bool) (c : List N) → find p c ≡ none → remove p c ≡ c
  unfolding remove find
  remove_absent p [] h = refl
  remove_absent p (y ∷ c) h = ground (arith, remove_absent p c)

  pub modify_absent : (p : N → Bool) (f : N → N) (c : List N) → find p c ≡ none → modify p f c ≡ c
  unfolding modify find
  modify_absent p f [] h = refl
  modify_absent p f (y ∷ c) h = ground (arith, modify_absent p f c)

  module _ (P : N → Type 0) (p : N → Bool) where
    pub remove-All : (c : List N) → All P c → All P (remove p c)
    unfolding remove
    remove-All [] h = h
    remove-All (x ∷ c) h = elim (Bool-cases (p x)) [
      | inl e ↦ rw e h.1
      | inr e ↦ rw e (h.0, remove-All c h.1)
    ]

    pub modify-All :
        (f : N → N) → ((x : N) → P x → P (f x)) → (c : List N) → All P c → All P (modify p f c)
    unfolding modify
    modify-All f keep [] h = h
    modify-All f keep (x ∷ c) h = elim (Bool-cases (p x)) [
      | inl e ↦ rw e (keep x h.0, h.1)
      | inr e ↦ rw e (h.0, modify-All f keep c h.1)
    ]

    pub find-All : (c : List N) (x : N) → All P c → find p c ≡ some x → P x
    unfolding find
    find-All [] x h e = ground arith
    find-All (y ∷ c) x h e = elim (Bool-cases (p y)) [
      | inl i ↦ let same : y ≡ x = ground arith in subst P same h.0
      | inr i ↦ find-All c x h.1 (rw i at e)
    ]

abbrev pub to_nat : Bool → ℕ
to_nat true = 1
to_nat false = 0

module _ {N : Type 0} (key : N → Bytes) where
  -- the node carries the key `q`
  abbrev pub has_key : Bytes → N → Bool
  has_key q x = str_eq (key x) q

  -- how many nodes of a chain carry the key
  unfoldable pub count : Bytes → List N → ℕ
  count q [] = 0
  count q (x ∷ c) = to_nat (has_key q x) + count q c

  pub find-eq-none : (q : Bytes) (c : List N) → count q c ≡ 0 → find (has_key q) c ≡ none
  unfolding count find
  find-eq-none q [] h = refl
  find-eq-none q (x ∷ c) h = ground (arith, find-eq-none q c)

  pub count-eq-zero : (q : Bytes) (c : List N) → find (has_key q) c ≡ none → count q c ≡ 0
  unfolding count find
  count-eq-zero q [] h = refl
  count-eq-zero q (x ∷ c) h = ground (arith, count-eq-zero q c)

  pub find-key : (q : Bytes) (c : List N) (x : N) → find (has_key q) c ≡ some x → key x ≡ q
  unfolding find
  find-key q [] x h = ground arith
  find-key q (y ∷ c) x h = ground (arith, find-key q c x, str_eq_iff (key y) q)

  module _ (k q : Bytes) where
    pub find-modify :
        (f : N → N)
        → ((x : N) → key (f x) ≡ key x)
        → (c : List N)
        → find (has_key q) (modify (has_key k) f c)
          ≡ (if str_eq k q then Option.map f (find (has_key q) c) else find (has_key q) c)
    unfolding find modify
    find-modify f keep [] = ground arith
    find-modify f keep (x ∷ c) = ground (
      arith,
      find-modify f keep c,
      keep x,
      str_eq_iff (key x) k,
      str_eq_iff (key x) q,
      str_eq_iff k q,
    )

    pub count-modify :
        (f : N → N)
        → ((x : N) → key (f x) ≡ key x)
        → (c : List N) → count q (modify (has_key k) f c) ≡ count q c
    unfolding count modify
    count-modify f keep [] = refl
    count-modify f keep (x ∷ c) = ground (arith, count-modify f keep c, keep x)

    pub find-remove :
        (c : List N)
        → count q c ≤ 1
        → find (has_key q) (remove (has_key k) c)
          ≡ (if str_eq k q then none else find (has_key q) c)
    unfolding find remove count
    find-remove [] h = ground arith
    find-remove (x ∷ c) h = ground (
      arith,
      find-remove c,
      find-eq-none q c,
      str_eq_iff (key x) k,
      str_eq_iff (key x) q,
      str_eq_iff k q,
    )

    pub count-remove-le : (c : List N) → count q (remove (has_key k) c) ≤ count q c
    unfolding count remove
    count-remove-le [] = omega arith
    count-remove-le (x ∷ c) = ground (arith, count-remove-le c)
