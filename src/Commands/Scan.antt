-- ===== src/Commands/Scan.antt =====
-- `command_lookup` of src/commands.c finds what a scan of the table would find.
use pulse_db.Prelude.{
  zero, suc, [], ◌∷◌, none, some, true, false, Bool-cases, Option-cases, inl, inr, refl, ◌≡◌, ltb,
  subst, ℕ, Bool, ◌&&◌, ◌<◌, arith, ◌==◌, get_elem?, leb, length, map, length-map, bit_and, ◌≢◌,
  ◌+◌, ◌-◌, bit_and-le,
}
use pulse_db.Table.Chain.{find}
use pulse_db.Commands.Lookup.{
  hit, free, out_of_fuel, spec_at, max_command_name, Slots, command_lookup, Probe, probe_name,
  name_hash_from, name_hash, free_slot, build_from, build_lookup, is_named, probe, to_lower,
  lookup_slots_len,
}
use pulse_db.Prelude.Bytes.{Bytes, strcmp, str_eq, str_eq→eq}
use pulse_db.Commands.{command_table, Option, CommandSpec, List}

-- The scan: the first command whose name, without regard to case, is the one given.
abbrev pub scan : Bytes → Option CommandSpec
scan name = find (λ spec. str_eq spec.name (map to_lower name)) command_table

-- `f` at every number below `n`.
abbrev below : (ℕ → Bool) → ℕ → Bool
below f zero = true
below f (suc n) = f n && below f n

at_below : (f : ℕ → Bool) (n i : ℕ) → below f n ≡ true → i < n → f i ≡ true
at_below f zero i h l = absurd (omega arith)
at_below f (suc n) i h l = elim (Bool-cases (i == n)) [
  | inl e ↦ ground (arith, e)
  | inr e ↦ at_below f n i (ground arith) (ground (arith, e))
]

-- The name at an index.
abbrev name_at : ℕ → Bytes
name_at i = elim (get_elem? command_table i) [ none ↦ [] | some spec ↦ spec.name ]

abbrev is_hit_at : ℕ → Probe → Bool
is_hit_at i (hit v) = v == i
is_hit_at i free = false
is_hit_at i out_of_fuel = false

-- What a run of the lookup computes with.
runs : Unit {0}
unfolding command_table name_hash_from name_hash free_slot build_from build_lookup is_named probe
    probe_name strcmp str_eq
runs = tt

all_found : below (λ i. is_hit_at i (probe_name (name_at i))) 43 ≡ true
unfolding runs
all_found = refl

all_short : below (λ i. ltb (length (name_at i)) max_command_name) 43 ≡ true
unfolding command_table
all_short = refl

is_hit_at→hit : (i : ℕ) (r : Probe) → is_hit_at i r ≡ true → r ≡ hit i
is_hit_at→hit i (hit v) h = ground arith
is_hit_at→hit i free h = absurd (cc)
is_hit_at→hit i out_of_fuel h = absurd (cc)

find-none :
    {A : Type 0} (p : A → Bool) (c : List A) (i : ℕ) (a : A)
    → find p c ≡ none
    → get_elem? c i ≡ some a
    → p a ≡ false
unfolding find
find-none p [] i a h e = absurd (cc)
find-none p (x ∷ c) zero a h e = ground arith
find-none p (x ∷ c) (suc i) a h e = ground (arith, find-none p c i a)

-- Where a scan finds its result.
record FoundAt {A : Type 0} (p : A → Bool) (c : List A) (a : A) : Type 0 where
  pub at : ℕ
  pub below_length : at < length c
  pub there : get_elem? c at ≡ some a
  pub passes : p a ≡ true

find-FoundAt : {A : Type 0} (p : A → Bool) (c : List A) (a : A) → find p c ≡ some a → FoundAt p c a
unfolding find
find-FoundAt p [] a h = absurd (cc)
find-FoundAt p (x ∷ c) a h = elim (Bool-cases (p x)) [
  | inl e ↦ record {
    at = 0;
    below_length = omega arith;
    there = ground (arith, e);
    passes = ground (arith, e);
  }
  | inr e ↦
      let t = find-FoundAt p c a (ground (arith, e)) in
      record {
        at = suc t.at;
        below_length = omega (arith, t.below_length);
        there = t.there;
        passes = t.passes;
      }
]

probe_missing :
    (lower : Bytes)
    → ((i : ℕ) → is_named i lower ≡ false)
    → (fuel : ℕ) (slots : Slots) (i : ℕ) → spec_at (probe fuel slots lower i) ≡ none
unfolding probe
probe_missing lower h zero slots i = refl
probe_missing lower h (suc fuel) slots i = elim (Option-cases (slots i)) [
  | inl e ↦ rw (e, probe) refl
  | inr (v, e) ↦ rw (e, probe, h v) (probe_missing lower h fuel slots _)
]

unnamed : (name : Bytes) → scan name ≡ none → (i : ℕ) → is_named i (map to_lower name) ≡ false
unfolding is_named
unnamed name h i = elim (Option-cases (get_elem? command_table i)) [
  | inl e ↦ rw (e, is_named) refl
  | inr (spec, e) ↦ rw (e, is_named) (find-none _ command_table i spec h e)
]

table_length : length command_table ≡ 43
unfolding command_table
table_length = refl

short-leb : (n : ℕ) → n < max_command_name → leb max_command_name n ≡ false
short-leb n h = ground arith

ltb-short : (n : ℕ) → ltb n max_command_name ≡ true → n < max_command_name
ltb-short n h = ground arith

-- The lookup at the name of the command that the scan finds.
found_name :
    (name : Bytes) (spec : CommandSpec)
    → scan name ≡ some spec
    → (length name < max_command_name) × (spec_at (probe_name (map to_lower name)) ≡ some spec)
found_name name spec h =
    let t = find-FoundAt _ command_table spec h in
    let named : name_at t.at ≡ map to_lower name =
      rw (t.there, name_at) (str_eq→eq spec.name _ t.passes) in
    let low : t.at < 43 = omega (arith, t.below_length, table_length) in
    let short = at_below (λ i. ltb (length (name_at i)) max_command_name) 43 t.at all_short low in
    let found =
      is_hit_at→hit t.at _
        (at_below (λ i. is_hit_at i (probe_name (name_at i))) 43 t.at all_found low) in
    (
      subst (λ n. n < max_command_name) (length-map name to_lower)
          (ltb-short _ (rw named at short)),
      rw (← named, found) t.there,
    )

missing_name : (name : Bytes) → scan name ≡ none → spec_at (probe_name (map to_lower name)) ≡ none
unfolding probe_name
missing_name name h =
    probe_missing (map to_lower name) (unnamed name h) lookup_slots_len build_lookup
      (bit_and (name_hash (map to_lower name)) (lookup_slots_len - 1))

-- For every name `command_lookup` gives the first command of the table whose name is the given
-- one without regard to case, and nothing if there is none.
pub command_lookup-scan : (name : Bytes) → command_lookup name ≡ scan name
unfolding command_lookup
command_lookup-scan name = elim (Option-cases (scan name)) [
  | inl e ↦ rw e (elim (Bool-cases (leb max_command_name (length name))) [
    | inl long ↦ rw long refl
    | inr short ↦ rw short (missing_name name e)
  ])
  | inr (spec, e) ↦
      let t = found_name name spec e in let short = short-leb (length name) t.0 in rw (e, short) t.1
]

-- Whether a free slot is met within so many steps.
abbrev ends : ℕ → ℕ → Bool
unfolding build_lookup
ends zero i = false
ends (suc fuel) i = elim (build_lookup i) [
  | none ↦ true
  | some _ ↦ ends fuel (bit_and (i + 1) (lookup_slots_len - 1))
]

all_end : below (ends lookup_slots_len) lookup_slots_len ≡ true
unfolding runs ends
all_end = refl

ends-probe :
    (fuel i : ℕ) (lower : Bytes)
    → ends fuel i ≡ true
    → probe fuel build_lookup lower i ≢ out_of_fuel
unfolding ends probe
ends-probe zero i lower h e = absurd (cc)
ends-probe (suc fuel) i lower h e = elim (Option-cases (build_lookup i)) [
  | inl none_there ↦ ground (arith, none_there)
  | inr (v, there) ↦ elim (Bool-cases (is_named v lower)) [
    | inl found ↦ ground (arith, there, found)
    | inr other ↦
        ends-probe fuel (bit_and (i + 1) (lookup_slots_len - 1)) lower (ground (arith, there))
          (ground (arith, there, other))
  ]
]

-- For every name the search of `command_lookup` meets the command or a free slot within the
-- length of the slot table.
pub probe_name_ends : (lower : Bytes) → probe_name lower ≢ out_of_fuel
unfolding probe_name
probe_name_ends lower =
    let i = bit_and (name_hash lower) (lookup_slots_len - 1) in
    let low : i < lookup_slots_len =
      omega (arith, bit_and-le (name_hash lower) (lookup_slots_len - 1)) in
    ends-probe lookup_slots_len i lower
      (at_below (ends lookup_slots_len) lookup_slots_len i all_end low)
