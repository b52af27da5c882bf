-- ===== src/Commands/Lookup.antt =====
-- src/commands.c, `command_lookup`: an open-addressing table of the commands. A slot holds the
-- index of its command in the table, for the pointer.
use pulse_db.Prelude.{
  List, zero, suc, [], ◌∷◌, none, some, false, Option, bit_and, ℕ, Bool, get_elem?, if◌then◌else◌,
  ◌-◌, bit_xor, leb, ◌==◌, length, ◌&&◌, ◌*◌, ◌+◌, map, ◌%◌, ◌^◌,
}
use pulse_db.Prelude.Bytes.{Bytes, str_eq}
use pulse_db.Commands.{command_table, CommandSpec}

abbrev pub lookup_slots_len : ℕ
lookup_slots_len = 128

abbrev pub max_command_name : ℕ
max_command_name = 32

abbrev pub Slots : Type 0
Slots = ℕ → Option ℕ

-- The loop of `name_hash`, on an `unsigned`.
unfoldable pub name_hash_from : ℕ → Bytes → ℕ
name_hash_from h [] = h
name_hash_from h (c ∷ s) = name_hash_from (bit_xor h c * 16777619 % 2 ^ 32) s

unfoldable pub name_hash : Bytes → ℕ
unfolding name_hash_from
name_hash s = name_hash_from 2166136261 s

-- The first free slot from `slot` on.
unfoldable pub free_slot : ℕ → Slots → ℕ → ℕ
free_slot zero slots i = i
free_slot (suc fuel) slots i = elim (slots i) [
  | none ↦ i
  | some _ ↦ free_slot fuel slots (bit_and (i + 1) (lookup_slots_len - 1))
]

abbrev pub set_slot : Slots → ℕ → ℕ → Slots
set_slot slots i v j = if j == i then some v else slots j

-- The loop of `build_lookup`, from the command `i` on.
unfoldable pub build_from : ℕ → List CommandSpec → Slots → Slots
unfolding free_slot name_hash
build_from i [] slots = slots
build_from i (spec ∷ specs) slots = build_from (suc i) specs (
    set_slot slots
      (free_slot lookup_slots_len slots (bit_and (name_hash spec.name) (lookup_slots_len - 1))) i)

unfoldable pub build_lookup : Slots
unfolding build_from command_table
build_lookup = build_from 0 command_table (λ i. none)

pub data Probe : Type 0 where
  hit : ℕ → Probe
  free : Probe
  out_of_fuel : Probe

-- Whether the command at an index has the name.
unfoldable pub is_named : ℕ → Bytes → Bool
unfolding command_table
is_named i lower = elim (get_elem? command_table i) [
  | none ↦ false
  | some spec ↦ str_eq spec.name lower
]

-- The last loop of `command_lookup`.
unfoldable pub probe : ℕ → Slots → Bytes → ℕ → Probe
unfolding is_named
probe zero slots lower i = out_of_fuel
probe (suc fuel) slots lower i = elim (slots i) [
  | none ↦ free
  | some v ↦
      let rest = probe fuel slots lower (bit_and (i + 1) (lookup_slots_len - 1)) in
      if is_named v lower then hit v else rest
]

abbrev pub to_lower : ℕ → ℕ
to_lower c = if leb b'A' c && leb c b'Z' then c + 32 else c

abbrev pub spec_at : Probe → Option CommandSpec
spec_at (hit v) = get_elem? command_table v
spec_at free = none
spec_at out_of_fuel = none

unfoldable pub probe_name : Bytes → Probe
unfolding probe build_lookup name_hash
probe_name lower =
    probe lookup_slots_len build_lookup lower (bit_and (name_hash lower) (lookup_slots_len - 1))

unfoldable pub command_lookup : Bytes → Option CommandSpec
unfolding probe_name
command_lookup name =
    if leb max_command_name (length name) then none else spec_at (probe_name (map to_lower name))
