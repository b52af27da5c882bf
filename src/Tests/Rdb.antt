-- ===== src/Tests/Rdb.antt =====
-- The loader of src/rdb.c on a file of two entries, in several forms.
use pulse_db.Prelude.{
  ◌++◌, All, List, [], negsuc, arith, none, pos, refl, some, ℕ, ℤ, ◌∷◌, ◌≡◌, ◌≢◌,
}
use pulse_db.Prelude.Bytes.{Bytes, codes}
use pulse_db.Commands.Process.{c_str}
use pulse_db.Rdb.{fresh_loader, rdb_load, ok}
use pulse_db.Rdb.Ends.{rdb_load_ends}
use pulse_db.Rdb.RoundTrip.{load_items, rdb_load-write_file}
use pulse_db.Rdb.Writer.{
  Form, IsItem, Item, write_file, entry, raw, int16, expire_ms, expire_sec, select_db,
}
use pulse_db.Store.Keys.{store_create}

-- `a` with the value `1` and an expiry in seconds, and `b` with the integer -300 and an expiry in
-- milliseconds.
abbrev two_entries : List Item
two_entries =
    select_db Form.one 0
    ∷ expire_sec 1700000000
    ∷ entry (raw Form.one (codes "a")) (raw Form.nine (codes "1"))
    ∷ expire_ms 1700000000000
    ∷ entry (raw Form.two (codes "b")) (int16 (negsuc 299))
    ∷ []

two_entries-IsItem : All IsItem two_entries
unfolding c_str
two_entries-IsItem = (
  omega arith,
  (
    omega arith,
    (
      ((refl, omega arith, omega arith), (refl, omega arith, omega arith)),
      (omega arith, (((refl, omega arith, omega arith), omega arith), tt)),
    ),
  ),
)

abbrev a_clock : ℕ → ℤ
a_clock n = pos 100

rdb_load-write_file_example :
    rdb_load a_clock store_create 0 (some (write_file b'0' b'0' b'1' b'1' two_entries (1 ∷ 2 ∷ [])))
    ≡ some (ok, load_items a_clock two_entries (fresh_loader a_clock store_create 0))
rdb_load-write_file_example =
    rdb_load-write_file a_clock b'0' b'0' b'1' b'1' two_entries (1 ∷ 2 ∷ []) store_create 0
      two_entries-IsItem

abbrev a_file : Bytes
a_file = codes "REDIS0011" ++ 255 ∷ []

rdb_load_ends_example : rdb_load a_clock store_create 0 (some a_file) ≢ none
rdb_load_ends_example = rdb_load_ends a_clock store_create 0 (some a_file)
