-- ===== src/Rdb/RoundTrip.antt =====
-- The loader of src/rdb.c on a file that was written: every item does what it stands for, in order.
use pulse_db.Prelude.{
  Option, none, ◌>>=◌, All, List, [], ap, arith, length, length-append, ltb, pos, refl, some, suc,
  true, zero, ℕ, ℤ, ◌*◌, ◌++◌, ◌+◌, ◌<◌, ◌^◌, ◌∙◌, ◌∷◌, ◌≡◌, subst, sym, append_assoc,
}
use pulse_db.Rdb.{
  RdbLength, encoded, skip_length, skipped, Loader, fread, fresh_loader, load_from, load_loop,
  load_op, rdb_load, read_pair, signed, went_on, continued, RdbStatus, after_step, plain,
}
use pulse_db.Rdb.Writer.{
  Form, InForm, text_of, Coded, IsCoded, IsItem, Item, expire_ms, expire_sec, low_first,
  read_length-write_length, read_number-low_first, read_string-write_string, resize_db, select_db,
  write_file, write_item, write_items, write_length, write_string, entry, aux,
}
use pulse_db.Prelude.Bytes.{Bytes, str_eq, strcmp}
use pulse_db.Store.Strings.{store_set}
use pulse_db.Store.Types.{Store}

module _ (clock : ℕ → ℤ) where
  -- What an item does: an entry is stored under the expiry that came before it, at the next reading
  -- of the clock.
  abbrev pub load_item : Loader → Item → Loader
  load_item l (aux k v) = l
  load_item l (select_db form n) = l
  load_item l (resize_db form n form' m) = l
  load_item l (expire_ms n) = record l { expiry_ms = pos n }
  load_item l (expire_sec n) = record l { expiry_ms = pos (n * 1000) }
  load_item l (entry k v) = record {
    store = store_set l.store (text_of k) (text_of v) l.expiry_ms (clock l.ticks);
    expiry_ms = pos 0;
    ticks = l.ticks + 1;
  }

  abbrev pub load_items : List Item → Loader → Loader
  load_items [] l = l
  load_items (i ∷ is) l = load_items is (load_item l i)

  -- The opcode of an item, and its operands.
  abbrev opcode : Item → ℕ
  opcode (aux k v) = 250
  opcode (select_db form n) = 254
  opcode (resize_db form n form' m) = 251
  opcode (expire_ms n) = 252
  opcode (expire_sec n) = 253
  opcode (entry k v) = 0

  abbrev operands : Item → Bytes
  operands (aux k v) = write_string k ++ write_string v
  operands (select_db form n) = write_length form n
  operands (resize_db form n form' m) = write_length form n ++ write_length form' m
  operands (expire_ms n) = low_first 8 n
  operands (expire_sec n) = low_first 4 n
  operands (entry k v) = write_string k ++ write_string v

  read_pair-write :
      (k v : Coded) (g : Bytes)
      → IsCoded k
      → IsCoded v
      → read_pair ((write_string k ++ write_string v) ++ g) ≡ some ((text_of k, text_of v), g)
  read_pair-write k v g s t =
      rw
        (
          append_assoc (write_string k) (write_string v) g,
          read_string-write_string k (write_string v ++ g) s,
          read_string-write_string v g t,
        )
        refl

  length_left : Option (RdbLength × Bytes) → Option Bytes
  length_left none = none
  length_left (some (encoded _, g)) = none
  length_left (some (plain _, g)) = some g

  skip_length-write_length :
      (form : Form) (n : ℕ) (g : Bytes)
      → InForm form n
      → skip_length (write_length form n ++ g) ≡ some g
  unfolding length_left
  skip_length-write_length form n g h = ap length_left (read_length-write_length form n g h)

  -- A turn of the loop at an item.
  item_step :
      (i : Item) (g : Bytes) (l : Loader)
      → IsItem i
      → load_op clock (opcode i) (operands i ++ g) l ≡ continued g (load_item l i)
  unfolding load_op
  item_step (aux k v) g l (s, t) = rw (read_pair-write k v g s t) refl
  item_step (select_db form n) g l h = ap (λ o. skipped o l) (skip_length-write_length form n g h)
  item_step (resize_db form n form' m) g l (h, h') =
      ap (λ f. skipped (skip_length f >>= skip_length) l)
        (append_assoc (write_length form n) (write_length form' m) g)
      ∙ ap (λ o. skipped (o >>= skip_length) l)
          (skip_length-write_length form n (write_length form' m ++ g) h)
      ∙ ap (λ o. skipped o l) (skip_length-write_length form' m g h')
  item_step (expire_ms n) g l h =
      let small : ltb n (2 ^ 63) ≡ true = ground arith in
      ap (λ o. went_on o (λ v. record l { expiry_ms = signed (2 ^ 63) v }))
        (read_number-low_first 8 n g (omega arith))
      ∙ rw small refl
  item_step (expire_sec n) g l h =
      ap (λ o. went_on o (λ v. record l { expiry_ms = pos (v * 1000) }))
        (read_number-low_first 4 n g (omega arith))
  item_step (entry k v) g l (s, t) = rw (read_pair-write k v g s t) refl

  -- What the loop gives with enough fuel.
  abbrev Gives : Bytes → Loader → RdbStatus × Loader → Type 0
  Gives f l r = (n : ℕ) → length f < n → load_loop clock n f l ≡ some r

  item_Gives :
      (i : Item) (g : Bytes) (l : Loader) (r : RdbStatus × Loader)
      → IsItem i
      → Gives g (load_item l i) r
      → Gives (opcode i ∷ (operands i ++ g)) l r
  unfolding load_loop
  item_Gives i g l r t k zero h = absurd (omega arith)
  item_Gives i g l r t k (suc n) h =
      ap (after_step l (load_loop clock n)) (item_step i g l t)
      ∙ k n (omega (arith, length-append (operands i) g))

  whole_item : (i : Item) → write_item i ≡ opcode i ∷ operands i
  whole_item (aux k v) = refl
  whole_item (select_db form n) = refl
  whole_item (resize_db form n form' m) = refl
  whole_item (expire_ms n) = refl
  whole_item (expire_sec n) = refl
  whole_item (entry k v) = refl

  eof_Gives : (checksum : Bytes) (l : Loader) → Gives (255 ∷ checksum) l (RdbStatus.ok, l)
  unfolding load_loop load_op
  eof_Gives checksum l zero h = absurd (omega arith)
  eof_Gives checksum l (suc n) h = refl

  items_Gives :
      (is : List Item) (checksum : Bytes) (l : Loader)
      → All IsItem is
      → Gives (write_items is ++ 255 ∷ checksum) l (RdbStatus.ok, load_items is l)
  items_Gives [] checksum l t = eof_Gives checksum l
  items_Gives (i ∷ is) checksum l t =
      subst (λ f. Gives f l (RdbStatus.ok, load_items is (load_item l i)))
        (sym (
          append_assoc (write_item i) (write_items is) (255 ∷ checksum)
          ∙ ap (λ x. x ++ (write_items is ++ 255 ∷ checksum)) (whole_item i)))
        (item_Gives i (write_items is ++ 255 ∷ checksum) l _ t.0
          (items_Gives is checksum (load_item l i) t.1))

  -- A file of string entries, expiries in milliseconds or seconds, and the items that stand for
  -- nothing (AUX, SELECTDB, RESIZEDB), in any order, loads without an error, with any version and
  -- checksum: every entry is stored under the expiry before it, or none, at the next reading of
  -- the clock. A length is in any of its four forms with room for it; a string is bytes without
  -- NUL, at most 512 MB, or an integer of 8, 16 or 32 bits, which stands for its digits; an
  -- expiry is below 2 ^ 63 milliseconds or 2 ^ 32 seconds.
  pub rdb_load-write_file :
      (a b c d : ℕ) (items : List Item) (checksum : Bytes) (s : Store) (ticks : ℕ)
      → All IsItem items
      → rdb_load clock s ticks (some (write_file a b c d items checksum))
        ≡ some (RdbStatus.ok, load_items items (fresh_loader clock s ticks))
  unfolding rdb_load load_from fread str_eq strcmp
  rdb_load-write_file a b c d items checksum s ticks t =
      items_Gives items checksum (fresh_loader clock s ticks) t _ (omega arith)
