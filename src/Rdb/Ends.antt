-- ===== src/Rdb/Ends.antt =====
-- The loop of `rdb_load` in src/rdb.c ends: every turn reads on in the file.
use pulse_db.Rdb.{
  after_step, RdbStatus, LoadStep, Loader, RdbLength, after_header, continued, encoded, finished,
  fread, fresh_loader, integer_text, length_after, little_endian, load_from, load_loop, load_op,
  max_rdb_string, plain_length, rdb_load, rdb_op_aux, rdb_op_eof, rdb_op_expire_ms,
  rdb_op_expire_sec, rdb_op_resizedb, rdb_op_selectdb, rdb_type_string, read_length, read_number,
  read_pair, read_string, skip_length, skipped, string_after, went_on, plain,
}
use pulse_db.Prelude.{
  Option, [], arith, if_both, length, ltb, none, some, suc, zero, ℕ, ℤ, ◌%◌, ◌+◌, ◌/◌, ◌<◌, ◌==◌,
  ◌>>=◌, ◌∷◌, ◌≢◌, ◌≤◌,
}
use pulse_db.Prelude.Bytes.{Bytes}
use pulse_db.Store.Types.{Store}

-- A reader that leaves no more than the file that it was given.
abbrev pub Leaves : {A : Type 0} → ℕ → Option (A × Bytes) → Type 0
Leaves n none = Unit
Leaves n (some (a, g)) = length g ≤ n

bind-Leaves :
    {A B : Type 0} (n : ℕ) (o : Option (A × Bytes)) (k : A × Bytes → Option (B × Bytes))
    → Leaves n o
    → ((a : A) (g : Bytes) → length g ≤ n → Leaves n (k (a, g)))
    → Leaves n (o >>= k)
bind-Leaves n none k h t = tt
bind-Leaves n (some (a, g)) k h t = t a g h

fread-Leaves : (n m : ℕ) (f : Bytes) → length f ≤ m → Leaves m (fread n f)
unfolding fread
fread-Leaves zero m f h = h
fread-Leaves (suc n) m [] h = tt
fread-Leaves (suc n) m (b ∷ f) h = ground (arith, fread-Leaves n m f)

read_number-Leaves :
    (value : Bytes → ℕ) (n m : ℕ) (f : Bytes) → length f ≤ m → Leaves m (read_number value n f)
read_number-Leaves value n m f h = bind-Leaves m (fread n f) _ (fread-Leaves n m f h) (λ b g l. l)

plain_length-Leaves : (m : ℕ) (r : Option (ℕ × Bytes)) → Leaves m r → Leaves m (plain_length r)
plain_length-Leaves m none h = tt
plain_length-Leaves m (some (n, g)) h = h

length_after-Leaves : (byte m : ℕ) (f : Bytes) → length f ≤ m → Leaves m (length_after byte f)
unfolding length_after
length_after-Leaves byte m f h =
    let number = λ (value : Bytes → ℕ) (n : ℕ).
      plain_length-Leaves m (read_number value n f) (read_number-Leaves value n m f h) in
    if_both (Leaves m) (byte / 64 % 4 == 0) _ _ h (
      if_both (Leaves m) (byte / 64 % 4 == 1) _ _ (number _ 1) (
        if_both (Leaves m) (byte / 64 % 4 == 2) _ _
          (if_both (Leaves m) (byte == 128) _ _ (number _ 4)
            (if_both (Leaves m) (byte == 129) _ _ (number _ 8) tt))
          h))

read_length-Leaves : (m : ℕ) (f : Bytes) → length f ≤ m → Leaves m (read_length f)
unfolding read_length
read_length-Leaves m [] h = tt
read_length-Leaves m (byte ∷ f) h = length_after-Leaves byte m f (omega arith)

integer_text-Leaves : (n half m : ℕ) (f : Bytes) → length f ≤ m → Leaves m (integer_text n half f)
integer_text-Leaves n half m f h =
    bind-Leaves m (read_number little_endian n f) _ (read_number-Leaves little_endian n m f h)
      (λ v g l. l)

string_after-Leaves :
    (r : RdbLength) (m : ℕ) (f : Bytes) → length f ≤ m → Leaves m (string_after r f)
unfolding string_after
string_after-Leaves (plain len) m f h =
    if_both (Leaves m) (ltb max_rdb_string len) _ _ tt
      (bind-Leaves m (fread len f) _ (fread-Leaves len m f h) (λ b g l. l))
string_after-Leaves (encoded kind) m f h =
    if_both (Leaves m) (kind == 0) _ _ (integer_text-Leaves 1 _ m f h) (
      if_both (Leaves m) (kind == 1) _ _ (integer_text-Leaves 2 _ m f h)
        (if_both (Leaves m) (kind == 2) _ _ (integer_text-Leaves 4 _ m f h) tt))

read_string-Leaves : (m : ℕ) (f : Bytes) → length f ≤ m → Leaves m (read_string f)
unfolding read_string
read_string-Leaves m f h =
    bind-Leaves m (read_length f) _ (read_length-Leaves m f h)
      (λ r g l. string_after-Leaves r m g l)

read_pair-Leaves : (m : ℕ) (f : Bytes) → length f ≤ m → Leaves m (read_pair f)
read_pair-Leaves m f h =
    bind-Leaves m (read_string f) _ (read_string-Leaves m f h)
      (λ k g l. bind-Leaves m (read_string g) _ (read_string-Leaves m g l) (λ v e u. u))

-- A step that ends the loop, or leaves no more than it was given.
abbrev pub Shrinks : ℕ → LoadStep → Type 0
Shrinks n (finished st) = Unit
Shrinks n (continued g l) = length g ≤ n

went_on-Shrinks :
    {A : Type 0} (m : ℕ) (o : Option (A × Bytes)) (next : A → Loader)
    → Leaves m o
    → Shrinks m (went_on o next)
went_on-Shrinks m none next h = tt
went_on-Shrinks m (some (a, g)) next h = h

abbrev pub Rest : ℕ → Option Bytes → Type 0
Rest n none = Unit
Rest n (some g) = length g ≤ n

skipped-Shrinks : (m : ℕ) (o : Option Bytes) (l : Loader) → Rest m o → Shrinks m (skipped o l)
skipped-Shrinks m none l h = tt
skipped-Shrinks m (some g) l h = h

skip_length-Rest : (m : ℕ) (f : Bytes) → length f ≤ m → Rest m (skip_length f)
skip_length-Rest m f h =
    (elim (read_length f)
        as (λ o.
          Leaves m o
          → Rest m
              (elim o [ none ↦ none | some (encoded _, g) ↦ none | some (plain _, g) ↦ some g ])) [
                | none ↦ λ k. tt
                | some (encoded n, g) ↦ λ k. tt
                | some (plain n, g) ↦ λ k. k
              ])
      (read_length-Leaves m f h)

bind-Rest :
    (m : ℕ) (o : Option Bytes) (k : Bytes → Option Bytes)
    → Rest m o
    → ((g : Bytes) → length g ≤ m → Rest m (k g))
    → Rest m (o >>= k)
bind-Rest m none k h t = tt
bind-Rest m (some g) k h t = t g h

after_step_ends :
    (m : ℕ) (l : Loader) (next : Bytes → Loader → Option (RdbStatus × Loader)) (s : LoadStep)
    → Shrinks m s
    → ((g : Bytes) (l' : Loader) → length g ≤ m → next g l' ≢ none)
    → after_step l next s ≢ none
after_step_ends m l next (finished st) h t = λ e. cc
after_step_ends m l next (continued g l') h t = t g l' h

module _ (clock : ℕ → ℤ) where
  load_op-Shrinks : (op : ℕ) (f : Bytes) (l : Loader) → Shrinks (length f) (load_op clock op f l)
  unfolding load_op
  load_op-Shrinks op f l =
      let m = length f in
      let pair = read_pair-Leaves m f (omega arith) in
      let one = skip_length-Rest m f (omega arith) in
      if_both (Shrinks m) (op == rdb_op_eof) _ _ tt (
        if_both (Shrinks m) (op == rdb_op_aux) _ _ (went_on-Shrinks m _ _ pair) (
          if_both (Shrinks m) (op == rdb_op_selectdb) _ _ (skipped-Shrinks m _ l one) (
            if_both (Shrinks m) (op == rdb_op_resizedb) _ _
              (skipped-Shrinks m _ l
                (bind-Rest m (skip_length f) _ one (λ g k. skip_length-Rest m g k)))
              (if_both (Shrinks m) (op == rdb_op_expire_ms) _ _
                (went_on-Shrinks m _ _ (read_number-Leaves little_endian 8 m f (omega arith)))
                (if_both (Shrinks m) (op == rdb_op_expire_sec) _ _
                  (went_on-Shrinks m _ _ (read_number-Leaves little_endian 4 m f (omega arith)))
                  (if_both (Shrinks m) (op == rdb_type_string) _ _ (went_on-Shrinks m _ _ pair)
                    tt))))))

  load_loop_ends : (n : ℕ) (f : Bytes) (l : Loader) → length f < n → load_loop clock n f l ≢ none
  unfolding load_loop
  load_loop_ends zero f l h = absurd (omega arith)
  load_loop_ends (suc n) [] l h = λ e. cc
  load_loop_ends (suc n) (op ∷ f) l h =
      after_step_ends (length f) l (load_loop clock n) (load_op clock op f l)
        (load_op-Shrinks op f l) (λ g l' k. load_loop_ends n g l' (omega arith))

  load_from_ends : (o : Option Bytes) (l : Loader) → load_from clock o l ≢ none
  unfolding load_from
  load_from_ends none l = λ e. cc
  load_from_ends (some f) l = load_loop_ends (length f + 1) f l (omega arith)

  -- For every file, every store and every clock `rdb_load` returns, with a status and a store.
  pub rdb_load_ends :
      (s : Store) (ticks : ℕ) (file : Option Bytes) → rdb_load clock s ticks file ≢ none
  unfolding rdb_load
  rdb_load_ends s ticks none = λ e. cc
  rdb_load_ends s ticks (some f) =
      load_from_ends (after_header clock f) (fresh_loader clock s ticks)
