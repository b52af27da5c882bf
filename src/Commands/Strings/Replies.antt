-- ===== src/Commands/Strings/Replies.antt =====
-- What GET of src/cmd_string.c answers after a SET.
use pulse_db.Prelude.{
  ap, subst, sym, ◌∙◌, Bool-cases, List, Option-cases, [], if◌then◌else◌, inl, inr, pos, refl, ℤ,
  ◌||◌, ◌∷◌, ◌≡◌, ◌≤ℤ◌,
}
use pulse_db.Store.Strings.{store_set, as_str, parse_int64, store_get}
use pulse_db.Store.Strings.Effects.{get-set}
use pulse_db.World.{stored, World, now_ms, tick}
use pulse_db.Commands.Args.{arg, args_from, err_wrongtype, str_case_eq}
use pulse_db.Commands.Strings.{bad_expire, cmd_get, cmd_set, expires, set_options}
use pulse_db.Prelude.Bytes.{Bytes, codes, str_eq}
use pulse_db.Reply.{reply_bulk, reply_error, reply_null, reply_simple}
use pulse_db.Store.Invariant.{IsValid}
use pulse_db.Store.Live.{expired, live}
use pulse_db.Store.Update.{typed_content}
use pulse_db.Txn.{Request}
use pulse_db.Store.Keys.{lookup, Typed, absent, held, mismatched}

-- The reply of GET to a string, to no value and to a value of another type.
abbrev pub get_reply : Typed Bytes → Bytes
get_reply (held value) = reply_bulk [] value
get_reply absent = reply_null []
get_reply mismatched = reply_error [] err_wrongtype

cmd_get-get_reply :
    (req : Request) (w : World)
    → (cmd_get req w).0 ≡ get_reply (store_get w.store (arg req 1) (now_ms w)).0
unfolding cmd_get
cmd_get-get_reply req w =
    (elim (store_get w.store (arg req 1) (now_ms w)).0
        as (λ r.
          (store_get w.store (arg req 1) (now_ms w)).0 ≡ r → (cmd_get req w).0 ≡ get_reply r) [
            | held value ↦ λ e. rw (e, cmd_get) refl
            | absent ↦ λ e. rw (e, cmd_get) refl
            | mismatched ↦ λ e. rw (e, cmd_get) refl
          ])
      refl

-- The options of SET are read without the store.
set_options_store :
    (opts : List Bytes) (e : ℤ) (w : World) → (set_options opts e w).1.store ≡ w.store
unfolding set_options
set_options_store [] e w = refl
set_options_store (opt ∷ []) e w = refl
set_options_store (opt ∷ value ∷ opts) e w =
    elim (Bool-cases (str_case_eq opt (codes "EX") || str_case_eq opt (codes "PX"))) [
      | inr other ↦ rw other refl
      | inl known ↦ elim (Option-cases (parse_int64 value)) [
        | inl k ↦ rw (known, k) refl
        | inr (n, k) ↦ elim (Bool-cases (bad_expire (str_case_eq opt (codes "EX")) n)) [
          | inl bad ↦ rw (known, k, bad) refl
          | inr good ↦ rw (known, k, good) (set_options_store opts _ (tick w))
        ]
      ]
    ]

module _ (set get : Request) (w : World) (v : IsValid w.store) where
  -- The world after the SET.
  abbrev pub after_set : World
  after_set = (cmd_set set w).1

  -- What the key of a GET stands for at a later world, where the SET gave the expiry.
  abbrev pub read_at : World → ℤ → Typed Bytes
  read_at later e =
      if str_eq (arg set 1) (arg get 1)
      then (if expired e (now_ms later) then absent else held (arg set 2))
      else typed_content as_str (live w.store (now_ms later) (arg get 1))

  -- The world that the options leave.
  abbrev pub before_set : World
  before_set = (set_options (args_from set 3) (pos 0) w).1

  after_set-stored :
      (e : ℤ)
      → (set_options (args_from set 3) (pos 0) w).0 ≡ expires e
      → after_set
        ≡ stored before_set (store_set w.store (arg set 1) (arg set 2) e (now_ms before_set))
  unfolding cmd_set set_options store_set args_from lookup
  after_set-stored e h = rw h (
      ap (λ s. stored before_set (store_set s (arg set 1) (arg set 2) e (now_ms before_set)))
        (set_options_store (args_from set 3) (pos 0) w))

  -- On a valid store, a SET whose options are accepted with some expiry answers OK; a GET that
  -- reads the clock later than the SET or at the same time then answers, under the key of the
  -- SET, with its value or, once the expiry has passed, with null, and under any other key as if
  -- there had been no SET.
  pub cmd_get-cmd_set :
      (e : ℤ)
      → (set_options (args_from set 3) (pos 0) w).0 ≡ expires e
      → now_ms before_set ≤ℤ now_ms after_set
      → ((cmd_set set w).0 ≡ reply_simple [] (codes "OK"))
        × ((cmd_get get after_set).0 ≡ get_reply (read_at after_set e))
  unfolding cmd_set
  cmd_get-cmd_set e h l =
      let stands = after_set-stored e h in
      (
        rw (h, cmd_set) refl,
        subst (λ x. now_ms before_set ≤ℤ now_ms x → (cmd_get get x).0 ≡ get_reply (read_at x e))
            (sym stands)
            (λ m.
              cmd_get-get_reply get _
              ∙ ap get_reply
                  (get-set w.store (arg set 1) (arg set 2) (arg get 1) e (now_ms before_set) _ v m))
            l,
      )
