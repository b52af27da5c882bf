-- ===== src/Config.antt =====
-- src/config.c: the command line. The messages on the error stream are left out.
use pulse_db.Prelude.{
  [], ◌∷◌, none, some, false, pos, negsuc, Bool-cases, Option-cases, inl, inr, ℤ, ltb_ℤ, ◌||◌, ◌≡◌,
  ◌≤◌, if◌then◌else◌, List, Option, Bool, arith,
}
use pulse_db.Prelude.Bytes.{Bytes, codes, str_eq}
use pulse_db.Store.Strings.{parse_int64}

-- `loglevel` is no argument of the command line.
pub record Config : Type 0 where
  pub port : ℤ
  pub hz : ℤ
  pub bind : Bytes
  pub loglevel : Bytes
  pub dir : Bytes
  pub dbfilename : Bytes

abbrev pub config_create_default : Config
config_create_default = record {
  port = pos 6379;
  hz = pos 10;
  bind = codes "127.0.0.1";
  loglevel = codes "notice";
  dir = codes ".";
  dbfilename = codes "dump.rdb";
}

-- What `config_parse_args` returns: 0, 1 or -1.
pub data ParseResult : Type 0 where
  parsed help failed : ParseResult

-- The value of an option; `none` where the option or its value is refused.
unfoldable pub set_port : Config → Option ℤ → Option Config
set_port cfg none = none
set_port cfg (some port) =
    if ltb_ℤ port (pos 0) || ltb_ℤ (pos 65535) port then none else some (record cfg { port = port })

unfoldable pub set_option : Config → Bytes → Bytes → Option Config
set_option cfg arg val =
    if str_eq arg (codes "--port")
    then set_port cfg (parse_int64 val)
    else if str_eq arg (codes "--bind")
    then some (record cfg { bind = val })
    else if str_eq arg (codes "--dir")
    then some (record cfg { dir = val })
    else if str_eq arg (codes "--dbfilename")
    then some (record cfg { dbfilename = val })
    else none

abbrev pub is_help : Bytes → Bool
is_help arg = str_eq arg (codes "--help") || str_eq arg (codes "-h")

-- The loop over `argv` from 1 on. The settings before a refused argument stay.
unfoldable pub config_parse_args : Config → List Bytes → ParseResult × Config
config_parse_args cfg [] = (parsed, cfg)
config_parse_args cfg (arg ∷ []) = (if is_help arg then help else failed, cfg)
config_parse_args cfg (arg ∷ val ∷ args) =
    if is_help arg then (help, cfg) else elim (set_option cfg arg val) [
      | none ↦ (failed, cfg)
      | some cfg' ↦ config_parse_args cfg' args
    ]

-- A port that fits the 16 bits of an address.
abbrev pub IsPort : ℤ → Type 0
IsPort (pos n) = n ≤ 65535
IsPort (negsuc n) = ⊥

abbrev HasPort : Option Config → Type 0
HasPort none = Unit
HasPort (some cfg) = IsPort cfg.port

IsPort-test : (port : ℤ) → (ltb_ℤ port (pos 0) || ltb_ℤ (pos 65535) port) ≡ false → IsPort port
IsPort-test (pos n) h = ground arith
IsPort-test (negsuc n) h = absurd (ground arith)

set_port-HasPort : (cfg : Config) (port : Option ℤ) → HasPort (set_port cfg port)
unfolding set_port
set_port-HasPort cfg none = tt
set_port-HasPort cfg (some port) =
    elim (Bool-cases (ltb_ℤ port (pos 0) || ltb_ℤ (pos 65535) port)) [
      | inl out ↦ rw out tt
      | inr inside ↦ rw inside (IsPort-test port inside)
    ]

set_option-HasPort :
    (cfg : Config) (arg val : Bytes) → IsPort cfg.port → HasPort (set_option cfg arg val)
unfolding set_option
set_option-HasPort cfg arg val h = elim (Bool-cases (str_eq arg (codes "--port"))) [
  | inl e ↦ rw e (set_port-HasPort cfg (parse_int64 val))
  | inr not_port ↦ rw not_port (elim (Bool-cases (str_eq arg (codes "--bind"))) [
    | inl e ↦ rw e h
    | inr not_bind ↦ rw not_bind (elim (Bool-cases (str_eq arg (codes "--dir"))) [
      | inl e ↦ rw e h
      | inr not_dir ↦ rw not_dir (elim (Bool-cases (str_eq arg (codes "--dbfilename"))) [
        | inl e ↦ rw e h
        | inr other ↦ rw other tt
      ])
    ])
  ])
]

-- From a port from 0 to 65535, whatever the arguments are, `config_parse_args` leaves such a
-- port, also where it refuses an argument.
pub config_parse_args-IsPort :
    (cfg : Config) (args : List Bytes)
    → IsPort cfg.port
    → IsPort (config_parse_args cfg args).1.port
unfolding config_parse_args
config_parse_args-IsPort cfg [] h = h
config_parse_args-IsPort cfg (arg ∷ []) h = h
config_parse_args-IsPort cfg (arg ∷ val ∷ args) h = elim (Bool-cases (is_help arg)) [
  | inl e ↦ rw e h
  | inr e ↦ elim (Option-cases (set_option cfg arg val)) [
    | inl refused ↦ rw (e, refused) h
    | inr (cfg', set) ↦
        rw (e, set)
          (config_parse_args-IsPort cfg' args (rw set at (set_option-HasPort cfg arg val h)))
  ]
]
