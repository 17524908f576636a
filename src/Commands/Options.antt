-- ===== src/Commands/Options.antt =====
-- string_commands.cc: `ExtractExpireOptions` and `ExtractSetOptions`.
use rdss.Base.{
  ℤ, pos, negsuc, ℕ, Bool, true, false, Option, none, some, List, [], ◌∷◌, Bytes, bytes, bytes_eq,
  if◌then◌else◌, leb, is_some, pos, negsuc,
}
use rdss.Resp.Result.{Error, syntax_error, not_an_int}
use rdss.Service.{SetMode, regular, nx, xx}
use rdss.Commands.Times.{ExpireKind, time_max, parse_int, expire_kind, rep_to_tp}

pub data ExtractExpireResult : Type 0 where
  done : ℕ → ExtractExpireResult
  not_found : ExtractExpireResult
  error : Error → ExtractExpireResult

-- the conversion of a number to the time that the option names
unfoldable pub expire_at : ExpireKind → ℕ → ℤ → ExtractExpireResult
expire_at kind now (negsuc n) = error not_an_int
expire_at kind now (pos n) =
    if leb n 0
    then error not_an_int
    else elim (rep_to_tp kind now n) [ none ↦ error not_an_int | some t ↦ done t ]

-- The argument and the next, if there is one; `done` has the new `expire_time`, and two arguments are
-- used up.
unfoldable pub extract_expire_options : Bytes → Option Bytes → ℕ → Option ℕ → ExtractExpireResult
extract_expire_options arg next now expire_time = elim (expire_kind arg) [
  | none ↦ not_found
  | some kind ↦ elim next [
    | none ↦ error syntax_error
    | some str ↦ if is_some expire_time then error syntax_error else elim (parse_int time_max str) [
      | none ↦ error not_an_int
      | some ll ↦ expire_at kind now ll
    ]
  ]
]

-- the variables that `ExtractSetOptions` fills
pub record SetOptions : Type 0 where
  pub set_mode : SetMode
  pub expire_time : Option ℕ
  pub keep_ttl : Bool
  pub get : Bool

abbrev pub no_options : SetOptions
no_options = record { set_mode = regular; expire_time = none; keep_ttl = false; get = false }

abbrev pub is_regular : SetMode → Bool
is_regular regular = true
is_regular nx = false
is_regular xx = false

-- one round of the loop: the options after one argument or after two, or the error
pub data OptionStep : Type 0 where
  one : SetOptions → OptionStep
  two : SetOptions → OptionStep
  fail : Error → OptionStep

unfoldable pub option_step : Bytes → Option Bytes → ℕ → SetOptions → OptionStep
option_step arg next now o =
    if bytes_eq arg (bytes "GET")
    then one (record o { get = true })
    else if bytes_eq arg (bytes "NX")
    then (if is_regular o.set_mode then one (record o { set_mode = nx }) else fail syntax_error)
    else if bytes_eq arg (bytes "XX")
    then (if is_regular o.set_mode then one (record o { set_mode = xx }) else fail syntax_error)
    else if bytes_eq arg (bytes "KEEPTTL")
    then (if is_some o.expire_time then fail syntax_error else one (record o { keep_ttl = true }))
    else elim (extract_expire_options arg next now o.expire_time) [
      | error e ↦ fail e
      | not_found ↦ fail syntax_error
      | done t ↦ if o.keep_ttl then fail syntax_error else two (record o { expire_time = some t })
    ]

pub data Extracted : Type 0 where
  options : SetOptions → Extracted
  refused : Error → Extracted

unfoldable pub extract_set_options : List Bytes → ℕ → SetOptions → Extracted
extract_set_options [] now o = options o
extract_set_options (arg ∷ []) now o = elim (option_step arg none now o) [
  | one o' ↦ options o'
  | two o' ↦ options o'
  | fail e ↦ refused e
]
extract_set_options (arg ∷ next ∷ args) now o = elim (option_step arg (some next) now o) [
  | one o' ↦ extract_set_options (next ∷ args) now o'
  | two o' ↦ extract_set_options args now o'
  | fail e ↦ refused e
]
