-- ===== src/Commands/Reads.antt =====
-- string_commands.cc: the handlers that read. `strings_list` of a result keeps what it held: MGET
-- appends to it.
use rdss.Base.{
  ℕ, ◌+◌, ◌-◌, Bool, true, false, Option, none, some, List, [], ◌∷◌, ◌++◌, ◌||◌, Bytes, bytes,
  bytes_eq, if◌then◌else◌, ltb, leb, is_some, ℤ, pos, negsuc, length, get_or, take, drop, ◌==◌, ◌^◌,
  min,
}
use rdss.KeyTable.{KeyTable}
use rdss.Resp.Result.{
  MtsPtr, Result, Error, syntax_error, not_an_int, wrong_arg_num, set_error, set_nil, set_string,
  set_int, add_string,
}
use rdss.Service.{Service, find_or_expire, erase_key, touch, pointee}
use rdss.Commands.Times.{parse_int}
use rdss.Commands.Options.{done, not_found, error, extract_expire_options}

-- `args[i]`, in range where the handlers read it
abbrev pub arg : List Bytes → ℕ → Bytes
arg args i = get_or args i []

-- `*entry->value`; the value of a stored entry is not null
abbrev pub text : MtsPtr → Bytes
text none = []
text (some v) = v

-- the variables of the loop of `GetEXFunction`
pub record GetexOptions : Type 0 where
  pub persist : Bool
  pub expire_time : Option ℕ

abbrev pub no_getex_options : GetexOptions
no_getex_options = record { persist = false; expire_time = none }

pub data GetexStep : Type 0 where
  one two : GetexOptions → GetexStep
  fail : Error → GetexStep

unfoldable pub getex_step : Bytes → Option Bytes → ℕ → GetexOptions → GetexStep
getex_step a next now o =
    if bytes_eq a (bytes "PERSIST")
    then (if is_some o.expire_time || o.persist
        then fail syntax_error
        else one (record o { persist = true }))
    else elim (extract_expire_options a next now o.expire_time) [
      | error e ↦ fail e
      | not_found ↦ fail syntax_error
      | done t ↦ if o.persist then fail syntax_error else two (record o { expire_time = some t })
    ]

pub data GetexExtracted : Type 0 where
  options : GetexOptions → GetexExtracted
  refused : Error → GetexExtracted

unfoldable pub extract_getex_options : List Bytes → ℕ → GetexOptions → GetexExtracted
extract_getex_options [] now o = options o
extract_getex_options (a ∷ []) now o = elim (getex_step a none now o) [
  | one o' ↦ options o'
  | two o' ↦ options o'
  | fail e ↦ refused e
]
extract_getex_options (a ∷ next ∷ args) now o = elim (getex_step a (some next) now o) [
  | one o' ↦ extract_getex_options (next ∷ args) now o'
  | two o' ↦ extract_getex_options args now o'
  | fail e ↦ refused e
]

-- `transform_index` of `GetRangeFunction`, for a value of `size` bytes
unfoldable pub transform_index : ℕ → ℤ → ℕ
transform_index size (pos i) = min size i
transform_index size (negsuc i) = min size (size - (i + 1))

-- The substring that `GetRangeFunction` returns. A last index past the end reads the null byte that
-- ends the string's buffer.
unfoldable pub get_range : Bytes → ℤ → ℤ → Bytes
get_range v start end =
    let start_index = transform_index (length v) start in
    let end_index = transform_index (length v) end in
    if start_index == length v || leb end_index start_index
    then []
    else take (end_index - start_index + 1) (drop start_index (v ++ 0 ∷ []))

module _ (d : KeyTable MtsPtr none) (x : KeyTable ℕ 0) where
  abbrev pub Handler : Type 0
  Handler = Service d x → List Bytes → Result → Service d x × Result

  -- `GetFunctionBase`; the Boolean is whether the entry was found
  unfoldable pub get_function_base : Bytes → Service d x → Result → Service d x × Result × Bool
  get_function_base key s r =
      let (s', found) = find_or_expire d x key s in
      elim found [
        | none ↦ (s', set_nil r, false)
        | some e ↦ (touch d x key s', set_string r e.value, true)
      ]

  unfoldable pub get_function : Handler
  get_function s args r =
      let (s', r', found) = get_function_base (arg args 1) s r in
      if length args == 2 then (s', r') else (s, set_error r wrong_arg_num)

  -- The callback passes `EraseKey` a view of the key that the entry holds, and `EraseKey` reads it again
  -- after its first `Erase` has destroyed the entry. `key_readable` is whether the key is still there:
  -- the entry with the deadline shares it. Where it is not, the behaviour is undefined: `none`.
  unfoldable pub get_del_function :
      Bool → Service d x → List Bytes → Result → Option (Service d x × Result)
  get_del_function key_readable s args r =
      let (s', r', found) = get_function_base (arg args 1) s r in
      if length args == 2
      then (if found
          then (if key_readable then some (erase_key d x (arg args 1) s', r') else none)
          else some (s', r'))
      else some (s, set_error r wrong_arg_num)

  -- the callback of `GetEXFunction`
  unfoldable pub getex_callback : Bytes → GetexOptions → Service d x → Service d x
  getex_callback key o s =
      if o.persist
      then record s { expire_ht = (x.erase key s.expire_ht).0 }
      else elim o.expire_time [
        | none ↦ s
        | some t ↦ record s { expire_ht = (x.upsert key t s.expire_ht).0 }
      ]

  unfoldable pub get_ex_function : Handler
  get_ex_function s args r =
      let (s', r', found) = get_function_base (arg args 1) s r in
      if ltb (length args) 2
      then (s, set_error r wrong_arg_num)
      else elim (extract_getex_options (drop 2 args) s.now no_getex_options) [
        | refused e ↦ (s, set_error r e)
        | options o ↦ (if found then getex_callback (arg args 1) o s' else s', r')
      ]

  -- the loop of `MGetFunction`
  unfoldable pub mget_loop : List Bytes → Service d x → Result → Service d x × Result
  mget_loop [] s r = (s, r)
  mget_loop (key ∷ keys) s r =
      let (s', found) = find_or_expire d x key s in
      mget_loop keys (if is_some found then touch d x key s' else s') (add_string r (pointee found))

  unfoldable pub m_get_function : Handler
  m_get_function s args r =
      if ltb (length args) 2 then (s, set_error r wrong_arg_num) else mget_loop (drop 1 args) s r

  unfoldable pub strlen_function : Handler
  strlen_function s args r =
      let (s', found) = find_or_expire d x (arg args 1) s in
      if length args == 2
      then (elim found [
        | none ↦ (s', set_int r (pos 0))
        | some e ↦ (touch d x (arg args 1) s', set_int r (pos (length (text e.value))))
      ])
      else (s, set_error r wrong_arg_num)

  unfoldable pub get_range_function : Handler
  get_range_function s args r =
      let (s', found) = find_or_expire d x (arg args 1) s in
      if length args == 4
      then (elim (parse_int (2 ^ 31 - 1) (arg args 2)) [
        | none ↦ (s, set_error r not_an_int)
        | some start ↦ elim (parse_int (2 ^ 31 - 1) (arg args 3)) [
          | none ↦ (s, set_error r not_an_int)
          | some end ↦ elim found [
            | none ↦ (s', set_string r (some []))
            | some e ↦ (
              touch d x (arg args 1) s',
              set_string r (some (get_range (text e.value) start end)),
            )
          ]
        ]
      ])
      else (s, set_error r wrong_arg_num)

  -- the loop of `ExistsFunction`
  unfoldable pub exists_loop : List Bytes → Service d x → ℕ → Service d x × ℕ
  exists_loop [] s cnt = (s, cnt)
  exists_loop (key ∷ keys) s cnt =
      let (s', found) = find_or_expire d x key s in
      exists_loop keys (if is_some found then touch d x key s' else s')
        (if is_some found then cnt + 1 else cnt)

  unfoldable pub exists_function : Handler
  exists_function s args r =
      let (s', cnt) = exists_loop (drop 1 args) s 0 in (s', set_int r (pos cnt))
