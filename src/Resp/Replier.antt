-- ===== src/Resp/Replier.antt =====
-- resp/replier.h, resp/replier.cc: how a result is printed. A view and an iovec are the bytes that
-- they show; the client sends the iovecs one after the other.
use rdss.Base.{
  ℕ, ◌-◌, ◌%◌, ◌^◌, Bool, true, false, Option, none, some, List, [], ◌∷◌, ◌++◌, Bytes, bytes,
  if◌then◌else◌, ltb, length, ℤ, pos, negsuc, to_chars,
}
use rdss.Resp.Result.{MtsPtr, Result, ok, error, nil, int, string, strings, error_to_string_view}

abbrev pub ok_str : Bytes
ok_str = bytes "+OK\r\n"

abbrev pub nil_str : Bytes
nil_str = bytes "$-1\r\n"

-- `IntToChars`, for a value of the type
unfoldable pub int_to_chars : ℤ → Bytes
int_to_chars val = to_chars val ++ (13 ∷ 10 ∷ [])

-- `static_cast<int32_t>` of a size
unfoldable pub to_int32 : ℕ → ℤ
to_int32 n =
    if ltb (n % 2 ^ 32) (2 ^ 31) then pos (n % 2 ^ 32) else negsuc (2 ^ 32 - 1 - n % 2 ^ 32)

-- the iovecs that `StrToIovecs` adds
unfoldable pub str_to_iovecs : MtsPtr → List Bytes
str_to_iovecs none = nil_str ∷ []
str_to_iovecs (some str) = (b'$' ∷ int_to_chars (to_int32 (length str))) ∷ str ∷ (13 ∷ 10 ∷ []) ∷ []

unfoldable pub needs_gather : Result → Bool
needs_gather r = elim r.kind [ string ↦ true | strings ↦ true | _ ↦ false ]

-- `ResultToStringView`; `none` is the fatal error
unfoldable pub result_to_string_view : Result → Option Bytes
result_to_string_view r = elim r.kind [
  | ok ↦ some ok_str
  | nil ↦ some nil_str
  | error ↦ some (error_to_string_view r.error_code)
  | int ↦ some (b':' ∷ int_to_chars r.int_value)
  | string ↦ none
  | strings ↦ none
]

-- the iovecs of a list of strings
unfoldable pub strs_to_iovecs : List MtsPtr → List Bytes
strs_to_iovecs [] = []
strs_to_iovecs (str ∷ strs) = str_to_iovecs str ++ strs_to_iovecs strs

-- `ResultToIovecs`, of a result with one string or many
unfoldable pub result_to_iovecs : Result → List Bytes
result_to_iovecs r = elim r.kind [
  | string ↦ str_to_iovecs r.string_ptr
  | _ ↦ (b'*' ∷ int_to_chars (pos (length r.strings_list))) ∷ strs_to_iovecs r.strings_list
]

unfoldable pub concat : List Bytes → Bytes
concat [] = []
concat (v ∷ vs) = v ++ concat vs

-- what the client sends
unfoldable pub reply : Result → Option Bytes
reply r = if needs_gather r then some (concat (result_to_iovecs r)) else result_to_string_view r
