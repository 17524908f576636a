-- ===== src/Resp/Result.antt =====
-- resp/result.h, resp/result.cc, resp/error.h, resp/error.cc: what a command answers.
use rdss.Base.{List, [], ◌∷◌, ◌++◌, Option, none, Bytes, bytes, ℤ, pos}

pub data Error : Type 0 where
  protocol unknown_command oom wrong_arg_num syntax_error not_an_int : Error

unfoldable pub error_to_string_view : Error → Bytes
error_to_string_view protocol = bytes "-ERR Protocol error\r\n"
error_to_string_view unknown_command = bytes "-ERR unknown command\r\n"
error_to_string_view oom = bytes "-OOM command not allowed when used memory > 'maxmemory'.\r\n"
error_to_string_view wrong_arg_num = bytes "-ERR wrong number of arguments.\r\n"
error_to_string_view syntax_error = bytes "-ERR syntax error\r\n"
error_to_string_view not_an_int = bytes "-ERR value is not an integer or out of range\r\n"

-- `MTSPtr`: null, or a shared string
abbrev pub MtsPtr : Type 0
MtsPtr = Option Bytes

pub data ResultType : Type 0 where
  ok error nil int string strings : ResultType

pub record Result : Type 0 where
  pub kind : ResultType
  pub error_code : Error
  pub int_value : ℤ
  pub string_ptr : MtsPtr
  pub strings_list : List MtsPtr

-- A new `Result`; its `error` is not initialised, and not read unless set.
abbrev pub new_result : Result
new_result = record {
  kind = ok;
  error_code = protocol;
  int_value = pos 0;
  string_ptr = none;
  strings_list = [];
}

module _ (r : Result) where
  abbrev pub set_ok : Result
  set_ok = record r { kind = ok }

  abbrev pub set_error : Error → Result
  set_error e = record r { kind = error; error_code = e }

  abbrev pub set_nil : Result
  set_nil = record r { kind = nil }

  abbrev pub set_string : MtsPtr → Result
  set_string s = record r { kind = string; string_ptr = s }

  abbrev pub set_int : ℤ → Result
  set_int n = record r { kind = int; int_value = n }

  abbrev pub add_string : MtsPtr → Result
  add_string s = record r { kind = strings; strings_list = r.strings_list ++ s ∷ [] }

  abbrev pub reset : Result
  reset = record r { kind = ok; string_ptr = none; strings_list = [] }
