-- ===== src/Resp/Parser.antt =====
-- resp/resp_parser.h, resp/resp_parser.cc, and the choice between the two parsers in client.cc. What
-- is parsed is the buffer's source, and the answer says how much of it is consumed. A view of the
-- buffer is the bytes that it shows, which is what `MultiBulkParser::BufferUpdate` keeps.
use rdss.Base.{
  ℕ, zero, suc, ◌+◌, ◌-◌, ◌*◌, ◌^◌, Bool, true, false, ◌&&◌, ◌||◌, not, Option, none, some, List,
  [], ◌∷◌, ◌++◌, Bytes, if◌then◌else◌, ltb, leb, ◌==◌, length, get_or, set, take, drop, pos, negsuc,
  from_chars,
}

pub data ParserState : Type 0 where
  init error parsing done : ParserState

-- `MultiBulkParser`, without the pointer to its buffer
pub record MultiBulkParser : Type 0 where
  pub state : ParserState
  pub args : ℕ
  pub cur_arg_idx : ℕ

-- a new parser, and one after `Reset`
abbrev pub new_parser : MultiBulkParser
new_parser = record { state = init; args = 0; cur_arg_idx = 0 }

abbrev pub int_max : ℕ
int_max = 2 ^ 31 - 1

-- `src.find("\r\n")`
unfoldable pub find_crlf : Bytes → Option ℕ
find_crlf [] = none
find_crlf (c ∷ []) = none
find_crlf (c ∷ e ∷ cs) =
    let rest : Option ℕ = elim (find_crlf (e ∷ cs)) [ none ↦ none | some n ↦ some (suc n) ] in
    if c == 13 && e == 10 then some 0 else rest

-- what a call of `Parse` leaves: the parser, the bytes consumed, and the views
pub record Parsed : Type 0 where
  pub parser : MultiBulkParser
  pub consumed : ℕ
  pub result : List Bytes

-- `result.emplace_back(v)` or `result[i] = v`
unfoldable pub store_view : List Bytes → ℕ → Bytes → List Bytes
store_view result i v = if leb (length result) i then result ++ v ∷ [] else set result i v

-- one argument at the start of the source
pub data BulkStep : Type 0 where
  fail : BulkStep
  wait : BulkStep
  got : Bytes → ℕ → BulkStep

-- the bytes after the length `n`, which stood in the `used` bytes before
unfoldable pub bulk_body : ℕ → ℕ → Bytes → BulkStep
bulk_body n used body =
    if ltb (length body) (n + 2)
    then wait
    else if get_or body n 0 == 13 && get_or body (n + 1) 0 == 10
    then got (take n body) (used + n + 2)
    else fail

unfoldable pub bulk_step : Bytes → BulkStep
bulk_step src =
    let marked : Bool = get_or src 0 0 == b'$' in
    elim (find_crlf src) [
      | none ↦ if marked then wait else (if length src == 0 then wait else fail)
      | some crlf ↦
          if not marked || crlf == 1
          then fail
          else elim (from_chars int_max (take (crlf - 1) (drop 1 src))) [
            | none ↦ fail
            | some p ↦ elim p.0 [
              | negsuc n ↦ fail
              | pos n ↦ bulk_body n (crlf + 2) (drop (crlf + 2) src)
            ]
          ]
    ]

-- the loop of `Parse`, with the number of arguments left
unfoldable pub parse_args : ℕ → Bytes → Parsed → Parsed
parse_args zero src out = record out { parser = record out.parser { state = done } }
parse_args (suc left) src out = elim (bulk_step src) [
  | fail ↦ record out { parser = record out.parser { state = error } }
  | wait ↦ out
  | got v n ↦ parse_args left (drop n src) (record {
    parser = record out.parser { cur_arg_idx = out.parser.cur_arg_idx + 1 };
    consumed = out.consumed + n;
    result = store_view out.result out.parser.cur_arg_idx v;
  })
]

-- `ParseArgNum`, with the number of bytes up to the first argument; 0 where there is no number
unfoldable pub parse_arg_num : Bytes → MultiBulkParser → MultiBulkParser × ℕ
parse_arg_num src p =
    if get_or src 0 0 == b'*'
    then elim (find_crlf (drop 1 src)) [
      | none ↦ (p, 0)
      | some n ↦ elim (from_chars int_max (take n (drop 1 src))) [
        | none ↦ (record p { state = error }, 0)
        | some q ↦ elim q.0 [
          | negsuc i ↦ (record p { state = error }, 0)
          | pos i ↦ (record p { state = parsing; args = i }, n + 3)
        ]
      ]
    ]
    else (record p { state = error }, 0)

-- `Parse` resets a parser that is done or has failed.
unfoldable pub fresh_parser : MultiBulkParser → MultiBulkParser
fresh_parser p = elim p.state [ error ↦ new_parser | done ↦ new_parser | _ ↦ p ]

unfoldable pub parse_from : MultiBulkParser → Bytes → List Bytes → Parsed
parse_from p src result =
    let (q, cursor) = parse_arg_num src p in
    let started : Parsed = record { parser = q; consumed = cursor; result = result } in
    elim p.state [
      | init ↦ if cursor == 0 then started else parse_args q.args (drop cursor src) started
      | _ ↦
          parse_args (p.args - p.cur_arg_idx) src
            (record { parser = p; consumed = 0; result = result })
    ]

-- `MultiBulkParser::Parse`
unfoldable pub parse : MultiBulkParser → Bytes → List Bytes → Parsed
parse p [] result = record { parser = fresh_parser p; consumed = 0; result = result }
parse p (c ∷ cs) result = parse_from (fresh_parser p) (c ∷ cs) result

-- `std::isspace`
unfoldable pub is_space : ℕ → Bool
is_space c = c == 32 || (leb 9 c && leb c 13)

abbrev pub flush : Bytes → List Bytes
flush [] = []
flush (c ∷ cs) = (c ∷ cs) ∷ []

-- the loop of `ParseInline`: the words of the line, the bytes of the current one first
unfoldable pub words : Bytes → Bytes → List Bytes
words word [] = flush word
words word (c ∷ cs) = elim (is_space c) [
  | true ↦ flush word ++ words [] cs
  | false ↦ words (word ++ c ∷ []) cs
]

-- the views with the first of them replaced
unfoldable pub overwrite : List Bytes → List Bytes → List Bytes
overwrite result [] = result
overwrite [] (v ∷ vs) = v ∷ overwrite [] vs
overwrite (r ∷ result) (v ∷ vs) = v ∷ overwrite result vs

-- what `ParseInline` returns and leaves; `result_size` is set where it is done
pub record Inlined : Type 0 where
  pub state : ParserState
  pub consumed : ℕ
  pub result : List Bytes
  pub result_size : Option ℕ

unfoldable pub parse_inline : Bytes → List Bytes → Inlined
parse_inline src result = elim (find_crlf src) [
  | none ↦ record {
    state =
        if length src == 0 then error else if leb (1024 * 16) (length src) then error else parsing;
    consumed = 0;
    result = result;
    result_size = none;
  }
  | some crlf ↦
      let args = words [] (take crlf src) in
      record {
        state = if length args == 0 then parsing else done;
        consumed = crlf + 2;
        result = overwrite result args;
        result_size = if length args == 0 then none else some (length args);
      }
]
