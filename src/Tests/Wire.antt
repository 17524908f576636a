-- ===== src/Tests/Wire.antt =====
-- The theorems on requests, replies and buffers, at concrete ones.
use rdss.Base.{
  from_chars, drop, ◌+◌, ◌≡◌, ◌≤◌, refl, List, [], ◌∷◌, ◌++◌, Bytes, bytes, true, some, arith,
  length, take,
}
use rdss.Resp.Result.{Result, new_result, add_string}
use rdss.Resp.Resuming.{after}
use rdss.Resp.Splits.{waits, parse-split}
use rdss.Resp.Parser.{
  Parsed, parse_from, parse_arg_num, parse_args, bulk_step, bulk_body, find_crlf, MultiBulkParser,
  new_parser, parse, done, fresh_parser,
}
use rdss.Resp.Requests.{request, parse-request}
use rdss.Resp.Replier.{reply}
use rdss.Resp.Replies.{parse-reply}
use rdss.Client.{Query, parse_query}
use rdss.Client.Queries.{parse_query-request}
use rdss.Buffer.{Buffer, new_buffer, ensure_available, available, source}
use rdss.Buffer.Contents.{IsValid, ensure_available_lem}

abbrev query : List Bytes
query = bytes "GET" ∷ bytes "key" ∷ []

-- a parser that has read a request before
abbrev used_parser : MultiBulkParser
used_parser = record { state = done; args = 3; cur_arg_idx = 3 }

used_parser_fresh : fresh_parser used_parser ≡ new_parser
unfolding fresh_parser
used_parser_fresh = refl

parse-request_example :
    ((parse used_parser (request query (bytes "*1")) []).parser.state ≡ done)
    × ((parse used_parser (request query (bytes "*1")) []).parser.args ≡ length query)
    × (take (length query) (parse used_parser (request query (bytes "*1")) []).result ≡ query)
    × ((parse used_parser (request query (bytes "*1")) []).consumed + length (bytes "*1")
        ≡ length (request query (bytes "*1")))
parse-request_example =
    parse-request query (bytes "*1") used_parser [] used_parser_fresh (omega arith) refl

abbrev answer : Result
answer = add_string (add_string new_result (some (bytes "one"))) (some (bytes "two"))

parse-reply_example :
    (sent : Bytes) × (reply answer ≡ some sent)
    × ((parse used_parser sent []).parser.state ≡ done)
    × (take 2 (parse used_parser sent []).result ≡ bytes "one" ∷ bytes "two" ∷ [])
    × ((parse used_parser sent []).consumed ≡ length sent)
parse-reply_example =
    parse-reply (bytes "one" ∷ bytes "two" ∷ []) answer used_parser [] refl refl used_parser_fresh
      (omega arith) refl

abbrev small_buffer : Buffer
small_buffer = new_buffer 4

small_buffer-IsValid : IsValid small_buffer
small_buffer-IsValid = record {
  ordered = omega arith;
  inside = λ h. omega arith;
  viewed = λ h. ground arith;
}

ensure_available_lem_example :
    IsValid (ensure_available 6 true small_buffer).0
    × (source (ensure_available 6 true small_buffer).0 ≡ source small_buffer)
    × (6 ≤ available (ensure_available 6 true small_buffer).0)
ensure_available_lem_example = ensure_available_lem 6 true small_buffer small_buffer-IsValid refl

abbrev full_buffer : Buffer
full_buffer = record small_buffer { data_ = bytes "abcd"; write_index = 4 }

full_buffer-IsValid : IsValid full_buffer
full_buffer-IsValid = record {
  ordered = omega arith;
  inside = λ h. omega arith;
  viewed = λ h. ground arith;
}

parse_query-request_example :
    (q : Query) × (parse_query (some used_parser) (request query (bytes "*1")) [] ≡ some q)
    × (q.state ≡ done)
    × (q.num_strings ≡ some (length query))
    × (take (length query) q.arguments ≡ query)
    × (q.consumed + length (bytes "*1") ≡ length (request query (bytes "*1")))
parse_query-request_example =
    parse_query-request query (bytes "*1") (some used_parser) [] refl used_parser_fresh
      (omega arith) refl

abbrev first_part : Bytes
first_part = bytes "*2\r\n$3\r\nGET\r\n$3"

abbrev second_part : Bytes
second_part = bytes "\r\nkey\r\n"

abbrev halfway : Parsed
halfway = parse used_parser first_part []

halfway-waits : waits halfway.parser.state ≡ true
unfolding parse parse_from parse_arg_num parse_args bulk_step bulk_body find_crlf fresh_parser
    from_chars
halfway-waits = refl

parse-split_example :
    parse used_parser (first_part ++ second_part) []
    ≡ after halfway.consumed
        (parse halfway.parser (drop halfway.consumed first_part ++ second_part) halfway.result)
parse-split_example =
    parse-split used_parser first_part second_part [] (λ h. ground (arith, h)) (omega arith)
      (omega arith) halfway-waits
