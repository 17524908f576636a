-- ===== src/Resp/Requests.antt =====
-- What a client sends for a list of arguments, and that the parser reads it back.
use rdss.Base.{
  ℕ, zero, suc, ◌+◌, ◌-◌, ◌≤◌, ◌<◌, ◌≡◌, refl, ap, ◌∙◌, subst, Bool, true, false, ◌&&◌, some, List,
  [], ◌∷◌, ◌++◌, Bytes, leb, ◌==◌, length, get_or, take, drop, set, length-append, length-set,
  Bool-cases, inl, inr, arith, pos, from_chars, to_digits,
}
use mathlib.Core.List.{append_assoc, append-nil}
use rdss.Resp.Parser.{
  parsing, done, MultiBulkParser, new_parser, int_max, Parsed, store_view, got, bulk_step,
  bulk_body, parse_args, parse_arg_num, fresh_parser, parse_from, parse,
}
use rdss.Resp.Digits.{
  all_digits, length-to_digits, to_digits-all_digits, from_chars-to_digits, find_crlf-digits,
  find_crlf-marked,
}

-- the bytes, a CRLF, and what follows
abbrev pub line : Bytes → Bytes → Bytes
line a rest = a ++ (13 ∷ 10 ∷ rest)

-- every argument: `$`, its length, its bytes; and what follows
abbrev pub bulks : List Bytes → Bytes → Bytes
bulks [] rest = rest
bulks (v ∷ vs) rest = b'$' ∷ line (to_digits (length v)) (line v (bulks vs rest))

-- `*`, the number of arguments, the arguments; and what follows
abbrev pub request : List Bytes → Bytes → Bytes
request vs rest = b'*' ∷ line (to_digits (length vs)) (bulks vs rest)

-- whether the parser's numbers can represent the lengths
abbrev pub all_fit : List Bytes → Bool
all_fit [] = true
all_fit (v ∷ vs) = leb (length v) int_max && all_fit vs

drop-line : (ds body : Bytes) → drop (length ds + 2) (line ds body) ≡ body
drop-line [] body = refl
drop-line (c ∷ ds) body =
    let e : suc (length ds) + 2 ≡ suc (length ds + 2) = omega arith in rw e (drop-line ds body)

drop-marked : (c : ℕ) (ds body : Bytes) → drop (suc (length ds) + 2) (c ∷ line ds body) ≡ body
drop-marked c ds body =
    let e : suc (length ds) + 2 ≡ suc (length ds + 2) = omega arith in rw e (drop-line ds body)

take-line : (ds ys : Bytes) → take (length ds) (line ds ys) ≡ ds
take-line [] ys = refl
take-line (c ∷ ds) ys = ap (λ (l : Bytes). c ∷ l) (take-line ds ys)

get_or-line : (v ys : Bytes) → get_or (line v ys) (length v) 0 ≡ 13
get_or-line [] ys = refl
get_or-line (a ∷ v) ys = get_or-line v ys

get_or-line_next : (v ys : Bytes) → get_or (line v ys) (length v + 1) 0 ≡ 10
get_or-line_next [] ys = refl
get_or-line_next (a ∷ v) ys =
    let e : suc (length v) + 1 ≡ suc (length v + 1) = omega arith in rw e (get_or-line_next v ys)

bulk_body-line :
    (used : ℕ) (v rest : Bytes)
    → bulk_body (length v) used (line v rest) ≡ got v (used + length v + 2)
unfolding bulk_body
bulk_body-line used v rest = ground (
  arith,
  length-append v (13 ∷ 10 ∷ rest),
  get_or-line v rest,
  get_or-line_next v rest,
  take-line v rest,
)

-- One argument in a source, as the parser sees it.
bulk_step-at :
    (ds v rest : Bytes)
    → all_digits ds ≡ true
    → 0 < length ds
    → from_chars int_max ds ≡ some (pos (length v), [])
    → bulk_step (b'$' ∷ line ds (line v rest)) ≡ got v (suc (length ds) + 2 + length v + 2)
unfolding bulk_step
bulk_step-at ds v rest h k e =
    let back : suc (length ds) - 1 ≡ length ds = omega arith in
    let digits : take (suc (length ds) - 1) (line ds (line v rest)) ≡ ds =
      rw back (take-line ds (line v rest)) in
    ground (
      arith,
      find_crlf-marked b'$' ds (line v rest) refl h,
      drop-marked b'$' ds (line v rest),
      digits,
      e,
      bulk_body-line (suc (length ds) + 2) v rest,
    )

drop-bulk :
    (ds v rest : Bytes)
    → drop (suc (length ds) + 2 + length v + 2) (b'$' ∷ line ds (line v rest)) ≡ rest
drop-bulk [] v rest =
    let e : 1 + 2 + length v + 2 ≡ suc (suc (suc (length v + 2))) = omega arith in
    rw e (drop-line v rest)
drop-bulk (c ∷ ds) v rest =
    let e : suc (suc (length ds)) + 2 + length v + 2 ≡ suc (suc (length ds) + 2 + length v + 2) =
      omega arith in
    let f : suc (length ds) + 2 + length v + 2 ≡ suc (length ds + 2 + length v + 2) = omega arith in
    rw (e, f) (subst (λ n. drop n (36 ∷ line ds (line v rest)) ≡ rest) f (drop-bulk ds v rest))

length-bulk :
    (ds v rest : Bytes)
    → length (b'$' ∷ line ds (line v rest)) ≡ suc (length ds) + 2 + length v + 2 + length rest
length-bulk ds v rest =
    omega (arith, length-append ds (13 ∷ 10 ∷ line v rest), length-append v (13 ∷ 10 ∷ rest))

take-append_end : (xs : List Bytes) (v : Bytes) → take (length xs + 1) (xs ++ v ∷ []) ≡ xs ++ v ∷ []
take-append_end [] v = refl
take-append_end (a ∷ xs) v =
    let e : suc (length xs) + 1 ≡ suc (length xs + 1) = omega arith in
    rw e (ap (λ (l : List Bytes). a ∷ l) (take-append_end xs v))

take-length : (xs : List Bytes) → take (length xs) xs ≡ xs
take-length [] = refl
take-length (a ∷ xs) = ap (λ (l : List Bytes). a ∷ l) (take-length xs)

take-set :
    (xs : List Bytes) (i : ℕ) (v : Bytes)
    → i < length xs
    → take (i + 1) (set xs i v) ≡ take i xs ++ v ∷ []
take-set [] i v h = elim h [ ]
take-set (a ∷ xs) zero v h = refl
take-set (a ∷ xs) (suc i) v h =
    let e : suc i + 1 ≡ suc (i + 1) = omega arith in
    rw e (ap (λ (l : List Bytes). a ∷ l) (take-set xs i v (omega arith)))

take-store_view :
    (xs : List Bytes) (i : ℕ) (v : Bytes)
    → i ≤ length xs
    → take (i + 1) (store_view xs i v) ≡ take i xs ++ v ∷ []
unfolding store_view
take-store_view xs i v h = elim (Bool-cases (leb (length xs) i)) [
  | inl at_end ↦
      let e : i ≡ length xs = ground arith in
      rw (store_view, at_end, e, take-append_end xs v, take-length xs) refl
  | inr inside ↦ rw (store_view, inside) (take-set xs i v (ground arith))
]

length-store_view :
    (xs : List Bytes) (i : ℕ) (v : Bytes) → i ≤ length xs → i + 1 ≤ length (store_view xs i v)
unfolding store_view
length-store_view xs i v h = ground (arith, length-append xs (v ∷ []), length-set xs i v)

-- what the loop of `Parse` leaves, where it has read `vs` and `rest` follows
pub record Reads (vs : List Bytes) (src rest : Bytes) (out r : Parsed) : Type 0 where
  pub state : r.parser.state ≡ done
  pub args : r.parser.args ≡ out.parser.args
  pub consumed : r.consumed + length rest ≡ out.consumed + length src
  pub result :
      take (out.parser.cur_arg_idx + length vs) r.result
      ≡ take out.parser.cur_arg_idx out.result ++ vs

parse_args-bulks :
    (vs : List Bytes) (rest : Bytes) (out : Parsed)
    → all_fit vs ≡ true
    → out.parser.cur_arg_idx ≤ length out.result
    → Reads vs (bulks vs rest) rest out (parse_args (length vs) (bulks vs rest) out)
unfolding parse_args
parse_args-bulks [] rest out fit h = record {
  state = refl;
  args = refl;
  consumed = refl;
  result =
      let e : out.parser.cur_arg_idx + 0 ≡ out.parser.cur_arg_idx = omega arith in
      rw (e, append-nil) refl;
}
parse_args-bulks (v ∷ vs) rest out fit h =
    let ds = to_digits (length v) in
    let n = suc (length ds) + 2 + length v + 2 in
    let step =
      bulk_step-at ds v (bulks vs rest) (to_digits-all_digits (length v))
        (length-to_digits (length v)) (from_chars-to_digits int_max (length v) (ground arith)) in
    let i = out.parser.cur_arg_idx in
    let out' : Parsed = record {
      parser = record out.parser { cur_arg_idx = i + 1 };
      consumed = out.consumed + n;
      result = store_view out.result i v;
    } in
    let ih = parse_args-bulks vs rest out' (ground arith) (length-store_view out.result i v h) in
    let e : i + suc (length vs) ≡ i + 1 + length vs = omega arith in
    rw (parse_args, step, drop-bulk ds v (bulks vs rest))
      (record {
        state = ih.state;
        args = ih.args;
        consumed = omega (arith, ih.consumed, length-bulk ds v (bulks vs rest));
        result = rw e (
            ih.result
            ∙ ap (λ (l : List Bytes). l ++ vs) (take-store_view out.result i v h)
            ∙ append_assoc (take i out.result) (v ∷ []) vs);
      })

parse_arg_num-request :
    (vs : List Bytes) (rest : Bytes) (p : MultiBulkParser)
    → length vs ≤ int_max
    → parse_arg_num (request vs rest) p
      ≡ (record p { state = parsing; args = length vs }, length (to_digits (length vs)) + 3)
unfolding parse_arg_num
parse_arg_num-request vs rest p small =
    let ds = to_digits (length vs) in
    ground (
      arith,
      find_crlf-digits ds (bulks vs rest) (to_digits-all_digits (length vs)),
      take-line ds (bulks vs rest),
      from_chars-to_digits int_max (length vs) small,
    )

drop-request : (ds rest : Bytes) → drop (length ds + 3) (b'*' ∷ line ds rest) ≡ rest
drop-request ds rest =
    let e : length ds + 3 ≡ suc (length ds + 2) = omega arith in rw e (drop-line ds rest)

abbrev started : List Bytes → List Bytes → Parsed
started vs result = record {
  parser = record { state = parsing; args = length vs; cur_arg_idx = 0 };
  consumed = length (to_digits (length vs)) + 3;
  result = result;
}

parse_from-request :
    (vs : List Bytes) (rest : Bytes) (result : List Bytes)
    → length vs ≤ int_max
    → parse_from new_parser (request vs rest) result
      ≡ parse_args (length vs) (bulks vs rest) (started vs result)
unfolding parse_from
parse_from-request vs rest result small =
    let ds = to_digits (length vs) in
    let nonzero : (length ds + 3 == 0) ≡ false = ground arith in
    rw
      (
        parse_from,
        parse_arg_num-request vs rest new_parser small,
        nonzero,
        drop-request ds (bulks vs rest),
      )
      refl

parse-fresh :
    (vs : List Bytes) (rest : Bytes) (p : MultiBulkParser) (result : List Bytes)
    → fresh_parser p ≡ new_parser
    → parse p (request vs rest) result ≡ parse_from new_parser (request vs rest) result
unfolding parse
parse-fresh vs rest p result fresh =
    ap (λ (q : MultiBulkParser). parse_from q (request vs rest) result) fresh

-- A parser that is new, done or has failed reads a request whole: it is done, its views are the
-- arguments, and it consumes the bytes of the request and none of those that follow, if the number of
-- arguments and the length of each are at most 2 ^ 31 - 1.
pub parse-request :
    (vs : List Bytes) (rest : Bytes) (p : MultiBulkParser) (result : List Bytes)
    → fresh_parser p ≡ new_parser
    → length vs ≤ int_max
    → all_fit vs ≡ true
    → let r = parse p (request vs rest) result in
      (r.parser.state ≡ done)
      × (r.parser.args ≡ length vs)
      × (take (length vs) r.result ≡ vs)
      × (r.consumed + length rest ≡ length (request vs rest))
parse-request vs rest p result fresh small fit =
    let ds = to_digits (length vs) in
    let r = parse_args-bulks vs rest (started vs result) fit (omega arith) in
    let e : 0 + length vs ≡ length vs = omega arith in
    rw (parse-fresh vs rest p result fresh ∙ parse_from-request vs rest result small) (
      r.state,
      r.args,
      subst (λ n. take n (parse_args (length vs) (bulks vs rest) (started vs result)).result ≡ vs) e
          r.result,
      omega (arith, r.consumed, length-append ds (13 ∷ 10 ∷ bulks vs rest)),
    )
