-- ===== src/Resp/Replies.antt =====
-- What is read back from a printed result.
use rdss.Base.{
  ℕ, ◌%◌, ◌^◌, ◌≤◌, ◌≡◌, refl, ap, ◌∙◌, sym, true, some, List, [], ◌∷◌, ◌++◌, map, Bytes, length,
  take, ℤ, pos, to_chars, to_digits, from_chars, arith,
}
use mathlib.Core.List.{append_assoc}
use rdss.Resp.Result.{Result, set_int, strings}
use rdss.Resp.Parser.{done, MultiBulkParser, new_parser, int_max, fresh_parser, parse}
use rdss.Resp.Requests.{line, bulks, request, all_fit, parse-request}
use rdss.Resp.Digits.{fits, from_chars-to_chars}
use rdss.Resp.Replier.{
  result_to_string_view, int_to_chars, to_int32, str_to_iovecs, strs_to_iovecs, result_to_iovecs,
  needs_gather, concat, reply,
}

concat-append : (xs ys : List Bytes) → concat (xs ++ ys) ≡ concat xs ++ concat ys
unfolding concat
concat-append [] ys = refl
concat-append (x ∷ xs) ys =
    ap (λ (l : Bytes). x ++ l) (concat-append xs ys) ∙ sym (append_assoc x (concat xs) (concat ys))

int_to_chars-line : (n : ℕ) (rest : Bytes) → int_to_chars (pos n) ++ rest ≡ line (to_digits n) rest
unfolding int_to_chars to_chars
int_to_chars-line n rest = append_assoc (to_digits n) (13 ∷ 10 ∷ []) rest

to_int32-small : (n : ℕ) → n ≤ int_max → to_int32 n ≡ pos n
unfolding to_int32
to_int32-small n h = let e : n % 2 ^ 32 ≡ n = omega arith in ground (arith, e)

concat-strs_to_iovecs :
    (vs : List Bytes)
    → all_fit vs ≡ true
    → concat (strs_to_iovecs (map (λ v. some v) vs)) ≡ bulks vs []
unfolding concat strs_to_iovecs str_to_iovecs
concat-strs_to_iovecs [] fit = refl
concat-strs_to_iovecs (v ∷ vs) fit =
    let small : length v ≤ int_max = ground arith in
    let tail = concat-strs_to_iovecs vs (ground arith) in
    ap
      (λ (n : ℤ).
        b'$'
        ∷ (int_to_chars n ++ (v ++ (13 ∷ 10 ∷ concat (strs_to_iovecs (map (λ u. some u) vs))))))
      (to_int32-small (length v) small)
    ∙ ap (λ (l : Bytes). b'$' ∷ l)
        (int_to_chars-line (length v)
          (v ++ (13 ∷ 10 ∷ concat (strs_to_iovecs (map (λ u. some u) vs)))))
    ∙ ap (λ (l : Bytes). b'$' ∷ line (to_digits (length v)) (line v l)) tail

reply-strings :
    (vs : List Bytes) (r : Result)
    → r.kind ≡ strings
    → r.strings_list ≡ map (λ v. some v) vs
    → all_fit vs ≡ true
    → reply r ≡ some (request vs [])
unfolding reply needs_gather result_to_iovecs concat
reply-strings vs r kind list fit =
    let head = int_to_chars-line (length vs) (concat (strs_to_iovecs (map (λ v. some v) vs))) in
    let n : length (map (λ (v : Bytes). some v) vs) ≡ length vs = length-map vs in
    rw (reply, needs_gather, kind, list, n)
      (ap (λ (l : Bytes). some (b'*' ∷ l))
        (head ∙ ap (λ (l : Bytes). line (to_digits (length vs)) l) (concat-strs_to_iovecs vs fit)))
  where
    length-map : (vs : List Bytes) → length (map (λ (v : Bytes). some v) vs) ≡ length vs
    length-map [] = refl
    length-map (v ∷ vs) = omega (arith, length-map vs)

-- A result of several strings, none of them null, is printed so that a parser which is new, done or has
-- failed reads it whole: it is done and its views are the strings, if their number and the length of
-- each are at most 2 ^ 31 - 1.
pub parse-reply :
    (vs : List Bytes) (r : Result) (p : MultiBulkParser) (result : List Bytes)
    → r.kind ≡ strings
    → r.strings_list ≡ map (λ v. some v) vs
    → fresh_parser p ≡ new_parser
    → length vs ≤ int_max
    → all_fit vs ≡ true
    → (sent : Bytes) × (reply r ≡ some sent)
      × ((parse p sent result).parser.state ≡ done)
      × (take (length vs) (parse p sent result).result ≡ vs)
      × ((parse p sent result).consumed ≡ length sent)
parse-reply vs r p result kind list fresh small fit =
    let (state, args, views, consumed) = parse-request vs [] p result fresh small fit in
    (request vs [], reply-strings vs r kind list fit, state, views, omega (arith, consumed))

-- A number is printed after a colon and before a CRLF, and a signed type that can represent it reads it
-- back from what stands between them.
pub reply-set_int :
    (r : Result) (hi : ℕ) (z : ℤ)
    → fits hi z ≡ true
    → (digits : Bytes) × (reply (set_int r z) ≡ some (b':' ∷ digits ++ (13 ∷ 10 ∷ [])))
      × (from_chars hi digits ≡ some (z, []))
unfolding reply needs_gather result_to_string_view int_to_chars
reply-set_int r hi z h = (to_chars z, refl, from_chars-to_chars hi z h)
