-- ===== src/Resp/Splits.antt =====
-- A request that arrives in two parts: the parser, called with what is there and again when there is
-- more, ends as if it had been called once with all of it.
use rdss.Base.{
  ℕ, zero, suc, ◌+◌, ◌-◌, ◌≤◌, ◌<◌, ◌≡◌, ◌⊎◌, refl, sym, ap, ◌∙◌, arith, Bool, true, false, Option,
  none, some, List, [], ◌∷◌, ◌++◌, Bytes, ◌==◌, length, take, drop, length-append, take-append,
  drop-append, drop-drop, Bool-cases, Option-cases, inl, inr, ℤ, pos, negsuc, from_chars, subst,
}
use rdss.Resp.Parser.{
  ParserState, init, error, parsing, done, MultiBulkParser, new_parser, int_max, find_crlf, Parsed,
  store_view, wait, bulk_step, parse_args, parse_arg_num, fresh_parser, parse_from, parse,
}
use rdss.Resp.Arguments.{find_crlf-append}
use rdss.Resp.Resuming.{
  BulkStep-cases, parse_args-Resumes, after, begun, parse_from-parsing, parse_from-init, loop-split,
}

-- what a call of `ParseArgNum` leaves: it waits or fails, or it found the number, and finds it again when
-- there is more
record Counted (a b : Bytes) (p : MultiBulkParser) (r : MultiBulkParser × ℕ) : Type 0 where
  again : parse_arg_num (a ++ b) p ≡ r
  positive : 0 < r.1
  within : r.1 ≤ length a
  state : r.0.state ≡ parsing
  index : r.0.cur_arg_idx ≡ p.cur_arg_idx

abbrev counts : MultiBulkParser → ℕ → Option (ℤ × Bytes) → MultiBulkParser × ℕ
counts p n parsed = elim parsed [
  | none ↦ (record p { state = error }, 0)
  | some q ↦ elim q.0 [
    | negsuc i ↦ (record p { state = error }, 0)
    | pos i ↦ (record p { state = parsing; args = i }, n + 3)
  ]
]

number_read :
    (a b : Bytes) (p : MultiBulkParser) (n : ℕ) (parsed : Option (ℤ × Bytes))
    → n + 3 ≤ length a
    → let r = counts p n parsed in
      parse_arg_num (a ++ b) p ≡ r
      → ((r.1 ≡ 0) × ((r.0.state ≡ error) ⊎ (r.0 ≡ p))) ⊎ Counted a b p r
number_read a b p n none room h = inl (refl, inl refl)
number_read a b p n (some (negsuc i, rest)) room h = inl (refl, inl refl)
number_read a b p n (some (pos i, rest)) room h =
    inr (record { again = h; positive = omega arith; within = room; state = refl; index = refl })

parse_arg_num-cases :
    (a b : Bytes) (p : MultiBulkParser)
    → let r = parse_arg_num a p in ((r.1 ≡ 0) × ((r.0.state ≡ error) ⊎ (r.0 ≡ p))) ⊎ Counted a b p r
unfolding parse_arg_num
parse_arg_num-cases [] b p = inl (refl, inl refl)
parse_arg_num-cases (c ∷ cs) b p = elim (Bool-cases (c == b'*')) [
  | inr other ↦ rw (parse_arg_num, other) (inl (refl, inl refl))
  | inl star ↦ elim (Option-cases (find_crlf cs)) [
    | inl missing ↦ rw (parse_arg_num, star, missing) (inl (refl, inr refl))
    | inr (n, found) ↦
        let (again, room) = find_crlf-append cs b n found in
        let digits = take-append n cs b (omega (arith, room)) in
        rw (parse_arg_num, star, found)
          (number_read (c ∷ cs) b p n (from_chars int_max (take n cs)) (omega (arith, room))
            (rw (parse_arg_num, star, again, digits) refl))
  ]
]

-- The parser waits for more bytes.
abbrev pub waits : ParserState → Bool
waits init = true
waits parsing = true
waits error = false
waits done = false

args_state :
    (left : ℕ) (src : Bytes) (out : Parsed)
    → out.parser.state ≡ parsing
    → waits (parse_args left src out).parser.state ≡ true
    → (parse_args left src out).parser.state ≡ parsing
unfolding parse_args
args_state zero src out going h = ground (arith, h)
args_state (suc left) src out going h = elim (BulkStep-cases (bulk_step src)) [
  | inl failed ↦ ground (arith, h, failed)
  | inr (inl waiting) ↦ ap (λ (q : Parsed). q.parser.state) (stopped waiting) ∙ going
  | inr (inr (v, n, found)) ↦
      let out' : Parsed = record {
        parser = record out.parser { cur_arg_idx = out.parser.cur_arg_idx + 1 };
        consumed = out.consumed + n;
        result = store_view out.result out.parser.cur_arg_idx v;
      } in
      let one : parse_args (suc left) src out ≡ parse_args left (drop n src) out' =
        rw (parse_args, found) refl in
      ap (λ (q : Parsed). q.parser.state) one
      ∙ args_state left (drop n src) out' going
          (ap (λ (q : Parsed). waits q.parser.state) (sym one) ∙ h)
]
  where
    stopped : bulk_step src ≡ wait → parse_args (suc left) src out ≡ out
    stopped waiting = rw (parse_args, waiting) refl

zero_before : (q : Parsed) → after 0 q ≡ q
zero_before q =
    let e : 0 + q.consumed ≡ q.consumed = omega arith in ap (λ (n : ℕ). begun q.parser q.result n) e

-- the call `whole` is the call that left `o` and one more
abbrev Joins : Bytes → Bytes → Parsed → Parsed → Type 0
Joins a b whole o = whole ≡ after o.consumed (parse_from o.parser (drop o.consumed a ++ b) o.result)

parsing-split :
    (a b : Bytes) (p : MultiBulkParser) (result : List Bytes)
    → p.state ≡ parsing
    → waits (parse_from p a result).parser.state ≡ true
    → Joins a b (parse_from p (a ++ b) result) (parse_from p a result)
parsing-split a b p result going h =
    let left = p.args - p.cur_arg_idx in
    let o = parse_args left a (begun p result 0) in
    let e = parse_from-parsing p a result going in
    let state =
      args_state left a (begun p result 0) going
        (ap (λ (q : Parsed). waits q.parser.state) (sym e) ∙ h) in
    let some_left = (parse_args-Resumes left a b (begun p result 0) state).positive in
    let (used, consumed, within, eq) =
      loop-split left 0 a b p result state (omega (arith, some_left)) in
    let here : used ≡ o.consumed = omega (arith, consumed) in
    subst (λ (q : Parsed). Joins a b (parse_from p (a ++ b) result) q) (sym e)
      (parse_from-parsing p (a ++ b) result going
        ∙ eq
        ∙ ap (λ (n : ℕ). after o.consumed (parse_from o.parser (drop n a ++ b) o.result)) here)

announced-split :
    (a b : Bytes) (p : MultiBulkParser) (result : List Bytes)
    → p.state ≡ init
    → p.cur_arg_idx ≡ 0
    → Counted a b p (parse_arg_num a p)
    → waits (parse_from p a result).parser.state ≡ true
    → Joins a b (parse_from p (a ++ b) result) (parse_from p a result)
announced-split a b p result new fresh c h =
    let r = parse_arg_num a p in
    let start = begun r.0 result r.1 in
    let o = parse_args r.0.args (drop r.1 a) start in
    let more : (r.1 == 0) ≡ false = ground (arith, c.positive) in
    let e : parse_from p a result ≡ o = parse_from-init p a result new ∙ rw more refl in
    let whole : parse_from p (a ++ b) result ≡ parse_args r.0.args (drop r.1 a ++ b) start =
      parse_from-init p (a ++ b) result new
      ∙ rw (c.again, more, drop-append r.1 a b c.within) refl in
    let state =
      args_state r.0.args (drop r.1 a) start c.state
        (ap (λ (q : Parsed). waits q.parser.state) (sym e) ∙ h) in
    let (used, consumed, within, eq) =
      loop-split r.0.args r.1 (drop r.1 a) b r.0 result state (omega (arith, c.index, fresh)) in
    let here : drop used (drop r.1 a) ≡ drop o.consumed a =
      drop-drop r.1 used a ∙ ap (λ (n : ℕ). drop n a) (sym consumed) in
    subst (λ (q : Parsed). Joins a b (parse_from p (a ++ b) result) q) (sym e)
      (whole
        ∙ eq
        ∙ ap (λ (l : Bytes). after o.consumed (parse_from o.parser (l ++ b) o.result)) here)

init-split :
    (a b : Bytes) (p : MultiBulkParser) (result : List Bytes)
    → p.state ≡ init
    → p.cur_arg_idx ≡ 0
    → waits (parse_from p a result).parser.state ≡ true
    → Joins a b (parse_from p (a ++ b) result) (parse_from p a result)
init-split a b p result new fresh h = elim (parse_arg_num-cases a b p) [
  | inr counted ↦ announced-split a b p result new fresh counted h
  | inl (nothing, inl failed) ↦
      let e = stopped nothing in
      ground (arith, failed, ap (λ (q : Parsed). waits q.parser.state) (sym e) ∙ h)
  | inl (nothing, inr same) ↦
      let e : parse_from p a result ≡ begun p result 0 =
        stopped nothing
        ∙ ap (λ (q : MultiBulkParser). begun q result (parse_arg_num a p).1) same
        ∙ ap (λ (n : ℕ). begun p result n) nothing in
      subst (λ (q : Parsed). Joins a b (parse_from p (a ++ b) result) q) (sym e)
        (sym (zero_before (parse_from p (a ++ b) result)))
]
  where
    stopped :
        (parse_arg_num a p).1 ≡ 0
        → parse_from p a result ≡ begun (parse_arg_num a p).0 result (parse_arg_num a p).1
    stopped nothing = parse_from-init p a result new ∙ rw nothing refl

parse_lem :
    (p : MultiBulkParser) (src : Bytes) (result : List Bytes)
    → 0 < length src
    → parse p src result ≡ parse_from (fresh_parser p) src result
unfolding parse
parse_lem p [] result h = elim h [ ]
parse_lem p (c ∷ cs) result h = refl

-- `fresh_parser`, where the state is `s`
abbrev refreshed : ParserState → MultiBulkParser → MultiBulkParser
refreshed s p = elim s [ error ↦ new_parser | done ↦ new_parser | _ ↦ p ]

fresh_parser-waits : (p : MultiBulkParser) → waits (fresh_parser p).state ≡ true
unfolding fresh_parser
fresh_parser-waits p =
    elim p.state as (λ s. p.state ≡ s → waits (refreshed s p).state ≡ true) [
      | init ↦ λ e. ap waits e
      | error ↦ λ e. refl
      | parsing ↦ λ e. ap waits e
      | done ↦ λ e. refl
    ]
      refl

waits-fresh_parser : (p : MultiBulkParser) → waits p.state ≡ true → fresh_parser p ≡ p
unfolding fresh_parser
waits-fresh_parser p h =
    elim p.state as (λ s. waits s ≡ true → refreshed s p ≡ p) [
      | init ↦ λ w. refl
      | error ↦ λ w. ground (arith, w)
      | parsing ↦ λ w. refl
      | done ↦ λ w. ground (arith, w)
    ]
      h

-- A parser that has not read the number of arguments has not read an argument.
abbrev pub IsAtStart : MultiBulkParser → Type 0
IsAtStart p = p.state ≡ init → p.cur_arg_idx ≡ 0

fresh_parser-IsAtStart : (p : MultiBulkParser) → IsAtStart p → IsAtStart (fresh_parser p)
unfolding fresh_parser
fresh_parser-IsAtStart p h = elim p.state as (λ s. IsAtStart (refreshed s p)) [
  | init ↦ h
  | error ↦ λ e. refl
  | parsing ↦ h
  | done ↦ λ e. refl
]

from-split :
    (a b : Bytes) (p : MultiBulkParser) (result : List Bytes)
    → waits p.state ≡ true
    → IsAtStart p
    → waits (parse_from p a result).parser.state ≡ true
    → Joins a b (parse_from p (a ++ b) result) (parse_from p a result)
from-split a b p result ready fresh h = elim (state_of p.state ready) [
  | inr going ↦ parsing-split a b p result going h
  | inl new ↦ init-split a b p result new (fresh new) h
]
  where
    state_of : (s : ParserState) → waits s ≡ true → (s ≡ init) ⊎ (s ≡ parsing)
    state_of init w = inl refl
    state_of parsing w = inr refl
    state_of error w = ground (arith, w)
    state_of done w = ground (arith, w)

-- However the bytes of a request are cut in two, neither part empty: where the call on the first part is left waiting,
-- a second call on what it did not consume and the rest ends as one call on all the bytes does, with the same parser and views, and
-- both together consume the same bytes. A parser that waits for the number of arguments has not read an argument.
pub parse-split :
    (p : MultiBulkParser) (a b : Bytes) (result : List Bytes)
    → IsAtStart p
    → 0 < length a
    → 0 < length b
    → let o = parse p a result in
      waits o.parser.state ≡ true
      → parse p (a ++ b) result
        ≡ after o.consumed (parse o.parser (drop o.consumed a ++ b) o.result)
parse-split p a b result fresh some_a some_b h =
    let q = fresh_parser p in
    let o = parse_from q a result in
    let e : parse p a result ≡ o = parse_lem p a result some_a in
    let waiting = ap (λ (r : Parsed). waits r.parser.state) (sym e) ∙ h in
    let rest = drop o.consumed a ++ b in
    let next : parse o.parser rest o.result ≡ parse_from o.parser rest o.result =
      parse_lem o.parser rest o.result (omega (arith, length-append (drop o.consumed a) b))
      ∙ ap (λ (r : MultiBulkParser). parse_from r rest o.result)
          (waits-fresh_parser o.parser waiting) in
    subst
      (λ (r : Parsed).
        parse p (a ++ b) result
        ≡ after r.consumed (parse r.parser (drop r.consumed a ++ b) r.result))
      (sym e)
      (parse_lem p (a ++ b) result (omega (arith, length-append a b))
        ∙ from-split a b q result (fresh_parser-waits p) (fresh_parser-IsAtStart p fresh) waiting
        ∙ ap (λ (r : Parsed). after o.consumed r) (sym next))
