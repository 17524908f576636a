-- ===== src/Resp/Resuming.antt =====
-- The loop of the multi-bulk parser, stopped for want of bytes, goes on where it stopped.
use rdss.Base.{
  ℕ, zero, suc, ◌+◌, ◌-◌, ◌≤◌, ◌<◌, ◌≡◌, ◌⊎◌, refl, sym, ap, ◌∙◌, arith, List, ◌++◌, Bytes,
  if◌then◌else◌, ◌==◌, length, drop, length-drop, drop-append, drop-drop, inl, inr, subst,
}
use rdss.Resp.Parser.{
  init, error, parsing, done, MultiBulkParser, Parsed, store_view, BulkStep, fail, wait, got,
  bulk_step, parse_args, parse_arg_num, parse_from,
}
use rdss.Resp.Arguments.{bulk_step-append, bulk_step-got}

pub BulkStep-cases :
    (s : BulkStep) → (s ≡ fail) ⊎ ((s ≡ wait) ⊎ ((v : Bytes) × (n : ℕ) × (s ≡ got v n)))
BulkStep-cases fail = inl refl
BulkStep-cases wait = inr (inl refl)
BulkStep-cases (got v n) = inr (inr (v, n, refl))

-- The loop that ran out of bytes goes on, once there are more, where it stopped.
pub record Resumes (left : ℕ) (src b : Bytes) (out o : Parsed) : Type 0 where
  remaining : ℕ
  used : ℕ
  consumed : o.consumed ≡ out.consumed + used
  within : used ≤ length src
  args : o.parser.args ≡ out.parser.args
  pub positive : 0 < left
  indices : o.parser.cur_arg_idx + remaining ≡ out.parser.cur_arg_idx + left
  resumed : parse_args left (src ++ b) out ≡ parse_args remaining (drop used src ++ b) o

pub parse_args-Resumes :
    (left : ℕ) (src b : Bytes) (out : Parsed)
    → (parse_args left src out).parser.state ≡ parsing
    → Resumes left src b out (parse_args left src out)
unfolding parse_args
parse_args-Resumes zero src b out h = ground (arith, h)
parse_args-Resumes (suc left) src b out h = elim (BulkStep-cases (bulk_step src)) [
  | inl failed ↦ ground (arith, h, failed)
  | inr (inl waits) ↦
      rw (parse_args, waits)
        (record {
          remaining = suc left;
          used = 0;
          consumed = omega arith;
          within = omega arith;
          args = refl;
          positive = omega arith;
          indices = refl;
          resumed = refl;
        })
  | inr (inr (v, n, found)) ↦
      let again : bulk_step (src ++ b) ≡ got v n = bulk_step-append src b (rw found refl) ∙ found in
      let size = bulk_step-got src v n found in
      let out' : Parsed = record {
        parser = record out.parser { cur_arg_idx = out.parser.cur_arg_idx + 1 };
        consumed = out.consumed + n;
        result = store_view out.result out.parser.cur_arg_idx v;
      } in
      let one : parse_args (suc left) src out ≡ parse_args left (drop n src) out' =
        rw (parse_args, found) refl in
      let r =
        parse_args-Resumes left (drop n src) b out'
          (ap (λ (q : Parsed). q.parser.state) (sym one) ∙ h) in
      subst (λ (q : Parsed). Resumes (suc left) src b out q) (sym one)
        (record {
          remaining = r.remaining;
          used = n + r.used;
          consumed = omega (arith, r.consumed);
          within = omega (arith, r.within, length-drop n src, size);
          args = r.args;
          positive = omega arith;
          indices = omega (arith, r.indices);
          resumed =
              rw (parse_args, again, drop-append n src b size, ← (drop-drop n r.used src))
                r.resumed;
        })
]

-- what was consumed before does not change what the loop does
parse_args-shift :
    (left k : ℕ) (src : Bytes) (p : MultiBulkParser) (c : ℕ) (result : List Bytes)
    → let q = parse_args left src (record { parser = p; consumed = c; result = result }) in
      parse_args left src (record { parser = p; consumed = k + c; result = result })
      ≡ record { parser = q.parser; consumed = k + q.consumed; result = q.result }
unfolding parse_args
parse_args-shift zero k src p c result = refl
parse_args-shift (suc left) k src p c result = elim (BulkStep-cases (bulk_step src)) [
  | inl failed ↦ rw (parse_args, failed) refl
  | inr (inl waits) ↦ rw (parse_args, waits) refl
  | inr (inr (v, n, found)) ↦
      let e : k + c + n ≡ k + (c + n) = omega arith in
      rw (parse_args, found, e)
        (parse_args-shift left k (drop n src) (record p { cur_arg_idx = p.cur_arg_idx + 1 }) (c + n)
          (store_view result p.cur_arg_idx v))
]

-- a result, with `k` bytes consumed before
abbrev pub after : ℕ → Parsed → Parsed
after k q = record { parser = q.parser; consumed = k + q.consumed; result = q.result }

abbrev pub begun : MultiBulkParser → List Bytes → ℕ → Parsed
begun p result c = record { parser = p; consumed = c; result = result }

pub parse_from-parsing :
    (p : MultiBulkParser) (src : Bytes) (result : List Bytes)
    → p.state ≡ parsing
    → parse_from p src result ≡ parse_args (p.args - p.cur_arg_idx) src (begun p result 0)
unfolding parse_from
parse_from-parsing p src result h =
    let first : Parsed =
      if (parse_arg_num src p).1 == 0
      then begun (parse_arg_num src p).0 result (parse_arg_num src p).1
      else parse_args (parse_arg_num src p).0.args (drop (parse_arg_num src p).1 src)
          (begun (parse_arg_num src p).0 result (parse_arg_num src p).1) in
    let going = parse_args (p.args - p.cur_arg_idx) src (begun p result 0) in
    elim p.state as (λ s. s ≡ parsing → (elim s [ init ↦ first | _ ↦ going ]) ≡ going) [
      | init ↦ λ e. ground (arith, e)
      | error ↦ λ e. refl
      | parsing ↦ λ e. refl
      | done ↦ λ e. refl
    ]
      h

pub parse_from-init :
    (p : MultiBulkParser) (src : Bytes) (result : List Bytes)
    → p.state ≡ init
    → parse_from p src result ≡ (
        if (parse_arg_num src p).1 == 0
        then begun (parse_arg_num src p).0 result (parse_arg_num src p).1
        else parse_args
            (parse_arg_num src p).0.args
            (drop (parse_arg_num src p).1 src)
            (begun (parse_arg_num src p).0 result (parse_arg_num src p).1))
unfolding parse_from
parse_from-init p src result h =
    let first : Parsed =
      if (parse_arg_num src p).1 == 0
      then begun (parse_arg_num src p).0 result (parse_arg_num src p).1
      else parse_args (parse_arg_num src p).0.args (drop (parse_arg_num src p).1 src)
          (begun (parse_arg_num src p).0 result (parse_arg_num src p).1) in
    let going = parse_args (p.args - p.cur_arg_idx) src (begun p result 0) in
    elim p.state as (λ s. s ≡ init → (elim s [ init ↦ first | _ ↦ going ]) ≡ first) [
      | init ↦ λ e. refl
      | error ↦ λ e. ground (arith, e)
      | parsing ↦ λ e. ground (arith, e)
      | done ↦ λ e. ground (arith, e)
    ]
      h

-- the loop, and a call that goes on where it stopped
pub loop-split :
    (left k : ℕ) (src b : Bytes) (p : MultiBulkParser) (result : List Bytes)
    → let o = parse_args left src (begun p result k) in
      o.parser.state ≡ parsing
      → p.cur_arg_idx + left ≡ p.args
      → (used : ℕ) × (o.consumed ≡ k + used)
        × (used ≤ length src)
        × (parse_args left (src ++ b) (begun p result k)
            ≡ after o.consumed (parse_from o.parser (drop used src ++ b) o.result))
loop-split left k src b p result h full =
    let o = parse_args left src (begun p result k) in
    let r = parse_args-Resumes left src b (begun p result k) h in
    let rest = drop r.used src ++ b in
    let left_over : r.remaining ≡ o.parser.args - o.parser.cur_arg_idx =
      omega (arith, r.indices, r.args, full) in
    let next = parse_from-parsing o.parser rest o.result h in
    let none_before : o.consumed + 0 ≡ o.consumed = omega arith in
    let shifted =
      parse_args-shift (o.parser.args - o.parser.cur_arg_idx) o.consumed rest o.parser 0 o.result in
    (
      r.used,
      r.consumed,
      r.within,
      r.resumed
          ∙ ap (λ (n : ℕ). parse_args n rest o) left_over
          ∙ ap
              (λ (c : ℕ).
                parse_args (o.parser.args - o.parser.cur_arg_idx) rest (begun o.parser o.result c))
              (sym none_before)
          ∙ shifted
          ∙ ap (λ (q : Parsed). after o.consumed q) (sym next),
    )
