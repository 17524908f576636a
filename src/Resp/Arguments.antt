-- ===== src/Resp/Arguments.antt =====
-- One argument of a request, and the end of its line, are found again when more bytes follow.
use rdss.Base.{
  ℕ, suc, ◌+◌, ◌-◌, ◌≤◌, ◌≡◌, refl, sym, ◌∙◌, arith, Bool, true, false, ◌&&◌, ◌||◌, not, Option,
  none, some, [], ◌∷◌, ◌++◌, Bytes, if◌then◌else◌, ltb, ◌==◌, length, take, drop, length-append,
  length-drop, take-append, drop-append, get_or-append, Bool-cases, Option-cases, inl, inr, ℤ, pos,
  negsuc, from_chars, subst,
}
use rdss.Resp.Parser.{int_max, find_crlf, BulkStep, fail, wait, got, bulk_body, bulk_step}

pub find_crlf-append :
    (a b : Bytes) (n : ℕ)
    → find_crlf a ≡ some n
    → (find_crlf (a ++ b) ≡ some n) × (n + 2 ≤ length a)
unfolding find_crlf
find_crlf-append [] b n h = ground (arith, h)
find_crlf-append (c ∷ []) b n h = ground (arith, h)
find_crlf-append (c ∷ e ∷ cs) b n h = elim (Bool-cases (c == 13 && e == 10)) [
  | inl here ↦ rw (find_crlf, here) (ground (arith, h, here), ground (arith, h, here))
  | inr later ↦ elim (Option-cases (find_crlf (e ∷ cs))) [
    | inl missing ↦ ground (arith, h, later, missing)
    | inr (m, found) ↦
        let (again, room) = find_crlf-append (e ∷ cs) b m found in
        let same : n ≡ suc m = ground (arith, h, later, found) in
        (rw (find_crlf, later, again, same) refl, ground (arith, room, same))
  ]
]

-- what more bytes do not change
abbrev pub settled : BulkStep → Bool
settled fail = true
settled wait = false
settled (got v n) = true

bulk_body-append :
    (n used : ℕ) (body b : Bytes)
    → settled (bulk_body n used body) ≡ true
    → bulk_body n used (body ++ b) ≡ bulk_body n used body
unfolding bulk_body
bulk_body-append n used body b h = elim (Bool-cases (ltb (length body) (n + 2))) [
  | inl short ↦ ground (arith, h, short)
  | inr long ↦ ground (
    arith,
    length-append body b,
    get_or-append body b n 0 (ground (arith, long)),
    get_or-append body b (n + 1) 0 (ground (arith, long)),
    take-append n body b (ground (arith, long)),
  )
]

bulk_body-got :
    (n used : ℕ) (body v : Bytes) (u : ℕ) → bulk_body n used body ≡ got v u → u ≤ used + length body
unfolding bulk_body
bulk_body-got n used body v u h = ground (arith, h)

-- the argument whose length has the digits `number`, and what `bulk_step` makes of them
abbrev numbered : Option (ℤ × Bytes) → ℕ → Bytes → BulkStep
numbered parsed crlf body = elim parsed [
  | none ↦ fail
  | some p ↦ elim p.0 [ negsuc n ↦ fail | pos n ↦ bulk_body n (crlf + 2) body ]
]

abbrev headed : Bool → ℕ → Bytes → Bytes → BulkStep
headed unmarked crlf number body =
    if unmarked then fail else numbered (from_chars int_max number) crlf body

numbered-append :
    (parsed : Option (ℤ × Bytes)) (crlf : ℕ) (body b : Bytes)
    → settled (numbered parsed crlf body) ≡ true
    → numbered parsed crlf (body ++ b) ≡ numbered parsed crlf body
numbered-append none crlf body b h = refl
numbered-append (some (negsuc n, rest)) crlf body b h = refl
numbered-append (some (pos n, rest)) crlf body b h = bulk_body-append n (crlf + 2) body b h

headed-append :
    (unmarked : Bool) (crlf : ℕ) (number body b : Bytes)
    → settled (headed unmarked crlf number body) ≡ true
    → headed unmarked crlf number (body ++ b) ≡ headed unmarked crlf number body
headed-append true crlf number body b h = refl
headed-append false crlf number body b h = numbered-append (from_chars int_max number) crlf body b h

bulk_step_found :
    (c : ℕ) (cs : Bytes) (crlf : ℕ)
    → find_crlf (c ∷ cs) ≡ some crlf
    → bulk_step (c ∷ cs)
      ≡ headed (not (c == b'$') || crlf == 1) crlf (take (crlf - 1) cs) (drop (crlf + 2) (c ∷ cs))
unfolding bulk_step
bulk_step_found c cs crlf found = rw (bulk_step, found) refl

bulk_step-empty : settled (bulk_step []) ≡ false
unfolding bulk_step find_crlf
bulk_step-empty = refl

pub bulk_step-append :
    (src b : Bytes) → settled (bulk_step src) ≡ true → bulk_step (src ++ b) ≡ bulk_step src
bulk_step-append [] b h = ground (arith, h, bulk_step-empty)
bulk_step-append (c ∷ cs) b h = elim (Option-cases (find_crlf (c ∷ cs))) [
  | inl missing ↦ unfold bulk_step in ground (arith, h, missing, length-append cs b)
  | inr (crlf, found) ↦
      let (again, room) = find_crlf-append (c ∷ cs) b crlf found in
      let number = take-append (crlf - 1) cs b (omega (arith, room)) in
      let body = drop-append (crlf + 2) (c ∷ cs) b room in
      let here = bulk_step_found c cs crlf found in
      bulk_step_found c (cs ++ b) crlf again
      ∙ rw (number, body)
          (headed-append (not (c == b'$') || crlf == 1) crlf (take (crlf - 1) cs)
            (drop (crlf + 2) (c ∷ cs)) b (subst (λ (w : BulkStep). settled w ≡ true) here h))
      ∙ sym here
]

numbered-got :
    (parsed : Option (ℤ × Bytes)) (crlf : ℕ) (body v : Bytes) (u : ℕ)
    → numbered parsed crlf body ≡ got v u
    → u ≤ crlf + 2 + length body
numbered-got none crlf body v u h = ground (arith, h)
numbered-got (some (negsuc n, rest)) crlf body v u h = ground (arith, h)
numbered-got (some (pos n, rest)) crlf body v u h = bulk_body-got n (crlf + 2) body v u h

headed-got :
    (unmarked : Bool) (crlf : ℕ) (number body v : Bytes) (u : ℕ)
    → headed unmarked crlf number body ≡ got v u
    → u ≤ crlf + 2 + length body
headed-got true crlf number body v u h = ground (arith, h)
headed-got false crlf number body v u h = numbered-got (from_chars int_max number) crlf body v u h

-- An argument lies within the bytes that are there.
pub bulk_step-got : (src v : Bytes) (u : ℕ) → bulk_step src ≡ got v u → u ≤ length src
bulk_step-got [] v u h = ground (arith, h, bulk_step-empty)
bulk_step-got (c ∷ cs) v u h = elim (Option-cases (find_crlf (c ∷ cs))) [
  | inl missing ↦ unfold bulk_step in ground (arith, h, missing)
  | inr (crlf, found) ↦
      let (_, room) = find_crlf-append (c ∷ cs) [] crlf found in
      let small =
        headed-got (not (c == b'$') || crlf == 1) crlf (take (crlf - 1) cs)
          (drop (crlf + 2) (c ∷ cs)) v u (sym (bulk_step_found c cs crlf found) ∙ h) in
      omega (arith, small, room, length-drop (crlf + 2) (c ∷ cs))
]
