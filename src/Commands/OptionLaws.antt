-- ===== src/Commands/OptionLaws.antt =====
-- What the options of SET can be once they are accepted.
use rdss.Base.{
  ℕ, ◌≤◌, ◌<◌, ◌≡◌, refl, arith, true, false, Option, none, some, List, [], ◌∷◌, Bytes, ap, ◌∙◌,
  Option-cases, inl, inr, ℤ, pos, negsuc, from_chars, from_chars_unsigned, subst,
}
use rdss.Commands.Times.{time_max, parse_int, ExpireKind, expire_kind}
use rdss.Commands.TimeLaws.{rep_to_tp_bounds}
use rdss.Commands.Options.{
  expire_at, SetOptions, no_options, OptionStep, option_step, one, two, fail,
  extract_expire_options, done, extract_set_options, options, refused,
}

-- An accepted number of a signed type is at most the type's maximum.
pub parse_int-le : (hi : ℕ) (str : Bytes) {n : ℕ} → parse_int hi str ≡ some (pos n) → n ≤ hi
unfolding parse_int from_chars from_chars_unsigned
parse_int-le hi [] h = ground arith
parse_int-le hi (c ∷ cs) h = ground arith

-- The options agree: no deadline beside KEEPTTL, and a deadline that the clock can represent.
pub record Agree (o : SetOptions) : Type 0 where
  pub apart : o.keep_ttl ≡ true → o.expire_time ≡ none
  pub bounded : (t : ℕ) → o.expire_time ≡ some t → (0 < t) × (t ≤ time_max)

options_injective : (o o' : SetOptions) → options o ≡ options o' → o ≡ o'
options_injective o o' h = ground arith

module _ (now : ℕ) (clock : now ≤ time_max) where
  expire_at_bounds :
      (kind : ExpireKind) (ll : ℤ) {t : ℕ}
      → ((n : ℕ) → ll ≡ pos n → n ≤ time_max)
      → expire_at kind now ll ≡ done t
      → (0 < t) × (t ≤ time_max)
  unfolding expire_at
  expire_at_bounds kind (negsuc n) small h = ground arith
  expire_at_bounds kind (pos n) {t} small h =
      rep_to_tp_bounds kind now n (ground arith) (small n refl) clock (ground arith)

  extract_expire_bounds :
      (a : Bytes) (next : Option Bytes) (old : Option ℕ) {t : ℕ}
      → extract_expire_options a next now old ≡ done t
      → (old ≡ none) × (0 < t) × (t ≤ time_max)
  unfolding extract_expire_options
  extract_expire_bounds a none old h = ground arith
  extract_expire_bounds a (some str) (some t') h = ground arith
  extract_expire_bounds a (some str) none {t} h = elim (Option-cases (expire_kind a)) [
    | inl unknown ↦ ground arith
    | inr (kind, known) ↦ elim (Option-cases (parse_int time_max str)) [
      | inl bad ↦ ground arith
      | inr (ll, parsed) ↦
          let b =
            expire_at_bounds kind ll (λ n e. parse_int-le time_max str (parsed ∙ ap some e))
              (ground arith) in
          (refl, b.0, b.1)
    ]
  ]

  one-Agree :
      (a : Bytes) (next : Option Bytes) (o o' : SetOptions)
      → Agree o
      → option_step a next now o ≡ one o'
      → Agree o'
  unfolding option_step
  one-Agree a next o o' g h = record {
    apart = ground (arith, g.apart);
    bounded = λ t. ground (arith, g.bounded t);
  }

  two_inversion :
      (a : Bytes) (next : Option Bytes) (o o' : SetOptions)
      → option_step a next now o ≡ two o'
      → (t : ℕ) × (extract_expire_options a next now o.expire_time ≡ done t)
        × (o'.expire_time ≡ some t)
        × (o'.keep_ttl ≡ false)
  unfolding option_step
  two_inversion a next o o' h = ground arith

  two-Agree :
      (a : Bytes) (next : Option Bytes) (o o' : SetOptions)
      → option_step a next now o ≡ two o'
      → Agree o'
  two-Agree a next o o' h =
      let (t, taken, time, unkept) = two_inversion a next o o' h in
      let (_, after, before) = extract_expire_bounds a next o.expire_time taken in
      record { apart = ground arith; bounded = λ t'. ground arith }

  extract_Agree :
      (args : List Bytes) (o o' : SetOptions)
      → Agree o
      → extract_set_options args now o ≡ options o'
      → Agree o'
  unfolding extract_set_options
  extract_Agree [] o o' g h = subst Agree (options_injective o o' h) g
  extract_Agree (a ∷ []) o o' g h = go (option_step a none now o) refl h
    where
      go :
          (step : OptionStep)
          → option_step a none now o ≡ step
          → (elim step [ one p ↦ options p | two p ↦ options p | fail e ↦ refused e ]) ≡ options o'
          → Agree o'
      go (one p) e h' = subst Agree (options_injective p o' h') (one-Agree a none o p g e)
      go (two p) e h' = subst Agree (options_injective p o' h') (two-Agree a none o p e)
      go (fail e') e h' = cc
  extract_Agree (a ∷ b ∷ args) o o' g h =
      go (λ p. extract_Agree (b ∷ args) p o') (λ p. extract_Agree args p o')
        (option_step a (some b) now o) refl h
    where
      go :
          ((p : SetOptions)
            → Agree p
            → extract_set_options (b ∷ args) now p ≡ options o'
            → Agree o')
          → ((p : SetOptions) → Agree p → extract_set_options args now p ≡ options o' → Agree o')
          → (step : OptionStep) → option_step a (some b) now o ≡ step
          → (elim step [
            | one p ↦ extract_set_options (b ∷ args) now p
            | two p ↦ extract_set_options args now p
            | fail e ↦ refused e
          ])
            ≡ options o'
          → Agree o'
      go by_one by_two (one p) e h' = by_one p (one-Agree a (some b) o p g e) h'
      go by_one by_two (two p) e h' = by_two p (two-Agree a (some b) o p e) h'
      go by_one by_two (fail e') e h' = cc

-- At a time that the clock can represent, whatever options SET accepts agree: a deadline and KEEPTTL exclude one another, and a deadline lies
-- after 1970 and within what the clock can represent.
pub extract_set_options-Agree :
    (args : List Bytes) (now : ℕ) (o : SetOptions)
    → now ≤ time_max
    → extract_set_options args now no_options ≡ options o
    → Agree o
extract_set_options-Agree args now o clock h =
    extract_Agree now clock args no_options o
      (record { apart = λ e. refl; bounded = λ t. ground arith }) h
