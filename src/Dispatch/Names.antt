-- ===== src/Dispatch/Names.antt =====
-- The names under which commands are found: a name in upper case and in lower case are the same command.
use rdss.Base.{
  ℕ, ◌≡◌, refl, sym, ap, ◌∙◌, arith, Bool, ◌||◌, some, List, [], ◌∷◌, Bytes, bytes_eq, bytes_eq_iff,
  if◌then◌else◌, is_some,
}
use rdss.Dispatch.{
  lookup, emplace_command, register_command, to_lower, to_upper, lower_char, upper_char,
}

upper_char-lower_char : (c : ℕ) → upper_char (lower_char c) ≡ upper_char c
upper_char-lower_char c = ground arith

lower_char-upper_char : (c : ℕ) → lower_char (upper_char c) ≡ lower_char c
lower_char-upper_char c = ground arith

upper_char-upper_char : (c : ℕ) → upper_char (upper_char c) ≡ upper_char c
upper_char-upper_char c = ground arith

lower_char-lower_char : (c : ℕ) → lower_char (lower_char c) ≡ lower_char c
lower_char-lower_char c = ground arith

to_upper-to_lower : (name : Bytes) → to_upper (to_lower name) ≡ to_upper name
to_upper-to_lower [] = refl
to_upper-to_lower (c ∷ name) = rw (upper_char-lower_char c, to_upper-to_lower name) refl

to_lower-to_upper : (name : Bytes) → to_lower (to_upper name) ≡ to_lower name
to_lower-to_upper [] = refl
to_lower-to_upper (c ∷ name) = rw (lower_char-upper_char c, to_lower-to_upper name) refl

to_upper-to_upper : (name : Bytes) → to_upper (to_upper name) ≡ to_upper name
to_upper-to_upper [] = refl
to_upper-to_upper (c ∷ name) = rw (upper_char-upper_char c, to_upper-to_upper name) refl

to_lower-to_lower : (name : Bytes) → to_lower (to_lower name) ≡ to_lower name
to_lower-to_lower [] = refl
to_lower-to_lower (c ∷ name) = rw (lower_char-lower_char c, to_lower-to_lower name) refl

-- the two tests agree where each of their equations gives one of the other
same :
    (a b c d : Bytes)
    → (a ≡ d → a ≡ c)
    → (b ≡ d → a ≡ c)
    → (a ≡ c → b ≡ d)
    → (b ≡ c → b ≡ d)
    → (bytes_eq a d || bytes_eq b d) ≡ (bytes_eq a c || bytes_eq b c)
same a b c d ad bd ac bc =
    ground (arith, bytes_eq_iff a d, bytes_eq_iff b d, bytes_eq_iff a c, bytes_eq_iff b c)

-- whether `q` is one of the two names under which `m` is registered
abbrev pub is_name_of : Bytes → Bytes → Bool
is_name_of m q = bytes_eq (to_lower m) q || bytes_eq (to_upper m) q

-- a name in upper case is one of the two names of a command if the name in lower case is
is_name_of-cases : (m name : Bytes) → is_name_of m (to_upper name) ≡ is_name_of m (to_lower name)
is_name_of-cases m name =
    let a_d : to_lower m ≡ to_upper name → to_lower m ≡ to_lower name =
      λ h. sym (to_lower-to_lower m) ∙ ap to_lower h ∙ to_lower-to_upper name in
    let b_d : to_upper m ≡ to_upper name → to_lower m ≡ to_lower name =
      λ h. sym (to_lower-to_upper m) ∙ ap to_lower h ∙ to_lower-to_upper name in
    let a_c : to_lower m ≡ to_lower name → to_upper m ≡ to_upper name =
      λ h. sym (to_upper-to_lower m) ∙ ap to_upper h ∙ to_upper-to_lower name in
    let b_c : to_upper m ≡ to_lower name → to_upper m ≡ to_upper name =
      λ h. sym (to_upper-to_upper m) ∙ ap to_upper h ∙ to_upper-to_lower name in
    same (to_lower m) (to_upper m) (to_lower name) (to_upper name) a_d b_d a_c b_c

module _ {A : Type 0} where
  lookup-emplace_command :
      (name q : Bytes) (c : A) (commands : List (Bytes × A))
      → lookup (emplace_command name c commands) q ≡ (
          if bytes_eq name q
          then (if is_some (lookup commands q) then lookup commands q else some c)
          else lookup commands q)
  unfolding lookup emplace_command
  lookup-emplace_command name q c [] = ground arith
  lookup-emplace_command name q c ((k, b) ∷ commands) = ground (
    arith,
    lookup-emplace_command name q c commands,
    bytes_eq_iff k name,
    bytes_eq_iff name q,
    bytes_eq_iff k q,
  )

  pub lookup-register_command :
      (name q : Bytes) (c : A) (commands : List (Bytes × A))
      → lookup (register_command name c commands) q ≡ (
          if is_name_of name q
          then (if is_some (lookup commands q) then lookup commands q else some c)
          else lookup commands q)
  unfolding register_command
  lookup-register_command name q c commands = ground (
    arith,
    lookup-emplace_command (to_upper (to_lower name)) q c
        (emplace_command (to_lower name) c commands),
    lookup-emplace_command (to_lower name) q c commands,
    to_upper-to_lower name,
  )

  -- A name in upper case and the same name in lower case find the same.
  abbrev pub IgnoresCase : List (Bytes × A) → Type 0
  IgnoresCase commands =
      (name : Bytes) → lookup commands (to_upper name) ≡ lookup commands (to_lower name)

  pub register_command-IgnoresCase :
      (name : Bytes) (c : A) (commands : List (Bytes × A))
      → IgnoresCase commands
      → IgnoresCase (register_command name c commands)
  register_command-IgnoresCase name c commands h q = ground (
    arith,
    lookup-register_command name (to_upper q) c commands,
    lookup-register_command name (to_lower q) c commands,
    is_name_of-cases name q,
    h q,
  )
