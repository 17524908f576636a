-- ===== src/Dispatch/Dictionary.antt =====
-- What holds of every command that is registered holds of every command that is found.
use rdss.Base.{
  ℕ, ◌≡◌, ◌∙◌, sym, ap, true, Bool-cases, Option-cases, inl, inr, Option, none, some, List, [], ◌∷◌,
  Bytes, subst, refl,
}
use rdss.KeyTable.{KeyTable}
use rdss.Resp.Result.{MtsPtr}
use rdss.Service.Eviction.{Draws}
use rdss.Dispatch.{Command, CommandDictionary, register_command, lookup}
use rdss.Dispatch.Names.{
  is_name_of, lookup-register_command, IgnoresCase, register_command-IgnoresCase,
}
use rdss.Dispatch.Registry.{register_all}
use rdss.Dispatch.Calls.{Fits}

module _ {d : KeyTable MtsPtr none} {x : KeyTable ℕ 0} {draws : Draws d} where
  -- every name in the dictionary stands for a command that fits it
  abbrev pub AllFit : CommandDictionary d x draws → Type 0
  AllFit commands =
      (q : Bytes) (c : Command d x draws)
      → lookup commands q ≡ some c
      → Fits c × (is_name_of c.name_ q ≡ true)

  abbrev pub Each : List (Command d x draws) → Type 0
  Each [] = Unit
  Each (c ∷ cs) = Fits c × Each cs

  or_else : Command d x draws → Option (Command d x draws) → Command d x draws
  or_else c none = c
  or_else c (some e) = e

  register_command-AllFit :
      (c : Command d x draws) (commands : CommandDictionary d x draws)
      → Fits c
      → AllFit commands
      → AllFit (register_command c.name_ c commands)
  unfolding or_else
  register_command-AllFit c commands fit all q b found =
      let now = lookup-register_command c.name_ q c commands in
      elim (Option-cases (lookup commands q)) [
        | inr (e, there) ↦ all q b (elim (Bool-cases (is_name_of c.name_ q)) [
          | inl own ↦ sym (now ∙ rw (own, there) refl) ∙ found
          | inr other ↦ sym (now ∙ rw other refl) ∙ found
        ])
        | inl missing ↦ elim (Bool-cases (is_name_of c.name_ q)) [
          | inl own ↦
              let same : some c ≡ some b = sym (now ∙ rw (own, missing) refl) ∙ found in
              subst (λ (e : Command d x draws). Fits e × (is_name_of e.name_ q ≡ true))
                (ap (or_else c) same) (fit, own)
          | inr other ↦ all q b (sym (now ∙ rw other refl) ∙ found)
        ]
      ]

  pub register_all-AllFit :
      (cs : List (Command d x draws)) (commands : CommandDictionary d x draws)
      → Each cs
      → AllFit commands
      → AllFit (register_all d x draws cs commands)
  unfolding register_all
  register_all-AllFit [] commands each all = all
  register_all-AllFit (c ∷ cs) commands each all =
      register_all-AllFit cs (register_command c.name_ c commands) each.1
        (register_command-AllFit c commands each.0 all)

  pub register_all-IgnoresCase :
      (cs : List (Command d x draws)) (commands : CommandDictionary d x draws)
      → IgnoresCase commands
      → IgnoresCase (register_all d x draws cs commands)
  unfolding register_all
  register_all-IgnoresCase [] commands h = h
  register_all-IgnoresCase (c ∷ cs) commands h =
      register_all-IgnoresCase cs (register_command c.name_ c commands)
        (register_command-IgnoresCase c.name_ c commands h)
