-- ===== src/Control/Rules/Order.antt =====
-- The order of the rules of `RuleEngine` (main (2).py).
use mathlib.Core.List.{Perm}
use mathlib.Core.List.Perm
use centralized_hvac_system.Prelude.{
  String, Bool, not, List, [], ◌∷◌, ◌++◌, All, arith, ◌==◌, select, Bool-cases, inl, inr,
}
use centralized_hvac_system.Prelude.Int.{ℤ, ◌≤ℤ◌, leb_ℤ}
use centralized_hvac_system.Control.Rules.{
  Rule, RuleEngine, place, sort_rules, new_engine, load_rules, add_rule, delete_rule,
}

module _ {F : Type 0} where
  -- No rule before `r` in the list is less urgent.
  abbrev pub IsSorted : List (Rule F) → Type 0
  IsSorted [] = Unit
  IsSorted (r ∷ l) = All (λ s. r.priority ≤ℤ s.priority) l × IsSorted l

  abbrev pub From : ℤ → List (Rule F) → Type 0
  From p l = All (λ s. p ≤ℤ s.priority) l

  From-weaken : (p q : ℤ) (l : List (Rule F)) → p ≤ℤ q → From q l → From p l
  From-weaken p q [] h k = tt
  From-weaken p q (s ∷ l) h k = (omega arith, From-weaken p q l h k.1)

  From-place :
      (p : ℤ) (r : Rule F) (l : List (Rule F)) → p ≤ℤ r.priority → From p l → From p (place r l)
  unfolding place
  From-place p r [] h k = (h, tt)
  From-place p r (s ∷ l) h k = ground (arith, From-place p r l h)

  place-IsSorted : (r : Rule F) (l : List (Rule F)) → IsSorted l → IsSorted (place r l)
  unfolding place
  place-IsSorted r [] h = (tt, tt)
  place-IsSorted r (s ∷ l) h = elim (Bool-cases (leb_ℤ r.priority s.priority)) [
    | inl le ↦ rw le (((ground arith), From-weaken r.priority s.priority l (ground arith) h.0), h)
    | inr gt ↦ rw gt (From-place s.priority r l (ground arith) h.0, place-IsSorted r l h.1)
  ]

  pub sort_rules-IsSorted : (l : List (Rule F)) → IsSorted (sort_rules l)
  unfolding sort_rules
  sort_rules-IsSorted [] = tt
  sort_rules-IsSorted (r ∷ l) = place-IsSorted r (sort_rules l) (sort_rules-IsSorted l)

  place-perm : (r : Rule F) (l : List (Rule F)) → Perm (place r l) (r ∷ l)
  unfolding place
  place-perm r [] = Perm.refl (r ∷ [])
  place-perm r (s ∷ l) = elim (Bool-cases (leb_ℤ r.priority s.priority)) [
    | inl le ↦ rw le (Perm.refl (r ∷ s ∷ l))
    | inr gt ↦ rw gt (Perm.trans (Perm.cons s (place-perm r l)) (Perm.swap r s l))
  ]

  -- Sorting loses and invents no rule.
  sort_rules-perm : (l : List (Rule F)) → Perm (sort_rules l) l
  unfolding sort_rules
  sort_rules-perm [] = Perm.refl []
  sort_rules-perm (r ∷ l) =
      Perm.trans (place-perm r (sort_rules l)) (Perm.cons r (sort_rules-perm l))

  From-select :
      (p : ℤ) (keep : Rule F → Bool) (l : List (Rule F)) → From p l → From p (select keep l)
  From-select p keep [] h = tt
  From-select p keep (s ∷ l) h = ground (arith, From-select p keep l h.1)

  select-IsSorted :
      (keep : Rule F → Bool) (l : List (Rule F)) → IsSorted l → IsSorted (select keep l)
  select-IsSorted keep [] h = tt
  select-IsSorted keep (s ∷ l) h =
      ground (arith, select-IsSorted keep l h.1, From-select s.priority keep l h.0)

  -- Every operation on the rule list leaves it in the order of priority; only deleting asks for
  -- the order at the start.
  pub rules-IsSorted :
      (e : RuleEngine F) (l : List (Rule F)) (r : Rule F) (id : String)
      → IsSorted e.rules
      → IsSorted (new_engine l).rules
        × IsSorted (load_rules e l).rules
        × IsSorted (add_rule e r).rules
        × IsSorted (delete_rule e id).1.rules
  unfolding new_engine load_rules add_rule delete_rule
  rules-IsSorted e l r id h = (
    sort_rules-IsSorted l,
    sort_rules-IsSorted l,
    sort_rules-IsSorted (e.rules ++ r ∷ []),
    select-IsSorted (λ s. not (s.id == id)) e.rules h,
  )
