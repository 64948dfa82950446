-- ===== src/Control/Rules/Firing.antt =====
-- The list that `RuleEngine.evaluate` (main (2).py) returns.
use centralized_hvac_system.Prelude.{
  ◌≡◌, sym, ap, ◌∙◌, ◌⊎◌, inl, inr, List, [], ◌∷◌, ◌++◌, map, All, arith,
}
use centralized_hvac_system.Prelude.Int.{ℤ, ◌≤ℤ◌}
use centralized_hvac_system.Prelude.Result.{Result, ok, Exec, and_then, and_then-eq-ok}
use centralized_hvac_system.Float.{Float}
use centralized_hvac_system.Dict.{Dict}
use centralized_hvac_system.Control.Value.{Twin}
use centralized_hvac_system.Control.Rules.{
  Rule, RuleEngine, RuleAction, Firings, firings, conclude, visit, visit_all, evaluate,
}
use centralized_hvac_system.Control.Rules.Order.{IsSorted, From}

module _ {F : Type 0} where
  abbrev pub FiredFrom : ℤ → Firings F → Type 0
  FiredFrom p out = All (λ f. p ≤ℤ f.0.priority) out

  -- No action before another comes from a less urgent rule.
  abbrev pub IsUrgentFirst : Firings F → Type 0
  IsUrgentFirst [] = Unit
  IsUrgentFirst (f ∷ out) = FiredFrom f.0.priority out × IsUrgentFirst out

  FiredFrom-map :
      (p : ℤ) (r : Rule F) (l : List (RuleAction F)) (out : Firings F)
      → p ≤ℤ r.priority
      → FiredFrom p out
      → FiredFrom p (map (λ a. (r, a)) l ++ out)
  FiredFrom-map p r [] out h k = k
  FiredFrom-map p r (a ∷ l) out h k = (h, FiredFrom-map p r l out h k)

  IsUrgentFirst-map :
      (r : Rule F) (l : List (RuleAction F)) (out : Firings F)
      → FiredFrom r.priority out
      → IsUrgentFirst out
      → IsUrgentFirst (map (λ a. (r, a)) l ++ out)
  IsUrgentFirst-map r [] out h k = k
  IsUrgentFirst-map r (a ∷ l) out h k =
      (FiredFrom-map r.priority r l out (omega arith) h, IsUrgentFirst-map r l out h k)

  FiredFrom-firings :
      (p : ℤ) (r : Rule F) (out : Firings F)
      → p ≤ℤ r.priority
      → FiredFrom p out
      → FiredFrom p (firings r ++ out)
  unfolding firings
  FiredFrom-firings p r out h k = FiredFrom-map p r r.actions out h k

  IsUrgentFirst-firings :
      (r : Rule F) (out : Firings F)
      → FiredFrom r.priority out
      → IsUrgentFirst out
      → IsUrgentFirst (firings r ++ out)
  unfolding firings
  IsUrgentFirst-firings r out h k = IsUrgentFirst-map r r.actions out h k

module _ {F : Type 0} ⦃fl : Float F⦄ (now : F) (twin : Twin F) where
  -- A rule's turn gives nothing, or all of the rule's actions.
  pub visit_gives :
      (r : Rule F) (c : Dict F) (out : Firings F)
      → (visit now twin r c).0 ≡ ok out
      → (out ≡ []) ⊎ (out ≡ firings r)
  unfolding visit conclude
  visit_gives r c out h = ground arith

  -- A pass that returned is a first turn that returned, and a pass over the other rules.
  pub visit_all-cons :
      (r : Rule F) (rules : List (Rule F)) (c : Dict F) (out : Firings F)
      → (visit_all now twin (r ∷ rules) c).0 ≡ ok out
      → (here : Firings F) × (there : Firings F) × ((visit now twin r c).0 ≡ ok here)
        × ((visit_all now twin rules (visit now twin r c).1).0 ≡ ok there)
        × (out ≡ here ++ there)
        × ((visit_all now twin (r ∷ rules) c).1
            ≡ (visit_all now twin rules (visit now twin r c).1).1)
  unfolding visit_all
  visit_all-cons r rules c out h =
      let rest : Firings F → Exec (Dict F) (Firings F) =
        λ here c'. and_then (visit_all now twin rules c') λ there c''. (ok (here ++ there), c'') in
      let (here, p, e) = and_then-eq-ok (visit now twin r c) rest out h in
      let c' = (visit now twin r c).1 in
      let (there, q, e') =
        and_then-eq-ok (visit_all now twin rules c') (λ there c''. (ok (here ++ there), c'')) out
          (ap (λ m. m.0) (sym e) ∙ h) in
      let returned : Result.ok (here ++ there) ≡ ok out = ap (λ m. m.0) (sym (e ∙ e')) ∙ h in
      (here, there, p, q, cc, ap (λ m. m.1) (e ∙ e'))

  visit_all-FiredFrom :
      (p : ℤ) (rules : List (Rule F)) (c : Dict F) (out : Firings F)
      → From p rules
      → (visit_all now twin rules c).0 ≡ ok out
      → FiredFrom p out
  visit_all-FiredFrom p [] c out k h = unfold visit_all in ground arith
  visit_all-FiredFrom p (r ∷ rules) c out k h =
      let (here, there, first, rest, e, _) = visit_all-cons r rules c out h in
      let later = visit_all-FiredFrom p rules (visit now twin r c).1 there k.1 rest in
      rw e (elim (visit_gives r c here first) [
        | inl none_here ↦ rw none_here later
        | inr all_here ↦ rw all_here (FiredFrom-firings p r there k.0 later)
      ])

  visit_all-IsUrgentFirst :
      (rules : List (Rule F)) (c : Dict F) (out : Firings F)
      → IsSorted rules
      → (visit_all now twin rules c).0 ≡ ok out
      → IsUrgentFirst out
  visit_all-IsUrgentFirst [] c out k h = unfold visit_all in ground arith
  visit_all-IsUrgentFirst (r ∷ rules) c out k h =
      let (here, there, first, rest, e, _) = visit_all-cons r rules c out h in
      let c' = (visit now twin r c).1 in
      let later = visit_all-IsUrgentFirst rules c' there k.1 rest in
      let below = visit_all-FiredFrom r.priority rules c' there k.0 rest in
      rw e (elim (visit_gives r c here first) [
        | inl none_here ↦ rw none_here later
        | inr all_here ↦ rw all_here (IsUrgentFirst-firings r there below later)
      ])

  -- From rules in the order of priority, the actions come out most urgent first.
  pub evaluate-IsUrgentFirst :
      (e : RuleEngine F) (out : Firings F)
      → IsSorted e.rules
      → (evaluate now twin e).0 ≡ ok out
      → IsUrgentFirst out
  unfolding evaluate
  evaluate-IsUrgentFirst e out sorted h = visit_all-IsUrgentFirst e.rules e.cooldowns out sorted h
