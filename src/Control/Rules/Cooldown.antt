-- ===== src/Control/Rules/Cooldown.antt =====
-- The cooldowns of `RuleEngine.evaluate` (main (2).py).
use text.Mathlib.TextLemmas.{append_cancel_right}
use centralized_hvac_system.Prelude.{
  String, ◌≡◌, refl, sym, ap, ◌∙◌, inl, inr, Bool, true, false, ◌||◌, some, List, [], ◌∷◌, ◌++◌,
  map, All, arith, ◌==◌, eq_iff, Bool-cases, ◌<>◌,
}
use centralized_hvac_system.Prelude.Result.{ok}
use centralized_hvac_system.Float.{Float}
use centralized_hvac_system.Dict.{Dict, lookup, lookup-insert, lookup-insert_self}
use centralized_hvac_system.Control.Value.{Twin, shown}
use centralized_hvac_system.Control.Rules.{
  Rule, RuleEngine, RuleAction, Firings, firings, skipped, cooling, cooldown_key, conclude, visit,
  visit_all, evaluate,
}
use centralized_hvac_system.Control.Rules.Firing.{visit_all-cons}

-- Some action in the list comes from a rule of that id.
abbrev pub names : {F : Type 0} → String → Firings F → Bool
names id [] = false
names id (f ∷ out) = f.0.id == id || names id out

module _ {F : Type 0} where
  names-append :
      (id : String) (xs ys : Firings F) → names id (xs ++ ys) ≡ (names id xs || names id ys)
  names-append id [] ys = refl
  names-append id (f ∷ xs) ys = ground (arith, names-append id xs ys)

  names-map :
      (id : String) (r : Rule F) (l : List (RuleAction F))
      → (r.id == id) ≡ false
      → names id (map (λ a. (r, a)) l) ≡ false
  names-map id r [] h = refl
  names-map id r (a ∷ l) h = ground (arith, names-map id r l h)

  names-firings : (id : String) (r : Rule F) → (r.id == id) ≡ false → names id (firings r) ≡ false
  unfolding firings
  names-firings id r h = names-map id r r.actions h

module _ {F : Type 0} ⦃fl : Float F⦄ where
  -- The key under which the firings of rule `id` for the twin's unit are noted.
  abbrev pub key_of : String → Twin F → String
  key_of id twin = id <> ":" <> shown (lookup "unit_id" twin)

  -- Every rule of that id is within its period, counted from `t`.
  abbrev pub WithinPeriod : String → F → F → List (Rule F) → Type 0
  WithinPeriod id now t rules =
      All (λ r. r.id ≡ id → fl.lt (fl.sub now t) (fl.of_int r.cooldown_s) ≡ true) rules

  keys_differ :
      (id : String) (r : Rule F) (twin : Twin F)
      → (r.id == id) ≡ false
      → (cooldown_key r twin == key_of id twin) ≡ false
  unfolding cooldown_key
  keys_differ id r twin h = ground (
    arith,
    eq_iff (cooldown_key r twin) (key_of id twin),
    eq_iff r.id id,
    append_cancel_right r.id id (":" <> shown (lookup "unit_id" twin)),
  )

module _ {F : Type 0} ⦃fl : Float F⦄ (now : F) (twin : Twin F) (id : String) where
  -- A rule of another id leaves this rule's cooldown alone and gives none of its actions.
  visit_other :
      (r : Rule F) (c : Dict F) (out : Firings F)
      → (r.id == id) ≡ false
      → (lookup (key_of id twin) (visit now twin r c).1 ≡ lookup (key_of id twin) c)
        × ((visit now twin r c).0 ≡ ok out → names id out ≡ false)
  unfolding visit conclude
  visit_other r c out h = ground (
    arith,
    lookup-insert (cooldown_key r twin) (key_of id twin) now c,
    keys_differ id r twin h,
    names-firings id r h,
  )

  -- A rule that is cooling does nothing.
  visit_cooling :
      (r : Rule F) (c : Dict F) (t : F)
      → r.id ≡ id
      → lookup (key_of id twin) c ≡ some t
      → fl.lt (fl.sub now t) (fl.of_int r.cooldown_s) ≡ true
      → visit now twin r c ≡ (ok [], c)
  unfolding visit skipped cooling cooldown_key
  visit_cooling r c t same noted within = ground arith

  -- Once the rule has fired in this pass its key holds this pass's time.
  visit_notes :
      (r : Rule F) (c : Dict F) (out : Firings F)
      → (visit now twin r c).0 ≡ ok out
      → names id out ≡ true
      → lookup (key_of id twin) (visit now twin r c).1 ≡ some now
  unfolding visit conclude cooldown_key
  visit_notes r c out h n = elim (Bool-cases (r.id == id)) [
    | inl same ↦
        ground (arith, eq_iff r.id id, lookup-insert_self (cooldown_key r twin) now c, h, n)
    | inr other ↦ absurd (cc ((visit_other r c out other).1 h, n))
  ]

  -- A time of this pass, once noted, stays.
  visit_keeps :
      (r : Rule F) (c : Dict F)
      → lookup (key_of id twin) c ≡ some now
      → lookup (key_of id twin) (visit now twin r c).1 ≡ some now
  unfolding visit conclude
  visit_keeps r c h = ground (arith, lookup-insert (cooldown_key r twin) (key_of id twin) now c)

  visit_all_keeps :
      (rules : List (Rule F)) (c : Dict F) (out : Firings F)
      → lookup (key_of id twin) c ≡ some now
      → (visit_all now twin rules c).0 ≡ ok out
      → lookup (key_of id twin) (visit_all now twin rules c).1 ≡ some now
  visit_all_keeps [] c out h e = unfold visit_all in h
  visit_all_keeps (r ∷ rules) c out h e =
      let (_, there, _, rest, _, same) = visit_all-cons now twin r rules c out e in
      let later = visit_all_keeps rules (visit now twin r c).1 there (visit_keeps r c h) rest in
      ap (lookup (key_of id twin)) same ∙ later

  visit_all_notes :
      (rules : List (Rule F)) (c : Dict F) (out : Firings F)
      → (visit_all now twin rules c).0 ≡ ok out
      → names id out ≡ true
      → lookup (key_of id twin) (visit_all now twin rules c).1 ≡ some now
  visit_all_notes [] c out e n = unfold visit_all in ground arith
  visit_all_notes (r ∷ rules) c out e n =
      let (here, there, first, rest, split, same) = visit_all-cons now twin r rules c out e in
      let c' = (visit now twin r c).1 in
      let named : (names id here || names id there) ≡ true =
        sym (names-append id here there) ∙ (ap (names id) (sym split) ∙ n) in
      ap (lookup (key_of id twin)) same ∙ elim (Bool-cases (names id here)) [
        | inl fired ↦ visit_all_keeps rules c' there (visit_notes r c here first fired) rest
        | inr quiet ↦ visit_all_notes rules c' there rest (rw quiet at named)
      ]

  visit_all_cooling :
      (rules : List (Rule F)) (c : Dict F) (t : F) (out : Firings F)
      → WithinPeriod id now t rules
      → lookup (key_of id twin) c ≡ some t
      → (visit_all now twin rules c).0 ≡ ok out
      → names id out ≡ false
  visit_all_cooling [] c t out within noted e = unfold visit_all in ground arith
  visit_all_cooling (r ∷ rules) c t out within noted e =
      let (here, there, first, rest, split, _) = visit_all-cons now twin r rules c out e in
      let c' = (visit now twin r c).1 in
      let turn : (names id here ≡ false) × (lookup (key_of id twin) c' ≡ some t) =
        elim (Bool-cases (r.id == id)) [
          | inl is_id ↦
              let same = (eq_iff r.id id).0 is_id in
              let idle = visit_cooling r c t same noted (within.0 same) in ground (arith, idle)
          | inr other ↦
              let (kept, silent) = visit_other r c here other in (silent first, kept ∙ noted)
        ] in
      let later = visit_all_cooling rules c' t there within.1 turn.1 rest in
      ap (names id) split ∙ (names-append id here there ∙ cc (turn.0, later))

module _ {F : Type 0} ⦃fl : Float F⦄ where
  -- An evaluation that returns an action of rule `id` notes its time for that rule and unit.
  pub evaluate_notes :
      (now : F) (twin : Twin F) (id : String) (e : RuleEngine F) (out : Firings F)
      → (evaluate now twin e).0 ≡ ok out
      → names id out ≡ true
      → lookup (key_of id twin) (evaluate now twin e).1.cooldowns ≡ some now
  unfolding evaluate
  evaluate_notes now twin id e out h n = visit_all_notes now twin id e.rules e.cooldowns out h n

  -- While the period since the noted time has not passed, no action of that rule comes out.
  pub evaluate_cooling :
      (now : F) (twin : Twin F) (id : String) (e : RuleEngine F) (t : F) (out : Firings F)
      → WithinPeriod id now t e.rules
      → lookup (key_of id twin) e.cooldowns ≡ some t
      → (evaluate now twin e).0 ≡ ok out
      → names id out ≡ false
  unfolding evaluate
  evaluate_cooling now twin id e t out within noted h =
      visit_all_cooling now twin id e.rules e.cooldowns t out within noted h

  -- A rule that fired for a unit does not fire for it again, whatever the unit's state is then, in
  -- an evaluation that follows within the rule's cooldown period.
  pub no_refire :
      (id : String) (e : RuleEngine F) (t t' : F) (twin twin' : Twin F) (out out' : Firings F)
      → lookup "unit_id" twin ≡ lookup "unit_id" twin'
      → (evaluate t twin e).0 ≡ ok out
      → names id out ≡ true
      → WithinPeriod id t' t e.rules
      → (evaluate t' twin' (evaluate t twin e).1).0 ≡ ok out'
      → names id out' ≡ false
  no_refire id e t t' twin twin' out out' unit first fired within second =
      let e' = (evaluate t twin e).1 in
      let noted = evaluate_notes t twin id e out first fired in
      evaluate_cooling t' twin' id e' t out' (unfold evaluate in within)
        (rw (sym (ap (λ u. id <> ":" <> shown u) unit)) noted) second
