-- ===== src/Alerts/Detector/Window.antt =====
-- The sliding windows of the anomaly detector (main (3).py, `AnomalyDetector.update`).
use centralized_hvac_system.Prelude.{
  append_assoc, append_nil, ℕ, zero, suc, ◌-◌, ◌≤◌, ◌<◌, String, ◌≡◌, refl, sym, ap, ◌∙◌, List, [],
  ◌∷◌, ◌++◌, length, drop, ltb, if◌then◌else◌, or_else, arith, Bool-cases, inl, inr, length-append,
  length-drop, ◌==◌, eq_iff,
}
use centralized_hvac_system.Float.{Float}
use centralized_hvac_system.Dict.{Dict, lookup, insert, lookup-insert}
use centralized_hvac_system.Models.{TelemetryPayload}
use centralized_hvac_system.Alerts.Detector.{AnomalyDetector, window, tail, slide, update}

-- The last `n` of a list.
abbrev pub last : {A : Type 0} → ℕ → List A → List A
last n xs = drop (length xs - n) xs

drop-append :
    {A : Type 0} (k : ℕ) (xs ys : List A) → k ≤ length xs → drop k (xs ++ ys) ≡ drop k xs ++ ys
drop-append zero xs ys h = refl
drop-append (suc k) [] ys h = absurd (omega arith)
drop-append (suc k) (x ∷ xs) ys h = drop-append k xs ys (omega arith)

tail-drop : {A : Type 0} (k : ℕ) (xs : List A) → tail (drop k xs) ≡ drop (suc k) xs
tail-drop zero [] = refl
tail-drop zero (x ∷ xs) = refl
tail-drop (suc k) [] = refl
tail-drop (suc k) (x ∷ xs) = tail-drop k xs

-- Sliding the last five readings on gives the last five with the new one.
slide-last :
    {A : Type 0} (x : A) (xs : List A) → slide x (last window xs) ≡ last window (xs ++ x ∷ [])
unfolding slide
slide-last x xs =
    let k = length xs - window in
    let joined = drop-append k xs (x ∷ []) (omega arith) in
    let all = length-append xs (x ∷ []) in
    let count = length-append (drop k xs) (x ∷ []) in
    let left = length-drop k xs in
    elim (Bool-cases (ltb window (length (drop k xs ++ x ∷ [])))) [
      | inl over ↦
          let more : window < length (drop k xs ++ x ∷ []) = ground arith in
          let next : length (xs ++ x ∷ []) - window ≡ suc k = omega (arith, all, count, left) in
          rw over (
            ap tail (sym joined)
            ∙ (tail-drop k (xs ++ x ∷ []) ∙ ap (λ n. drop n (xs ++ x ∷ [])) (sym next)))
      | inr under ↦
          let fits : length (drop k xs ++ x ∷ []) ≤ window = ground arith in
          let next : length (xs ++ x ∷ []) - window ≡ k = omega (arith, all, count, left) in
          rw under (sym joined ∙ ap (λ n. drop n (xs ++ x ∷ [])) (sym next))
    ]

module _ {F : Type 0} ⦃fl : Float F⦄ where
  -- The detector after a sequence of readings.
  abbrev pub updates : List (TelemetryPayload F) → AnomalyDetector F → AnomalyDetector F
  updates [] d = d
  updates (t ∷ ts) d = updates ts (update t d).1

  -- The readings of a unit, by what is read.
  abbrev pub readings_of : (TelemetryPayload F → F) → String → List (TelemetryPayload F) → List F
  readings_of f u [] = []
  readings_of f u (t ∷ ts) =
      let rest = readings_of f u ts in if t.unit_id == u then f t ∷ rest else rest

  -- The windows by themselves.
  abbrev slides :
      (TelemetryPayload F → F) → List (TelemetryPayload F) → Dict (List F) → Dict (List F)
  slides f [] w = w
  slides f (t ∷ ts) w =
      slides f ts (insert t.unit_id (slide (f t) (or_else (lookup t.unit_id w) [])) w)

  slides-last :
      (f : TelemetryPayload F → F) (u : String) (ts : List (TelemetryPayload F)) (w : Dict (List F))
      (before : List F)
      → or_else (lookup u w) [] ≡ last window before
      → or_else (lookup u (slides f ts w)) [] ≡ last window (before ++ readings_of f u ts)
  slides-last f u [] w before h = h ∙ ap (last window) (sym (append_nil before))
  slides-last f u (t ∷ ts) w before h =
      let old = or_else (lookup t.unit_id w) [] in
      let w' = insert t.unit_id (slide (f t) old) w in
      let look = lookup-insert t.unit_id u (slide (f t) old) w in
      elim (Bool-cases (t.unit_id == u)) [
        | inl own ↦
            let same = (eq_iff t.unit_id u).0 own in
            let now_last : or_else (lookup u w') [] ≡ last window (before ++ f t ∷ []) =
              ap (λ o. or_else o []) (rw own at look)
              ∙ (ap (λ v. slide (f t) (or_else (lookup v w) [])) same
                  ∙ (ap (slide (f t)) h ∙ slide-last (f t) before)) in
            rw own (
              slides-last f u ts w' (before ++ f t ∷ []) now_last
              ∙ ap (last window) (append_assoc before (f t ∷ []) (readings_of f u ts)))
        | inr other ↦
            rw other (slides-last f u ts w' before (ap (λ o. or_else o []) (rw other at look) ∙ h))
      ]

  updates-slides :
      (ts : List (TelemetryPayload F)) (d : AnomalyDetector F)
      → ((updates ts d).temp_windows ≡ slides (λ t. t.temperature) ts d.temp_windows)
        × ((updates ts d).load_windows ≡ slides (λ t. t.load) ts d.load_windows)
  unfolding update
  updates-slides [] d = (refl, refl)
  updates-slides (t ∷ ts) d = updates-slides ts (update t d).1

  -- `AnomalyDetector()`
  abbrev pub new_detector : AnomalyDetector F
  new_detector = record { temp_windows = []; load_windows = []; power_baseline = [] }

  -- After any readings of any units, a unit's windows hold its last five temperatures and its last
  -- five loads, in order.
  pub windows_lem :
      (ts : List (TelemetryPayload F)) (u : String)
      → let d = updates ts new_detector in
        (or_else (lookup u d.temp_windows) [] ≡ last window (readings_of (λ t. t.temperature) u ts))
        × (or_else (lookup u d.load_windows) [] ≡ last window (readings_of (λ t. t.load) u ts))
  windows_lem ts u =
      let (temps, loads) = updates-slides ts new_detector in
      (
        ap (λ w. or_else (lookup u w) []) temps
            ∙ slides-last (λ t. t.temperature) u ts [] [] (unfold lookup in refl),
        ap (λ w. or_else (lookup u w) []) loads
            ∙ slides-last (λ t. t.load) u ts [] [] (unfold lookup in refl),
      )
