-- ===== src/Alert/Retention.antt =====
-- The samples that `RetentionWindow` keeps are enough for `Check`.
use sakura_monitoring.Base.{
  ℕ, zero, suc, ◌+◌, ◌-◌, ◌≤◌, ◌<◌, ◌≡◌, refl, sym, ap, ◌∙◌, Bool, Option, none, some, List, [],
  ◌∷◌, ltb, ◌==◌, if◌then◌else◌, length, length-drop, get_last?, drop, arith, Option-cases,
  Bool-cases, inl, inr,
}
use sakura_monitoring.Alert.Check.{
  Rule, is_supported_type, is_transfer_duration_rule, duration_int, latest, check, need,
  retention_window, last_passed,
}
use sakura_monitoring.Alert.Reference.{window_passes, outcome, add, judged, is_quiet, check-judged}

module _ {A : Type 0} where
  drop_nil : (n : ℕ) → drop {A = A} n [] ≡ []
  drop_nil zero = refl
  drop_nil (suc n) = refl

  drop-drop : (m n : ℕ) (xs : List A) → drop m (drop n xs) ≡ drop (n + m) xs
  drop-drop m zero xs = ap (λ k. drop k xs) (omega arith)
  drop-drop m (suc n) [] = drop_nil m ∙ sym (drop_nil (suc n + m))
  drop-drop m (suc n) (x ∷ xs) =
      let e : suc (n + m) ≡ suc n + m = omega arith in
      drop-drop m n xs ∙ ap (λ k. drop k (x ∷ xs)) e

  get_last-drop : (n : ℕ) (xs : List A) → n < length xs → get_last? (drop n xs) ≡ get_last? xs
  get_last-drop zero xs h = refl
  get_last-drop (suc n) [] h = ground arith
  get_last-drop (suc n) (x ∷ []) h = ground arith
  get_last-drop (suc n) (x ∷ y ∷ xs) h = get_last-drop n (y ∷ xs) (omega arith)

latest-drop :
    (d n : ℕ) (points : List (List Bool))
    → n + d ≤ length points
    → latest d (drop n points) ≡ latest d points
latest-drop d n points h =
    drop-drop (length (drop n points) - d) n points
    ∙ ap (λ k. drop k points) (omega (arith, length-drop n points))

window_passes-drop :
    (index n : ℕ) (rule : Rule) (d : ℕ) (points : List (List Bool))
    → n + d ≤ length points
    → window_passes index rule d (drop n points) ≡ window_passes index rule d points
window_passes-drop index n rule d points h =
    let full : ltb (length (drop n points)) d ≡ ltb (length points) d =
      ground (arith, length-drop n points) in
    rw (full, latest-drop d n points h) refl

-- A condition says the same of what is kept, if what it needs is kept.
outcome-drop :
    (index n : ℕ) (rule : Option Rule) (points : List (List Bool))
    → n + need rule ≤ length points
    → outcome index rule (drop n points) ≡ outcome index rule points
unfolding need
outcome-drop index n none points = λ h. refl
outcome-drop index n (some rule) points = elim (Bool-cases (is_supported_type rule)) [
  | inr e ↦ simp e (λ h. refl)
  | inl e ↦ elim (Bool-cases (is_transfer_duration_rule rule)) [
    | inl f ↦
        simp (need, e, f)
          (λ h. ap (λ x. some (last_passed index x)) (get_last-drop n points (omega arith)))
    | inr f ↦ elim (Option-cases (duration_int rule)) [
      | inl g ↦ simp (need, e, f, g) (λ h. refl)
      | inr (d, g) ↦
          simp (need, e, f, g)
            (λ h.
              ap (λ b. if d == 0 then none else some b)
                (window_passes-drop index n rule d points h))
    ]
  ]
]

judged-drop :
    (index n : ℕ) (rules : List (Option Rule)) (points : List (List Bool))
    → n + retention_window rules ≤ length points
    → judged index rules (drop n points) ≡ judged index rules points
unfolding judged retention_window
judged-drop index n [] points h = refl
judged-drop index n (rule ∷ rules) points h =
    rw (outcome-drop index n rule points (omega (arith, h))) (
      ap (add (outcome index rule points))
        (judged-drop (index + 1) n rules points (omega (arith, h))))

-- Dropping old samples changes no decision while as many are kept as `RetentionWindow` says.
pub check-drop :
    (n : ℕ) (rules : List (Option Rule)) (points : List (List Bool))
    → n + retention_window rules ≤ length points
    → (check rules (drop n points)).1 ≡ (check rules points).1
check-drop n rules points h =
    check-judged rules (drop n points)
    ∙ ap is_quiet (judged-drop 0 n rules points h)
    ∙ sym (check-judged rules points)
