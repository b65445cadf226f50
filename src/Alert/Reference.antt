-- ===== src/Alert/Reference.antt =====
-- What `Check` decides, without its state: each condition is judged by itself.
use sakura_monitoring.Base.{
  ℕ, ◌+◌, ◌*◌, ◌≡◌, refl, ◌∙◌, Bool, true, ◌||◌, Option, none, some, List, [], ◌∷◌, ◌++◌, ltb, leb,
  ◌==◌, if◌then◌else◌, any, length, get_last?, arith, Option-cases, Bool-cases, inl, inr,
}
use sakura_monitoring.Alert.Check.{
  Rule, is_supported_type, is_transfer_duration_rule, is_offline_rule, duration_int, passed_at,
  latest, Progress, last_passed, check_cycle, until_passed, backward, check_offline, count_failed,
  check_regular, check_duration, check_rule, check_rules, start, verdict, check,
}

-- A condition passes over its window if the window is not full yet, or if one of its points passed
-- (offline), or if at most 70 of 100 points failed (any other).
abbrev pub window_passes : ℕ → Rule → ℕ → List (List Bool) → Bool
window_passes index rule duration points =
    ltb (length points) duration
    || (if is_offline_rule rule
        then any (passed_at index) (latest duration points)
        else leb (count_failed index (latest duration points) * 100) (70 * duration))

-- What one condition says; none where it is not valid.
abbrev pub outcome : ℕ → Option Rule → List (List Bool) → Option Bool
outcome index none points = none
outcome index (some rule) points =
    if is_supported_type rule
    then (if is_transfer_duration_rule rule
        then some (last_passed index (get_last? points))
        else elim (duration_int rule) [
          | none ↦ none
          | some duration ↦
              if duration == 0 then none else some (window_passes index rule duration points)
        ])
    else none

abbrev pub add : Option Bool → List Bool → List Bool
add none bs = bs
add (some b) bs = b ∷ bs

-- What the valid conditions say.
unfoldable pub judged : ℕ → List (Option Rule) → List (List Bool) → List Bool
judged index [] points = []
judged index (rule ∷ rules) points =
    add (outcome index rule points) (judged (index + 1) rules points)

-- The alert is off where there is no valid condition, or one passed.
abbrev pub is_quiet : List Bool → Bool
is_quiet [] = true
is_quiet (b ∷ bs) = any (λ x. x) (b ∷ bs)

any-append :
    (p : List Bool → Bool) (xs ys : List (List Bool)) → any p (xs ++ ys) ≡ (any p xs || any p ys)
any-append p [] ys = refl
any-append p (x ∷ xs) ys = ground (arith, any-append p xs ys)

any-backward : (p : List Bool → Bool) (xs : List (List Bool)) → any p (backward xs) ≡ any p xs
unfolding backward
any-backward p [] = refl
any-backward p (x ∷ xs) = ground (arith, any-append p (backward xs) (x ∷ []), any-backward p xs)

until_passed-any :
    (index : ℕ) (points : List (List Bool))
    → (until_passed index points).1 ≡ any (passed_at index) points
unfolding until_passed
until_passed-any index [] = refl
until_passed-any index (p ∷ ps) = elim (Bool-cases (passed_at index p)) [
  | inl e ↦ rw e refl
  | inr e ↦ rw e (until_passed-any index ps)
]

-- How a condition moves the loop's variables.
abbrev Moves : Option Bool → Progress → Progress → Type 0
Moves none p q = (q.has_passed ≡ p.has_passed) × (q.valid_rules ≡ p.valid_rules)
Moves (some b) p q = (q.has_passed ≡ (p.has_passed || b)) × (q.valid_rules ≡ p.valid_rules + 1)

check_offline-Moves :
    (index duration : ℕ) (points : List (List Bool)) (p : Progress)
    → Moves
        (some (ltb (length points) duration || any (passed_at index) (latest duration points)))
        p
        (check_offline index duration points p)
unfolding check_offline
check_offline-Moves index duration points p = elim (Bool-cases p.has_passed) [
  | inl e ↦ simp (check_offline, e) (refl, refl)
  | inr e ↦ elim (Bool-cases (ltb (length points) duration)) [
    | inl f ↦ simp (check_offline, e, f) (refl, refl)
    | inr f ↦
        simp (check_offline, e, f)
          (
            until_passed-any index (backward (latest duration points))
                ∙ any-backward (passed_at index) (latest duration points),
            refl,
          )
  ]
]

check_regular-Moves :
    (index duration : ℕ) (points : List (List Bool)) (p : Progress)
    → Moves
        (some (
          ltb (length points) duration
          || leb (count_failed index (latest duration points) * 100) (70 * duration)))
        p
        (check_regular index duration points p)
unfolding check_regular
check_regular-Moves index duration points p = elim (Bool-cases p.has_passed) [
  | inl e ↦ simp (check_regular, e) (refl, refl)
  | inr e ↦ elim (Bool-cases (ltb (length points) duration)) [
    | inl f ↦ simp (check_regular, e, f) (refl, refl)
    | inr f ↦ simp (check_regular, e, f) (refl, refl)
  ]
]

check_duration-Moves :
    (index : ℕ) (rule : Rule) (d : ℕ) (points : List (List Bool)) (p : Progress)
    → Moves
        (if d == 0 then none else some (window_passes index rule d points))
        p
        (check_duration index rule d points p)
unfolding check_duration
check_duration-Moves index rule d points p = elim (Bool-cases (d == 0)) [
  | inl z ↦ simp (check_duration, z) (refl, refl)
  | inr z ↦ elim (Bool-cases (is_offline_rule rule)) [
    | inl o ↦ simp (check_duration, z, o) (check_offline-Moves index d points p)
    | inr o ↦ simp (check_duration, z, o) (check_regular-Moves index d points p)
  ]
]

check_rule-Moves :
    (index : ℕ) (rule : Option Rule) (points : List (List Bool)) (p : Progress)
    → Moves (outcome index rule points) p (check_rule index rule points p)
unfolding check_rule check_cycle
check_rule-Moves index none points p = (refl, refl)
check_rule-Moves index (some rule) points p = elim (Bool-cases (is_supported_type rule)) [
  | inr e ↦ simp (check_rule, e) (refl, refl)
  | inl e ↦ elim (Bool-cases (is_transfer_duration_rule rule)) [
    | inl f ↦ simp (check_rule, e, f, check_cycle) (ground arith, refl)
    | inr f ↦ elim (Option-cases (duration_int rule)) [
      | inl g ↦ simp (check_rule, e, f, g) (refl, refl)
      | inr (d, g) ↦ simp (check_rule, e, f, g) (check_duration-Moves index rule d points p)
    ]
  ]
]

added :
    (o : Option Bool) (p q r : Progress) (bs : List Bool)
    → Moves o p q
    → r.has_passed ≡ (q.has_passed || any (λ x. x) bs)
    → r.valid_rules ≡ q.valid_rules + length bs
    → (r.has_passed ≡ (p.has_passed || any (λ x. x) (add o bs)))
      × (r.valid_rules ≡ p.valid_rules + length (add o bs))
added none p q r bs m h v = (ground arith, omega (arith, m.1, v))
added (some b) p q r bs m h v = (ground arith, omega (arith, m.1, v))

quiet :
    (q : Progress) (bs : List Bool)
    → q.has_passed ≡ any (λ x. x) bs
    → q.valid_rules ≡ length bs
    → (verdict q).1 ≡ is_quiet bs
quiet q [] h v = ground arith
quiet q (b ∷ bs) h v = ground arith

-- How the whole loop moves them.
check_rules-judged :
    (index : ℕ) (rules : List (Option Rule)) (points : List (List Bool)) (p : Progress)
    → let q = check_rules index rules points p in
      (q.has_passed ≡ (p.has_passed || any (λ x. x) (judged index rules points)))
      × (q.valid_rules ≡ p.valid_rules + length (judged index rules points))
unfolding check_rules judged
check_rules-judged index [] points p = (ground arith, omega arith)
check_rules-judged index (rule ∷ rules) points p =
    let m = check_rule-Moves index rule points p in
    let rest = check_rules-judged (index + 1) rules points (check_rule index rule points p) in
    added (outcome index rule points) p (check_rule index rule points p)
      (check_rules (index + 1) rules points (check_rule index rule points p))
      (judged (index + 1) rules points) m rest.0 rest.1

-- The alert is raised just where there is a valid condition and each valid one fails over its own
-- window, by itself and in whatever order the conditions stand.
pub check-judged :
    (rules : List (Option Rule)) (points : List (List Bool))
    → (check rules points).1 ≡ is_quiet (judged 0 rules points)
unfolding check
check-judged rules points =
    let r = check_rules-judged 0 rules points start in
    quiet (check_rules 0 rules points start) (judged 0 rules points) r.0 (omega (arith, r.1))
