-- ===== src/Limits/AuditThrottle/Budget.antt =====
-- The write budgets of the throttle, for histories within one window of its clock.
use sakura_monitoring.Base.{
  ℕ, ◌+◌, ◌-◌, ◌*◌, ◌≤◌, ◌<◌, ◌≡◌, true, false, Option, none, some, List, [], ◌∷◌, String, arith,
  leb, str_eq, str_eq_iff, if◌then◌else◌, string_eq, All, sym, subst, ap, ◌∙◌, Bool-cases,
  Option-cases, inl, inr,
}
use sakura_monitoring.Base.Map.{
  get, insert, IsMap, get-insert, get-retain, insert-IsMap, retain-IsMap,
}
use sakura_monitoring.Limits.AuditThrottle.{
  AnonHitBucket, AuditThrottle, global_limit, is_live, prune, roll_global, open_bucket, hit_bucket,
  charge, source, should_record, spent, recorded, recorded_for,
}

-- A failure of the history falls into the window that begins at `t`, after the zero time.
abbrev pub InWindow : ℕ → ℕ → String × ℕ → Type 0
InWindow window t (ip, now) = (0 < t) × (t ≤ now) × (now < t + window)

-- What may still be written before `t + window`: a bucket opened before `t` can be replaced once.
abbrev budget : ℕ → ℕ → AnonHitBucket → ℕ
budget limit t b = if leb t b.first_at then limit - b.count else 2 * limit - b.count

should_record-budget :
    (t now : ℕ) (a : AuditThrottle) (ip : String)
    → (0 < t) × (t ≤ now) × (now < t + a.window)
    → a.global.count ≤ global_limit
    → let r = should_record a ip now in
      (spent r.1 + budget global_limit t r.0.global ≤ budget global_limit t a.global)
      × (r.0.global.count ≤ global_limit)
      × (r.0.window ≡ a.window)
unfolding should_record
should_record-budget t now a ip times h = ground arith

recorded-le-budget :
    (t : ℕ) (a : AuditThrottle) (calls : List (String × ℕ))
    → a.global.count ≤ global_limit
    → All (InWindow a.window t) calls
    → recorded a calls ≤ budget global_limit t a.global
unfolding recorded
recorded-le-budget t a [] h times = omega arith
recorded-le-budget t a ((ip, now) ∷ calls) h times =
    let step = should_record-budget t now a ip times.0 h in
    let s = (should_record a ip now).0 in
    let later : All (InWindow s.window t) calls =
      subst (λ w. All (InWindow w t) calls) (sym step.2) times.1 in
    omega (arith, step.0, recorded-le-budget t s calls step.1 later)

-- Within one window of the clock at most 120 audit rows are written, twice the global limit, however
-- many sources fail and in whatever order, from a throttle whose global counter is within its limit.
pub recorded-le-twice :
    (t : ℕ) (a : AuditThrottle) (calls : List (String × ℕ))
    → a.global.count ≤ global_limit
    → All (InWindow a.window t) calls
    → recorded a calls ≤ 120
recorded-le-twice t a calls h times = ground (arith, recorded-le-budget t a calls h times)

abbrev source_budget : ℕ → ℕ → Option AnonHitBucket → ℕ
source_budget limit t none = limit
source_budget limit t (some b) = budget limit t b

abbrev Fits : ℕ → Option AnonHitBucket → Type 0
Fits limit none = Unit {0}
Fits limit (some b) = b.count ≤ limit

-- The map holds a source once, and the counter of the source is within the limit.
pub record IsWithinLimit (key : String) (a : AuditThrottle) : Type 0 where
  pub distinct : IsMap a.hits
  pub fits : Fits a.limit (get key a.hits)

abbrev left : ℕ → String → AuditThrottle → ℕ
left t key a = source_budget a.limit t (get key a.hits)

record Kept (t : ℕ) (key : String) (n : ℕ) (a b : AuditThrottle) : Type 0 where
  pays : n + left t key b ≤ left t key a
  within : IsWithinLimit key b
  window : b.window ≡ a.window
  limit : b.limit ≡ a.limit

module _ (t now : ℕ) (key : String) where
  prune-Kept :
      (a : AuditThrottle)
      → (t ≤ now) × (now < t + a.window)
      → 0 < a.limit
      → IsWithinLimit key a
      → Kept t key 0 a (roll_global (prune a now) now)
  unfolding prune roll_global
  prune-Kept a times pos h = ground (
    arith,
    get-retain (is_live a.window now) key a.hits h.distinct,
    retain-IsMap (is_live a.window now) a.hits h.distinct,
  )

  put_Kept :
      (a : AuditThrottle) (ip : String) (g b : AnonHitBucket)
      → IsWithinLimit key a
      → b.count ≤ a.limit
      → (ip ≡ key → 1 + budget a.limit t b ≤ left t key a)
      → Kept t key
          (spent (if str_eq ip key then true else false))
          a
          (record a { global = g; hits = insert ip b a.hits })
  put_Kept a ip g b h fits pays =
      ground
        (arith, str_eq_iff ip key, get-insert ip key b a.hits, insert-IsMap ip b a.hits h.distinct)

  open_bucket-Kept :
      (a : AuditThrottle) (ip : String)
      → t ≤ now
      → 0 < a.limit
      → IsWithinLimit key a
      → (ip ≡ key → a.limit ≤ left t key a)
      → Kept t key
          (spent (if str_eq ip key then (open_bucket a ip now).1 else false))
          a
          (open_bucket a ip now).0
  unfolding open_bucket
  open_bucket-Kept a ip late pos h room =
      put_Kept a ip (record a.global { count = a.global.count + 1 })
        (record { first_at = now; count = 1 }) h (omega arith)
        (λ e. let most = room e in ground arith)

  refused_Kept :
      (a : AuditThrottle) (ip : String)
      → IsWithinLimit key a
      → Kept t key (spent (if str_eq ip key then false else false)) a a
  refused_Kept a ip h = ground arith

  hit_bucket-Kept :
      (a : AuditThrottle) (ip : String) (b : AnonHitBucket)
      → (t ≤ now) × (now < t + a.window)
      → 0 < a.limit
      → IsWithinLimit key a
      → get ip a.hits ≡ some b
      → Kept t key
          (spent (if str_eq ip key then (hit_bucket a ip now b).1 else false))
          a
          (hit_bucket a ip now b).0
  unfolding hit_bucket
  hit_bucket-Kept a ip b times pos h stored = elim (Bool-cases (leb (b.first_at + a.window) now)) [
    | inl over ↦ rw over (
        open_bucket-Kept a ip times.0 pos h (λ e.
          let fits : Fits a.limit (some b) =
            subst (Fits a.limit) (ap (λ k. get k a.hits) (sym e) ∙ stored) h.fits in
          rw (← e, stored) (ground arith)))
    | inr live ↦ rw live (elim (Bool-cases (leb a.limit b.count)) [
      | inl full ↦ rw full (refused_Kept a ip h)
      | inr room ↦ rw room (
          put_Kept a ip _ (record b { count = b.count + 1 }) h (ground arith)
            (λ e. rw (← e, stored) (ground arith)))
    ])
  ]

  charge-Kept :
      (a : AuditThrottle) (ip : String)
      → (t ≤ now) × (now < t + a.window)
      → 0 < a.limit
      → IsWithinLimit key a
      → Kept t key
          (spent (if str_eq ip key then (charge a ip now).1 else false))
          a
          (charge a ip now).0
  unfolding charge
  charge-Kept a ip times pos h = elim (Bool-cases (leb global_limit a.global.count)) [
    | inl full ↦ rw full (refused_Kept a ip h)
    | inr below ↦ rw below (elim (Option-cases (get ip a.hits)) [
      | inl fresh ↦
          rw fresh (open_bucket-Kept a ip times.0 pos h (λ e. rw (← e, fresh) (omega arith)))
      | inr (b, stored) ↦ rw stored (hit_bucket-Kept a ip b times pos h stored)
    ])
  ]

should_record-Kept :
    (t now : ℕ) (key : String) (a : AuditThrottle) (ip : String)
    → (t ≤ now) × (now < t + a.window)
    → 0 < a.limit
    → IsWithinLimit key a
    → Kept t key
        (spent (if str_eq (source ip) key then (should_record a ip now).1 else false))
        a
        (should_record a ip now).0
unfolding should_record
should_record-Kept t now key a ip times pos h =
    let p = prune-Kept t now key a times pos h in
    let b = roll_global (prune a now) now in
    let c = charge-Kept t now key b (source ip) (rw p.window times) (rw p.limit pos) p.within in
    record {
      pays = omega (arith, p.pays, c.pays);
      within = c.within;
      window = c.window ∙ p.window;
      limit = c.limit ∙ p.limit;
    }

recorded_for-le-left :
    (t : ℕ) (key : String) (a : AuditThrottle) (calls : List (String × ℕ))
    → 0 < a.limit
    → IsWithinLimit key a
    → All (InWindow a.window t) calls
    → recorded_for key a calls ≤ left t key a
unfolding recorded_for
recorded_for-le-left t key a [] pos h times = omega arith
recorded_for-le-left t key a ((ip, now) ∷ calls) pos h times =
    let (zero, late, soon) = times.0 in
    let c = should_record-Kept t now key a ip (late, soon) pos h in
    let s = (should_record a ip now).0 in
    let later : All (InWindow s.window t) calls =
      subst (λ w. All (InWindow w t) calls) (sym c.window) times.1 in
    omega (arith, c.pays, recorded_for-le-left t key s calls (rw c.limit pos) c.within later)

-- Within one window of the clock a source writes at most twice its limit of audit rows, whatever
-- the other sources do, from a throttle with a positive limit whose map holds each source once and
-- whose counter for the source is within the limit.
pub recorded_for-le-twice :
    (t : ℕ) (key : String) (a : AuditThrottle) (calls : List (String × ℕ))
    → 0 < a.limit
    → IsWithinLimit key a
    → All (InWindow a.window t) calls
    → recorded_for key a calls ≤ 2 * a.limit
recorded_for-le-twice t key a calls pos h times =
    ground (arith, recorded_for-le-left t key a calls pos h times, Option-cases (get key a.hits))
