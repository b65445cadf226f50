-- ===== src/Limits/RateLimiter/Budget.antt =====
-- The minute budget of a token, whatever the other tokens do and whenever the map is swept.
use sakura_monitoring.Base.{
  ℕ, ◌+◌, ◌-◌, ◌*◌, ◌≤◌, ◌<◌, ◌≡◌, ◌≢◌, Bool, false, Option, none, some, List, [], ◌∷◌, arith, leb,
  ◌==◌, if◌then◌else◌, nat_eq, All, Option-cases,
}
use sakura_monitoring.Base.Map.{
  get, kept, IsMap, get-empty, get-insert, get-retain, insert-IsMap, retain-IsMap,
}
use sakura_monitoring.Limits.RateLimiter.{
  TokenWindow, McpRateLimiter, minute, is_live, sweep, new, admit, allow, run, admitted,
}

-- What a token may still spend before `t + minute`: a bucket opened before `t` can be replaced
-- once, a later one cannot.
abbrev budget : ℕ → ℕ → Option TokenWindow → ℕ
budget limit t none = limit
budget limit t (some w) =
    if leb t w.min_bucket_start then limit - w.min_count else 2 * limit - w.min_count

abbrev Fits : ℕ → Option TokenWindow → Type 0
Fits limit none = Unit {0}
Fits limit (some w) = w.min_count ≤ limit

-- The map holds a token once, and no minute counter of the token is past the limit.
pub record IsWithinLimit (id : ℕ) (r : McpRateLimiter) : Type 0 where
  pub distinct : IsMap r.per_token
  pub fits : Fits r.min_limit (get id r.per_token)

abbrev spent : Bool → ℕ
spent b = if b then 1 else 0

abbrev left : ℕ → ℕ → McpRateLimiter → ℕ
left t id r = budget r.min_limit t (get id r.per_token)

module _ (t now : ℕ) (late : t ≤ now) (soon : now < t + minute) where
  admit-budget :
      (sec_limit limit : ℕ) (o : Option TokenWindow)
      → Fits limit o
      → let r = admit sec_limit limit now o in
        (spent r.1 + budget limit t (some r.0) ≤ budget limit t o) × (r.0.min_count ≤ limit)
  unfolding admit
  admit-budget sec_limit limit none h = ground arith
  admit-budget sec_limit limit (some w) h = ground arith

  -- A swept window is at least a minute old, so its bucket opened before `t`.
  kept-budget :
      (limit id : ℕ) (o : Option TokenWindow)
      → Fits limit o
      → (budget limit t (kept (is_live now) id o) ≤ budget limit t o)
        × Fits limit (kept (is_live now) id o)
  kept-budget limit id none h = ground arith
  kept-budget limit id (some w) h = ground arith

  sweep_budget :
      (id : ℕ) (r : McpRateLimiter)
      → IsWithinLimit id r
      → (left t id (sweep r now) ≤ left t id r)
        × IsWithinLimit id (sweep r now)
        × ((sweep r now).min_limit ≡ r.min_limit)
  unfolding sweep
  sweep_budget id r h = ground (
    arith,
    get-retain (is_live now) id r.per_token h.distinct,
    retain-IsMap (is_live now) r.per_token h.distinct,
    kept-budget r.min_limit id (get id r.per_token) h.fits,
  )

  allow_budget :
      (id j : ℕ) (r : McpRateLimiter)
      → id ≢ 0
      → IsWithinLimit id r
      → let a = allow r j now in
        (spent (if j == id then a.1 else false) + left t id a.0 ≤ left t id r)
        × IsWithinLimit id a.0
        × (a.0.min_limit ≡ r.min_limit)
  unfolding allow
  allow_budget id j r nz h =
      let s = sweep r now in
      let c = sweep_budget id r h in
      ground (
        arith,
        c,
        admit-budget s.sec_limit s.min_limit (get j s.per_token),
        get-insert j id (admit s.sec_limit s.min_limit now (get j s.per_token)).0 s.per_token,
        insert-IsMap j (admit s.sec_limit s.min_limit now (get j s.per_token)).0 s.per_token,
      )

-- A call of the history falls into the minute that begins at `t`.
abbrev pub InMinute : ℕ → ℕ × ℕ → Type 0
InMinute t (id, now) = (t ≤ now) × (now < t + minute)

admitted-le-left :
    (t id : ℕ) (r : McpRateLimiter) (calls : List (ℕ × ℕ))
    → id ≢ 0
    → IsWithinLimit id r
    → All (InMinute t) calls
    → admitted id r calls ≤ left t id r
unfolding admitted
admitted-le-left t id r [] nz h times = omega arith
admitted-le-left t id r ((j, now) ∷ calls) nz h times =
    let step = allow_budget t now times.0.0 times.0.1 id j r nz h in
    let rest = admitted-le-left t id (allow r j now).0 calls nz step.1 times.1 in
    omega (arith, step.0, rest)

-- Within one minute of the limiter's clock a token gets at most twice its minute limit, for every
-- history of calls by any tokens in any order of their clock readings, and every sweep among them,
-- from a limiter whose map holds each token once and whose counter for the token is within the
-- limit.
pub admitted-le-twice :
    (t id : ℕ) (r : McpRateLimiter) (calls : List (ℕ × ℕ))
    → id ≢ 0
    → IsWithinLimit id r
    → All (InMinute t) calls
    → admitted id r calls ≤ 2 * r.min_limit
admitted-le-twice t id r calls nz h times =
    let most = admitted-le-left t id r calls nz h times in
    ground (arith, most, Option-cases (get id r.per_token))

allow-IsWithinLimit :
    (id j now : ℕ) (r : McpRateLimiter)
    → id ≢ 0
    → IsWithinLimit id r
    → IsWithinLimit id (allow r j now).0
allow-IsWithinLimit id j now r nz h =
    (allow_budget now now (omega arith) (omega arith) id j r nz h).1

run-IsWithinLimit :
    (id : ℕ) (r : McpRateLimiter) (calls : List (ℕ × ℕ))
    → id ≢ 0
    → IsWithinLimit id r
    → IsWithinLimit id (run r calls)
unfolding run
run-IsWithinLimit id r [] nz h = h
run-IsWithinLimit id r ((j, now) ∷ calls) nz h =
    run-IsWithinLimit id (allow r j now).0 calls nz (allow-IsWithinLimit id j now r nz h)

-- From a new limiter, after any calls, the map holds each token once and the token's minute counter
-- is within the limit.
pub run-new-IsWithinLimit :
    (sec_limit min_limit id : ℕ) (calls : List (ℕ × ℕ))
    → id ≢ 0
    → IsWithinLimit id (run (new sec_limit min_limit) calls)
unfolding new
run-new-IsWithinLimit sec_limit min_limit id calls nz =
    run-IsWithinLimit id (new sec_limit min_limit) calls nz
      (record { distinct = tt; fits = rw get-empty tt })
