-- ===== src/Batch/Results.antt =====
-- What `batchMoveServer` changes, and to whom it answers what.
use sakura_monitoring.Base.{
  ℕ, ◌≡◌, ◌⊎◌, inl, inr, refl, ◌∙◌, subst, Bool, true, false, not, ◌&&◌, List, [], ◌∷◌, ◌==◌,
  nat_eq, arith, All, Bool-cases,
}
use sakura_monitoring.Transfer.Types.{World}
use sakura_monitoring.Transfer.Initiate.{Semver}
use sakura_monitoring.Transfer.Steps.{SettledRival}
use sakura_monitoring.Transfer.Invariant.Consistent.{Inv}
use sakura_monitoring.Batch.{
  Caller, MoveResult, MoveEnv, move_one, move_all, BatchResult, user_required, permission_denied,
  no_such_user, moved, batch_move_server,
}
use sakura_monitoring.Batch.Turns.{IsAnswer, move_one-IsAnswer, move_one-member, move_one-Inv}

-- The answers to the requested ids, one for each and in their order
abbrev pub AreAnswers : Caller → ℕ → List (ℕ × MoveEnv) → List MoveResult → Type 0
AreAnswers c to [] [] = Unit
AreAnswers c to ((server, env) ∷ ids) (r ∷ rs) = IsAnswer c to server r × AreAnswers c to ids rs
AreAnswers c to _ _ = ⊥

module _ (semver : Semver) (c : Caller) (to : ℕ) where
  move_all-AreAnswers :
      (ids : List (ℕ × MoveEnv)) (w : World)
      → (c.is_admin ≡ true) ⊎ (to ≡ c.uid)
      → AreAnswers c to ids (move_all semver c to ids w).0
  unfolding move_all
  move_all-AreAnswers [] w k = tt
  move_all-AreAnswers ((server, env) ∷ ids) w k = (
    move_one-IsAnswer semver env c to server w k,
    move_all-AreAnswers ids (move_one semver env c to server w).1 k,
  )

  move_all-member :
      (ids : List (ℕ × MoveEnv)) (w : World)
      → c.is_admin ≡ false
      → to ≡ c.uid
      → (move_all semver c to ids w).1 ≡ w
  unfolding move_all
  move_all-member [] w n e = refl
  move_all-member ((server, env) ∷ ids) w n e =
      move_all-member ids (move_one semver env c to server w).1 n e
      ∙ move_one-member semver env c to server w n e

  move_all-Inv :
      (ids : List (ℕ × MoveEnv)) (w : World)
      → All (λ i. SettledRival i.1.push.rival) ids
      → Inv w
      → Inv (move_all semver c to ids w).1
  unfolding move_all
  move_all-Inv [] w a h = h
  move_all-Inv ((server, env) ∷ ids) w a h =
      move_all-Inv ids (move_one semver env c to server w).1 a.1
        (move_one-Inv semver env c to server w a.0 h)

moved_inj : (xs ys : List MoveResult) → moved xs ≡ moved ys → xs ≡ ys
moved_inj xs ys e = cc

-- The three answers before the loop, or the loop.
batch-cases :
    (semver : Semver) (user_exists : ℕ → Bool) (c : Caller) (to : ℕ) (ids : List (ℕ × MoveEnv))
    (w : World)
    → (P : BatchResult × World → Type 0) → P (user_required, w)
    → P (permission_denied, w)
    → P (no_such_user, w)
    → ((c.is_admin ≡ true) ⊎ (to ≡ c.uid)
        → P (moved (move_all semver c to ids w).0, (move_all semver c to ids w).1))
    → P (batch_move_server semver user_exists c to ids w)
unfolding batch_move_server
batch-cases semver user_exists c to ids w P x y z go = elim (Bool-cases (to == 0)) [
  | inl a ↦ rw (batch_move_server, a) x
  | inr a ↦ elim (Bool-cases (not c.is_admin && not (to == c.uid))) [
    | inl b ↦ rw (batch_move_server, a, b) y
    | inr b ↦ elim (Bool-cases (not (user_exists to))) [
      | inl d ↦ rw (batch_move_server, a, b, d) z
      | inr d ↦ rw (batch_move_server, a, b, d) (go (ground (arith, b)))
    ]
  ]
]

-- A caller who is no administrator moves no server at all: the call leaves the state as it was,
-- whatever ids and whatever target it names.
pub batch_move_server-member :
    (semver : Semver) (user_exists : ℕ → Bool) (c : Caller) (to : ℕ) (ids : List (ℕ × MoveEnv))
    (w : World)
    → c.is_admin ≡ false
    → (batch_move_server semver user_exists c to ids w).1 ≡ w
batch_move_server-member semver user_exists c to ids w n =
    batch-cases semver user_exists c to ids w (λ r. r.1 ≡ w) refl refl refl
      (λ k. move_all-member semver c to ids w n (ground (arith, k, n)))

-- A batch that is not refused as a whole answers each requested id, in the order of the request. An answer that
-- reports a transfer is for a server that the caller's access token allows, and the caller is an administrator.
pub batch_move_server-AreAnswers :
    (semver : Semver) (user_exists : ℕ → Bool) (c : Caller) (to : ℕ) (ids : List (ℕ × MoveEnv))
    (w : World) (rs : List MoveResult)
    → (batch_move_server semver user_exists c to ids w).0 ≡ moved rs
    → AreAnswers c to ids rs
batch_move_server-AreAnswers semver user_exists c to ids w rs =
    batch-cases semver user_exists c to ids w (λ r. r.0 ≡ moved rs → AreAnswers c to ids rs)
      (λ e. cc) (λ e. cc) (λ e. cc)
      (λ k e.
        subst (λ l. AreAnswers c to ids l) (moved_inj (move_all semver c to ids w).0 rs e)
          (move_all-AreAnswers semver c to ids w k))

-- From a state in which the database, the cache and the pending index agree, a batch leads to such a state again,
-- whatever the environment answers, if concurrent callers only settle rows.
pub batch_move_server-Inv :
    (semver : Semver) (user_exists : ℕ → Bool) (c : Caller) (to : ℕ) (ids : List (ℕ × MoveEnv))
    (w : World)
    → All (λ i. SettledRival i.1.push.rival) ids
    → Inv w
    → Inv (batch_move_server semver user_exists c to ids w).1
batch_move_server-Inv semver user_exists c to ids w a h =
    batch-cases semver user_exists c to ids w (λ r. Inv r.1) h h h
      (λ k. move_all-Inv semver c to ids w a h)
