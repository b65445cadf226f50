-- ===== src/Transfer/Tests/Restarting.antt =====
-- The restart of the dashboard at concrete inputs.
use sakura_monitoring.Base.{
  Has, ◌⊎◌, subst, ℕ, ◌≡◌, refl, true, false, none, some, [], ◌∷◌, arith, nat_eq, string_eq, ==_iff,
}
use sakura_monitoring.Base.Map.{get, insert}
use sakura_monitoring.Transfer.Types.{World, ServerTransfer, verified, cancelled}
use sakura_monitoring.Transfer.Invariant.Reaching.{Reach-Inv}
use sakura_monitoring.Transfer.Steps.{Step, initiates}
use sakura_monitoring.Transfer.Removal.{batch_delete_server}
use sakura_monitoring.Transfer.Lifetimes.{Lifetimes-Inv, begins, operates, removes, restarts}
use sakura_monitoring.Transfer.Invariant.Consistent.{Inv}
use sakura_monitoring.Transfer.Restart.{
  RestartEnv, Candidate, candidates, select, is_cached, index_pending, place_oldest, oldest_first,
  index_reverted, place_newest, newest_first, is_eligible, index_verified, forward_candidates,
  revert_candidates, restart,
}
use sakura_monitoring.Transfer.Restart.Pending.{restart-pending}
use sakura_monitoring.Transfer.Restart.Recovery.{IsReopened, NoneWaits, restart-IsReopened}
use sakura_monitoring.Transfer.Restart.Newest.{IsNewest, restart-IsNewest}
use sakura_monitoring.Transfer.Tests.{
  start, moving, waiting, over, returned, start-Inv, waiting-Inv, path, opened, semver, luck,
}

abbrev healthy : RestartEnv
healthy = record {
  pending_fails = false;
  reverted_fails = false;
  verified_fails = false;
  acked_fails = false;
}

waiting_cached :
    (j : ℕ) (t : ServerTransfer)
    → get j waiting.pending ≡ some t
    → is_cached (get j waiting.servers) ≡ true
unfolding get
waiting_cached j t g = ground (arith, ==_iff 1 j)

restart-pending_example : get 1 (restart healthy 300 waiting).pending ≡ some moving
unfolding get
restart-pending_example = restart-pending healthy 300 1 waiting waiting-Inv refl waiting_cached

reopened : get 1 (restart healthy 300 returned).terminal_secret_recovery ≡ some over
unfolding restart select index_pending oldest_first index_reverted place_oldest get insert
reopened = refl

restart-IsReopened_example :
    let v = restart healthy 300 returned in
    ((get 1 v.revert_deliveries ≡ none)
      × (get 1 v.terminal_secret_recovery ≡ none)
      × ((healthy.reverted_fails ≡ true) ⊎ NoneWaits 300 1 returned))
    ⊎ ((t : ServerTransfer) × (get 1 v.revert_deliveries ≡ some t)
        × (get 1 v.terminal_secret_recovery ≡ some t)
        × IsReopened 300 1 returned t)
restart-IsReopened_example = restart-IsReopened healthy 300 1 returned (Reach-Inv start-Inv path)

-- Server 1 starts to move, the dashboard starts again, and the server is removed.
Lifetimes-Inv_example :
    Inv (
      batch_delete_server false
        (λ i. false)
        (λ i. false)
        400
        (1 ∷ [])
        (restart healthy 300 waiting))
Lifetimes-Inv_example = Lifetimes-Inv start-Inv (
    removes false (λ i. false) (λ i. false) 400 (1 ∷ [])
      (restarts healthy 300 refl waiting_cached (
        operates begins
          (subst (λ r. Step start r.1) opened (initiates semver luck 1 10 20 10 100)))))

-- Server 1 was verified for user 10, and rolled back to user 10 at the same instant.
abbrev twice : World
twice = record start {
  transfers =
      (
        3,
        record moving {
          id = 3;
          to_user_id = 10;
          status = verified;
          acked_at = some 50;
          handshake_secret = "first";
        },
      )
      ∷ (
        4,
        record moving {
          id = 4;
          status = cancelled;
          acked_at = some 50;
          revert_handshake_secret = "second";
        },
      )
      ∷ [];
}

later_wins : get 1 (restart healthy 300 twice).verified_handshakes ≡ some "second"
unfolding restart select index_pending oldest_first index_reverted newest_first place_newest
    index_verified is_eligible forward_candidates revert_candidates get insert
later_wins = refl

restart-IsNewest_example :
    let v = restart healthy 300 twice in
    let eligible = is_eligible twice.servers v.pending in
    ((get 1 v.verified_handshakes ≡ none)
      × ((d : Candidate) → Has d (candidates healthy twice) → d.server_id ≡ 1 → eligible d ≡ false))
    ⊎ ((c : Candidate) × (get 1 v.verified_handshakes ≡ some c.secret)
        × IsNewest twice.servers v.pending 1 (candidates healthy twice) c)
restart-IsNewest_example = restart-IsNewest healthy 300 1 twice
