-- ===== src/Transfer/Tests/Rollback.antt =====
-- The outcomes of `revertTransition` at concrete inputs.
use sakura_monitoring.Base.{◌≡◌, refl, true, none, some, nat_eq, string_eq}
use sakura_monitoring.Base.Map.{get}
use sakura_monitoring.Transfer.Types.{ok, err, db_error, verified, failed, timed_out, cancelled}
use sakura_monitoring.Transfer.Revert.{
  RevertEnv, terminated, give_back, guarded_update, revert_tx, revert_transition,
}
use sakura_monitoring.Transfer.Invariant.Reaching.{Reach-Inv}
use sakura_monitoring.Transfer.Rollback.{IsRolledBack}
use sakura_monitoring.Transfer.Outcome.{
  revert_transition-IsRolledBack, revert_transition-settled, revert_transition-rival,
}
use sakura_monitoring.Transfer.Tests.{
  calm, moving, waiting, over, returned, start-Inv, waiting-Inv, calm-IsCalm, path,
}

revert_transition-IsRolledBack_example :
    let r = revert_transition calm cancelled "" 5 200 waiting in
    (r.0 ≡ ok (some (terminated cancelled "" 200 moving)))
    × IsRolledBack moving (terminated cancelled "" 200 moving) over waiting r.1
unfolding get
revert_transition-IsRolledBack_example =
    revert_transition-IsRolledBack calm cancelled "" 200 20 moving waiting waiting-Inv calm-IsCalm
      refl refl refl refl

revert_transition-settled_example :
    revert_transition calm timed_out "" 5 300 returned ≡ (ok none, returned)
unfolding get
revert_transition-settled_example =
    revert_transition-settled calm timed_out "" 300 over returned (Reach-Inv start-Inv path) refl
      refl refl refl refl

abbrev unreadable : RevertEnv
unreadable = record calm { owner_fails = true }

unreadable_fails : (revert_transition unreadable failed "gone" 5 200 waiting).0 ≡ err db_error
unfolding revert_transition revert_tx guarded_update give_back get
unreadable_fails = refl

abbrev raced : RevertEnv
raced = record calm { rival = some verified }

revert_transition-rival_example :
    let r = revert_transition raced timed_out "" 5 200 waiting in
    (r.0 ≡ ok none)
    × (get 1 r.1.pending ≡ none)
    × (r.1.db_owner ≡ waiting.db_owner)
    × (r.1.servers ≡ waiting.servers)
    × (r.1.revoked ≡ waiting.revoked)
    × (r.1.sent ≡ waiting.sent)
    × (r.1.events ≡ waiting.events)
unfolding get
revert_transition-rival_example =
    revert_transition-rival raced timed_out verified "" 200 moving waiting waiting-Inv refl refl
      refl refl refl refl refl refl refl
