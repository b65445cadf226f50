-- ===== src/Control/Tests.antt =====
-- A lease on a settled server, and one that a transfer takes away.
use sakura_monitoring.Base.{◌≡◌, ◌≢◌, refl, ap, true, false, none, some, nat_eq}
use sakura_monitoring.Base.Map.{get}
use sakura_monitoring.Transfer.Steps.{here}
use sakura_monitoring.Transfer.Initiate.{initiate_exclusive}
use sakura_monitoring.Transfer.Tests.{semver, luck, start, start-Inv, machine, moving, opened}
use sakura_monitoring.Transfer.Epochs.Growth.{epoch_of}
use sakura_monitoring.Control.{
  server_control_transitioning, begin_server_control, begin_server_control_from_context,
  ServerControlIdentity,
}
use sakura_monitoring.Control.Leases.{
  IsSettledOwner, begin_server_control-IsSettledOwner,
  begin_server_control_from_context-initiate_exclusive,
}

leased : begin_server_control 1 10 false start ≡ some (machine 10)
unfolding begin_server_control server_control_transitioning get
leased = refl

begin_server_control-IsSettledOwner_example : IsSettledOwner 1 10 (machine 10) start
begin_server_control-IsSettledOwner_example =
    begin_server_control-IsSettledOwner 1 10 (machine 10) start start-Inv leased

abbrev admin : ServerControlIdentity
admin = record { user_id = 1; admin = true }

begin_server_control_from_context-initiate_exclusive_example :
    begin_server_control_from_context
      (record { identity = some admin; bound_epoch = some (epoch_of 1 start) })
      1
      (initiate_exclusive semver luck 1 10 20 10 100 start).1
    ≢ none
begin_server_control_from_context-initiate_exclusive_example =
    begin_server_control_from_context-initiate_exclusive semver luck 1 10 20 10 100 moving admin
      start start (initiate_exclusive semver luck 1 10 20 10 100 start).1 here
      (ap (λ r. r.0) opened) here
