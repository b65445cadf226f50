-- ===== src/Urls/Ownership.antt =====
-- A transfer URL does not outlive a transfer of its server.
use sakura_monitoring.Base.{
  ℕ, ◌≡◌, refl, ap, ◌∙◌, Bool, true, false, Option, none, some, String, ◌==◌, if◌then◌else◌, nat_eq,
  string_eq, arith,
}
use sakura_monitoring.Base.Map.{Map, get, delete}
use sakura_monitoring.Transfer.Types.{World, ServerTransfer, ok}
use sakura_monitoring.Transfer.Initiate.{Semver, InitiateEnv, initiate_exclusive}
use sakura_monitoring.Transfer.Steps.{Reach}
use sakura_monitoring.Transfer.Epochs.Growth.{
  epoch_of, Reach-NoneFalls, initiate_exclusive-epoch_of,
}
use sakura_monitoring.Urls.{
  TransferDirection, TransferEntry, check_entry, consume_transfer_token, Validation,
  revalidate_transfer_entry, ownership_changed, admit_consumed, redeem,
}

disabled :
    (b : Bool) (r : Option TransferEntry × Map String TransferEntry) (m : Map String TransferEntry)
    → r.0 ≡ none
    → (if b then r else (none, m)).0 ≡ none
disabled true r m e = e
disabled false r m e = refl

module _ (sign : TransferEntry → String) where
  refused :
      (v : Validation) (dir : TransferDirection) (tok : String) (e : TransferEntry) (x : World)
      (m : Map String TransferEntry)
      → get tok m ≡ some e
      → revalidate_transfer_entry v e x ≡ some ownership_changed
      → (redeem sign v dir tok x m).0 ≡ none
  unfolding redeem consume_transfer_token check_entry
  refused v dir tok e x m held stale =
      let unserved : admit_consumed v x (check_entry sign tok dir v.now e) ≡ none =
        ground (arith, stale) in
      let calc : consume_transfer_token sign tok dir v.now m
          ≡ (check_entry sign tok dir v.now e, delete tok m) =
        rw (consume_transfer_token, held) refl in
      let c = consume_transfer_token sign tok dir v.now m in
      disabled v.mcp_enabled (admit_consumed v x c.0, c.1) m
        (ap (λ r. admit_consumed v x r.0) calc ∙ unserved)

  -- A URL does not outlive the ownership that it was minted under: once a transfer of its server was initiated after the mint, no use of
  -- its entry is served, in any state that is reached later, whoever owns the server by then.
  pub redeem-initiate_exclusive :
      (semver : Semver) (env : InitiateEnv) (server from to initiator now : ℕ) (t : ServerTransfer)
      (v : Validation) (dir : TransferDirection) (tok : String) (e : TransferEntry)
      (m : Map String TransferEntry) (w u x : World)
      → get tok m ≡ some e
      → e.server_id ≡ server
      → e.control_epoch ≡ epoch_of server w
      → Reach w u
      → (initiate_exclusive semver env server from to initiator now u).0 ≡ ok t
      → Reach (initiate_exclusive semver env server from to initiator now u).1 x
      → (redeem sign v dir tok x m).0 ≡ none
  unfolding redeem consume_transfer_token revalidate_transfer_entry
  redeem-initiate_exclusive semver env server from to initiator now t v dir tok e m w u x held at
        bound before done after =
      let a = Reach-NoneFalls before server in
      let b = initiate_exclusive-epoch_of semver env server from to initiator now t u done in
      let c = Reach-NoneFalls after server in
      let moved = ap (λ s. epoch_of s x) at in
      let changed : (e.control_epoch == epoch_of e.server_id x) ≡ false =
        ground (arith, a, b, c, moved, bound) in
      let stale : revalidate_transfer_entry v e x ≡ some ownership_changed =
        rw (revalidate_transfer_entry, changed) refl in
      refused v dir tok e x m held stale
