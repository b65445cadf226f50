-- ===== src/Urls/Tests.antt =====
-- A URL that is minted, used, and used again, before and after a transfer of its server.
use sakura_monitoring.Base.{
  ◌≡◌, refl, ap, true, none, some, List, [], ◌∷◌, String, nat_eq, string_eq,
}
use sakura_monitoring.Base.Map.{Map, get, insert}
use sakura_monitoring.Base.Text.{occurs}
use sakura_monitoring.Transfer.Steps.{here}
use sakura_monitoring.Transfer.Initiate.{initiate_exclusive}
use sakura_monitoring.Transfer.Tests.{semver, luck, start, moving, opened}
use sakura_monitoring.Urls.{
  TransferEntry, download, mint_transfer_token, consumed, rejected, unknown_token,
  consume_transfer_token, Validation, redeem,
}
use sakura_monitoring.Urls.Redeeming.{consume-mint}
use sakura_monitoring.Urls.Once.{
  UrlStep, mints, consumes, collects, url_run, consume_transfer_token-once,
}
use sakura_monitoring.Urls.Ownership.{redeem-initiate_exclusive}

abbrev entry : TransferEntry
entry = record {
  control_epoch = 0;
  user_id = 10;
  token_id = 3;
  server_id = 1;
  path = "/etc/hosts";
  direction = download;
  expires_at = 500;
  oauth_grant_id = "";
}

-- The signature, as far as the theorems need one.
abbrev sign : TransferEntry → String
sign e = "5f"

abbrev table : Map String TransferEntry
table = ("k9.5f", entry) ∷ []

minted : mint_transfer_token sign (some "k9") entry start [] ≡ (some "k9.5f", table)
unfolding mint_transfer_token insert get
minted = refl

consume-mint_example :
    let r =
      consume_transfer_token sign "k9.5f" download 400
        (mint_transfer_token sign (some "k9") entry start []).1 in
    (r.0 ≡ consumed entry) × (get "k9.5f" r.1 ≡ none)
unfolding occurs get
consume-mint_example =
    consume-mint sign "k9" entry start [] 400 "k9.5f" (λ x. refl) (ap (λ r. r.0) minted) refl

abbrev others : List (UrlStep sign)
others = consumes "k9.5f" download 401 ∷ collects 402 ∷ mints none entry start ∷ []

consume_transfer_token-once_example :
    (consume_transfer_token sign "k9.5f" download 410
      (url_run sign others (consume_transfer_token sign "k9.5f" download 400 table).1)).0
    ≡ rejected unknown_token
consume_transfer_token-once_example =
    consume_transfer_token-once sign "k9.5f" download download 400 410 others table
      (tt, (tt, (tt, tt)))

abbrev checks : Validation
checks = record {
  now = 400;
  mcp_enabled = true;
  oauth_is_valid = λ e. true;
  tokens = [];
  users = [];
}

redeem-initiate_exclusive_example :
    (redeem sign checks download "k9.5f"
      (initiate_exclusive semver luck 1 10 20 10 100 start).1
      table).0
    ≡ none
unfolding get
redeem-initiate_exclusive_example =
    redeem-initiate_exclusive sign semver luck 1 10 20 10 100 moving checks download "k9.5f" entry
      table start start (initiate_exclusive semver luck 1 10 20 10 100 start).1 refl refl refl here
      (ap (λ r. r.0) opened) here
