-- ===== src/Urls/Once.antt =====
-- A token of a transfer URL is consumed once.
use Prim.Native.String
use Prim.Native.String.{[], ◌∷◌}
use sakura_monitoring.Base.{
  ℕ, ◌≡◌, ◌≢◌, inl, inr, refl, ap, Option, none, some, List, String, str_eq, str_eq_iff, All,
  nat_eq, string_eq, arith, Bool-cases, Option-cases,
}
use sakura_monitoring.Base.Map.{Map, get, get-insert, get-delete, get-empty}
use sakura_monitoring.Transfer.Types.{World}
use sakura_monitoring.Transfer.Epochs.Growth.{epoch_of}
use sakura_monitoring.Urls.{
  TransferDirection, TransferEntry, mint_transfer_token, rejected, unknown_token,
  consume_transfer_token, purge_transfer_entries, gc_expired_transfer_entries,
}

collected :
    (tok : String) (now : ℕ) (m : Map String TransferEntry)
    → get tok m ≡ none
    → get tok (gc_expired_transfer_entries now m).1 ≡ none
unfolding gc_expired_transfer_entries get
collected tok now List.[] g = refl
collected tok now (List.◌∷◌ (t, e) m) g = ground (arith, str_eq_iff t tok, collected tok now m)

module _ (sign : TransferEntry → String) where
  -- What others do with the tokens: a mint stores its entry in the state of the transfers at that moment.
  pub data UrlStep : Type 0 where
    mints : Option String → TransferEntry → World → UrlStep
    consumes : String → TransferDirection → ℕ → UrlStep
    purges : UrlStep
    collects : ℕ → UrlStep

  unfoldable pub url_step : UrlStep → Map String TransferEntry → Map String TransferEntry
  unfolding mint_transfer_token consume_transfer_token gc_expired_transfer_entries
  url_step (mints id e w) m = (mint_transfer_token sign id e w m).1
  url_step (consumes tok dir now) m = (consume_transfer_token sign tok dir now m).1
  url_step purges m = (purge_transfer_entries m).1
  url_step (collects now) m = (gc_expired_transfer_entries now m).1

  unfoldable pub url_run : List UrlStep → Map String TransferEntry → Map String TransferEntry
  unfolding url_step
  url_run List.[] m = m
  url_run (List.◌∷◌ x xs) m = url_run xs (url_step x m)

  -- The token is not minted anew.
  abbrev pub IsOther : String → UrlStep → Type 0
  IsOther tok (mints none e w) = Unit
  IsOther tok (mints (some id) e w) = (mint_transfer_token sign (some id) e w List.[]).0 ≢ some tok
  IsOther tok (consumes t dir now) = Unit
  IsOther tok purges = Unit
  IsOther tok (collects now) = Unit

  url_step-gone :
      (tok : String) (x : UrlStep) (m : Map String TransferEntry)
      → IsOther tok x
      → get tok m ≡ none
      → get tok (url_step x m) ≡ none
  unfolding url_step mint_transfer_token consume_transfer_token
  url_step-gone tok (mints none e w) m o g = g
  url_step-gone tok (mints (some id) e w) m o g =
      let bound : TransferEntry = record e { control_epoch = epoch_of e.server_id w } in
      let made = String.◌++◌ id (String.◌++◌ "." (sign bound)) in
      elim (Bool-cases (str_eq made tok)) [
        | inl y ↦ elim (o (ap some ((str_eq_iff made tok).0 y))) [ ]
        | inr n ↦ ground (arith, get-insert made tok bound m, n, g)
      ]
  url_step-gone tok (consumes t dir now) m o g = ground (arith, get-delete t tok m, g)
  url_step-gone tok purges m o g = get-empty tok
  url_step-gone tok (collects now) m o g = collected tok now m g

  url_run-gone :
      (tok : String) (xs : List UrlStep) (m : Map String TransferEntry)
      → All (λ x. IsOther tok x) xs
      → get tok m ≡ none
      → get tok (url_run xs m) ≡ none
  unfolding url_run
  url_run-gone tok List.[] m o g = g
  url_run-gone tok (List.◌∷◌ x xs) m o g =
      url_run-gone tok xs (url_step x m) o.1 (url_step-gone tok x m o.0 g)

  consume-gone :
      (tok : String) (dir : TransferDirection) (now : ℕ) (m : Map String TransferEntry)
      → get tok (consume_transfer_token sign tok dir now m).1 ≡ none
  unfolding consume_transfer_token
  consume-gone tok dir now m = elim (Option-cases (get tok m)) [
    | inl e ↦ rw (e, consume_transfer_token) e
    | inr e ↦
        rw (e.1, consume_transfer_token) (ground (arith, get-delete tok tok m, str_eq_iff tok tok))
  ]

  -- A token is consumed once: whatever the first use of it gave, and whatever others mint, consume and collect after it, a second use is
  -- refused as unknown, unless the very same token is minted anew.
  pub consume_transfer_token-once :
      (tok : String) (first second : TransferDirection) (now later : ℕ) (xs : List UrlStep)
      (m : Map String TransferEntry)
      → All (λ x. IsOther tok x) xs
      → (consume_transfer_token sign tok second later
          (url_run xs (consume_transfer_token sign tok first now m).1)).0
        ≡ rejected unknown_token
  unfolding consume_transfer_token
  consume_transfer_token-once tok first second now later xs m o =
      let after = (consume_transfer_token sign tok first now m).1 in
      let gone = url_run-gone tok xs after o (consume-gone tok first now m) in
      rw (consume_transfer_token, gone) refl
