-- ===== src/Urls/Redeeming.antt =====
-- What a minted token is worth, how often, and until when.
use Prim.Native.Char.{Char, char}
use Prim.Native.String
use Prim.Native.String.{[], ◌∷◌}
use text.Mathlib.TextLemmas.{nil-append, cons-append}
use sakura_monitoring.Base.{
  ℕ, ◌≡◌, refl, ap, ◌∙◌, subst, true, false, none, some, String, ltb, str_eq, str_eq_iff, nat_eq,
  string_eq, arith,
}
use sakura_monitoring.Base.Map.{Map, get, insert, delete, get-insert, get-delete}
use sakura_monitoring.Base.Text.{occurs}
use sakura_monitoring.Transfer.Types.{World}
use sakura_monitoring.Transfer.Epochs.Growth.{epoch_of}
use sakura_monitoring.Urls.{
  TransferDirection, download, upload, is_same_direction, TransferEntry, mint_transfer_token,
  after_last_dot, check_entry, consumed, consume_transfer_token,
}

-- The character between the random part of a token and its signature
abbrev dot : Char
dot = char 46 tt

no_dot : (s : String) → occurs b'.' s ≡ false → after_last_dot s ≡ none
unfolding occurs after_last_dot
no_dot [] h = refl
no_dot (c ∷ s) h = ground (arith, h, no_dot s)

last_dot :
    (id sig : String)
    → occurs b'.' sig ≡ false
    → after_last_dot (String.◌++◌ id (String.◌++◌ "." sig)) ≡ some sig
unfolding after_last_dot
last_dot [] sig h =
    let text : String.◌++◌ [] (String.◌++◌ "." sig) ≡ dot ∷ sig =
      nil-append (String.◌++◌ "." sig)
      ∙ cons-append dot [] sig
      ∙ ap (λ t. dot ∷ t) (nil-append sig) in
    let none_later = no_dot sig h in ap after_last_dot text ∙ rw (after_last_dot, none_later) refl
last_dot (c ∷ id) sig h = rw (cons-append, after_last_dot, last_dot id sig h) refl

same_direction : (d : TransferDirection) → is_same_direction d d ≡ true
same_direction download = refl
same_direction upload = refl

module _ (sign : TransferEntry → String) where
  -- A token that was just minted is consumed into its entry, bound to the epoch of its server at that moment,
  -- where the direction is the entry's and its time is not over, if a signature holds no dot. The entry is gone afterwards.
  pub consume-mint :
      (id : String) (e : TransferEntry) (w : World) (m : Map String TransferEntry) (now : ℕ)
      (tok : String)
      → ((x : TransferEntry) → occurs b'.' (sign x) ≡ false)
      → (mint_transfer_token sign (some id) e w m).0 ≡ some tok
      → ltb e.expires_at now ≡ false
      → let r =
          consume_transfer_token sign tok e.direction now
            (mint_transfer_token sign (some id) e w m).1 in
        (r.0 ≡ consumed (record e { control_epoch = epoch_of e.server_id w }))
        × (get tok r.1 ≡ none)
  unfolding mint_transfer_token consume_transfer_token check_entry
  consume-mint id e w m now tok plain minted live =
      let bound : TransferEntry = record e { control_epoch = epoch_of e.server_id w } in
      let sig = sign bound in
      let made = String.◌++◌ id (String.◌++◌ "." sig) in
      let same : made ≡ tok = ground (arith, minted) in
      let there : get made (insert made bound m) ≡ some bound =
        ground (arith, get-insert made made bound m, str_eq_iff made made) in
      let last = last_dot id sig (plain bound) in
      let same_text : str_eq sig sig ≡ true = (str_eq_iff sig sig).1 refl in
      let checked : check_entry sign made e.direction now bound ≡ consumed bound =
        rw (check_entry, last, same_text, same_direction e.direction, live) refl in
      let calc : consume_transfer_token sign made e.direction now (insert made bound m)
          ≡ (check_entry sign made e.direction now bound, delete made (insert made bound m)) =
        rw (consume_transfer_token, there) refl in
      let gone : get made (delete made (insert made bound m)) ≡ none =
        ground (arith, get-delete made made (insert made bound m), str_eq_iff made made) in
      subst
        (λ t.
          let r = consume_transfer_token sign t e.direction now (insert made bound m) in
          (r.0 ≡ consumed bound) × (get t r.1 ≡ none))
        same (ap (λ r. r.0) calc ∙ checked, ap (λ r. get made r.1) calc ∙ gone)
