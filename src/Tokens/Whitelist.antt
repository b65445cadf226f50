-- ===== src/Tokens/Whitelist.antt =====
-- The servers of a token, stored and read back.
use sakura_monitoring.Base.{
  ℕ, ◌<◌, ◌^◌, ◌≡◌, ◌≢◌, ◌↔◌, inl, inr, refl, ap, ◌∙◌, true, false, List, [], ◌∷◌, map, ◌==◌,
  ==_iff, str_eq, str_eq_iff, if◌then◌else◌, arith, Bool-cases, All, Has, any,
}
use Prim.Native.Char.{code}
use sakura_monitoring.Base.Text.{trim_space, split, join, occurs, split-join}
use sakura_monitoring.Tokens.Scopes.{ApiToken, comma}
use sakura_monitoring.Tokens.Servers.{
  parse_ids, server_ids, format_uint, set_server_ids, can_access_server,
}
use sakura_monitoring.Tokens.Decimal.{format_uint-IsDecimal}

-- The ids that name a server: all but 0.
abbrev pub known : List ℕ → List ℕ
known [] = []
known (v ∷ vs) = if v == 0 then known vs else v ∷ known vs

parse_ids-map :
    (ids : List ℕ) → All (λ i. i < 2 ^ 64) ids → parse_ids (map format_uint ids) ≡ known ids
unfolding parse_ids
parse_ids-map [] a = refl
parse_ids-map (v ∷ vs) a =
    let d = format_uint-IsDecimal v a.0 in
    let rest = parse_ids-map vs a.1 in
    elim (Bool-cases (v == 0)) [
      | inl e ↦ ground (arith, e, d.bare, d.value, rest, parse_ids)
      | inr e ↦
          let some_text : str_eq (format_uint v) "" ≡ false =
            ground (arith, str_eq_iff (format_uint v) "", d.filled, e) in
          rw (parse_ids, d.bare, some_text, d.value, e, rest) refl
    ]

formatted-All :
    (ids : List ℕ)
    → All (λ i. i < 2 ^ 64) ids
    → All (λ p. occurs (code comma) p ≡ false) (map format_uint ids)
formatted-All [] a = tt
formatted-All (v ∷ vs) a = ((format_uint-IsDecimal v a.0).one_part, formatted-All vs a.1)

-- The test for the empty text changes nothing.
server_ids-parse_ids : (t : ApiToken) → server_ids t ≡ parse_ids (split (code comma) t.servers_csv)
unfolding server_ids parse_ids split trim_space
server_ids-parse_ids t = elim (Bool-cases (str_eq t.servers_csv "")) [
  | inl e ↦
      let none_left : t.servers_csv ≡ "" = (str_eq_iff t.servers_csv "").0 e in
      rw (server_ids, none_left) refl
  | inr e ↦ rw (server_ids, e) refl
]

-- The ids that `SetServerIDs` stores are those that `ServerIDs` reads, in the same order, without the id 0, for
-- every list of uint64 ids.
pub server_ids-set_server_ids :
    (ids : List ℕ) (t : ApiToken)
    → All (λ i. i < 2 ^ 64) ids
    → server_ids (set_server_ids ids t) ≡ known ids
unfolding set_server_ids parse_ids split join trim_space
server_ids-set_server_ids [] t a = server_ids-parse_ids (set_server_ids [] t)
server_ids-set_server_ids (v ∷ vs) t a =
    server_ids-parse_ids (set_server_ids (v ∷ vs) t)
    ∙ ap parse_ids (
        split-join comma (format_uint v) (map format_uint vs) (formatted-All (v ∷ vs) a).0
          (formatted-All vs a.1))
    ∙ parse_ids-map (v ∷ vs) a

any-Has : (x : ℕ) (ids : List ℕ) → (any (λ i. i == x) ids ≡ true) ↔ Has x ids
any-Has x [] = ground arith
any-Has x (y ∷ ys) = ground (arith, ==_iff y x, any-Has x ys)

known-All : (ids : List ℕ) → All (λ i. i ≢ 0) ids → known ids ≡ ids
known-All [] a = refl
known-All (v ∷ vs) a = ground (arith, a.0, known-All vs a.1)

-- A token that was limited to some servers, given by nonzero uint64 ids, may touch exactly those.
pub can_access_server-set_server_ids :
    (v : ℕ) (vs : List ℕ) (t : ApiToken) (server : ℕ)
    → All (λ i. i < 2 ^ 64) (v ∷ vs)
    → All (λ i. i ≢ 0) (v ∷ vs)
    → (can_access_server (set_server_ids (v ∷ vs) t) server ≡ true) ↔ Has server (v ∷ vs)
unfolding can_access_server
can_access_server-set_server_ids v vs t server a n =
    let stored = server_ids-set_server_ids (v ∷ vs) t a ∙ known-All (v ∷ vs) n in
    rw (can_access_server, stored) (any-Has server (v ∷ vs))
