-- ===== src/Tokens/Normalized.antt =====
-- What normalizing makes of the scopes of a token.
use sakura_monitoring.Base.{
  ◌≡◌, ◌⊎◌, inl, inr, refl, sym, ap, ◌∙◌, subst, true, false, some, List, [], ◌∷◌, String, str_eq,
  str_eq_iff, arith, Bool-cases, Option-cases, All, All-mono, any,
}
use sakura_monitoring.Base.Text.{trim_space, occurs, has_prefix, has_suffix, join}
use sakura_monitoring.Tokens.Scopes.{
  ApiToken, comma, scope_server_read, scope_server_exec, scope_nezha_all, legacy_rewrite,
  normalize_incoming_scope, scope_matches, any_matches, scopes, decode_scopes,
}
use sakura_monitoring.Tokens.Csv.{IsClean, decode_scopes-IsClean, decode_scopes-join}
use sakura_monitoring.Tokens.Migration.{normalize_all, keeps, rewrites, fate_of, fate}

-- The scope is one of the two that a legacy scope is mapped to.
abbrev pub IsMapped : String → Type 0
IsMapped s = (s ≡ scope_server_read) ⊎ (s ≡ scope_server_exec)

abbrev pub NoLegacy : String → Type 0
NoLegacy s = has_prefix s "mcp:" ≡ false

legacy_rewrite-IsMapped : (s m : String) → legacy_rewrite s ≡ some m → IsMapped m
unfolding legacy_rewrite
legacy_rewrite-IsMapped s m e = ground arith

normalize-cases :
    (s m : String) → normalize_incoming_scope s ≡ some m → IsMapped m ⊎ ((m ≡ s) × NoLegacy s)
unfolding normalize_incoming_scope
normalize-cases s m e = elim (Option-cases (legacy_rewrite s)) [
  | inl f ↦ ground (arith, e, f, normalize_incoming_scope)
  | inr f ↦ inl (legacy_rewrite-IsMapped s m (ground (arith, e, f.1, normalize_incoming_scope)))
]

mapped-NoLegacy : (m : String) → IsMapped m → NoLegacy m
unfolding has_prefix
mapped-NoLegacy m (inl e) = rw e refl
mapped-NoLegacy m (inr e) = rw e refl

read-IsClean : IsClean scope_server_read
unfolding trim_space occurs
read-IsClean = record { bare = refl; one_part = refl; filled = refl }

exec-IsClean : IsClean scope_server_exec
unfolding trim_space occurs
exec-IsClean = record { bare = refl; one_part = refl; filled = refl }

mapped-IsClean : (m : String) → IsMapped m → IsClean m
mapped-IsClean m (inl e) = subst (λ s. IsClean s) (sym e) read-IsClean
mapped-IsClean m (inr e) = subst (λ s. IsClean s) (sym e) exec-IsClean

-- A scope without a wildcard grants itself only.
exact :
    (s wanted : String)
    → str_eq s scope_nezha_all ≡ false
    → has_suffix s ":*" ≡ false
    → scope_matches s wanted ≡ true
    → wanted ≡ s
unfolding scope_matches
exact s wanted a b h = ground (arith, h, a, b, str_eq_iff s wanted, scope_matches)

IsMapped-matches :
    (m wanted : String) → IsMapped m → scope_matches m wanted ≡ true → IsMapped wanted
unfolding scope_matches has_suffix
IsMapped-matches m wanted (inl e) h =
    inl (exact scope_server_read wanted refl refl (subst (λ s. scope_matches s wanted ≡ true) e h))
IsMapped-matches m wanted (inr e) h =
    inr (exact scope_server_exec wanted refl refl (subst (λ s. scope_matches s wanted ≡ true) e h))

pub normalize_all-All :
    (seen ss : List String)
    → All IsClean ss
    → All (λ m. IsClean m × NoLegacy m) (normalize_all seen ss)
unfolding normalize_all
normalize_all-All seen [] a = tt
normalize_all-All seen (s ∷ ss) a = elim (Option-cases (normalize_incoming_scope s)) [
  | inl e ↦ rw (normalize_all, e) (normalize_all-All seen ss a.1)
  | inr e ↦ elim (Bool-cases (any (λ t. str_eq t e.0) seen)) [
    | inl f ↦ rw (normalize_all, e.1, f) (normalize_all-All seen ss a.1)
    | inr f ↦
        let rest = normalize_all-All (e.0 ∷ seen) ss a.1 in
        let here : IsClean e.0 × NoLegacy e.0 = elim (normalize-cases s e.0 e.1) [
          | inl k ↦ (mapped-IsClean e.0 k, mapped-NoLegacy e.0 k)
          | inr k ↦ (subst (λ x. IsClean x) (sym k.0) a.0, subst (λ x. NoLegacy x) (sym k.0) k.1)
        ] in
        rw (normalize_all, e.1, f) (here, rest)
  ]
]

wider :
    (s : String) (ss : List String) (wanted : String)
    → (any_matches ss wanted ≡ true) ⊎ IsMapped wanted
    → (any_matches (s ∷ ss) wanted ≡ true) ⊎ IsMapped wanted
unfolding any_matches
wider s ss wanted (inl h) = inl (ground (arith, h))
wider s ss wanted (inr h) = inr h

first_grants :
    (s m : String) (ss : List String) (wanted : String)
    → IsMapped m ⊎ ((m ≡ s) × NoLegacy s)
    → scope_matches m wanted ≡ true
    → (any_matches (s ∷ ss) wanted ≡ true) ⊎ IsMapped wanted
unfolding any_matches
first_grants s m ss wanted (inl k) g = inr (IsMapped-matches m wanted k g)
first_grants s m ss wanted (inr k) g =
    let same : scope_matches s wanted ≡ true = subst (λ x. scope_matches x wanted ≡ true) k.0 g in
    inl (ground (arith, same))

fate_of-csv :
    (old : String) (next : List String) (csv : String)
    → (fate_of old next ≡ rewrites csv) ⊎ ((fate_of old next ≡ keeps) × (csv ≡ old))
    → csv ≡ join comma next
unfolding join
fate_of-csv old [] csv h = ground arith
fate_of-csv old (s ∷ ss) csv h = ground (arith, str_eq_iff (join comma (s ∷ ss)) old)

-- What the normalized scopes grant the old ones granted, but for the two mapped scopes.
pub normalize_all-grants :
    (seen ss : List String) (wanted : String)
    → any_matches (normalize_all seen ss) wanted ≡ true
    → (any_matches ss wanted ≡ true) ⊎ IsMapped wanted
unfolding normalize_all any_matches
normalize_all-grants seen [] wanted h = inl h
normalize_all-grants seen (s ∷ ss) wanted h = elim (Option-cases (normalize_incoming_scope s)) [
  | inl e ↦
      let calc : normalize_all seen (s ∷ ss) ≡ normalize_all seen ss = rw (normalize_all, e) refl in
      let h' = subst (λ l. any_matches l wanted ≡ true) calc h in
      wider s ss wanted (normalize_all-grants seen ss wanted h')
  | inr e ↦ elim (Bool-cases (any (λ t. str_eq t e.0) seen)) [
    | inl f ↦
        let calc : normalize_all seen (s ∷ ss) ≡ normalize_all seen ss =
          rw (normalize_all, e.1, f) refl in
        let h' = subst (λ l. any_matches l wanted ≡ true) calc h in
        wider s ss wanted (normalize_all-grants seen ss wanted h')
    | inr f ↦
        let rest = normalize_all (e.0 ∷ seen) ss in
        let calc : normalize_all seen (s ∷ ss) ≡ e.0 ∷ rest = rw (normalize_all, e.1, f) refl in
        let h' = subst (λ l. any_matches l wanted ≡ true) calc h in
        elim (Bool-cases (scope_matches e.0 wanted)) [
          | inl g ↦ first_grants s e.0 ss wanted (normalize-cases s e.0 e.1) g
          | inr g ↦
              let later : any_matches rest wanted ≡ true = ground (arith, h', g, any_matches) in
              wider s ss wanted (normalize_all-grants (e.0 ∷ seen) ss wanted later)
        ]
  ]
]

-- The row that replaces a token, and what its scopes are.
pub fate-scopes :
    (t : ApiToken) (csv : String)
    → (fate t ≡ rewrites csv) ⊎ ((fate t ≡ keeps) × (csv ≡ t.scopes_csv))
    → decode_scopes csv ≡ normalize_all [] (scopes t)
unfolding fate
fate-scopes t csv h =
    let next = normalize_all [] (scopes t) in
    let clean =
      All-mono next (λ m c. c.0)
        (normalize_all-All [] (scopes t) (decode_scopes-IsClean t.scopes_csv)) in
    ap decode_scopes (fate_of-csv t.scopes_csv next csv h) ∙ decode_scopes-join next clean
