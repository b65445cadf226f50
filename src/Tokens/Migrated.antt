-- ===== src/Tokens/Migrated.antt =====
-- What the migration leaves in the table of tokens.
use sakura_monitoring.Base.{
  ℕ, ◌≡◌, ◌⊎◌, inl, inr, refl, sym, subst, Bool, true, false, List, [], ◌∷◌, String, Bool-cases,
  All, All-mono, Has,
}
use sakura_monitoring.Tokens.Scopes.{ApiToken, scopes, decode_scopes, has_scope, any_matches}
use sakura_monitoring.Tokens.Csv.{decode_scopes-IsClean}
use sakura_monitoring.Tokens.Migration.{
  normalize_all, Fate, deletes, keeps, rewrites, fate, Report, apply_fate, migrate_rows,
  migrate_legacy_mcp_scopes,
}
use sakura_monitoring.Tokens.Normalized.{
  IsMapped, NoLegacy, normalize_all-All, normalize_all-grants, fate-scopes,
}

-- What holds of the rows that an update leaves in place: of all, when no update has failed.
module _ (P : ApiToken → Type 0) (t : ApiToken) (ts : List ApiToken) where
  apply_fate-All :
      (f : Fate) (fails : Bool) (rest : Report × List ApiToken)
      → P t
      → All P ts
      → ((csv : String) → f ≡ rewrites csv → P (record t { scopes_csv = csv }))
      → All P rest.1
      → All P (apply_fate f fails t ts rest).1
  unfolding apply_fate
  apply_fate-All keeps fails rest old olds new a = (old, a)
  apply_fate-All deletes true rest old olds new a = (old, olds)
  apply_fate-All deletes false rest old olds new a = a
  apply_fate-All (rewrites csv) true rest old olds new a = (old, olds)
  apply_fate-All (rewrites csv) false rest old olds new a = (new csv refl, a)

  apply_fate-done :
      (f : Fate) (fails : Bool) (rest : Report × List ApiToken)
      → (f ≡ keeps → P t)
      → ((csv : String) → f ≡ rewrites csv → P (record t { scopes_csv = csv }))
      → (rest.0.failed ≡ false → All P rest.1)
      → (apply_fate f fails t ts rest).0.failed ≡ false
      → All P (apply_fate f fails t ts rest).1
  unfolding apply_fate
  apply_fate-done keeps fails rest old new a e = (old refl, a e)
  apply_fate-done deletes true rest old new a e = cc
  apply_fate-done deletes false rest old new a e = a e
  apply_fate-done (rewrites csv) true rest old new a e = cc
  apply_fate-done (rewrites csv) false rest old new a e = (new csv refl, a e)

-- The token can be matched with a row of the table before, which has the same owner, servers and expiry,
-- and grants what it grants, but for the two scopes that a legacy scope is mapped to.
pub record IsNarrowed (db : List ApiToken) (t : ApiToken) : Type 0 where
  pub origin : ApiToken
  pub stored : Has origin db
  pub id : t.id ≡ origin.id
  pub user_id : t.user_id ≡ origin.user_id
  pub servers_csv : t.servers_csv ≡ origin.servers_csv
  pub expires_at : t.expires_at ≡ origin.expires_at
  pub grants :
      (wanted : String)
      → has_scope t wanted ≡ true
      → (has_scope origin wanted ≡ true) ⊎ IsMapped wanted

module _ (db : List ApiToken) where
  same-IsNarrowed : (t : ApiToken) → Has t db → IsNarrowed db t
  same-IsNarrowed t h = record {
    origin = t;
    stored = h;
    id = refl;
    user_id = refl;
    servers_csv = refl;
    expires_at = refl;
    grants = λ wanted g. inl g;
  }

  rewritten-IsNarrowed :
      (t : ApiToken) (csv : String)
      → Has t db
      → fate t ≡ rewrites csv
      → IsNarrowed db (record t { scopes_csv = csv })
  unfolding has_scope
  rewritten-IsNarrowed t csv h e = record {
    origin = t;
    stored = h;
    id = refl;
    user_id = refl;
    servers_csv = refl;
    expires_at = refl;
    grants = λ wanted g.
        normalize_all-grants [] (scopes t) wanted
          (subst (λ l. any_matches l wanted ≡ true) (fate-scopes t csv (inl e)) g);
  }

  module _ (is_like : ApiToken → Bool) (fails : ℕ → Bool) where
    rows-IsNarrowed :
        (ts : List ApiToken)
        → All (λ t. Has t db) ts
        → All (λ t. IsNarrowed db t) (migrate_rows is_like fails ts).1
    unfolding migrate_rows
    rows-IsNarrowed [] h = tt
    rows-IsNarrowed (t ∷ ts) h =
        let rest = rows-IsNarrowed ts h.1 in
        elim (Bool-cases (is_like t)) [
          | inr e ↦ rw (migrate_rows, e) (same-IsNarrowed t h.0, rest)
          | inl e ↦
              rw (migrate_rows, e)
                (apply_fate-All (λ t. IsNarrowed db t) t ts (fate t) (fails t.id)
                  (migrate_rows is_like fails ts) (same-IsNarrowed t h.0)
                  (All-mono ts same-IsNarrowed h.1) (λ csv f. rewritten-IsNarrowed t csv h.0 f)
                  rest)
        ]

Has-All : (db ts : List ApiToken) → ((t : ApiToken) → Has t ts → Has t db) → All (λ t. Has t db) ts
Has-All db [] f = tt
Has-All db (t ∷ ts) f = (f t (inl refl), Has-All db ts (λ u h. f u (inr h)))

-- Whatever the query selects and whichever updates fail, every row that the migration leaves comes from a row before, with the same
-- id, owner, servers and expiry, and grants no scope that this row did not grant, but for
-- nezha:server:read and nezha:server:exec.
pub migrate_legacy_mcp_scopes-IsNarrowed :
    (is_like : ApiToken → Bool) (find_fails : Bool) (fails : ℕ → Bool) (ts : List ApiToken)
    → All (λ t. IsNarrowed ts t) (migrate_legacy_mcp_scopes is_like find_fails fails ts).1
unfolding migrate_legacy_mcp_scopes
migrate_legacy_mcp_scopes-IsNarrowed is_like true fails ts =
    All-mono ts (same-IsNarrowed ts) (Has-All ts ts (λ t h. h))
migrate_legacy_mcp_scopes-IsNarrowed is_like false fails ts =
    rows-IsNarrowed ts is_like fails ts (Has-All ts ts (λ t h. h))

abbrev pub HasNoLegacy : ApiToken → Type 0
HasNoLegacy t = All NoLegacy (scopes t)

normalized-HasNoLegacy :
    (t : ApiToken) (csv : String)
    → (fate t ≡ rewrites csv) ⊎ ((fate t ≡ keeps) × (csv ≡ t.scopes_csv))
    → All NoLegacy (decode_scopes csv)
normalized-HasNoLegacy t csv h =
    let next = normalize_all [] (scopes t) in
    let clean = normalize_all-All [] (scopes t) (decode_scopes-IsClean t.scopes_csv) in
    subst (λ l. All NoLegacy l) (sym (fate-scopes t csv h)) (All-mono next (λ m c. c.1) clean)

rows-HasNoLegacy :
    (is_like : ApiToken → Bool) (fails : ℕ → Bool) (ts : List ApiToken)
    → ((t : ApiToken) → is_like t ≡ false → HasNoLegacy t)
    → (migrate_rows is_like fails ts).0.failed ≡ false
    → All HasNoLegacy (migrate_rows is_like fails ts).1
unfolding migrate_rows
rows-HasNoLegacy is_like fails [] like ok = tt
rows-HasNoLegacy is_like fails (t ∷ ts) like ok = elim (Bool-cases (is_like t)) [
  | inr e ↦
      let rest = migrate_rows is_like fails ts in
      let calc : migrate_rows is_like fails (t ∷ ts) ≡ (rest.0, t ∷ rest.1) =
        rw (migrate_rows, e) refl in
      let ok' = subst (λ r. r.0.failed ≡ false) calc ok in
      subst (λ r. All HasNoLegacy r.1) (sym calc)
        (like t e, rows-HasNoLegacy is_like fails ts like ok')
  | inl e ↦
      let rest = migrate_rows is_like fails ts in
      let done = apply_fate (fate t) (fails t.id) t ts rest in
      let calc : migrate_rows is_like fails (t ∷ ts) ≡ done = rw (migrate_rows, e) refl in
      let ok' = subst (λ r. r.0.failed ≡ false) calc ok in
      subst (λ r. All HasNoLegacy r.1) (sym calc)
        (apply_fate-done HasNoLegacy t ts (fate t) (fails t.id) rest
          (λ k. normalized-HasNoLegacy t t.scopes_csv (inr (k, refl)))
          (λ csv k. normalized-HasNoLegacy t csv (inl k)) (rows-HasNoLegacy is_like fails ts like)
          ok')
]

-- When the query selects every token with a legacy scope and no database call fails, no row that the migration
-- leaves has a scope that begins with mcp:.
pub migrate_legacy_mcp_scopes-HasNoLegacy :
    (is_like : ApiToken → Bool) (find_fails : Bool) (fails : ℕ → Bool) (ts : List ApiToken)
    → ((t : ApiToken) → is_like t ≡ false → HasNoLegacy t)
    → (migrate_legacy_mcp_scopes is_like find_fails fails ts).0.failed ≡ false
    → All HasNoLegacy (migrate_legacy_mcp_scopes is_like find_fails fails ts).1
unfolding migrate_legacy_mcp_scopes
migrate_legacy_mcp_scopes-HasNoLegacy is_like true fails ts like ok = cc
migrate_legacy_mcp_scopes-HasNoLegacy is_like false fails ts like ok =
    rows-HasNoLegacy is_like fails ts like ok
