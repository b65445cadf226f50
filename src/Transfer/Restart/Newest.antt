-- ===== src/Transfer/Restart/Newest.antt =====
-- Which long-term credential a restart chooses.
use sakura_monitoring.Base.{
  ℕ, ◌≡◌, refl, subst, true, false, ◌&&◌, none, some, String, List, [], ◌∷◌, arith, ◌==◌, ==_iff,
  if◌then◌else◌, nat_eq, Has, ◌⊎◌, Bool-cases, inl, inr,
}
use sakura_monitoring.Base.Map.{Map, get, insert, get-insert}
use sakura_monitoring.Transfer.Types.{World, Server, ServerTransfer}
use sakura_monitoring.Transfer.Restart.{
  RestartEnv, Candidate, candidates, is_before, newest_first, is_eligible, is_free, index_verified,
  restart,
}
use sakura_monitoring.Transfer.Restart.Sorting.{
  NoneBefore, IsSorted, newest_first-IsSorted, newest_first-Has, Has-newest_first, before_irrefl,
}

-- `c` is an eligible candidate of server `s` in `cs`, and no other one is newer.
pub record IsNewest (servers : Map ℕ Server) (slots : Map ℕ ServerTransfer) (s : ℕ)
    (cs : List Candidate) (c : Candidate) : Type 0 where
  pub listed : Has c cs
  pub server_id : c.server_id ≡ s
  pub eligible : is_eligible servers slots c ≡ true
  pub none_newer :
      (d : Candidate)
      → Has d cs
      → d.server_id ≡ s
      → is_eligible servers slots d ≡ true
      → is_before d c ≡ false

NoneBefore-Has :
    (c d : Candidate) (cs : List Candidate) → NoneBefore c cs → Has d cs → is_before d c ≡ false
NoneBefore-Has c d [] h i = elim i [ ]
NoneBefore-Has c d (x ∷ xs) h i = elim i [
  | inl e ↦ subst (λ y. is_before y c ≡ false) e h.0
  | inr r ↦ NoneBefore-Has c d xs h.1 r
]

module _ (servers : Map ℕ Server) (slots : Map ℕ ServerTransfer) where
  abbrev next_map : Candidate → Map ℕ String → Map ℕ String
  next_map c m =
      if is_free (get c.server_id m) && is_eligible servers slots c
      then insert c.server_id c.secret m
      else m

  index_verified-keeps :
      (s : ℕ) (v : String) (cs : List Candidate) (m : Map ℕ String)
      → get s m ≡ some v
      → get s (index_verified servers slots cs m) ≡ some v
  unfolding index_verified
  index_verified-keeps s v [] m g = g
  index_verified-keeps s v (c ∷ cs) m g =
      index_verified-keeps s v cs (next_map c m)
        (ground (arith, get-insert c.server_id s c.secret m, ==_iff c.server_id s))

  -- The candidate is passed over where it is not eligible, or another server's.
  passed :
      (s : ℕ) (c : Candidate) (m : Map ℕ String)
      → get s m ≡ none
      → (c.server_id ≡ s → is_eligible servers slots c ≡ false)
      → get s (next_map c m) ≡ none
  passed s c m g n = ground (arith, get-insert c.server_id s c.secret m, ==_iff c.server_id s)

  -- It is taken where it is eligible and the server's slot is free.
  taken :
      (s : ℕ) (c : Candidate) (m : Map ℕ String)
      → get s m ≡ none
      → c.server_id ≡ s
      → is_eligible servers slots c ≡ true
      → get s (next_map c m) ≡ some c.secret
  taken s c m g at e =
      subst (λ j. get j m ≡ none → get j (next_map c m) ≡ some c.secret) at
        (λ f. ground (arith, get-insert c.server_id c.server_id c.secret m)) g

  index_verified-IsNewest :
      (s : ℕ) (cs : List Candidate) (m : Map ℕ String)
      → IsSorted cs
      → get s m ≡ none
      → ((get s (index_verified servers slots cs m) ≡ none)
          × ((d : Candidate) → Has d cs → d.server_id ≡ s → is_eligible servers slots d ≡ false))
        ⊎ ((c : Candidate) × (get s (index_verified servers slots cs m) ≡ some c.secret)
            × IsNewest servers slots s cs c)
  unfolding index_verified
  index_verified-IsNewest s [] m st g = inl (g, λ d i at. elim i [ ])
  index_verified-IsNewest s (c ∷ cs) m st g =
      elim (Bool-cases (if c.server_id == s then is_eligible servers slots c else false)) [
        | inl y ↦
            let at : c.server_id ≡ s = ground (arith, ==_iff c.server_id s) in
            let e : is_eligible servers slots c ≡ true = ground (arith) in
            inr (
              c,
              index_verified-keeps s c.secret cs (next_map c m) (taken s c m g at e),
              record {
                listed = inl refl;
                server_id = at;
                eligible = e;
                none_newer = λ d i _ _. elim i [
                  | inl same ↦ subst (λ y. is_before y c ≡ false) same (before_irrefl c)
                  | inr r ↦ NoneBefore-Has c d cs st.0 r
                ];
              },
            )
        | inr n ↦
            let never : c.server_id ≡ s → is_eligible servers slots c ≡ false =
              λ at. ground (arith, ==_iff c.server_id s) in
            elim (index_verified-IsNewest s cs (next_map c m) st.1 (passed s c m g never)) [
              | inl (e, all) ↦ inl (
                e,
                λ d i at. elim i [
                  | inl same ↦
                      subst (λ y. y.server_id ≡ s → is_eligible servers slots y ≡ false) same never
                        at
                  | inr r ↦ all d r at
                ],
              )
              | inr (b, e, k) ↦ inr (
                b,
                e,
                record {
                  listed = inr k.listed;
                  server_id = k.server_id;
                  eligible = k.eligible;
                  none_newer = λ d i at el. elim i [
                    | inl same ↦
                        let no =
                          subst (λ y. y.server_id ≡ s → is_eligible servers slots y ≡ false) same
                            never at in
                        ground arith
                    | inr r ↦ k.none_newer d r at el
                  ];
                },
              )
            ]
      ]

-- For each server, a restart either finds no eligible candidate among the acknowledged transfers that
-- its queries return, and then the server has no long-term credential; or the credential is the
-- secret of an eligible candidate of that server than which no other one was acknowledged later, nor
-- at the same time with a greater transfer id.
pub restart-IsNewest :
    (env : RestartEnv) (now s : ℕ) (w : World)
    → let v = restart env now w in
      let eligible = is_eligible w.servers v.pending in
      ((get s v.verified_handshakes ≡ none)
        × ((d : Candidate) → Has d (candidates env w) → d.server_id ≡ s → eligible d ≡ false))
      ⊎ ((c : Candidate) × (get s v.verified_handshakes ≡ some c.secret)
          × IsNewest w.servers v.pending s (candidates env w) c)
unfolding restart get
restart-IsNewest env now s w =
    let cs = candidates env w in
    let slots = (restart env now w).pending in
    elim (index_verified-IsNewest w.servers slots s (newest_first cs) [] (newest_first-IsSorted cs)
      refl) [
        | inl (e, n) ↦ inl (e, λ d i. n d (newest_first-Has d cs i))
        | inr (c, e, k) ↦ inr (
          c,
          e,
          record {
            listed = Has-newest_first c cs k.listed;
            server_id = k.server_id;
            eligible = k.eligible;
            none_newer = λ d i. k.none_newer d (newest_first-Has d cs i);
          },
        )
      ]
