-- ===== src/Transfer/Invariant/End.antt =====
-- The end of a transfer keeps the agreement of the database with the pending index.
use sakura_monitoring.Base.{
  ℕ, ◌≡◌, refl, sym, Bool, true, false, ◌||◌, Option, none, some, arith, ◌==◌, str_eq, nat_eq,
  String, Option-cases, Bool-cases, inl, inr, subst,
}
use sakura_monitoring.Base.Map.{Map, get, insert, get-insert}
use sakura_monitoring.Transfer.Types.{
  World, Server, ServerTransfer, Status, pending, is_terminal, update_owner,
}
use sakura_monitoring.Transfer.Push.{
  send_apply_config, send_if_same, push_revert_to, push_revert_if_online,
}
use sakura_monitoring.Transfer.Revert.{
  RevertEnv, terminated, stored, give_back, guarded_update, revert_tx, heal, register_recovery,
  after_rival, roll_back, finish, revert_transition,
}
use sakura_monitoring.Transfer.Steps.{SettledRival}
use sakura_monitoring.Transfer.Invariant.Consistent.{
  Inv, end-Consistent, servers-Consistent, delete_same-pending, delete_same-terminal,
}
use sakura_monitoring.Transfer.Invariant.Begin.{own-SameOff, update_owner-others}

-- What a failed send drops is no owner.
pub send_apply_config-Inv :
    (taken : Bool) (t : ServerTransfer) (secret : String) (s : Server) (w : World)
    → get t.server_id w.servers ≡ some s
    → Inv w
    → Inv (send_apply_config taken t secret s w)
unfolding send_apply_config
send_apply_config-Inv true t secret s w found h = h
send_apply_config-Inv false t secret s w found h =
    servers-Consistent h
      (λ j. ground (arith, get-insert t.server_id j (record s { task_stream = none }) w.servers))

send_if_same-Inv :
    (taken : Bool) (t : ServerTransfer) (s : Server) (o : Option ServerTransfer) (w : World)
    → get t.server_id w.servers ≡ some s
    → Inv w
    → Inv (send_if_same taken t s (o, w))
send_if_same-Inv taken t s none w found h = h
send_if_same-Inv taken t s (some current) w found h = elim (Bool-cases (current.id == t.id)) [
  | inl e ↦ rw e (send_apply_config-Inv taken t t.revert_handshake_secret s w found h)
  | inr e ↦ rw e h
]

pub push_revert_if_online-Inv :
    (taken : Bool) (now : ℕ) (t : ServerTransfer) (w : World)
    → Inv w
    → Inv (push_revert_if_online taken now t w)
unfolding push_revert_if_online push_revert_to
push_revert_if_online-Inv taken now t w h = elim (Option-cases (get t.server_id w.servers)) [
  | inl e ↦ rw (e, push_revert_if_online) h
  | inr (s, found) ↦
      rw (found, push_revert_if_online)
        (elim (Option-cases s.task_stream) [
          | inl e ↦ rw e h
          | inr (stream, e) ↦ rw e (elim (Bool-cases (str_eq t.revert_handshake_secret "")) [
            | inl b ↦ rw b h
            | inr b ↦ rw b (send_if_same-Inv taken t s _ _ found h)
          ])
        ])
]

module _ (w : World) (h : Inv w) (t : ServerTransfer) (row : get t.id w.transfers ≡ some t) where
  heal_rival-Inv :
      (status : Status)
      → t.status ≡ pending
      → is_terminal status ≡ true
      → Inv (
          heal
            (after_rival status t)
            (record w { transfers = insert t.id (after_rival status t) w.transfers }))
  unfolding heal
  heal_rival-Inv status st over =
      rw (over, delete_same-pending h t row st)
        (end-Consistent h t (after_rival status t) row st refl over (λ j ne. refl) (λ j ne. refl))

  heal_settled-Inv : is_terminal t.status ≡ true → Inv (heal t w)
  unfolding heal
  heal_settled-Inv over = rw (over, delete_same-terminal h t row over) h

  roll_back-Inv :
      (env : RevertEnv) (status : Status) (reason : String) (now : ℕ) (owners : Map ℕ ℕ)
      → t.status ≡ pending
      → is_terminal status ≡ true
      → update_owner t.server_id t.from_user_id w.db_owner ≡ some owners
      → Inv (
          roll_back env now (terminated status reason now t) (record w {
            transfers = insert t.id (stored status reason now t) w.transfers;
            db_owner = owners;
          }))
  unfolding roll_back heal register_recovery
  roll_back-Inv env status reason now owners st over owned =
      push_revert_if_online-Inv env.taken now (terminated status reason now t) _ (
        rw
          (
            over,
            delete_same-pending h t row st,
            update_owner-others t.server_id t.from_user_id w.db_owner owners owned,
          )
          (end-Consistent h t (stored status reason now t) row st refl over
            (λ j ne. ground (arith, get-insert t.server_id j t.from_user_id w.db_owner))
            (own-SameOff t.server_id t.from_user_id w.servers)))

  give_back-Inv :
      (env : RevertEnv) (status : Status) (reason : String) (now : ℕ)
      → t.status ≡ pending
      → is_terminal status ≡ true
      → Inv (finish env now w (give_back env status reason now t w)).1
  unfolding give_back
  give_back-Inv env status reason now st over = elim (Bool-cases env.owner_fails) [
    | inl e ↦ simp (e, give_back) h
    | inr e ↦
        simp (e, give_back)
          (elim (Option-cases (update_owner t.server_id t.from_user_id w.db_owner)) [
            | inl none_owned ↦ simp none_owned h
            | inr (owners, owned) ↦ simp owned (elim (Bool-cases env.commit_fails) [
              | inl c ↦ simp c h
              | inr c ↦ simp c (roll_back-Inv env status reason now owners st over owned)
            ])
          ])
  ]

  guarded_update-Inv :
      (env : RevertEnv) (status : Status) (reason : String) (now : ℕ)
      → SettledRival env.rival
      → t.status ≡ pending
      → is_terminal status ≡ true
      → Inv (finish env now w (guarded_update env status reason now t w)).1
  unfolding guarded_update
  guarded_update-Inv env status reason now rival st over = elim (Bool-cases env.cas_fails) [
    | inl e ↦ simp (e, guarded_update) h
    | inr e ↦
        simp (e, guarded_update)
          (elim (Option-cases env.rival) [
            | inl alone ↦ simp alone (give_back-Inv env status reason now st over)
            | inr (other, other_e) ↦
                simp other_e (elim (Bool-cases (env.reread_fails || env.commit_fails)) [
                  | inl c ↦ simp c h
                  | inr c ↦ simp c (heal_rival-Inv other st (subst SettledRival other_e rival))
                ])
          ])
  ]

  revert_tx-Inv :
      (env : RevertEnv) (status : Status) (reason : String) (now : ℕ)
      → SettledRival env.rival
      → is_terminal status ≡ true
      → Inv (finish env now w (revert_tx env status reason now t w)).1
  unfolding revert_tx
  revert_tx-Inv env status reason now rival over = elim (Bool-cases env.read_fails) [
    | inl e ↦ simp (e, revert_tx) h
    | inr e ↦
        simp (e, revert_tx)
          (elim (Bool-cases (is_terminal t.status)) [
            | inl old ↦ simp old (elim (Bool-cases env.commit_fails) [
              | inl c ↦ simp c h
              | inr c ↦ simp c (heal_settled-Inv old)
            ])
            | inr live ↦
                simp live (guarded_update-Inv env status reason now rival (ground arith) over)
          ])
  ]

-- `Cancel`, `MarkFailed` and `MarkTimeout`, whatever the environment answers.
pub revert_transition-Inv :
    (env : RevertEnv) (status : Status) (reason : String) (transfer now : ℕ) (w : World)
    → SettledRival env.rival
    → is_terminal status ≡ true
    → Inv w
    → Inv (revert_transition env status reason transfer now w).1
unfolding revert_transition
revert_transition-Inv env status reason transfer now w rival over h =
    elim (Bool-cases env.first_fails) [
      | inl e ↦ rw (e, revert_transition) h
      | inr e ↦
          rw (e, revert_transition)
            (elim (Option-cases (get transfer w.transfers)) [
              | inl absent ↦ rw absent h
              | inr (t, found) ↦ rw found (
                  revert_tx-Inv w h t
                    (subst (λ k. get k w.transfers ≡ some t) (sym (h.row_id transfer t found).0)
                      found)
                    env status reason now rival over)
            ])
    ]
