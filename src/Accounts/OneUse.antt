-- ===== src/Accounts/OneUse.antt =====
-- What the commands do to the one token of a key, and what a reply spends of it.
use isp_cms_be.Prelude.{
  ℕ, ◌+◌, ◌≤◌, Bool, false, Option, none, some, List, [], ◌∷◌, ◌≡◌, refl, ◌==◌, if◌then◌else◌, inl,
  inr, arith, Bool-cases, Option-cases, sym, subst,
}
use isp_cms_be.Prelude.Table.{find}
use isp_cms_be.Prelude.Table.Deleted.{find-delete_where, find-delete_where_other}
use isp_cms_be.Accounts.World.{World, RefreshToken, StoredSession, User, token_at}
use isp_cms_be.Accounts.Program.{Program, ◌>>=◌}
use isp_cms_be.Accounts.Tokens.{
  drop_token, drop_id, revoke_script, find_session, commit_script, getdel,
}
use isp_cms_be.Accounts.Security.{drop_ids}
use isp_cms_be.Accounts.Login.{create_if_empty}
use isp_cms_be.Accounts.Pool.{
  Request, Reply, login_with, bootstrap_with, refresh_with, refreshed, logged_out,
}
use isp_cms_be.Accounts.Rules.{IsLenient}
use isp_cms_be.Accounts.Budget.{Spares, Pays}

drop_ids-tokens :
    (user : ℕ) (ids : List ℕ) (w : World) → (drop_ids user ids w).refresh_tokens ≡ w.refresh_tokens
unfolding drop_ids
drop_ids-tokens user [] w = refl
drop_ids-tokens user (id ∷ ids) w = drop_ids-tokens user ids (drop_id user id w)

abbrev pub present {ℓ} : {A : Type ℓ} → Option A → ℕ
present none = 0
present (some a) = 1

-- Whether the store has the token of this key.
abbrev pub held : ℕ → World → ℕ
held k w = present (find (token_at k) w.refresh_tokens)

module _ (k : ℕ) where
  pub drop_token-held : (j : ℕ) (w : World) → held k (drop_token j w) ≤ held k w
  drop_token-held j w = elim (Bool-cases (j == k)) [
    | inl same ↦
        let e : j ≡ k = ground arith in
        rw e (ground (arith, find-delete_where (token_at k) w.refresh_tokens))
    | inr other ↦ ground (
      arith,
      find-delete_where_other (token_at k) (token_at j) w.refresh_tokens (λ t h. ground arith),
    )
  ]

  revoke_script-held : (user id : ℕ) (w : World) → held k (revoke_script user id w) ≤ held k w
  unfolding revoke_script
  revoke_script-held user id w = elim (Option-cases (find_session user id w)) [
    | inl missing ↦ ground arith
    | inr (s, found) ↦ rw (found, revoke_script) (drop_token-held s.refresh_key w)
  ]

module _ (refresh_key : ℕ → ℕ) (k : ℕ) where
  -- What a reply cost: the token of this key, rotated or logged out.
  abbrev pub cost : Reply → ℕ
  cost (refreshed raw_token r) = if refresh_key raw_token == k then 1 else 0
  cost (logged_out raw_token (some user)) = if refresh_key raw_token == k then 1 else 0
  cost r = 0

  -- The request draws no token of this key.
  abbrev pub DrawsOther : Request → Type 0
  DrawsOther (login_with drawn email password code meta) = refresh_key drawn.token == k ≡ false
  DrawsOther (bootstrap_with drawn id email password meta) = refresh_key drawn.token == k ≡ false
  DrawsOther (refresh_with drawn raw_token meta) = refresh_key drawn.token == k ≡ false
  DrawsOther q = Unit

  pub held-lenient : IsLenient (Spares (held k) cost)
  held-lenient = record {
    quiet = λ effect w a b c. rw a (omega arith);
    forgets = drop_token-held k;
    leaves = λ user id w. omega arith;
    revokes = revoke_script-held k;
    prunes = λ user ids w. rw (drop_ids-tokens user ids w) (omega arith);
  }

  pub commit_script-held :
      (require_existing : Bool) (t : RefreshToken) (s : StoredSession) (w : World)
      → t.key == k ≡ false
      → held k (commit_script require_existing t s w) ≤ held k w
  unfolding commit_script find
  commit_script-held require_existing t s w other = ground (
    arith,
    find-delete_where_other (token_at k) (token_at t.key) w.refresh_tokens (λ r h. ground arith),
  )

  pub create_if_empty-held : (user : User) (w : World) → held k (create_if_empty user w) ≤ held k w
  unfolding create_if_empty
  create_if_empty-held user w = ground arith

  pub consume-Pays :
      (ttl j : ℕ) (f : Option RefreshToken → Program Reply)
      → Pays (held k) cost 0 (f none)
      → ((t : RefreshToken) → Pays (held k) cost (if j == k then 1 else 0) (f (some t)))
      → Pays (held k) cost 0 (getdel refresh_key ttl j >>= f)
  unfolding Pays
  consume-Pays ttl j f hn hs w = elim (Option-cases (find (token_at j) w.refresh_tokens)) [
    | inl missing ↦ (
      0,
      omega (arith, drop_token-held k j w),
      subst (λ o. Pays (held k) cost 0 (f o)) (sym missing) hn,
    )
    | inr (t, found) ↦ (
      if j == k then 1 else 0,
      taken w t found,
      subst (λ o. Pays (held k) cost (if j == k then 1 else 0) (f o)) (sym found) (hs t),
    )
  ]
    where
      taken :
          (w : World) (t : RefreshToken)
          → find (token_at j) w.refresh_tokens ≡ some t
          → (if j == k then 1 else 0) + held k (drop_token j w) ≤ 0 + held k w
      taken w t found = elim (Bool-cases (j == k)) [
        | inl same ↦
            let e : j ≡ k = ground arith in
            rw e (
              ground (
                arith,
                find-delete_where (token_at k) w.refresh_tokens,
                subst (λ i. find (token_at i) w.refresh_tokens ≡ some t) e found,
              ))
        | inr other ↦ ground (arith, drop_token-held k j w)
      ]
