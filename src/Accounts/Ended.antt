-- ===== src/Accounts/Ended.antt =====
-- What a revoked session is good for: nothing, whatever was in flight at that moment.
use isp_cms_be.Prelude.{ℕ, ◌≤◌, none, some, [], ◌≡◌, inl, inr, arith, Option-cases, sym, subst}
use isp_cms_be.Prelude.Table.{find, count_where}
use isp_cms_be.Prelude.Table.Deleted.{find-delete_where}
use isp_cms_be.Store.Monad.{err, unauthorized}
use isp_cms_be.Accounts.World.{World, RefreshToken, token_at, id_at}
use isp_cms_be.Accounts.Program.{run, ◌>>=◌}
use isp_cms_be.Accounts.Tokens.{
  Drawn, SessionMeta, drop_token, revoke_script, find_session, commit_script, rotate_token,
  rotate_stored, rotate, commit_mint,
}
use isp_cms_be.Accounts.TwoFactor.{Otp}
use isp_cms_be.Accounts.Login.{Passwords, refresh, refresh_user}
use isp_cms_be.Accounts.Pool.{Reply, serve, Expires, Pool, Reach}
use isp_cms_be.Accounts.Alone.{run-bind_err}
use isp_cms_be.Accounts.Revoked.{of_session, IsEnded, MintsOther, Reach-IsEnded}

-- REVOKE_SCRIPT takes the session out of the index.
revoke_script-IsEnded :
    (user id : ℕ) (w : World)
    → IsEnded user id
        (count_where (of_session user id) (revoke_script user id w).refresh_tokens)
        (revoke_script user id w)
unfolding revoke_script
revoke_script-IsEnded user id w = record {
  out = elim (Option-cases (find_session user id w)) [
    | inl missing ↦ rw (missing, revoke_script) (find-delete_where (id_at user id) w.session_index)
    | inr (s, found) ↦ rw (found, revoke_script) (find-delete_where (id_at user id) w.session_index)
  ];
  left = omega arith;
}

module _ (refresh_key : ℕ → ℕ) (ttl : ℕ) (otp : Otp) (passwords : Passwords) (user id : ℕ) where
  -- Once a session is revoked, after any requests, it is out of the index of its user and has no
  -- more refresh tokens than when it was revoked, under any interleaving that follows, the requests
  -- that were in flight included, when no request draws the key of that session.
  pub Reach-ended :
      {a b c : Pool Reply}
      → Reach (serve refresh_key ttl otp passwords) (MintsOther id) Expires a b
      → a.threads ≡ []
      → Reach
          (serve refresh_key ttl otp passwords)
          (MintsOther id)
          Expires
          (record b { world = revoke_script user id b.world })
          c
      → (find (id_at user id) c.world.session_index ≡ none)
        × (count_where (of_session user id) c.world.refresh_tokens
            ≤ count_where (of_session user id) (revoke_script user id b.world).refresh_tokens)
  Reach-ended {a} {b} {c} before idle after =
      let ended =
        Reach-IsEnded user id
          (count_where (of_session user id) (revoke_script user id b.world).refresh_tokens)
          refresh_key ttl otp passwords (revoke_script user id b.world) before idle after
          (revoke_script-IsEnded user id b.world) in
      (ended.out, ended.left)

module _ (refresh_key : ℕ → ℕ) (ttl : ℕ) (otp : Otp) (passwords : Passwords) where
  rotate_token-refused :
      (drawn : Drawn) (t : RefreshToken) (meta : SessionMeta) (w : World)
      → find (id_at t.user_id t.session_id) w.session_index ≡ none
      → run (rotate_token refresh_key ttl drawn t meta) w
        ≡ (err (unauthorized "invalid refresh token"), w)
  unfolding rotate_token commit_mint commit_script run
  rotate_token-refused drawn t meta w gone = ground arith

  -- The exchange of a stored refresh token whose session is not in the index of its user is
  -- refused, and takes that token from the store and changes nothing else.
  pub refresh-refused :
      (drawn : Drawn) (raw_token : ℕ) (meta : SessionMeta) (t : RefreshToken) (w : World)
      → find (token_at (refresh_key raw_token)) w.refresh_tokens ≡ some t
      → find (id_at t.user_id t.session_id) w.session_index ≡ none
      → run (refresh refresh_key ttl otp passwords drawn raw_token meta) w
        ≡ (err (unauthorized "invalid refresh token"), drop_token (refresh_key raw_token) w)
  unfolding refresh rotate rotate_stored refresh_user run
  refresh-refused drawn raw_token meta t w found gone =
      subst
        (λ stored.
          run
            (rotate_stored refresh_key ttl drawn meta stored
              >>= refresh_user refresh_key ttl otp passwords)
            (drop_token (refresh_key raw_token) w)
          ≡ (err (unauthorized "invalid refresh token"), drop_token (refresh_key raw_token) w))
        (sym found)
        (run-bind_err (rotate_token refresh_key ttl drawn t meta)
          (refresh_user refresh_key ttl otp passwords) (drop_token (refresh_key raw_token) w)
          (drop_token (refresh_key raw_token) w) (unauthorized "invalid refresh token")
          (rotate_token-refused drawn t meta (drop_token (refresh_key raw_token) w) gone))
