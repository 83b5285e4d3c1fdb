-- ===== src/Accounts/TokenOnce.antt =====
-- A refresh token buys one rotation or one logout, whatever runs at once.
use isp_cms_be.Prelude.{
  ℕ, ◌≤◌, true, false, Option, none, some, [], ◌≡◌, refl, ◌==◌, if◌then◌else◌, arith,
}
use isp_cms_be.Accounts.World.{World, RefreshToken}
use isp_cms_be.Accounts.Program.{Program, done, ◌>>=◌}
use isp_cms_be.Accounts.Tokens.{
  Drawn, SessionMeta, token_row, rotate_stored, rotate, revoke, end_stored,
}
use isp_cms_be.Accounts.TwoFactor.{Otp}
use isp_cms_be.Accounts.Login.{Passwords, refresh, refresh_user}
use isp_cms_be.Accounts.Pool.{
  Request, Reply, login_with, bootstrap_with, refresh_with, logout_with, state_of, enroll, confirm,
  disable, end_one, end_others, logged_in, bootstrapped, refreshed, logged_out, answered, serve,
  Expires, token_out, session_out, index_out, failures_out, Pool, Reach,
}
use isp_cms_be.Accounts.Rules.{Commands, bind-Commands, IsLenient}
use isp_cms_be.Accounts.Issued.{
  CommitsFresh, CommitsAgain, refresh_user-Commands, login-Commands, bootstrap-Commands,
  rotate_stored-Commands, end_stored-Commands,
}
use isp_cms_be.Accounts.Budget.{Spares, Pays, Commands-Pays, spent, Reach-spent}
use isp_cms_be.Accounts.Reviews.{
  get_state-Commands, begin_enroll-Commands, confirm_enroll-Commands, disable_two_factor-Commands,
  end_session-Commands, revoke_other_sessions-Commands,
}
use isp_cms_be.Accounts.OneUse.{
  held, cost, DrawsOther, drop_token-held, held-lenient, commit_script-held, create_if_empty-held,
  consume-Pays,
}

module _ (refresh_key : ℕ → ℕ) (ttl : ℕ) (otp : Otp) (passwords : Passwords) (k : ℕ) where
  abbrev lenient : IsLenient (Spares (held k) (cost refresh_key k))
  lenient = held-lenient refresh_key k

  draws_fresh :
      (drawn : Drawn)
      → refresh_key drawn.token == k ≡ false
      → CommitsFresh lenient refresh_key ttl otp passwords drawn
  draws_fresh drawn other user s w =
      commit_script-held refresh_key k false (token_row refresh_key ttl drawn user drawn.session_id)
        s w other

  draws_again :
      (drawn : Drawn)
      → refresh_key drawn.token == k ≡ false
      → CommitsAgain lenient refresh_key ttl otp passwords drawn
  draws_again drawn other user id s w =
      commit_script-held refresh_key k true (token_row refresh_key ttl drawn user id) s w other

  free-Pays :
      {B : Type 0} (m : Program B) (reply : B → Reply)
      → Commands (Spares (held k) (cost refresh_key k)) m
      → ((b : B) → cost refresh_key k (reply b) ≡ 0)
      → Pays (held k) (cost refresh_key k) 0 (m >>= λ b. done (reply b))
  unfolding Pays
  free-Pays m reply h zero_cost =
      Commands-Pays (held k) (cost refresh_key k) 0 m (λ b. done (reply b)) h
        (λ b. omega (arith, zero_cost b))

  -- the end of a refresh whose token is worth `n`
  rotated-Pays :
      (n : ℕ) (drawn : Drawn) (raw_token : ℕ) (meta : SessionMeta) (stored : Option RefreshToken)
      → refresh_key drawn.token == k ≡ false
      → (if refresh_key raw_token == k then 1 else 0) ≤ n
      → Pays (held k) (cost refresh_key k) n (
          rotate_stored refresh_key ttl drawn meta stored
          >>= refresh_user refresh_key ttl otp passwords
          >>= λ r. done (refreshed raw_token r))
  unfolding Pays
  rotated-Pays n drawn raw_token meta stored other worth =
      Commands-Pays (held k) (cost refresh_key k) n _ (λ r. done (refreshed raw_token r))
        (bind-Commands (Spares (held k) (cost refresh_key k)) _ _
          (rotate_stored-Commands lenient refresh_key ttl otp passwords drawn meta stored
            (draws_again drawn other))
          (refresh_user-Commands lenient refresh_key ttl otp passwords))
        (λ r. worth)

  refused-Pays :
      (drawn : Drawn) (raw_token : ℕ) (meta : SessionMeta)
      → Pays (held k) (cost refresh_key k) 0 (
          rotate_stored refresh_key ttl drawn meta none
          >>= refresh_user refresh_key ttl otp passwords
          >>= λ r. done (refreshed raw_token r))
  unfolding Pays rotate_stored
  refused-Pays drawn raw_token meta = tt

  refresh-Pays :
      (drawn : Drawn) (raw_token : ℕ) (meta : SessionMeta)
      → refresh_key drawn.token == k ≡ false
      → Pays
          (held k)
          (cost refresh_key k)
          0
          (serve refresh_key ttl otp passwords (refresh_with drawn raw_token meta))
  unfolding serve refresh rotate
  refresh-Pays drawn raw_token meta other =
      consume-Pays refresh_key k ttl (refresh_key raw_token)
        (λ stored.
          rotate_stored refresh_key ttl drawn meta stored
          >>= refresh_user refresh_key ttl otp passwords
          >>= λ r. done (refreshed raw_token r))
        (refused-Pays drawn raw_token meta)
        (λ t.
          rotated-Pays (if refresh_key raw_token == k then 1 else 0) drawn raw_token meta (some t)
            other (ground arith))

  ended-Pays :
      (raw_token : ℕ) (t : RefreshToken)
      → Pays
          (held k)
          (cost refresh_key k)
          (if refresh_key raw_token == k then 1 else 0)
          (end_stored (some t) >>= λ r. done (logged_out raw_token r))
  unfolding Pays
  ended-Pays raw_token t =
      Commands-Pays (held k) (cost refresh_key k) _ _ (λ r. done (logged_out raw_token r))
        (end_stored-Commands lenient refresh_key ttl otp passwords (some t)) (λ r. ground arith)

  unknown-Pays :
      (raw_token : ℕ)
      → Pays
          (held k)
          (cost refresh_key k)
          0
          (end_stored none >>= λ r. done (logged_out raw_token r))
  unfolding Pays end_stored
  unknown-Pays raw_token = omega arith

  logout-Pays :
      (raw_token : ℕ)
      → Pays
          (held k)
          (cost refresh_key k)
          0
          (serve refresh_key ttl otp passwords (logout_with raw_token))
  unfolding serve revoke
  logout-Pays raw_token =
      consume-Pays refresh_key k ttl (refresh_key raw_token)
        (λ stored. end_stored stored >>= λ r. done (logged_out raw_token r))
        (unknown-Pays raw_token) (ended-Pays raw_token)

  serve-Pays :
      (q : Request)
      → DrawsOther refresh_key k q
      → Pays (held k) (cost refresh_key k) 0 (serve refresh_key ttl otp passwords q)
  unfolding serve
  serve-Pays (login_with drawn email password code meta) other =
      free-Pays _ logged_in
        (login-Commands lenient refresh_key ttl otp passwords drawn email password code meta
          (draws_fresh drawn other))
        (λ r. refl)
  serve-Pays (bootstrap_with drawn id email password meta) other =
      free-Pays _ bootstrapped
        (bootstrap-Commands lenient refresh_key ttl otp passwords drawn id email password meta
          (draws_fresh drawn other) (create_if_empty-held refresh_key k))
        (λ r. refl)
  serve-Pays (refresh_with drawn raw_token meta) other = refresh-Pays drawn raw_token meta other
  serve-Pays (logout_with raw_token) other = logout-Pays raw_token
  serve-Pays (state_of user current) other =
      free-Pays _ (λ r. answered) (get_state-Commands lenient user current) (λ r. refl)
  serve-Pays (enroll secret user) other =
      free-Pays _ (λ r. answered) (begin_enroll-Commands lenient otp secret user) (λ r. refl)
  serve-Pays (confirm user code current now) other =
      free-Pays _ (λ r. answered) (confirm_enroll-Commands lenient otp user code current now)
        (λ r. refl)
  serve-Pays (disable user code current now) other =
      free-Pays _ (λ r. answered) (disable_two_factor-Commands lenient otp user code current now)
        (λ r. refl)
  serve-Pays (end_one user id) other =
      free-Pays _ (λ r. answered) (end_session-Commands lenient user id) (λ r. refl)
  serve-Pays (end_others user current) other =
      free-Pays _ (λ r. answered) (revoke_other_sessions-Commands lenient user current) (λ r. refl)

  Expires-held : (w v : World) → Expires w v → held k v ≤ held k w
  Expires-held w v (token_out _ j) = drop_token-held k j w
  Expires-held w v (session_out _ user id) = omega arith
  Expires-held w v (index_out _ user) = omega arith
  Expires-held w v (failures_out _ user) = omega arith

  -- Started with no request in flight and no reply, under any interleaving of the requests, in
  -- which requests may die half-way and keys of Redis run out, a refresh token buys at most one
  -- exchange or log out, when no request draws a token of its key.
  pub Reach-token_once :
      {s t : Pool Reply}
      → Reach (serve refresh_key ttl otp passwords) (DrawsOther refresh_key k) Expires s t
      → s.threads ≡ []
      → s.replies ≡ []
      → spent (held k) (cost refresh_key k) t.replies ≤ 1
  Reach-token_once {s} {t} r idle silent =
      let bound =
        Reach-spent (held k) (cost refresh_key k) (serve refresh_key ttl otp passwords)
          (DrawsOther refresh_key k) Expires serve-Pays Expires-held r idle silent in
      ground (arith, bound)
