-- ===== src/Accounts/Issued.antt =====
-- The requests that issue or consume a token: all their commands are good where the simple ones are
-- and where what the request commits is.
use isp_cms_be.Prelude.{ℕ, String, Bool, true, false, Option, none, some, refl, if◌then◌else◌}
use isp_cms_be.Store.Monad.{unauthorized, internal, conflict}
use isp_cms_be.Accounts.World.{World, RefreshToken, StoredSession, User}
use isp_cms_be.Accounts.Program.{Program, done, ◌>>=◌}
use isp_cms_be.Accounts.Tokens.{
  Drawn, SessionMeta, Rotated, token_row, session_record, commit_script, commit_allowed, minted_of,
  commit_mint, find_session, mint, getdel, drop_token, rotate_token, rotate_stored, rotate,
  drop_session, drop_id, end_token, end_stored, revoke,
}
use isp_cms_be.Accounts.TwoFactor.{Otp, LoginChallengeResult, passed, required, invalid, locked}
use isp_cms_be.Accounts.Login.{
  Passwords, login_result, hash_or_fake, find_by_email, find_user, grant, login_user, login,
  create_if_empty, is_empty, admin_row, bootstrap_created, bootstrap_counted, bootstrap_admin,
  refresh_user, refresh,
}
use isp_cms_be.Accounts.Pool.{
  Request, Reply, login_with, bootstrap_with, refresh_with, logout_with, state_of, enroll, confirm,
  disable, end_one, end_others, serve,
}
use isp_cms_be.Accounts.Rules.{
  Commands, bind-Commands, done-Commands, fail-Commands, command-Commands, option-Commands,
  IsLenient,
}
use isp_cms_be.Accounts.Quiet.{ask-Commands, quiet-Commands, verify_login_challenge-Commands}
use isp_cms_be.Accounts.Reviews.{
  get_state-Commands, begin_enroll-Commands, confirm_enroll-Commands, disable_two_factor-Commands,
  end_session-Commands, revoke_other_sessions-Commands,
}

module _ {G : (World → World) → World → Type 0} (lenient : IsLenient G) (refresh_key : ℕ → ℕ)
    (ttl : ℕ) (otp : Otp) (passwords : Passwords) where
  open lenient use {quiet, forgets, leaves}

  -- What is drawn may be committed for a new session, and for one that is there.
  abbrev pub CommitsFresh : Drawn → Type 0
  CommitsFresh drawn =
      (user : ℕ) (s : StoredSession) (w : World)
      → G (commit_script false (token_row refresh_key ttl drawn user drawn.session_id) s) w

  abbrev pub CommitsAgain : Drawn → Type 0
  CommitsAgain drawn =
      (user id : ℕ) (s : StoredSession) (w : World)
      → G (commit_script true (token_row refresh_key ttl drawn user id) s) w

  commit_mint-Commands :
      (drawn : Drawn) (user id : ℕ) (require_existing : Bool) (meta : SessionMeta)
      → ((s : StoredSession) (w : World)
          → G (commit_script require_existing (token_row refresh_key ttl drawn user id) s) w)
      → Commands G (commit_mint refresh_key ttl drawn user id require_existing meta)
  unfolding commit_mint
  commit_mint-Commands drawn user id require_existing meta good =
      bind-Commands G _ _ (ask-Commands lenient (find_session user id)) (λ existing.
        bind-Commands G _ _
          (command-Commands G
            (commit_script require_existing (token_row refresh_key ttl drawn user id)
              (session_record refresh_key ttl drawn user id meta existing))
            (commit_allowed require_existing user id)
            (good (session_record refresh_key ttl drawn user id meta existing)))
          (λ written.
            done-Commands G (if written then some (minted_of refresh_key ttl drawn id) else none)))

  pub mint-Commands :
      (drawn : Drawn) (user : ℕ) (meta : SessionMeta)
      → CommitsFresh drawn
      → Commands G (mint refresh_key ttl drawn user meta)
  unfolding mint
  mint-Commands drawn user meta c =
      bind-Commands G _ _ (commit_mint-Commands drawn user drawn.session_id false meta (c user))
        (λ minted.
          option-Commands G minted _ _
            (fail-Commands G _ (internal "failed to mint a new session — this should never happen"))
            (done-Commands G))

  pub rotate_token-Commands :
      (drawn : Drawn) (t : RefreshToken) (meta : SessionMeta)
      → CommitsAgain drawn
      → Commands G (rotate_token refresh_key ttl drawn t meta)
  unfolding rotate_token
  rotate_token-Commands drawn t meta c =
      bind-Commands G _ _
        (commit_mint-Commands drawn t.user_id t.session_id true meta (c t.user_id t.session_id))
        (λ minted.
          option-Commands G minted _ _ (fail-Commands G _ (unauthorized "invalid refresh token"))
            (λ m.
              done-Commands G
                (record { user_id = t.user_id; session_id = t.session_id; refresh = m })))

  pub getdel-Commands : (k : ℕ) → Commands G (getdel refresh_key ttl k)
  getdel-Commands k = command-Commands G (drop_token k) _ (forgets k)

  pub rotate_stored-Commands :
      (drawn : Drawn) (meta : SessionMeta) (stored : Option RefreshToken)
      → CommitsAgain drawn
      → Commands G (rotate_stored refresh_key ttl drawn meta stored)
  unfolding rotate_stored
  rotate_stored-Commands drawn meta none c =
      fail-Commands G _ (unauthorized "invalid refresh token")
  rotate_stored-Commands drawn meta (some t) c = rotate_token-Commands drawn t meta c

  rotate-Commands :
      (drawn : Drawn) (raw_token : ℕ) (meta : SessionMeta)
      → CommitsAgain drawn
      → Commands G (rotate refresh_key ttl drawn raw_token meta)
  unfolding rotate
  rotate-Commands drawn raw_token meta c =
      bind-Commands G _ _ (getdel-Commands (refresh_key raw_token))
        (λ stored. rotate_stored-Commands drawn meta stored c)

  pub end_token-Commands : (t : RefreshToken) → Commands G (end_token t)
  unfolding end_token
  end_token-Commands t =
      bind-Commands G _ _
        (quiet-Commands lenient (drop_session t.user_id t.session_id) (λ w. tt) (λ w. refl)
          (λ w. refl) (λ w. refl))
        (λ u.
          bind-Commands G _ _
            (command-Commands G (drop_id t.user_id t.session_id) (λ w. tt)
              (leaves t.user_id t.session_id))
            (λ v. done-Commands G (some t.user_id)))

  pub end_stored-Commands : (stored : Option RefreshToken) → Commands G (end_stored stored)
  unfolding end_stored
  end_stored-Commands none = done-Commands G none
  end_stored-Commands (some t) = end_token-Commands t

  pub revoke-Commands : (raw_token : ℕ) → Commands G (revoke refresh_key ttl raw_token)
  unfolding revoke
  revoke-Commands raw_token =
      bind-Commands G _ _ (getdel-Commands (refresh_key raw_token)) end_stored-Commands

  grant-Commands :
      (drawn : Drawn) (user : User) (meta : SessionMeta) (r : LoginChallengeResult)
      → CommitsFresh drawn
      → Commands G (grant refresh_key ttl otp passwords drawn user meta r)
  unfolding grant
  grant-Commands drawn user meta passed c =
      bind-Commands G _ _ (mint-Commands drawn user.id meta c)
        (λ m. done-Commands G (login_result user m))
  grant-Commands drawn user meta required c = fail-Commands G _ (unauthorized _)
  grant-Commands drawn user meta invalid c = fail-Commands G _ (unauthorized _)
  grant-Commands drawn user meta locked c = fail-Commands G _ (unauthorized _)

  login_user-Commands :
      (drawn : Drawn) (user : Option User) (ok : Bool) (code : Option String) (meta : SessionMeta)
      → CommitsFresh drawn
      → Commands G (login_user refresh_key ttl otp passwords drawn user ok code meta)
  unfolding login_user
  login_user-Commands drawn none ok code meta c =
      fail-Commands G _ (unauthorized "invalid credentials")
  login_user-Commands drawn (some user) false code meta c =
      fail-Commands G _ (unauthorized "invalid credentials")
  login_user-Commands drawn (some user) true code meta c =
      bind-Commands G _ _ (verify_login_challenge-Commands lenient otp user.id code drawn.now)
        (λ r. grant-Commands drawn user meta r c)

  pub login-Commands :
      (drawn : Drawn) (email password : String) (code : Option String) (meta : SessionMeta)
      → CommitsFresh drawn
      → Commands G (login refresh_key ttl otp passwords drawn email password code meta)
  unfolding login
  login-Commands drawn email password code meta c =
      bind-Commands G _ _ (ask-Commands lenient (find_by_email refresh_key ttl otp passwords email))
        (λ user.
          login_user-Commands drawn user (passwords.verify (hash_or_fake user) password) code meta
            c)

  pub refresh_user-Commands :
      (r : Rotated) → Commands G (refresh_user refresh_key ttl otp passwords r)
  unfolding refresh_user
  refresh_user-Commands r =
      bind-Commands G _ _ (ask-Commands lenient (find_user r.user_id)) (λ user.
        option-Commands G user _ _ (fail-Commands G _ (unauthorized "invalid refresh token"))
          (λ u. done-Commands G (login_result u r.refresh)))

  pub refresh-Commands :
      (drawn : Drawn) (raw_token : ℕ) (meta : SessionMeta)
      → CommitsAgain drawn
      → Commands G (refresh refresh_key ttl otp passwords drawn raw_token meta)
  unfolding refresh
  refresh-Commands drawn raw_token meta c =
      bind-Commands G _ _ (rotate-Commands drawn raw_token meta c) refresh_user-Commands

  pub bootstrap_created-Commands :
      (drawn : Drawn) (user : User) (meta : SessionMeta) (created : Bool)
      → CommitsFresh drawn
      → Commands G (bootstrap_created refresh_key ttl otp passwords drawn user meta created)
  unfolding bootstrap_created
  bootstrap_created-Commands drawn user meta true c =
      bind-Commands G _ _ (mint-Commands drawn user.id meta c)
        (λ m. done-Commands G (login_result user m))
  bootstrap_created-Commands drawn user meta false c =
      fail-Commands G _ (conflict "bootstrap already completed")

  bootstrap_counted-Commands :
      (drawn : Drawn) (user : User) (meta : SessionMeta) (none_yet : Bool)
      → CommitsFresh drawn
      → ((user : User) (w : World) → G (create_if_empty user) w)
      → Commands G (bootstrap_counted refresh_key ttl otp passwords drawn user meta none_yet)
  unfolding bootstrap_counted
  bootstrap_counted-Commands drawn user meta true c creates =
      bind-Commands G _ _
        (command-Commands G (create_if_empty user) (λ w. is_empty w.users) (creates user))
        (λ created. bootstrap_created-Commands drawn user meta created c)
  bootstrap_counted-Commands drawn user meta false c creates =
      fail-Commands G _ (conflict "bootstrap already completed")

  pub bootstrap-Commands :
      (drawn : Drawn) (id : ℕ) (email password : String) (meta : SessionMeta)
      → CommitsFresh drawn
      → ((user : User) (w : World) → G (create_if_empty user) w)
      → Commands G (bootstrap_admin refresh_key ttl otp passwords drawn id email password meta)
  unfolding bootstrap_admin
  bootstrap-Commands drawn id email password meta c creates =
      bind-Commands G _ _ (ask-Commands lenient (λ w. is_empty w.users)) (λ none_yet.
        bootstrap_counted-Commands drawn (admin_row refresh_key ttl otp passwords id email password)
          meta none_yet c creates)

  -- What a request commits is good.
  abbrev pub CommitsOf : Request → Type 0
  CommitsOf (login_with drawn email password code meta) = CommitsFresh drawn
  CommitsOf (bootstrap_with drawn id email password meta) =
      CommitsFresh drawn × ((user : User) (w : World) → G (create_if_empty user) w)
  CommitsOf (refresh_with drawn raw_token meta) = CommitsAgain drawn
  CommitsOf _ = Unit

  answer-Commands :
      {A : Type 0} (m : Program A) (reply : A → Reply)
      → Commands G m
      → Commands G (m >>= λ a. done (reply a))
  answer-Commands m reply h = bind-Commands G m _ h (λ a. done-Commands G (reply a))

  pub serve-Commands :
      (q : Request) → CommitsOf q → Commands G (serve refresh_key ttl otp passwords q)
  unfolding serve
  serve-Commands (login_with drawn email password code meta) c =
      answer-Commands _ _ (login-Commands drawn email password code meta c)
  serve-Commands (bootstrap_with drawn id email password meta) c =
      answer-Commands _ _ (bootstrap-Commands drawn id email password meta c.0 c.1)
  serve-Commands (refresh_with drawn raw_token meta) c =
      answer-Commands _ _ (refresh-Commands drawn raw_token meta c)
  serve-Commands (logout_with raw_token) c = answer-Commands _ _ (revoke-Commands raw_token)
  serve-Commands (state_of user current) c =
      answer-Commands _ _ (get_state-Commands lenient user current)
  serve-Commands (enroll secret user) c =
      answer-Commands _ _ (begin_enroll-Commands lenient otp secret user)
  serve-Commands (confirm user code current now) c =
      answer-Commands _ _ (confirm_enroll-Commands lenient otp user code current now)
  serve-Commands (disable user code current now) c =
      answer-Commands _ _ (disable_two_factor-Commands lenient otp user code current now)
  serve-Commands (end_one user id) c = answer-Commands _ _ (end_session-Commands lenient user id)
  serve-Commands (end_others user current) c =
      answer-Commands _ _ (revoke_other_sessions-Commands lenient user current)
