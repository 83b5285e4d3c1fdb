-- ===== src/Accounts/Granted.antt =====
-- What a login that is granted has passed.
use isp_cms_be.Prelude.{
  ℕ, ℤ, String, Bool, true, false, Option, none, some, ◌≡◌, refl, if◌then◌else◌, arith, subst,
}
use isp_cms_be.Prelude.Table.{find}
use isp_cms_be.Store.Monad.{ok}
use isp_cms_be.Accounts.World.{World, User, token_at}
use isp_cms_be.Accounts.Program.{Program, done, run, ◌>>=◌}
use isp_cms_be.Accounts.Tokens.{Drawn, SessionMeta, token_row, mint, commit_mint, commit_script}
use isp_cms_be.Accounts.Security.{
  is_locked, find_state, is_enabled, secret_of, non_empty, accepts, accept_script, record_failure,
  accept_step,
}
use isp_cms_be.Accounts.TwoFactor.{
  Otp, LoginChallengeResult, passed, required, invalid, locked, CodeCheckResult, matched,
  mismatched, replay, matched_step, check_code, challenge_checked, challenge_enabled,
  verify_login_challenge,
}
use isp_cms_be.Accounts.Login.{
  Passwords, LoginResult, login, login_user, grant, find_by_email, hash_or_fake,
}
use isp_cms_be.Accounts.Alone.{run-bind_inv}

module _ (refresh_key : ℕ → ℕ) (ttl : ℕ) (otp : Otp) (passwords : Passwords) where
  -- what a granted login leaves
  abbrev Granted : Drawn → User → Option String → World → LoginResult → World → Type 0
  Granted drawn user code w r v =
      ((run (verify_login_challenge otp user.id code drawn.now) w).0 ≡ ok passed)
      × (r.user_id ≡ user.id)
      × (r.access_token.sid ≡ drawn.session_id)
      × (find (token_at (refresh_key drawn.token)) v.refresh_tokens
          ≡ some (token_row refresh_key ttl drawn user.id drawn.session_id))

  grant-Granted :
      (drawn : Drawn) (user : User) (meta : SessionMeta) (c : LoginChallengeResult) (w v : World)
      (r : LoginResult)
      → run (grant refresh_key ttl otp passwords drawn user meta c) w ≡ (ok r, v)
      → (c ≡ passed)
        × (r.user_id ≡ user.id)
        × (r.access_token.sid ≡ drawn.session_id)
        × (find (token_at (refresh_key drawn.token)) v.refresh_tokens
            ≡ some (token_row refresh_key ttl drawn user.id drawn.session_id))
  unfolding grant mint commit_mint commit_script run find
  grant-Granted drawn user meta passed w v r h = ground arith
  grant-Granted drawn user meta required w v r h = absurd (cc)
  grant-Granted drawn user meta invalid w v r h = absurd (cc)
  grant-Granted drawn user meta locked w v r h = absurd (cc)

  login_user-Granted :
      (drawn : Drawn) (found : Option User) (same : Bool) (code : Option String)
      (meta : SessionMeta) (w v : World) (r : LoginResult)
      → run (login_user refresh_key ttl otp passwords drawn found same code meta) w ≡ (ok r, v)
      → (user : User) × ((found ≡ some user) × (same ≡ true) × Granted drawn user code w r v)
  unfolding login_user run
  login_user-Granted drawn none same code meta w v r h = absurd (cc)
  login_user-Granted drawn (some user) false code meta w v r h = absurd (cc)
  login_user-Granted drawn (some user) true code meta w v r h =
      let (c, (u, challenged, granted)) =
        run-bind_inv (verify_login_challenge otp user.id code drawn.now)
          (grant refresh_key ttl otp passwords drawn user meta) w v r h in
      let (pass, mine, session, stored) = grant-Granted drawn user meta c u v r granted in
      (user, (refl, refl, (rw (challenged, pass), mine, session, stored)))

  -- A login that is granted, with no other request between its commands, found the user of the
  -- email, whose password verifies and whose challenge passes, and it answers for that user and the
  -- drawn session, whose refresh token is stored.
  pub login-granted :
      (drawn : Drawn) (email password : String) (code : Option String) (meta : SessionMeta)
      (w v : World) (r : LoginResult)
      → run (login refresh_key ttl otp passwords drawn email password code meta) w ≡ (ok r, v)
      → (user : User) × ((find_by_email refresh_key ttl otp passwords email w ≡ some user)
          × (passwords.verify user.password_hash password ≡ true)
          × ((run (verify_login_challenge otp user.id code drawn.now) w).0 ≡ ok passed)
          × (r.user_id ≡ user.id)
          × (r.access_token.sid ≡ drawn.session_id)
          × (find (token_at (refresh_key drawn.token)) v.refresh_tokens
              ≡ some (token_row refresh_key ttl drawn user.id drawn.session_id)))
  unfolding login run
  login-granted drawn email password code meta w v r h =
      let found = find_by_email refresh_key ttl otp passwords email w in
      let (user, (is_his, same, (pass, mine, session, stored))) =
        login_user-Granted drawn found (passwords.verify (hash_or_fake found) password) code meta w
          v r h in
      (user, (is_his, rw is_his at same, pass, mine, session, stored))

module _ (otp : Otp) where
  -- The check of a code at a login was passed, and its step is spent.
  abbrev pub Spent : ℕ → String → String → ℕ → World → World → Type 0
  Spent user code secret now w v =
      (step : ℤ) × ((matched_step otp code secret now ≡ some step)
        × (accepts user step w ≡ true)
        × (accepts user step v ≡ false))

  accept_script-spends :
      (user : ℕ) (step : ℤ) (w : World)
      → accepts user step w ≡ true
      → accepts user step (accept_script user step w) ≡ false
  unfolding accept_script accepts find
  accept_script-spends user step w new = ground arith

  step-Spent :
      (user : ℕ) (o : Option ℤ) (w u : World)
      → run
          (elim o as (λ x. Program CodeCheckResult) [
            | none ↦ done mismatched
            | some step ↦ accept_step user step >>= λ ok. done (if ok then matched else replay)
          ])
          w
        ≡ (ok matched, u)
      → (step : ℤ) × ((o ≡ some step)
          × (accepts user step w ≡ true)
          × (u ≡ accept_script user step w))
  unfolding run
  step-Spent user none w u h = absurd (cc)
  step-Spent user (some step) w u h = (step, (refl, ground arith, ground arith))

  matched-Spent :
      (user : ℕ) (code secret : String) (now : ℕ) (w u : World)
      → run (check_code otp user code secret now) w ≡ (ok matched, u)
      → Spent user code secret now w u
  unfolding check_code
  matched-Spent user code secret now w u h =
      let (step, (found, new, after)) = step-Spent user (matched_step otp code secret now) w u h in
      (step, (found, new, rw after (accept_script-spends user step w new)))

  passed-matched :
      (user : ℕ) (r : CodeCheckResult) (u v : World)
      → run (challenge_checked otp user r) u ≡ (ok passed, v)
      → (r ≡ matched) × (v.accepted_steps ≡ u.accepted_steps)
  unfolding challenge_checked record_failure run
  passed-matched user matched u v h = ground arith
  passed-matched user mismatched u v h = absurd (ground arith)
  passed-matched user replay u v h = absurd (cc)

  accepts-same :
      (user : ℕ) (step : ℤ) (u v : World)
      → v.accepted_steps ≡ u.accepted_steps
      → accepts user step v ≡ accepts user step u
  unfolding accepts
  accepts-same user step u v same = rw same

  checked-Spent :
      (user : ℕ) (code secret : String) (now : ℕ) (w v : World)
      → run (check_code otp user code secret now >>= challenge_checked otp user) w ≡ (ok passed, v)
      → Spent user code secret now w v
  checked-Spent user code secret now w v h =
      let (r, (u, checked, pass)) =
        run-bind_inv (check_code otp user code secret now) (challenge_checked otp user) w v passed
          h in
      let (good, same) = passed-matched user r u v pass in
      let (step, (found, new, old)) = matched-Spent user code secret now w u (rw good at checked) in
      (step, (found, new, rw (accepts-same user step u v same) old))

  unlocked-Spent :
      (user : ℕ) (code : String) (now : ℕ) (shut : Bool) (o : Option String) (w v : World)
      → run
          (if shut then done locked else (elim o as (λ x. Program LoginChallengeResult) [
            | none ↦ done invalid
            | some secret ↦ check_code otp user code secret now >>= challenge_checked otp user
          ]))
          w
        ≡ (ok passed, v)
      → (secret : String) × ((shut ≡ false) × (o ≡ some secret) × Spent user code secret now w v)
  unfolding run
  unlocked-Spent user code now true o w v h = absurd (cc)
  unlocked-Spent user code now false none w v h = absurd (cc)
  unlocked-Spent user code now false (some secret) w v h =
      (secret, (refl, refl, checked-Spent user code secret now w v h))

  -- The code was sent, the secret is there and decrypts, the account is not locked, and the step is
  -- spent.
  abbrev pub PassedChecks : ℕ → Option String → Option String → ℕ → World → World → Type 0
  PassedChecks user code blob now w v =
      (text : String) × ((stored : String) × ((secret : String) × ((code ≡ some text)
            × (blob ≡ some stored)
            × (is_locked user w ≡ false)
            × (non_empty (otp.decrypt stored) ≡ some secret)
            × Spent user text secret now w v)))

  enabled-PassedChecks :
      (user : ℕ) (code blob : Option String) (now : ℕ) (w v : World)
      → run (challenge_enabled otp user code blob now) w ≡ (ok passed, v)
      → PassedChecks user code blob now w v
  unfolding challenge_enabled run
  enabled-PassedChecks user none blob now w v h = absurd (cc)
  enabled-PassedChecks user (some text) none now w v h = absurd (cc)
  enabled-PassedChecks user (some text) (some stored) now w v h =
      let (secret, (open_account, decrypts, spent)) =
        unlocked-Spent user text now (is_locked user w) (non_empty (otp.decrypt stored)) w v h in
      (text, (stored, (secret, (refl, refl, open_account, decrypts, spent))))

  -- Where two-factor login is on, a challenge that passes was sent a code, the secret is stored and
  -- decrypts, the user is not locked out, and the code matches a step that was acceptable before
  -- and is not afterwards.
  pub challenge-spends :
      (user : ℕ) (code : Option String) (now : ℕ) (w v : World)
      → is_enabled (find_state user w) ≡ true
      → run (verify_login_challenge otp user code now) w ≡ (ok passed, v)
      → PassedChecks user (non_empty code) (non_empty (secret_of (find_state user w))) now w v
  unfolding verify_login_challenge run
  challenge-spends user code now w v on h =
      let blob = non_empty (secret_of (find_state user w)) in
      enabled-PassedChecks user (non_empty code) blob now w v (
        subst
          (λ b.
            run (if b then challenge_enabled otp user (non_empty code) blob now else done passed) w
            ≡ (ok passed, v))
          on h)
