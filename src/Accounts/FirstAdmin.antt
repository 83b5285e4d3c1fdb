-- ===== src/Accounts/FirstAdmin.antt =====
-- One first administrator, whatever runs at once.
use isp_cms_be.Prelude.{
  ℕ, ◌+◌, ◌≤◌, Bool, true, false, List, [], ◌∷◌, ◌≡◌, refl, if◌then◌else◌, arith, String,
}
use isp_cms_be.Accounts.World.{World, RefreshToken, StoredSession, User}
use isp_cms_be.Accounts.Program.{Program, done, ◌>>=◌}
use isp_cms_be.Accounts.Tokens.{
  Drawn, SessionMeta, drop_id, revoke_script, commit_script, token_row,
}
use isp_cms_be.Accounts.Security.{drop_ids}
use isp_cms_be.Accounts.TwoFactor.{Otp}
use isp_cms_be.Accounts.Login.{
  Passwords, create_if_empty, is_empty, admin_row, bootstrap_created, bootstrap_counted,
  bootstrap_admin,
}
use isp_cms_be.Accounts.Pool.{
  Request, Reply, login_with, bootstrap_with, refresh_with, logout_with, state_of, enroll, confirm,
  disable, end_one, end_others, logged_in, bootstrapped, refreshed, logged_out, answered, serve,
  Expires, token_out, session_out, index_out, failures_out, Pool, Reach,
}
use isp_cms_be.Accounts.Rules.{Commands, IsLenient}
use isp_cms_be.Accounts.Issued.{
  CommitsFresh, CommitsAgain, login-Commands, bootstrap_created-Commands, refresh-Commands,
  revoke-Commands,
}
use isp_cms_be.Accounts.Budget.{Spares, Pays, Commands-Pays, spent, Reach-spent}
use isp_cms_be.Accounts.Reviews.{
  get_state-Commands, begin_enroll-Commands, confirm_enroll-Commands, disable_two_factor-Commands,
  end_session-Commands, revoke_other_sessions-Commands,
}

drop_ids-users : (user : ℕ) (ids : List ℕ) (w : World) → (drop_ids user ids w).users ≡ w.users
unfolding drop_ids
drop_ids-users user [] w = refl
drop_ids-users user (id ∷ ids) w = drop_ids-users user ids (drop_id user id w)

-- Whether nobody has an account yet.
abbrev pub vacancy : World → ℕ
vacancy w = if is_empty w.users then 1 else 0

-- a reply that made the first administrator
abbrev pub founded : Reply → ℕ
founded (bootstrapped r) = 1
founded r = 0

lenient : IsLenient (Spares vacancy founded)
unfolding revoke_script
lenient = record {
  quiet = λ effect w a b c. rw c (omega arith);
  forgets = λ j w. omega arith;
  leaves = λ user id w. omega arith;
  revokes = λ user id w. ground arith;
  prunes = λ user ids w. rw (drop_ids-users user ids w) (omega arith);
}

commit_script-vacancy :
    (require_existing : Bool) (t : RefreshToken) (s : StoredSession) (w : World)
    → vacancy (commit_script require_existing t s w) ≤ vacancy w
unfolding commit_script
commit_script-vacancy require_existing t s w = ground arith

module _ (refresh_key : ℕ → ℕ) (ttl : ℕ) (otp : Otp) (passwords : Passwords) where
  draws_fresh : (drawn : Drawn) → CommitsFresh lenient refresh_key ttl otp passwords drawn
  draws_fresh drawn user s w =
      commit_script-vacancy false (token_row refresh_key ttl drawn user drawn.session_id) s w

  draws_again : (drawn : Drawn) → CommitsAgain lenient refresh_key ttl otp passwords drawn
  draws_again drawn user id s w =
      commit_script-vacancy true (token_row refresh_key ttl drawn user id) s w

  free-Pays :
      {B : Type 0} (m : Program B) (reply : B → Reply)
      → Commands (Spares vacancy founded) m
      → ((b : B) → founded (reply b) ≡ 0)
      → Pays vacancy founded 0 (m >>= λ b. done (reply b))
  unfolding Pays
  free-Pays m reply h zero_cost =
      Commands-Pays vacancy founded 0 m (λ b. done (reply b)) h (λ b. omega (arith, zero_cost b))

  created-Pays :
      (drawn : Drawn) (user : User) (meta : SessionMeta) (created : Bool)
      → Pays vacancy founded (if created then 1 else 0) (
          bootstrap_created refresh_key ttl otp passwords drawn user meta created >>= λ r.
          done (bootstrapped r))
  unfolding Pays bootstrap_created
  created-Pays drawn user meta true =
      Commands-Pays vacancy founded 1 _ (λ r. done (bootstrapped r))
        (bootstrap_created-Commands lenient refresh_key ttl otp passwords drawn user meta true
          (draws_fresh drawn))
        (λ r. omega arith)
  created-Pays drawn user meta false = tt

  counted-Pays :
      (drawn : Drawn) (user : User) (meta : SessionMeta) (none_yet : Bool)
      → Pays vacancy founded 0 (
          bootstrap_counted refresh_key ttl otp passwords drawn user meta none_yet >>= λ r.
          done (bootstrapped r))
  unfolding Pays bootstrap_counted create_if_empty
  counted-Pays drawn user meta true = λ w. (
    if is_empty w.users then 1 else 0,
    ground arith,
    created-Pays drawn user meta (is_empty w.users),
  )
  counted-Pays drawn user meta false = tt

  bootstrap-Pays :
      (drawn : Drawn) (id : ℕ) (email password : String) (meta : SessionMeta)
      → Pays vacancy founded 0
          (serve refresh_key ttl otp passwords (bootstrap_with drawn id email password meta))
  unfolding serve bootstrap_admin Pays
  bootstrap-Pays drawn id email password meta = λ w. (
    0,
    omega arith,
    counted-Pays drawn (admin_row refresh_key ttl otp passwords id email password) meta
        (is_empty w.users),
  )

  serve-Pays :
      (q : Request) → Unit {0} → Pays vacancy founded 0 (serve refresh_key ttl otp passwords q)
  unfolding serve
  serve-Pays (login_with drawn email password code meta) other =
      free-Pays _ logged_in
        (login-Commands lenient refresh_key ttl otp passwords drawn email password code meta
          (draws_fresh drawn))
        (λ r. refl)
  serve-Pays (bootstrap_with drawn id email password meta) other =
      bootstrap-Pays drawn id email password meta
  serve-Pays (refresh_with drawn raw_token meta) other =
      free-Pays _ (refreshed raw_token)
        (refresh-Commands lenient refresh_key ttl otp passwords drawn raw_token meta
          (draws_again drawn))
        (λ r. refl)
  serve-Pays (logout_with raw_token) other =
      free-Pays _ (logged_out raw_token)
        (revoke-Commands lenient refresh_key ttl otp passwords raw_token) (λ r. refl)
  serve-Pays (state_of user current) other =
      free-Pays _ (λ r. answered) (get_state-Commands lenient user current) (λ r. refl)
  serve-Pays (enroll secret user) other =
      free-Pays _ (λ r. answered) (begin_enroll-Commands lenient otp secret user) (λ r. refl)
  serve-Pays (confirm user code current now) other =
      free-Pays _ (λ r. answered) (confirm_enroll-Commands lenient otp user code current now)
        (λ r. refl)
  serve-Pays (disable user code current now) other =
      free-Pays _ (λ r. answered) (disable_two_factor-Commands lenient otp user code current now)
        (λ r. refl)
  serve-Pays (end_one user id) other =
      free-Pays _ (λ r. answered) (end_session-Commands lenient user id) (λ r. refl)
  serve-Pays (end_others user current) other =
      free-Pays _ (λ r. answered) (revoke_other_sessions-Commands lenient user current) (λ r. refl)

  Expires-vacancy : (w v : World) → Expires w v → vacancy v ≤ vacancy w
  Expires-vacancy w v (token_out _ j) = omega arith
  Expires-vacancy w v (session_out _ user id) = omega arith
  Expires-vacancy w v (index_out _ user) = omega arith
  Expires-vacancy w v (failures_out _ user) = omega arith

  -- Started with no request in flight and no reply, under any interleaving of the requests, the
  -- calls of `bootstrapAdmin` that return and the vacancy that is left are together at most the
  -- vacancy at the start, which is one where there is no user and none otherwise.
  pub Reach-founded_once :
      {s t : Pool Reply}
      → Reach (serve refresh_key ttl otp passwords) (λ q. Unit {0}) Expires s t
      → s.threads ≡ []
      → s.replies ≡ []
      → spent vacancy founded t.replies + vacancy t.world ≤ vacancy s.world
  Reach-founded_once r idle silent =
      Reach-spent vacancy founded (serve refresh_key ttl otp passwords) (λ q. Unit {0}) Expires
        serve-Pays Expires-vacancy r idle silent
