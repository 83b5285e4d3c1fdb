-- ===== src/Accounts/Pool.antt =====
-- Requests in flight at once: the server interleaves them between any two commands, a request may
-- die half-way, and keys of Redis run out.
use isp_cms_be.Prelude.{ℕ, String, Option, List, [], ◌∷◌, ◌++◌, ◌≡◌, ◌==◌}
use isp_cms_be.Prelude.Table.{delete_where}
use isp_cms_be.Accounts.World.{World}
use isp_cms_be.Accounts.Program.{Program, done, call, ◌>>=◌}
use isp_cms_be.Accounts.Tokens.{Drawn, SessionMeta, drop_token, drop_session, revoke_other_sessions}
use isp_cms_be.Accounts.Security.{clear_failures}
use isp_cms_be.Accounts.TwoFactor.{
  Otp, get_state, begin_enroll, confirm_enroll, disable_two_factor, end_session,
}
use isp_cms_be.Accounts.Login.{Passwords, LoginResult, login, bootstrap_admin, refresh, logout}

-- The requests of the controllers of auth and security.
pub data Request : Type 0 where
  login_with : Drawn → String → String → Option String → SessionMeta → Request
  bootstrap_with : Drawn → ℕ → String → String → SessionMeta → Request
  refresh_with : Drawn → ℕ → SessionMeta → Request
  logout_with : ℕ → Request
  state_of : ℕ → Option ℕ → Request
  enroll : String → ℕ → Request
  confirm : ℕ → String → Option ℕ → ℕ → Request
  disable : ℕ → Option String → Option ℕ → ℕ → Request
  end_one : ℕ → ℕ → Request
  end_others : ℕ → Option ℕ → Request

-- What a request answers, with the refresh token that it sent.
pub data Reply : Type 0 where
  logged_in bootstrapped : LoginResult → Reply
  refreshed : ℕ → LoginResult → Reply
  logged_out : ℕ → Option ℕ → Reply
  answered : Reply

module _ (refresh_key : ℕ → ℕ) (ttl : ℕ) (otp : Otp) (passwords : Passwords) where
  unfoldable pub serve : Request → Program Reply
  serve (login_with drawn email password code meta) =
      login refresh_key ttl otp passwords drawn email password code meta >>= λ r. done (logged_in r)
  serve (bootstrap_with drawn id email password meta) =
      bootstrap_admin refresh_key ttl otp passwords drawn id email password meta >>= λ r.
      done (bootstrapped r)
  serve (refresh_with drawn raw_token meta) =
      refresh refresh_key ttl otp passwords drawn raw_token meta >>= λ r.
      done (refreshed raw_token r)
  serve (logout_with raw_token) =
      logout refresh_key ttl otp passwords raw_token >>= λ r. done (logged_out raw_token r)
  serve (state_of user current) = get_state user current >>= λ r. done answered
  serve (enroll secret user) = begin_enroll otp secret user >>= λ r. done answered
  serve (confirm user code current now) =
      confirm_enroll otp user code current now >>= λ r. done answered
  serve (disable user code current now) =
      disable_two_factor otp user code current now >>= λ r. done answered
  serve (end_one user id) = end_session user id >>= λ r. done answered
  serve (end_others user current) = revoke_other_sessions user current >>= λ r. done answered

-- A key whose TTL is over is gone. The keys of accepted steps outlive the codes of their steps.
pub data Expires : World → World → Type 0 where
  token_out : (w : World) (k : ℕ) → Expires w (drop_token k w)
  session_out : (w : World) (user id : ℕ) → Expires w (drop_session user id w)
  index_out :
      (w : World) (user : ℕ)
      → Expires w
          (record w { session_index = delete_where (λ m. m.user_id == user) w.session_index })
  failures_out : (w : World) (user : ℕ) → Expires w (clear_failures user w)

pub record Pool (A : Type 0) : Type 0 where
  pub world : World
  pub threads : List (Program A)
  pub replies : List A

module _ {A : Type 0} where
  -- the threads and the replies that a program leaves
  abbrev pub pending : Program A → List (Program A)
  pending (call effect k) = call effect k ∷ []
  pending p = []

  abbrev pub replied : Program A → List A
  replied (done a) = a ∷ []
  replied p = []

  abbrev pub acted :
      Pool A → List (Program A) → (World → World) → (World → Program A) → List (Program A) → Pool A
  acted s xs effect k ys = record {
    world = effect s.world;
    threads = xs ++ (pending (k s.world) ++ ys);
    replies = replied (k s.world) ++ s.replies;
  }

module _ {R A : Type 0} (serve : R → Program A) (Allowed : R → Type 0)
    (Env : World → World → Type 0) where
  pub data Step : Pool A → Pool A → Type 0 where
    arrive : (s : Pool A) (q : R) → Allowed q → Step s (record s { threads = serve q ∷ s.threads })
    act :
        (s : Pool A) (xs ys : List (Program A)) (effect : World → World) (k : World → Program A)
        → s.threads ≡ xs ++ (call effect k ∷ ys)
        → Step s (acted s xs effect k ys)
    die :
        (s : Pool A) (xs ys : List (Program A)) (p : Program A)
        → s.threads ≡ xs ++ (p ∷ ys)
        → Step s (record s { threads = xs ++ ys })
    elsewhere : (s : Pool A) (w : World) → Env s.world w → Step s (record s { world = w })

  pub data Reach (s : Pool A) : Pool A → Type 0 where
    here : Reach s s
    next : {t u : Pool A} → Reach s t → Step t u → Reach s u
