-- ===== src/Accounts/Login.antt =====
-- AuthService (src/modules/auth/auth.service.ts) with what it takes of UsersService: login, the first
-- administrator, refresh and logout. An access token is its payload; the audit records, which never
-- fail a request, are left out.
use isp_cms_be.Prelude.{
  ℕ, String, Bool, true, false, not, ◌&&◌, Option, none, some, List, [], ◌∷◌, ◌==◌, if◌then◌else◌,
}
use text.Mathlib.Text.{◌==◌ as str_eq}
use isp_cms_be.Prelude.Table.{find}
use isp_cms_be.Store.Monad.{conflict, unauthorized}
use isp_cms_be.Accounts.World.{World, User, Role}
use isp_cms_be.Accounts.Program.{Program, done, fail, command, ask, ◌>>=◌}
use isp_cms_be.Accounts.Tokens.{Drawn, SessionMeta, Minted, Rotated, mint, rotate, revoke}
use isp_cms_be.Accounts.TwoFactor.{
  Otp, LoginChallengeResult, passed, required, invalid, locked, verify_login_challenge,
}

-- `JwtPayload`
pub record AccessToken : Type 0 where
  pub sub : ℕ
  pub role : Role
  pub sid : ℕ

-- `LoginResult`; of the user, its key
pub record LoginResult : Type 0 where
  pub access_token : AccessToken
  pub refresh_token : ℕ
  pub refresh_expires_in_seconds : ℕ
  pub user_id : ℕ

-- the result of `login`, `refresh` and `bootstrapAdmin`
abbrev pub login_result : User → Minted → LoginResult
login_result user refresh = record {
  access_token = record { sub = user.id; role = user.role; sid = refresh.session_id };
  refresh_token = refresh.token;
  refresh_expires_in_seconds = refresh.expires_in_seconds;
  user_id = user.id;
}

-- UsersRepository.findById
abbrev pub find_user : ℕ → World → Option User
find_user id w = find (λ u. u.id == id && not u.deleted) w.users

-- What argon2 and the text functions of the language compute: whether a password has a hash, the
-- hash of a password, and `trim().toLowerCase()`.
pub record Passwords : Type 0 where
  pub verify : String → String → Bool
  pub hash : String → String
  pub normalize_email : String → String

-- `user?.passwordHash ?? fakeHash`
abbrev pub hash_or_fake : Option User → String
hash_or_fake none = "$argon2id$v=19$m=19456,t=2,p=1$placeholder$invalid"
hash_or_fake (some u) = u.password_hash

-- the exception for a challenge that is not passed
abbrev pub challenge_message : LoginChallengeResult → String
challenge_message required = "two-factor authentication code required"
challenge_message invalid = "invalid two-factor authentication code"
challenge_message locked = "too many failed two-factor attempts — try again later"
challenge_message passed = ""

-- UsersRepository.createIfEmpty: a transaction under an advisory lock
abbrev pub is_empty {ℓ} : {A : Type ℓ} → List A → Bool
is_empty [] = true
is_empty (x ∷ xs) = false

unfoldable pub create_if_empty : User → World → World
create_if_empty user w = if is_empty w.users then record w { users = user ∷ [] } else w

module _ (refresh_key : ℕ → ℕ) (ttl : ℕ) (otp : Otp) (passwords : Passwords) where
  -- UsersRepository.findByEmail
  abbrev pub find_by_email : String → World → Option User
  find_by_email email w =
      find (λ u. str_eq u.email (passwords.normalize_email email) && not u.deleted) w.users

  -- `login` after the challenge
  unfoldable pub grant : Drawn → User → SessionMeta → LoginChallengeResult → Program LoginResult
  unfolding mint
  grant drawn user meta passed = do
    refresh ← mint refresh_key ttl drawn user.id meta
    done (login_result user refresh)
  grant drawn user meta c = fail (unauthorized (challenge_message c))

  -- `login` of a user whose password was compared
  unfoldable pub login_user :
      Drawn → Option User → Bool → Option String → SessionMeta → Program LoginResult
  unfolding grant verify_login_challenge
  login_user drawn (some user) true code meta = do
    challenge ← verify_login_challenge otp user.id code drawn.now
    grant drawn user meta challenge
  login_user drawn _ _ code meta = fail (unauthorized "invalid credentials")

  -- `login`
  unfoldable pub login : Drawn → String → String → Option String → SessionMeta → Program LoginResult
  unfolding login_user
  login drawn email password code meta = do
    user ← ask (find_by_email email)
    login_user drawn user (passwords.verify (hash_or_fake user) password) code meta

  -- UsersService.bootstrapAdmin; `id` is the key that the insert draws
  abbrev pub admin_row : ℕ → String → String → User
  admin_row id email password = record {
    id = id;
    email = passwords.normalize_email email;
    password_hash = passwords.hash password;
    role = Role.admin;
    deleted = false;
  }

  -- `bootstrapAdmin` of AuthService on what `createIfEmpty` returned
  unfoldable pub bootstrap_created : Drawn → User → SessionMeta → Bool → Program LoginResult
  unfolding mint
  bootstrap_created drawn user meta true = do
    refresh ← mint refresh_key ttl drawn user.id meta
    done (login_result user refresh)
  bootstrap_created drawn user meta false = fail (conflict "bootstrap already completed")

  -- `bootstrapAdmin` of UsersService after `countAll`, with the rest
  unfoldable pub bootstrap_counted : Drawn → User → SessionMeta → Bool → Program LoginResult
  unfolding bootstrap_created create_if_empty
  bootstrap_counted drawn user meta true = do
    created ← command (create_if_empty user) (λ w. is_empty w.users)
    bootstrap_created drawn user meta created
  bootstrap_counted drawn user meta false = fail (conflict "bootstrap already completed")

  -- `bootstrapAdmin`
  unfoldable pub bootstrap_admin : Drawn → ℕ → String → String → SessionMeta → Program LoginResult
  unfolding bootstrap_counted
  bootstrap_admin drawn id email password meta = do
    none_yet ← ask (λ w. is_empty w.users)
    bootstrap_counted drawn (admin_row id email password) meta none_yet

  -- `refresh` on a token that is rotated
  unfoldable pub refresh_user : Rotated → Program LoginResult
  refresh_user rotated = do
    user ← ask (find_user rotated.user_id)
    elim user [
      | none ↦ fail (unauthorized "invalid refresh token")
      | some u ↦ done (login_result u rotated.refresh)
    ]

  -- `refresh`
  unfoldable pub refresh : Drawn → ℕ → SessionMeta → Program LoginResult
  unfolding rotate refresh_user
  refresh drawn raw_token meta = do
    rotated ← rotate refresh_key ttl drawn raw_token meta
    refresh_user rotated

  -- `logout`
  abbrev pub logout : ℕ → Program (Option ℕ)
  logout raw_token = revoke refresh_key ttl raw_token
