-- ===== src/Witnesses/Accounts.antt =====
-- Runs of the theorems on accounts: a user with two-factor login, one session and its refresh token.
use isp_cms_be.Prelude.{ℕ, pos, true, false, none, some, List, [], ◌∷◌, ◌≡◌, refl, ◌≤◌, ◌+◌}
use isp_cms_be.Prelude.Table.{find, count_where}
use isp_cms_be.Store.Monad.{Result, ok, err, unauthorized}
use isp_cms_be.Accounts.World.{World, Role, User, RefreshToken, StoredSession, token_at, id_at}
use isp_cms_be.Accounts.Program.{Program, call, run}
use isp_cms_be.Accounts.Tokens.{
  Drawn, SessionMeta, revoke_script, drop_token, token_row, rotate, mint, commit_mint, revoke,
  end_stored, end_token,
}
use isp_cms_be.Accounts.TwoFactor.{
  Otp, CodeCheckResult, passed, verify_login_challenge, challenge_enabled, check_code,
  challenge_checked,
}
use isp_cms_be.Accounts.Login.{
  Passwords, LoginResult, login_result, login, login_user, grant, bootstrap_admin,
  bootstrap_counted, bootstrap_created, create_if_empty, refresh, find_by_email,
}
use isp_cms_be.Accounts.OneUse.{held, cost}
use isp_cms_be.Accounts.Budget.{spent}
use isp_cms_be.Accounts.TokenOnce.{Reach-token_once}
use isp_cms_be.Accounts.FirstAdmin.{vacancy, founded, Reach-founded_once}
use isp_cms_be.Accounts.Revoked.{of_session}
use isp_cms_be.Accounts.Ended.{Reach-ended, refresh-refused}
use isp_cms_be.Accounts.CodeOnce.{Check, answer, open_step, accepted, Reach-code_once}
use isp_cms_be.Accounts.Granted.{login-granted, PassedChecks, challenge-spends}
use isp_cms_be.Accounts.Security.{accept_script, accepts}
use isp_cms_be.Accounts.Pool.{
  Request, logout_with, bootstrap_with, refresh_with, Reply, serve, Pool, acted, arrive, act, here,
  next,
}

abbrev key_of : ℕ → ℕ
key_of token = token

abbrev otp : Otp
otp = record {
  check_delta = λ code secret now. some (pos 0);
  step = 30;
  encrypt = λ secret. secret;
  decrypt = λ blob. some blob;
}

abbrev passwords : Passwords
passwords = record {
  verify = λ hash password. true;
  hash = λ password. password;
  normalize_email = λ email. email;
}

abbrev user : User
user = record { id = 1; email = "a@b.id"; password_hash = "h"; role = Role.staff; deleted = false }

abbrev held_token : RefreshToken
held_token = record { key = 5; user_id = 1; session_id = 8 }

abbrev session : StoredSession
session = record {
  user_id = 1;
  id = 8;
  created_at = 1;
  last_used_at = 1;
  user_agent = "";
  ip = "";
  refresh_key = 5;
}

abbrev world : World
world = record {
  refresh_tokens = held_token ∷ [];
  stored_sessions = session ∷ [];
  session_index = record { user_id = 1; session_id = 8 } ∷ [];
  failure_counts = [];
  accepted_steps = [];
  user_security =
      record { user_id = 1; two_factor_enabled = true; two_factor_secret = some "S" } ∷ [];
  users = user ∷ [];
}

abbrev drawn : Drawn
drawn = record { token = 6; session_id = 9; now = 60000 }

abbrev meta : SessionMeta
meta = record { user_agent = none; ip = none }

abbrev idle : {A : Type 0} → World → Pool A
idle w = record { world = w; threads = []; replies = [] }

-- the first thread runs its next command
abbrev acted_first : {A : Type 0} → Pool A → List (Program A) → Pool A
acted_first s [] = s
acted_first s (call effect k ∷ ys) = acted s [] effect k ys
acted_first s (p ∷ ys) = s

abbrev advanced : {A : Type 0} → Pool A → Pool A
advanced s = acted_first s s.threads

abbrev arrived : Request → Pool Reply → Pool Reply
arrived q s = record s { threads = serve key_of 60 otp passwords q ∷ s.threads }

-- two log outs with one token at once
abbrev two_logouts : Pool Reply
two_logouts = arrived (logout_with 5) (arrived (logout_with 5) (idle world))

Reach-token_once_example :
    spent (held 5) (cost key_of 5) (advanced (advanced (advanced (advanced two_logouts)))).replies
    ≤ 1
unfolding serve revoke end_stored end_token find
Reach-token_once_example =
    Reach-token_once key_of 60 otp passwords 5
      (next
        (next
          (next
            (next
              (next (next here (arrive (idle world) (logout_with 5) tt))
                (arrive (arrived (logout_with 5) (idle world)) (logout_with 5) tt))
              (act two_logouts [] _ _ _ refl))
            (act (advanced two_logouts) [] _ _ _ refl))
          (act (advanced (advanced two_logouts)) [] _ _ _ refl))
        (act (advanced (advanced (advanced two_logouts))) [] _ _ _ refl))
      refl refl

-- two calls of the setup at once, where nobody has an account
abbrev unused : World
unused = record world { users = [] }

abbrev setup : Request
setup = bootstrap_with drawn 2 "a@b.id" "secret" meta

abbrev two_setups : Pool Reply
two_setups = arrived setup (arrived setup (idle unused))

Reach-founded_once_example :
    spent vacancy founded (advanced (advanced two_setups)).replies
      + vacancy (advanced (advanced two_setups)).world
    ≤ vacancy unused
unfolding serve bootstrap_admin bootstrap_counted bootstrap_created create_if_empty mint commit_mint
Reach-founded_once_example =
    Reach-founded_once key_of 60 otp passwords
      (next
        (next
          (next (next here (arrive (idle unused) setup tt))
            (arrive (arrived setup (idle unused)) setup tt))
          (act two_setups [] _ _ _ refl))
        (act (advanced two_setups) [] _ _ _ refl))
      refl refl

-- The session ends while its token is exchanged.
abbrev exchange : Request
exchange = refresh_with drawn 5 meta

abbrev exchanging : Pool Reply
exchanging = arrived exchange (idle world)

abbrev ended : Pool Reply
ended = record exchanging { world = revoke_script 1 8 exchanging.world }

Reach-ended_example :
    (find (id_at 1 8) (advanced ended).world.session_index ≡ none)
    × (count_where (of_session 1 8) (advanced ended).world.refresh_tokens
        ≤ count_where (of_session 1 8) ended.world.refresh_tokens)
unfolding serve refresh rotate
Reach-ended_example =
    Reach-ended key_of 60 otp passwords 1 8 (next here (arrive (idle world) exchange tt)) refl
      (next here (act ended [] _ _ _ refl))

abbrev without_index : World
without_index = record world { session_index = [] }

refresh-refused_example :
    run (refresh key_of 60 otp passwords drawn 5 meta) without_index
    ≡ (err (unauthorized "invalid refresh token"), drop_token 5 without_index)
unfolding find
refresh-refused_example =
    refresh-refused key_of 60 otp passwords drawn 5 meta held_token without_index refl refl

-- two checks of one code at once
abbrev check : Check
check = record { user_id = 1; code = "123456"; secret = "S"; now = 60000 }

abbrev checking : Pool (Check × CodeCheckResult) → Pool (Check × CodeCheckResult)
checking s = record s { threads = answer otp 1 (pos 2) check ∷ s.threads }

abbrev two_checks : Pool (Check × CodeCheckResult)
two_checks = checking (checking (idle world))

Reach-code_once_example :
    spent
      (open_step otp 1 (pos 2))
      (accepted otp 1 (pos 2))
      (advanced (advanced two_checks)).replies
    ≤ 1
unfolding answer check_code
Reach-code_once_example =
    Reach-code_once otp 1 (pos 2)
      (next
        (next
          (next (next here (arrive (idle world) check tt))
            (arrive (checking (idle world)) check tt))
          (act two_checks [] _ _ _ refl))
        (act (advanced two_checks) [] _ _ _ refl))
      refl refl

abbrev logged : Result LoginResult × World
logged = run (login key_of 60 otp passwords drawn "a@b.id" "p" (some "123456") meta) world

login-granted_example :
    (u : User) × ((find_by_email key_of 60 otp passwords "a@b.id" world ≡ some u)
      × (passwords.verify u.password_hash "p" ≡ true)
      × ((run (verify_login_challenge otp u.id (some "123456") 60000) world).0 ≡ ok passed)
      × (user.id ≡ u.id)
      × (9 ≡ drawn.session_id)
      × (find (token_at 6) logged.1.refresh_tokens ≡ some (token_row key_of 60 drawn u.id 9)))
unfolding run login login_user verify_login_challenge challenge_enabled check_code challenge_checked
    grant mint commit_mint find accept_script accepts
login-granted_example =
    login-granted key_of 60 otp passwords drawn "a@b.id" "p" (some "123456") meta world logged.1
      (login_result user (record { token = 6; expires_in_seconds = 60; session_id = 9 })) refl

abbrev challenged : World
challenged = (run (verify_login_challenge otp 1 (some "123456") 60000) world).1

challenge-spends_example : PassedChecks otp 1 (some "123456") (some "S") 60000 world challenged
unfolding run verify_login_challenge challenge_enabled check_code challenge_checked find
    accept_script accepts
challenge-spends_example = challenge-spends otp 1 (some "123456") 60000 world challenged refl refl
