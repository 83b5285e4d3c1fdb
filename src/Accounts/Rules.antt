-- ===== src/Accounts/Rules.antt =====
-- What holds of every command of a program, and how it composes.
use isp_cms_be.Prelude.{ℕ, Bool, true, false, Option, none, some, List, ◌≡◌, if◌then◌else◌}
use isp_cms_be.Store.Monad.{Exception}
use isp_cms_be.Accounts.World.{World}
use isp_cms_be.Accounts.Program.{Program, done, fail, call, command, ◌>>=◌}
use isp_cms_be.Accounts.Tokens.{drop_token, drop_id, revoke_script}
use isp_cms_be.Accounts.Security.{drop_ids}

module _ (G : (World → World) → World → Type 0) where
  -- Every command of the program is good at every store that it may read.
  unfoldable pub Commands : {A : Type 0} → Program A → Type 0
  Commands (done a) = Unit
  Commands (fail e) = Unit
  Commands (call effect k) = (w : World) → G effect w × Commands (k w)

  pub done-Commands : {A : Type 0} (a : A) → Commands (done a)
  unfolding Commands
  done-Commands a = tt

  pub fail-Commands : (A : Type 0) (e : Exception) → Commands {A = A} (fail e)
  unfolding Commands
  fail-Commands A e = tt

  pub command-Commands :
      {A : Type 0} (effect : World → World) (reply : World → A)
      → ((w : World) → G effect w)
      → Commands (command effect reply)
  unfolding Commands
  command-Commands effect reply good = λ w. (good w, tt)

  pub bind-Commands :
      {A B : Type 0} (m : Program A) (f : A → Program B)
      → Commands m
      → ((a : A) → Commands (f a))
      → Commands (m >>= f)
  unfolding Commands
  bind-Commands (done a) f hm hf = hf a
  bind-Commands (fail e) f hm hf = tt
  bind-Commands (call effect k) f hm hf = λ w. ((hm w).0, bind-Commands (k w) f (hm w).1 hf)

  pub if-Commands :
      {A : Type 0} (b : Bool) (m n : Program A)
      → Commands m
      → Commands n
      → Commands (if b then m else n)
  if-Commands true m n hm hn = hm
  if-Commands false m n hm hn = hn

  pub option-Commands :
      {A B : Type 0} (o : Option A) (m : Program B) (f : A → Program B)
      → Commands m
      → ((a : A) → Commands (f a))
      → Commands (elim o [ none ↦ m | some a ↦ f a ])
  option-Commands none m f hm hf = hm
  option-Commands (some a) m f hm hf = hf a

-- The commands that leave the tokens, the index and the users alone are good, and so are those that
-- drop a token, a session or an id.
pub record IsLenient (G : (World → World) → World → Type 0) : Type 0 where
  pub quiet :
      (effect : World → World) (w : World)
      → (effect w).refresh_tokens ≡ w.refresh_tokens
      → (effect w).session_index ≡ w.session_index
      → (effect w).users ≡ w.users
      → G effect w
  pub forgets : (k : ℕ) (w : World) → G (drop_token k) w
  pub leaves : (user id : ℕ) (w : World) → G (drop_id user id) w
  pub revokes : (user id : ℕ) (w : World) → G (revoke_script user id) w
  pub prunes : (user : ℕ) (ids : List ℕ) (w : World) → G (drop_ids user ids) w
