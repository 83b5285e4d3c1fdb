-- ===== src/Accounts/Program.antt =====
-- An async method as the atomic commands that it awaits: Redis runs a command or a script as one
-- step, and the database a statement. What follows a command depends on the store that it read.

use isp_cms_be.Store.Monad.{Exception, Result, ok, err}
use isp_cms_be.Accounts.World.{World}

pub data Program (A : Type 0) : Type 0 where
  done : A → Program A
  fail : Exception → Program A
  call : (World → World) → (World → Program A) → Program A

infixl 5 ◌>>=◌ ◌>>◌
abbrev pub ◌>>=◌ : {A B : Type 0} → Program A → (A → Program B) → Program B
done a >>= f = f a
fail e >>= f = fail e
call effect k >>= f = call effect (λ w. k w >>= f)

abbrev pub ◌>>◌ : {A B : Type 0} → Program A → Program B → Program B
m >> k = m >>= λ _. k

module _ {A : Type 0} where
  -- A command that changes the store and answers from the store before it.
  abbrev pub command : (World → World) → (World → A) → Program A
  command effect reply = call effect (λ w. done (reply w))

  -- a command that only reads
  abbrev pub ask : (World → A) → Program A
  ask reply = command (λ w. w) reply

  -- the request alone, with no other between its commands
  unfoldable pub run : Program A → World → Result A × World
  run (done a) w = (ok a, w)
  run (fail e) w = (err e, w)
  run (call effect k) w = run (k w) (effect w)

-- a command whose answer is not read
abbrev pub tell : (World → World) → Program (Unit {0})
tell effect = command effect (λ w. tt)
