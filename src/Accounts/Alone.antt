-- ===== src/Accounts/Alone.antt =====
-- A request that runs alone, step by step.
use isp_cms_be.Prelude.{◌≡◌, refl}
use isp_cms_be.Store.Monad.{Exception, ok, err}
use isp_cms_be.Accounts.World.{World}
use isp_cms_be.Accounts.Program.{Program, done, fail, call, run, ◌>>=◌}

module _ {A B : Type 0} where
  pub run-bind_err :
      (m : Program A) (f : A → Program B) (w v : World) (e : Exception)
      → run m w ≡ (err e, v)
      → run (m >>= f) w ≡ (err e, v)
  unfolding run
  run-bind_err (done a) f w v e h = cc
  run-bind_err (fail e') f w v e h = cc
  run-bind_err (call effect k) f w v e h = run-bind_err (k w) f (effect w) v e h

  pub run-bind_ok :
      (m : Program A) (f : A → Program B) (w v : World) (a : A)
      → run m w ≡ (ok a, v)
      → run (m >>= f) w ≡ run (f a) v
  unfolding run
  run-bind_ok (done b) f w v a h = cc
  run-bind_ok (fail e) f w v a h = cc
  run-bind_ok (call effect k) f w v a h = run-bind_ok (k w) f (effect w) v a h

  pub run-bind_inv :
      (m : Program A) (f : A → Program B) (w v : World) (b : B)
      → run (m >>= f) w ≡ (ok b, v)
      → (a : A) × ((u : World) × (run m w ≡ (ok a, u)) × (run (f a) u ≡ (ok b, v)))
  unfolding run
  run-bind_inv (done a) f w v b h = (a, (w, refl, h))
  run-bind_inv (fail e) f w v b h = absurd (cc)
  run-bind_inv (call effect k) f w v b h = run-bind_inv (k w) f (effect w) v b h
