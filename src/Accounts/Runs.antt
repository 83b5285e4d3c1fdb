-- ===== src/Accounts/Runs.antt =====
-- What every command keeps, the whole server keeps, in whatever order the requests' commands run.
use isp_cms_be.Prelude.{List, [], ◌∷◌, ◌++◌, subst}
use isp_cms_be.Prelude.Table.{All}
use isp_cms_be.Accounts.World.{World}
use isp_cms_be.Accounts.Program.{Program, done, fail, call}
use isp_cms_be.Accounts.Pool.{Pool, pending, Step, arrive, act, die, elsewhere, Reach, here, next}
use isp_cms_be.Accounts.Rules.{Commands}

module _ {ℓ κ} {A : Type ℓ} (P : A → Type κ) where
  -- one of the list, and the rest
  pub All-take :
      (xs : List A) (y : A) (ys : List A) → All P (xs ++ (y ∷ ys)) → P y × All P (xs ++ ys)
  All-take [] y ys h = h
  All-take (x ∷ xs) y ys h = let (p, rest) = All-take xs y ys h.1 in (p, (h.0, rest))

  -- some put in
  pub All-put : (xs zs ys : List A) → All P zs → All P (xs ++ ys) → All P (xs ++ (zs ++ ys))
  All-put [] [] ys hz h = h
  All-put [] (z ∷ zs) ys hz h = (hz.0, All-put [] zs ys hz.1 h)
  All-put (x ∷ xs) zs ys hz h = (h.0, All-put xs zs ys hz h.1)

-- The command keeps the property.
abbrev pub Kept : (World → Type 0) → (World → World) → World → Type 0
Kept P effect w = P w → P (effect w)

module _ {R A : Type 0} (serve : R → Program A) (Allowed : R → Type 0)
    (Env : World → World → Type 0) (P : World → Type 0) where
  pending-Commands : (p : Program A) → Commands (Kept P) p → All (Commands (Kept P)) (pending p)
  pending-Commands (done a) h = tt
  pending-Commands (fail e) h = tt
  pending-Commands (call effect k) h = (h, tt)

  module _ (serves : (q : R) → Allowed q → Commands (Kept P) (serve q)) where
    Step-threads :
        {s t : Pool A}
        → Step serve Allowed Env s t
        → All (Commands (Kept P)) s.threads
        → All (Commands (Kept P)) t.threads
    unfolding Commands
    Step-threads (arrive s q ok) h = (serves q ok, h)
    Step-threads (act s xs ys effect k e) h =
        let (p, rest) =
          All-take (Commands (Kept P)) xs (call effect k) ys
            (subst (All (Commands (Kept P))) e h) in
        All-put (Commands (Kept P)) xs (pending (k s.world)) ys
          (pending-Commands (k s.world) (p s.world).1) rest
    Step-threads (die s xs ys p e) h =
        (All-take (Commands (Kept P)) xs p ys (subst (All (Commands (Kept P))) e h)).1
    Step-threads (elsewhere s w e) h = h

    pub Reach-threads :
        {s t : Pool A}
        → Reach serve Allowed Env s t
        → All (Commands (Kept P)) s.threads
        → All (Commands (Kept P)) t.threads
    Reach-threads here h = h
    Reach-threads (next r st) h = Step-threads st (Reach-threads r h)

    module _ (env : (w v : World) → Env w v → P w → P v) where
      Step-kept :
          {s t : Pool A}
          → Step serve Allowed Env s t
          → All (Commands (Kept P)) s.threads
          → P s.world
          → P t.world
      unfolding Commands
      Step-kept (arrive s q ok) h p = p
      Step-kept (act s xs ys effect k e) h p =
          ((All-take (Commands (Kept P)) xs (call effect k) ys
                (subst (All (Commands (Kept P))) e h)).0
              s.world).0
            p
      Step-kept (die s xs ys q e) h p = p
      Step-kept (elsewhere s w e) h p = env s.world w e p

      pub Reach-kept :
          {s t : Pool A}
          → Reach serve Allowed Env s t
          → All (Commands (Kept P)) s.threads
          → P s.world
          → P t.world
      Reach-kept here h p = p
      Reach-kept (next r st) h p = Step-kept st (Reach-threads r h) (Reach-kept r h p)
