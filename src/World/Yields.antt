-- ===== src/World/Yields.antt =====
-- Actions that keep a property of the database, and whose result satisfies another: one rule for
-- each way to build an action.
use portal_backend.Prelude.{Bool, true, false, ◌≡◌, refl, if◌then◌else◌}
use portal_backend.Errors.{driver}
use portal_backend.Model.{Db}
use portal_backend.World.{
  Env, World, Outcome, ok, err, panic, M, Ctx, base_ctx, tx_ctx, view, tick, pure, continue, ◌>>=◌,
  swallow, log_err, ask, query, write, settle, commit, with_tx,
}
use portal_backend.World.Keeps.{Both, put-Both}

abbrev pub Given : {A : Type 0} → (A → Type 0) → Outcome A → Type 0
Given Q (ok a) = Q a
Given Q (err e) = Unit {0}
Given Q panic = Unit {0}

-- The property holds of the two databases that are left, and the result, if there is one, is `Q`.
pub record Left (P : Env → Db → Type 0) {A : Type 0} (Q : A → Type 0) (x : Outcome A × World)
    : Type 0 where
  pub kept : Both P x.1
  pub given : Given Q x.0

pub record Yields (P : Env → Db → Type 0) {A : Type 0} (Q : A → Type 0) (m : M A) : Type 0 where
  pub at : (w : World) → Both P w → Left P Q (m w)

-- the databases that are left
pub Yields-kept :
    {P : Env → Db → Type 0} {A : Type 0} {Q : A → Type 0} (m : M A)
    → Yields P Q m
    → (w : World) → Both P w
    → Both P (m w).1
Yields-kept m h w b = (h.at w b).kept

module _ (P : Env → Db → Type 0) {A : Type 0} (Q : A → Type 0) where
  query-Left :
      (b : Bool) (w : World) (r : Outcome A)
      → Both P w
      → ((a : A) → r ≡ ok a → Q a)
      → Left P Q (if b then (err driver, w) else (r, w))
  query-Left true w r h k = record { kept = h; given = tt }
  query-Left false w (ok a) h k = record { kept = h; given = k a refl }
  query-Left false w (err e) h k = record { kept = h; given = tt }
  query-Left false w panic h k = record { kept = h; given = tt }

  write-Left :
      (b : Bool) (x y : World) (r : Outcome A)
      → Both P x
      → Both P y
      → ((a : A) → r ≡ ok a → Q a)
      → Left P Q (if b then (err driver, y) else settle r x y)
  write-Left true x y r h k g = record { kept = k; given = tt }
  write-Left false x y (ok a) h k g = record { kept = h; given = g a refl }
  write-Left false x y (err e) h k g = record { kept = k; given = tt }
  write-Left false x y panic h k g = record { kept = k; given = tt }

  commit-Left :
      (b : Bool) (w : World) (a : A)
      → Both P w
      → Q a
      → Left P Q (if b then (err driver, tick w) else (ok a, record (tick w) { base = w.tx }))
  commit-Left true w a h q = record { kept = h; given = tt }
  commit-Left false w a (b, t) q = record { kept = (t, t); given = q }

  end-Left : (r : Outcome A) (w : World) → Both P w → Given Q r → Left P Q (commit r w)
  end-Left (ok a) w h q = commit-Left (w.env.fault w.step) w a h q
  end-Left (err e) w h q = record { kept = h; given = tt }
  end-Left panic w h q = record { kept = h; given = tt }

  tx-Left :
      (b : Bool) (w : World) (x : Outcome A × World)
      → Both P w
      → Left P Q x
      → Left P Q (if b then (err driver, w) else x)
  tx-Left true w x h k = record { kept = h; given = tt }
  tx-Left false w x h k = k

seen : (P : Env → Db → Type 0) (c : Ctx) (w : World) → Both P w → P w.env (view c w)
seen P base_ctx w h = h.0
seen P tx_ctx w h = h.1

module _ {P : Env → Db → Type 0} {A : Type 0} {Q : A → Type 0} where
  pub Yields-pure : (a : A) → Q a → Yields P Q (pure a)
  Yields-pure a q = record { at = λ w h. record { kept = h; given = q } }

  pub Yields-ask : (f : World → A) → ((w : World) → Q (f w)) → Yields P Q (ask f)
  unfolding ask
  Yields-ask f q = record { at = λ w h. record { kept = h; given = q w } }

  -- What a query finds may be known from the property.
  pub Yields-query :
      (c : Ctx) (f : World → Db → Outcome A)
      → ((w : World) (db : Db) (a : A) → P w.env db → f w db ≡ ok a → Q a)
      → Yields P Q (query c f)
  unfolding query
  Yields-query c f q = record {
    at = λ w h.
        query-Left P Q (w.env.fault w.step) (tick w) (f w (view c w)) h
          (λ a. q w (view c w) a (seen P c w h));
  }

  pub Yields-write :
      (c : Ctx) (f : World → Db → Outcome A) (g : World → Db → Db)
      → ((w : World) (db : Db) → P w.env db → P w.env (g w db))
      → ((a : A) → Q a)
      → Yields P Q (write c f g)
  unfolding write
  Yields-write c f g h q = record {
    at = λ w k.
        write-Left P Q (w.env.fault w.step) _ (tick w) (f w (view c w))
          (put-Both P c (g w) (tick w) (h w) k) k (λ a _. q a);
  }

  pub Yields-with_tx : (m : M A) → Yields P Q m → Yields P Q (with_tx m)
  unfolding with_tx
  Yields-with_tx m yields = record {
    at = λ w h.
        let start : World = record (tick w) { tx = w.base } in
        let x = yields.at start (h.0, h.0) in
        tx-Left P Q (w.env.fault w.step) (tick w) _ h
          (end-Left P Q (m start).0 (m start).1 x.kept x.given);
  }

  pub Yields-if :
      (b : Bool) (m n : M A)
      → (b ≡ true → Yields P Q m)
      → (b ≡ false → Yields P Q n)
      → Yields P Q (if b then m else n)
  Yields-if true m n h k = h refl
  Yields-if false m n h k = k refl

module _ {P : Env → Db → Type 0} {A B : Type 0} {Q : A → Type 0} {R : B → Type 0} where
  continue-Left :
      (r : Outcome A) (f : A → M B) (w : World)
      → Given Q r
      → ((a : A) → Q a → Yields P R (f a))
      → Both P w
      → Left P R (continue r f w)
  continue-Left (ok a) f w q h k = (h a q).at w k
  continue-Left (err e) f w q h k = record { kept = k; given = tt }
  continue-Left panic f w q h k = record { kept = k; given = tt }

  pub Yields-bind :
      (m : M A) (f : A → M B)
      → Yields P Q m
      → ((a : A) → Q a → Yields P R (f a))
      → Yields P R (m >>= f)
  unfolding ◌>>=◌
  Yields-bind m f h k = record {
    at = λ w b. let x = h.at w b in continue-Left (m w).0 f (m w).1 x.given k x.kept;
  }

abbrev Always : Unit {0} → Type 0
Always _ = Unit {0}

swallowed : (r : Outcome (Unit {0})) → Given Always (swallow r)
swallowed (ok a) = tt
swallowed (err e) = tt
swallowed panic = tt

pub Yields-log_err :
    {P : Env → Db → Type 0} {Q : Unit {0} → Type 0} (m : M (Unit {0}))
    → Yields P Q m
    → Yields P (λ _. Unit {0}) (log_err m)
unfolding log_err
Yields-log_err m h = record {
  at = λ w k. record { kept = (h.at w k).kept; given = swallowed (m w).0 };
}
