-- ===== src/World/Keeps.antt =====
-- Actions that keep a property of the database, however they end: one rule for each way to build an
-- action.
use portal_backend.Prelude.{Bool, true, false, Option, none, some, if◌then◌else◌}
use portal_backend.Errors.{Error, driver}
use portal_backend.Model.{Db}
use portal_backend.World.{
  Env, World, Outcome, ok, err, panic, M, Ctx, base_ctx, tx_ctx, view, put, tick, pure, continue,
  ◌>>=◌, map_err, log_err, nullable, unless_not_found, fail, ensure, or_none, deref, ask, query,
  write, settle, commit, with_tx,
}

-- The property may speak of the environment, which no action changes. It holds of both databases of
-- a world:
abbrev pub Both : (Env → Db → Type 0) → World → Type 0
Both P w = P w.env w.base × P w.env w.tx

abbrev pub Left : (Env → Db → Type 0) → {A : Type 0} → Outcome A × World → Type 0
Left P x = Both P x.1

-- The property holds of the two databases that are left if it holds of those that were there.
pub record Keeps (P : Env → Db → Type 0) {A : Type 0} (m : M A) : Type 0 where
  pub at : (w : World) → Both P w → Both P (m w).1

pub put-Both :
    (P : Env → Db → Type 0) (c : Ctx) (g : Db → Db) (w : World)
    → ((db : Db) → P w.env db → P w.env (g db))
    → Both P w
    → Both P (put c g w)
put-Both P base_ctx g w h (b, t) = (h w.base b, h w.tx t)
put-Both P tx_ctx g w h (b, t) = (b, h w.tx t)

module _ (P : Env → Db → Type 0) {A : Type 0} where
  query-Both :
      (b : Bool) (w : World) (r : Outcome A)
      → Both P w
      → Left P (if b then (err driver, w) else (r, w))
  query-Both true w r h = h
  query-Both false w r h = h

  write-Both :
      (b : Bool) (x y : World) (r : Outcome A)
      → Both P x
      → Both P y
      → Left P (if b then (err driver, y) else settle r x y)
  write-Both true x y r h k = k
  write-Both false x y (ok a) h k = h
  write-Both false x y (err e) h k = k
  write-Both false x y panic h k = k

  commit-Both :
      (b : Bool) (w : World) (a : A)
      → Both P w
      → Left P (if b then (err driver, tick w) else (ok a, record (tick w) { base = w.tx }))
  commit-Both true w a h = h
  commit-Both false w a (b, t) = (t, t)

  end-Both : (r : Outcome A) (w : World) → Both P w → Both P (commit r w).1
  end-Both (ok a) w h = commit-Both (w.env.fault w.step) w a h
  end-Both (err e) w h = h
  end-Both panic w h = h

  tx-Both :
      (b : Bool) (w : World) (x : Outcome A × World)
      → Both P w
      → Both P x.1
      → Left P (if b then (err driver, w) else x)
  tx-Both true w x h k = h
  tx-Both false w x h k = k

  pub if-Both :
      (b : Bool) (x y : Outcome A × World) → Both P x.1 → Both P y.1 → Left P (if b then x else y)
  if-Both true x y h k = h
  if-Both false x y h k = k

module _ {P : Env → Db → Type 0} {A : Type 0} where
  pub Keeps-pure : (a : A) → Keeps P (pure a)
  Keeps-pure a = record { at = λ w h. h }

  pub Keeps-fail : (e : Error) → Keeps P (fail {A = A} e)
  Keeps-fail e = record { at = λ w h. h }

  -- an action that looks at the world first
  pub Keeps-reads : (m : World → M A) → ((w : World) → Keeps P (m w)) → Keeps P (λ w. m w w)
  Keeps-reads m h = record { at = λ w. (h w).at w }

  pub Keeps-ask : (f : World → A) → Keeps P (ask f)
  unfolding ask
  Keeps-ask f = record { at = λ w h. h }

  pub Keeps-query : (c : Ctx) (f : World → Db → Outcome A) → Keeps P (query c f)
  unfolding query
  Keeps-query c f = record {
    at = λ w h. query-Both P (w.env.fault w.step) (tick w) (f w (view c w)) h;
  }

  pub Keeps-write :
      (c : Ctx) (f : World → Db → Outcome A) (g : World → Db → Db)
      → ((w : World) (db : Db) → P w.env db → P w.env (g w db))
      → Keeps P (write c f g)
  unfolding write
  Keeps-write c f g h = record {
    at = λ w k.
        write-Both P (w.env.fault w.step) _ (tick w) (f w (view c w))
          (put-Both P c (g w) (tick w) (h w) k) k;
  }

  pub Keeps-with_tx : (m : M A) → Keeps P m → Keeps P (with_tx m)
  unfolding with_tx
  Keeps-with_tx m keeps = record {
    at = λ w h.
        let x = m (record (tick w) { tx = w.base }) in
        tx-Both P (w.env.fault w.step) (tick w) _ h
          (end-Both P x.0 x.1 (keeps.at (record (tick w) { tx = w.base }) (h.0, h.0)));
  }

  pub Keeps-if : (b : Bool) (m n : M A) → Keeps P m → Keeps P n → Keeps P (if b then m else n)
  Keeps-if true m n h k = h
  Keeps-if false m n h k = k

module _ {P : Env → Db → Type 0} {A B : Type 0} where
  continue-Both :
      (r : Outcome A) (f : A → M B) (w : World)
      → ((a : A) → Keeps P (f a))
      → Both P w
      → Both P (continue r f w).1
  continue-Both (ok a) f w h k = (h a).at w k
  continue-Both (err e) f w h k = k
  continue-Both panic f w h k = k

  pub Keeps-bind :
      (m : M A) (f : A → M B) → Keeps P m → ((a : A) → Keeps P (f a)) → Keeps P (m >>= f)
  unfolding ◌>>=◌
  Keeps-bind m f h k = record { at = λ w b. continue-Both (m w).0 f (m w).1 k (h.at w b) }

pub Keeps-log_err : {P : Env → Db → Type 0} (m : M (Unit {0})) → Keeps P m → Keeps P (log_err m)
unfolding log_err
Keeps-log_err m h = record { at = λ w k. h.at w k }

pub Keeps-unless_not_found :
    {P : Env → Db → Type 0} (m : M (Unit {0})) → Keeps P m → Keeps P (unless_not_found m)
unfolding unless_not_found
Keeps-unless_not_found m h = record { at = λ w k. h.at w k }

pub Keeps-ensure : {P : Env → Db → Type 0} (b : Bool) (e : Error) → Keeps P (ensure b e)
unfolding ensure
Keeps-ensure true e = record { at = λ w h. h }
Keeps-ensure false e = record { at = λ w h. h }

module _ {P : Env → Db → Type 0} {A : Type 0} where
  pub Keeps-map_err : (f : Error → Error) (m : M A) → Keeps P m → Keeps P (map_err f m)
  unfolding map_err
  Keeps-map_err f m h = record { at = λ w k. h.at w k }

  pub Keeps-nullable : (m : M A) → Keeps P m → Keeps P (nullable m)
  unfolding nullable
  Keeps-nullable m h = record { at = λ w k. h.at w k }

  pub Keeps-or_none : (e : Error) (o : Option A) → Keeps P (or_none e o)
  unfolding or_none
  Keeps-or_none e none = record { at = λ w h. h }
  Keeps-or_none e (some a) = record { at = λ w h. h }

  pub Keeps-deref : (o : Option A) → Keeps P (deref o)
  unfolding deref
  Keeps-deref none = record { at = λ w h. h }
  Keeps-deref (some a) = record { at = λ w h. h }

pub ruleset keeps_rules = (
  Keeps-pure, Keeps-fail, Keeps-ask, Keeps-or_none, Keeps-deref, Keeps-query, Keeps-with_tx,
  Keeps-map_err, Keeps-nullable, Keeps-if, Keeps-ensure, Keeps-log_err, Keeps-unless_not_found,
  Keeps-bind,
)
