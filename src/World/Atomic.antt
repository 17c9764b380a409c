-- ===== src/World/Atomic.antt =====
-- Actions that leave the committed database alone, and actions that do so whenever they fail: one
-- rule for each way to build an action.
use portal_backend.Prelude.{
  Bool, true, false, Option, none, some, ◌≡◌, refl, ◌∙◌, arith, if◌then◌else◌,
}
use portal_backend.Errors.{Error}
use portal_backend.Model.{Db}
use portal_backend.World
use portal_backend.World.{
  World, Outcome, ok, err, panic, M, Ctx, tx_ctx, base_ctx, pure, fail, crash, continue, ◌>>=◌,
  ◌>>◌, map_err, nullable, log_err, unless_not_found, ensure, ask, or_none, deref, query, write,
  settle, commit, with_tx,
}

abbrev pub is_ok : {A : Type 0} → Outcome A → Bool
is_ok (ok a) = true
is_ok (err e) = false
is_ok panic = false

-- The committed database stays, however the action ends.
pub record TxOnly {A : Type 0} (m : M A) : Type 0 where
  pub at : (w : World) → (m w).1.base ≡ w.base

-- The committed database stays whenever the action fails or panics.
pub record Atomic {A : Type 0} (m : M A) : Type 0 where
  pub at : (w : World) → is_ok (m w).0 ≡ false → (m w).1.base ≡ w.base

module _ {A : Type 0} where
  pub TxOnly-pure : (a : A) → TxOnly (pure a)
  TxOnly-pure a = record { at = λ w. refl }

  pub TxOnly-fail : (e : Error) → TxOnly (fail {A = A} e)
  TxOnly-fail e = record { at = λ w. refl }

  pub TxOnly-ask : (f : World → A) → TxOnly (ask f)
  unfolding ask
  TxOnly-ask f = record { at = λ w. refl }

  pub TxOnly-or_none : (e : Error) (o : Option A) → TxOnly (or_none e o)
  unfolding or_none
  TxOnly-or_none e none = record { at = λ w. refl }
  TxOnly-or_none e (some a) = record { at = λ w. refl }

  pub TxOnly-deref : (o : Option A) → TxOnly (deref o)
  unfolding deref
  TxOnly-deref none = record { at = λ w. refl }
  TxOnly-deref (some a) = record { at = λ w. refl }

  pub TxOnly-query : (c : Ctx) (f : World → Db → Outcome A) → TxOnly (query c f)
  unfolding query
  TxOnly-query c f = record { at = λ w. ground arith }

  settle-base :
      (r : Outcome A) (x y : World) (d : Db) → x.base ≡ d → y.base ≡ d → (settle r x y).1.base ≡ d
  settle-base (ok a) x y d p q = p
  settle-base (err e) x y d p q = q
  settle-base panic x y d p q = q

  pub TxOnly-write : (f : World → Db → Outcome A) (g : World → Db → Db) → TxOnly (write tx_ctx f g)
  unfolding write
  TxOnly-write f g = record {
    at = λ w. ground (arith, settle-base (f w w.tx) _ _ w.base refl refl);
  }

  pub TxOnly-nullable : (m : M A) → TxOnly m → TxOnly (nullable m)
  unfolding nullable
  TxOnly-nullable m h = record { at = λ w. h.at w }

  pub TxOnly-map_err : (f : Error → Error) (m : M A) → TxOnly m → TxOnly (map_err f m)
  unfolding map_err
  TxOnly-map_err f m h = record { at = λ w. h.at w }

  pub TxOnly-if : (b : Bool) (m n : M A) → TxOnly m → TxOnly n → TxOnly (if b then m else n)
  TxOnly-if true m n h k = h
  TxOnly-if false m n h k = k

pub TxOnly-ensure : (b : Bool) (e : Error) → TxOnly (ensure b e)
unfolding ensure
TxOnly-ensure true e = record { at = λ w. refl }
TxOnly-ensure false e = record { at = λ w. refl }

pub TxOnly-log_err : (m : M (Unit {0})) → TxOnly m → TxOnly (log_err m)
unfolding log_err
TxOnly-log_err m h = record { at = λ w. h.at w }

pub TxOnly-unless_not_found : (m : M (Unit {0})) → TxOnly m → TxOnly (unless_not_found m)
unfolding unless_not_found
TxOnly-unless_not_found m h = record { at = λ w. h.at w }

module _ {A B : Type 0} where
  TxOnly-continue :
      (r : Outcome A) (f : A → M B) (w : World)
      → ((a : A) → TxOnly (f a))
      → (continue r f w).1.base ≡ w.base
  TxOnly-continue (ok a) f w h = (h a).at w
  TxOnly-continue (err e) f w h = refl
  TxOnly-continue panic f w h = refl

  pub TxOnly-bind : (m : M A) (f : A → M B) → TxOnly m → ((a : A) → TxOnly (f a)) → TxOnly (m >>= f)
  unfolding ◌>>=◌
  TxOnly-bind m f h k = record { at = λ w. TxOnly-continue (m w).0 f (m w).1 k ∙ h.at w }

  Atomic-continue :
      (r : Outcome A) (f : A → M B) (w : World)
      → ((a : A) → Atomic (f a))
      → is_ok (continue r f w).0 ≡ false
      → (continue r f w).1.base ≡ w.base
  Atomic-continue (ok a) f w h e = (h a).at w e
  Atomic-continue (err x) f w h e = refl
  Atomic-continue panic f w h e = refl

  pub Atomic-bind : (m : M A) (f : A → M B) → TxOnly m → ((a : A) → Atomic (f a)) → Atomic (m >>= f)
  unfolding ◌>>=◌
  Atomic-bind m f h k = record { at = λ w e. Atomic-continue (m w).0 f (m w).1 k e ∙ h.at w }

  Atomic-then_pure_lem :
      (r : Outcome A) (f : A → M B) (w v : World)
      → ((a : A) (u : World) → is_ok (f a u).0 ≡ true)
      → (is_ok r ≡ false → w.base ≡ v.base)
      → is_ok (continue r f w).0 ≡ false
      → (continue r f w).1.base ≡ v.base
  Atomic-then_pure_lem (ok a) f w v h k e = ground (arith, h a w)
  Atomic-then_pure_lem (err x) f w v h k e = k refl
  Atomic-then_pure_lem panic f w v h k e = k refl

  -- What comes after an atomic action cannot fail.
  pub Atomic-then_total :
      (m : M A) (f : A → M B)
      → Atomic m
      → ((a : A) (w : World) → is_ok (f a w).0 ≡ true)
      → Atomic (m >>= f)
  unfolding ◌>>=◌
  Atomic-then_total m f h k = record {
    at = λ w e. Atomic-then_pure_lem (m w).0 f (m w).1 w k (h.at w) e;
  }

module _ {A : Type 0} where
  pub Atomic-TxOnly : (m : M A) → TxOnly m → Atomic m
  Atomic-TxOnly m h = record { at = λ w e. h.at w }

  pub Atomic-if : (b : Bool) (m n : M A) → Atomic m → Atomic n → Atomic (if b then m else n)
  Atomic-if true m n h k = h
  Atomic-if false m n h k = k

  map_err_ok : (f : Error → Error) (r : Outcome A) → is_ok (World.replace_err f r) ≡ is_ok r
  map_err_ok f (ok a) = refl
  map_err_ok f (err e) = refl
  map_err_ok f panic = refl

  pub Atomic-map_err : (f : Error → Error) (m : M A) → Atomic m → Atomic (map_err f m)
  unfolding map_err
  Atomic-map_err f m h = record { at = λ w e. ground (arith, map_err_ok f (m w).0, h.at w) }

  commit-base :
      (r : Outcome A) (w : World) (d : Db)
      → w.base ≡ d
      → is_ok (commit r w).0 ≡ false
      → (commit r w).1.base ≡ d
  commit-base (ok a) w d p e = ground arith
  commit-base (err x) w d p e = p
  commit-base panic w d p e = p

  -- A transaction whose statements all carry its context is rolled back when it fails.
  pub Atomic-with_tx : (m : M A) → TxOnly m → Atomic (with_tx m)
  unfolding with_tx
  Atomic-with_tx m h = record {
    at = λ w e. ground (
      arith,
      h.at (record (World.tick w) { tx = w.base }),
      commit-base (m (record (World.tick w) { tx = w.base })).0
          (m (record (World.tick w) { tx = w.base })).1 w.base,
    );
  }

pub ruleset tx_rules = (
  TxOnly-pure, TxOnly-fail, TxOnly-ask, TxOnly-or_none, TxOnly-deref, TxOnly-query, TxOnly-write,
  TxOnly-map_err, TxOnly-nullable, TxOnly-if, TxOnly-ensure, TxOnly-log_err,
  TxOnly-unless_not_found, TxOnly-bind,
)

-- An action whose failure is only logged returns, unless it panics.
abbrev pub no_panic : {A : Type 0} → Outcome A → Bool
no_panic panic = false
no_panic _ = true

log_err_ok : (r : Outcome (Unit {0})) → no_panic r ≡ true → is_ok (World.swallow r) ≡ true
log_err_ok (ok a) h = refl
log_err_ok (err e) h = refl
log_err_ok panic h = ground arith

pub is_ok-log_err :
    (m : M (Unit {0})) (w : World) → no_panic (m w).0 ≡ true → is_ok (log_err m w).0 ≡ true
unfolding log_err
is_ok-log_err m w h = log_err_ok (m w).0 h

is_ok-continue :
    {A B : Type 0} (r : Outcome A) (f : A → M B) (w : World)
    → is_ok r ≡ true
    → ((a : A) (u : World) → is_ok (f a u).0 ≡ true)
    → is_ok (continue r f w).0 ≡ true
is_ok-continue (ok a) f w h k = k a w
is_ok-continue (err e) f w h k = ground arith
is_ok-continue panic f w h k = ground arith

pub is_ok-bind :
    {A B : Type 0} (m : M A) (f : A → M B) (w : World)
    → is_ok (m w).0 ≡ true
    → ((a : A) (u : World) → is_ok (f a u).0 ≡ true)
    → is_ok ((m >>= f) w).0 ≡ true
unfolding ◌>>=◌
is_ok-bind m f w h k = is_ok-continue (m w).0 f (m w).1 h k
