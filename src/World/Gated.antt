-- ===== src/World/Gated.antt =====
-- Actions that fail and leave everything as it was, unless something is the case: one rule for each
-- way to build an action.
use portal_backend.Prelude.{
  Bool, true, false, Option, none, some, ◌≡◌, refl, ◌∙◌, ◌⊎◌, inl, inr, arith, if◌then◌else◌,
}
use portal_backend.Errors.{Error}
use portal_backend.Model.{Db}
use portal_backend.World.{
  World, Outcome, ok, err, panic, M, Ctx, pure, fail, continue, ◌>>=◌, ◌>>◌, ask, query, map_err,
  ensure, or_none,
}
use portal_backend.World.Atomic.{is_ok}

-- The committed database, the revocation store and the environment are the same.
pub record Same (w v : World) : Type 0 where
  pub base : v.base ≡ w.base
  pub revoked : v.revoked ≡ w.revoked
  pub env : v.env ≡ w.env

pub Same-refl : (w : World) → Same w w
Same-refl w = record { base = refl; revoked = refl; env = refl }

pub Same-trans : (u v w : World) → Same u v → Same v w → Same u w
Same-trans u v w h k = record {
  base = k.base ∙ h.base;
  revoked = k.revoked ∙ h.revoked;
  env = k.env ∙ h.env;
}

-- an action that changes nothing but what only it sees
pub record Quiet {A : Type 0} (m : M A) : Type 0 where
  pub at : (w : World) → Same w (m w).1

module _ {A : Type 0} where
  pub Quiet-pure : (a : A) → Quiet (pure a)
  Quiet-pure a = record { at = Same-refl }

  pub Quiet-ask : (f : World → A) → Quiet (ask f)
  unfolding ask
  Quiet-ask f = record { at = λ w. record { base = refl; revoked = refl; env = refl } }

  pub Quiet-or_none : (e : Error) (o : Option A) → Quiet (or_none e o)
  unfolding or_none
  Quiet-or_none e none = record { at = Same-refl }
  Quiet-or_none e (some a) = record { at = Same-refl }

  pub Quiet-query : (c : Ctx) (f : World → Db → Outcome A) → Quiet (query c f)
  unfolding query
  Quiet-query c f = record {
    at = λ w. record { base = ground arith; revoked = ground arith; env = ground arith };
  }

  pub Quiet-map_err : (f : Error → Error) (m : M A) → Quiet m → Quiet (map_err f m)
  unfolding map_err
  Quiet-map_err f m h = record { at = λ w. h.at w }

pub Quiet-ensure : (b : Bool) (e : Error) → Quiet (ensure b e)
unfolding ensure
Quiet-ensure true e = record { at = Same-refl }
Quiet-ensure false e = record { at = Same-refl }

module _ {A B : Type 0} where
  Quiet-continue :
      (r : Outcome A) (f : A → M B) (w : World)
      → ((a : A) → Quiet (f a))
      → Same w (continue r f w).1
  Quiet-continue (ok a) f w h = (h a).at w
  Quiet-continue (err e) f w h = Same-refl w
  Quiet-continue panic f w h = Same-refl w

  pub Quiet-bind : (m : M A) (f : A → M B) → Quiet m → ((a : A) → Quiet (f a)) → Quiet (m >>= f)
  unfolding ◌>>=◌
  Quiet-bind m f h k = record {
    at = λ w. Same-trans w (m w).1 _ (h.at w) (Quiet-continue (m w).0 f (m w).1 k);
  }

-- no success, and nothing has changed
abbrev pub Refused : {A : Type 0} → World → Outcome A × World → Type 0
Refused d x = (is_ok x.0 ≡ false) × Same d x.1

-- From a world that is the same as `d` the action is refused, or `R` is the case.
pub record Gated {A : Type 0} (d : World) (m : M A) (R : Type 0) : Type 0 where
  pub at : (w : World) → Same d w → Refused d (m w) ⊎ R

module _ {A : Type 0} {d : World} {R : Type 0} where
  pub Gated-held : (m : M A) → R → Gated d m R
  Gated-held m r = record { at = λ w h. inr r }

  pub Gated-fail : (e : Error) → Gated d (fail {A = A} e) R
  Gated-fail e = record { at = λ w h. inl (refl, h) }

  pub Gated-if :
      (b : Bool) (m n : M A)
      → (b ≡ true → Gated d m R)
      → (b ≡ false → Gated d n R)
      → Gated d (if b then m else n) R
  Gated-if true m n h k = h refl
  Gated-if false m n h k = k refl

module _ {A B : Type 0} {d : World} {R : Type 0} where
  continue-Gated :
      (r : Outcome A) (f : A → M B) (w : World)
      → Same d w
      → ((a : A) → r ≡ ok a → Gated d (f a) R)
      → Refused d (continue r f w) ⊎ R
  continue-Gated (ok a) f w h k = (k a refl).at w h
  continue-Gated (err e) f w h k = inl (refl, h)
  continue-Gated panic f w h k = inl (refl, h)

  -- What comes before the gate changes nothing.
  pub Gated-bind :
      (m : M A) (f : A → M B)
      → Quiet m
      → ((a : A) (w : World) → Same d w → (m w).0 ≡ ok a → Gated d (f a) R)
      → Gated d (m >>= f) R
  unfolding ◌>>=◌
  Gated-bind m f t k = record {
    at = λ w h. continue-Gated (m w).0 f (m w).1 (Same-trans d w (m w).1 h (t.at w)) (λ a. k a w h);
  }

ensure-true : (b : Bool) (e : Error) (w : World) (u : Unit {0}) → (ensure b e w).0 ≡ ok u → b ≡ true
unfolding ensure
ensure-true true e w u h = refl
ensure-true false e w u h = cc

module _ {B : Type 0} {d : World} {R : Type 0} where
  pub Gated-ensure :
      (b : Bool) (e : Error) (m : M B) → (b ≡ true → Gated d m R) → Gated d (ensure b e >> m) R
  Gated-ensure b e m k =
      Gated-bind (ensure b e) (λ _. m) (Quiet-ensure b e) (λ u w h o. k (ensure-true b e w u o))

module _ {A B : Type 0} {d : World} {R : Type 0} where
  pub Gated-some :
      (e : Error) (a : A) (f : A → M B) → Gated d (f a) R → Gated d (or_none e (some a) >>= f) R
  unfolding ◌>>=◌ or_none
  Gated-some e a f h = record { at = h.at }
