-- ===== src/World/Blind.antt =====
-- Actions that read, and whose answer is the same whichever of two databases is committed: one rule
-- for each way to build an action.
use portal_backend.Prelude.{
  Bool, true, false, Option, none, some, ◌≡◌, refl, sym, ap, ◌∙◌, if◌then◌else◌,
}
use portal_backend.Errors.{Error, driver}
use portal_backend.Model.{Db}
use portal_backend.World.{
  World, Outcome, ok, err, panic, M, base_ctx, tick, pure, continue, ◌>>=◌, ensure, ask, or_none,
  query,
}

-- Over `b` the action answers and does what it does over `a`, and changes neither.
abbrev Likewise : {A : Type 0} → Db → Db → Outcome A × World → Outcome A × World → Type 0
Likewise a b x y = (y ≡ (x.0, record x.1 { base = b })) × (x.1.base ≡ a)

pub record Blind (a b : Db) {A : Type 0} (m : M A) : Type 0 where
  pub at : (w : World) → w.base ≡ a → Likewise a b (m w) (m (record w { base = b }))

module _ {a b : Db} {A : Type 0} where
  pub Blind-pure : (x : A) → Blind a b (pure x)
  Blind-pure x = record { at = λ w h. (refl, h) }

  pub Blind-ask :
      (f : World → A) → ((w : World) → f (record w { base = b }) ≡ f w) → Blind a b (ask f)
  unfolding ask
  Blind-ask f k = record { at = λ w h. (rw (k w) refl, h) }

  pub Blind-or_none : (e : Error) (o : Option A) → Blind a b (or_none e o)
  unfolding or_none
  Blind-or_none e none = record { at = λ w h. (refl, h) }
  Blind-or_none e (some x) = record { at = λ w h. (refl, h) }

  answer-Likewise :
      (t : Bool) (r s : Outcome A) (w : World)
      → s ≡ r
      → w.base ≡ a
      → Likewise a b
          (if t then (err driver, w) else (r, w))
          (if t then (err driver, record w { base = b }) else (s, record w { base = b }))
  answer-Likewise true r s w e h = (refl, h)
  answer-Likewise false r s w e h = (rw e refl, h)

  pub Blind-query :
      (f : World → Db → Outcome A)
      → ((w : World) → f (record w { base = b }) b ≡ f w a)
      → Blind a b (query base_ctx f)
  unfolding query
  Blind-query f k = record {
    at = λ w h. answer-Likewise (w.env.fault w.step) _ _ (tick w) (k w ∙ ap (f w) (sym h)) h;
  }

pub Blind-ensure : {a b : Db} (t : Bool) (e : Error) → Blind a b (ensure t e)
unfolding ensure
Blind-ensure true e = record { at = λ w h. (refl, h) }
Blind-ensure false e = record { at = λ w h. (refl, h) }

module _ {a b : Db} {A B : Type 0} where
  continue-Likewise :
      (r : Outcome A) (f : A → M B) (w : World)
      → w.base ≡ a
      → ((x : A) → Blind a b (f x))
      → Likewise a b (continue r f w) (continue r f (record w { base = b }))
  continue-Likewise (ok x) f w h k = (k x).at w h
  continue-Likewise (err e) f w h k = (refl, h)
  continue-Likewise panic f w h k = (refl, h)

  pub Blind-bind :
      (m : M A) (f : A → M B) → Blind a b m → ((x : A) → Blind a b (f x)) → Blind a b (m >>= f)
  unfolding ◌>>=◌
  Blind-bind m f h k = record {
    at = λ w at_a.
        let (same, still) = h.at w at_a in rw same (continue-Likewise (m w).0 f (m w).1 still k);
  }
