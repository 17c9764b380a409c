-- ===== src/World/Returns/Tolerant.antt =====
-- The rules for actions whose failure is tolerated, for guards, and for weaker properties.
use portal_backend.Prelude.{Bool, true, false, Option, none, some, ◌≡◌, refl}
use portal_backend.Errors.{Error, app, not_found, driver, plain, status}
use portal_backend.World.{
  World, Outcome, ok, err, panic, M, nullable, null_not_found, log_err, swallow, unless_not_found,
  swallow_not_found, ensure,
}
use portal_backend.World.Returns.Rules.{Post, Returns}

module _ (Q : Unit {0} → World → Type 0) where
  swallow-Post : (r : Outcome (Unit {0})) (w : World) → Q tt w → Post Q (swallow r, w)
  swallow-Post (ok a) w h = h
  swallow-Post (err e) w h = h
  swallow-Post panic w h = tt

  swallow_not_found-Post :
      (r : Outcome (Unit {0})) (w : World)
      → Post Q (r, w)
      → (r ≡ err not_found → Q tt w)
      → Post Q (swallow_not_found r, w)
  swallow_not_found-Post (ok a) w h k = h
  swallow_not_found-Post (err (app e)) w h k = tt
  swallow_not_found-Post (err not_found) w h k = k refl
  swallow_not_found-Post (err driver) w h k = tt
  swallow_not_found-Post (err (plain s)) w h k = tt
  swallow_not_found-Post (err (status c s)) w h k = tt
  swallow_not_found-Post panic w h k = tt

module _ {Q : Unit {0} → World → Type 0} where
  pub Returns-ensure :
      (b : Bool) (e : Error) {w : World} → (b ≡ true → Q tt w) → Returns (ensure b e) w Q
  unfolding ensure
  Returns-ensure true e h = record { at = h refl }
  Returns-ensure false e h = record { at = tt }

  pub Returns-log_err : (m : M (Unit {0})) {w : World} → Q tt (m w).1 → Returns (log_err m) w Q
  unfolding log_err
  Returns-log_err m {w} h = record { at = swallow-Post Q (m w).0 (m w).1 h }

  pub Returns-unless_not_found :
      (m : M (Unit {0})) {w : World}
      → Returns m w Q
      → ((m w).0 ≡ err not_found → Q tt (m w).1)
      → Returns (unless_not_found m) w Q
  unfolding unless_not_found
  Returns-unless_not_found m {w} h k = record {
    at = swallow_not_found-Post Q (m w).0 (m w).1 h.at k;
  }

module _ {A : Type 0} (Q : Option A → World → Type 0) where
  null_not_found-Post :
      (r : Outcome A) (w : World)
      → ((a : A) → r ≡ ok a → Q (some a) w)
      → (r ≡ err not_found → Q none w)
      → Post Q (null_not_found r, w)
  null_not_found-Post (ok a) w h k = h a refl
  null_not_found-Post (err (app e)) w h k = tt
  null_not_found-Post (err not_found) w h k = k refl
  null_not_found-Post (err driver) w h k = tt
  null_not_found-Post (err (plain s)) w h k = tt
  null_not_found-Post (err (status c s)) w h k = tt
  null_not_found-Post panic w h k = tt

  pub Returns-nullable :
      (m : M A) {w : World}
      → ((a : A) → (m w).0 ≡ ok a → Q (some a) (m w).1)
      → ((m w).0 ≡ err not_found → Q none (m w).1)
      → Returns (nullable m) w Q
  unfolding nullable
  Returns-nullable m {w} h k = record { at = null_not_found-Post (m w).0 (m w).1 h k }

always-Post :
    {A : Type 0} (Q : A → World → Type 0) (r : Outcome A) (w : World)
    → ((a : A) → Q a w)
    → Post Q (r, w)
always-Post Q (ok a) w h = h a
always-Post Q (err e) w h = tt
always-Post Q panic w h = tt

-- Where the property holds of the world that is left, whatever the result.
pub Returns-always :
    {A : Type 0} {Q : A → World → Type 0} (m : M A) {w : World}
    → ((a : A) → Q a (m w).1)
    → Returns m w Q
Returns-always {Q = Q} m {w} h = record { at = always-Post Q (m w).0 (m w).1 h }

mono-Post :
    {A : Type 0} (P Q : A → World → Type 0) (r : Outcome A) (w : World)
    → ((a : A) → P a w → Q a w)
    → Post P (r, w)
    → Post Q (r, w)
mono-Post P Q (ok a) w h p = h a p
mono-Post P Q (err e) w h p = tt
mono-Post P Q panic w h p = tt

-- A weaker property holds too.
pub Returns-mono :
    {A : Type 0} {P Q : A → World → Type 0} {m : M A} {w : World}
    → Returns m w P
    → ((a : A) (w' : World) → P a w' → Q a w')
    → Returns m w Q
Returns-mono {P = P} {Q = Q} {m = m} {w = w} h k = record {
  at = mono-Post P Q (m w).0 (m w).1 (λ a. k a (m w).1) h.at;
}
