-- ===== src/Config/Bounds.antt =====
-- The settings of a rate limiter that is on.
use mathlib.Core.Path.{subst}
use portal_backend.Prelude.{Bool, true, false, not, ◌≡◌, refl, arith, if◌then◌else◌}
use portal_backend.Text.{Text, is_empty}
use portal_backend.Config
use portal_backend.Config.{
  Os, Result, loaded, invalid, RateLimitConfig, is_positive, load_rate_limit_config, validate,
  ◌>>=◌, ◌>>◌,
}

-- there is a prefix, and the numbers are positive
abbrev pub Usable : RateLimitConfig → Type 0
Usable c =
    (is_empty c.prefix ≡ false)
    × (is_positive c.default_limit ≡ true)
    × (is_positive c.default_burst ≡ true)
    × (is_positive c.default_period ≡ true)

require_lem :
    {A : Type 0} (b : Bool) (e : Text) (k : Result A) (a : A)
    → (Config.require b e >> k) ≡ loaded a
    → (b ≡ true) × (k ≡ loaded a)
unfolding ◌>>=◌
require_lem true e k a h = (refl, h)
require_lem false e k a h = cc

validate-Usable : (c : RateLimitConfig) → c.enabled ≡ true → validate c ≡ loaded tt → Usable c
unfolding validate
validate-Usable c on h =
    let guarded = subst (λ b. (if not b then loaded tt else Config.required c) ≡ loaded tt) on h in
    let prefix = require_lem _ _ _ tt guarded in
    let limit = require_lem _ _ _ tt prefix.1 in
    let burst = require_lem _ _ _ tt limit.1 in
    (ground (arith, prefix.0), limit.0, burst.0, required_lem _ _ burst.1)
  where
    required_lem : (b : Bool) (e : Text) → Config.require b e ≡ loaded tt → b ≡ true
    required_lem true e h = refl
    required_lem false e h = cc

abbrev Loaded : {A : Type 0} → (A → Type 0) → Result A → Type 0
Loaded P (loaded a) = P a
Loaded P (invalid e) = Unit {0}

-- what is loaded, if anything is, satisfies `P`
record Holds {A : Type 0} (P : A → Type 0) (r : Result A) : Type 0 where
  at : Loaded P r

Holds-bind :
    {A B : Type 0} (P : B → Type 0) (r : Result A) (f : A → Result B)
    → ((a : A) → r ≡ loaded a → Holds P (f a))
    → Holds P (r >>= f)
unfolding ◌>>=◌
Holds-bind P (loaded a) f h = h a refl
Holds-bind P (invalid e) f h = record { at = tt }

abbrev UsableWhenOn : RateLimitConfig → Type 0
UsableWhenOn c = c.enabled ≡ true → Usable c

load-Holds : (os : Os) → Holds UsableWhenOn (load_rate_limit_config os)
unfolding load_rate_limit_config
load-Holds os = Holds-bind UsableWhenOn _ _ λ enabled _. Holds-bind UsableWhenOn _ _ λ limit _.
    Holds-bind UsableWhenOn _ _ λ burst _. Holds-bind UsableWhenOn _ _ λ period _.
      Holds-bind UsableWhenOn _ _ λ fail_open _.
        Holds-bind UsableWhenOn _ _ λ u valid. record { at = λ on. validate-Usable _ on valid }

-- The settings of a rate limiter that is on, where they are loaded, have a prefix, and a limit, a
-- burst and a period that are positive.
pub load_rate_limit_config-Usable :
    (os : Os) (c : RateLimitConfig)
    → load_rate_limit_config os ≡ loaded c
    → c.enabled ≡ true
    → Usable c
load_rate_limit_config-Usable os c h = subst (Loaded UsableWhenOn) h (load-Holds os).at
