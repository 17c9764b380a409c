-- ===== src/Grpc/Chain/Limits.antt =====
-- The rate limits of a call.
use mathlib.Core.Path.{subst}
use portal_backend.Prelude.{
  ℕ, suc, Bool, true, false, ◌≡◌, refl, List, [], ◌∷◌, none, some, ltb, ◌==◌, if◌then◌else◌, arith,
  sym, ◌&&◌,
}
use portal_backend.Text.{Text}
use portal_backend.World.{World, Outcome, ok, err, panic, M, fail}
use portal_backend.World.Returns.{
  Returns, Post, Returns-bind, Returns-ensure, Returns-ask, Returns-or_none, Returns-pure,
  Returns-ok, Returns-fail, Returns-mono, Returns-if, Returns-always,
}
use portal_backend.Grpc.Messages.{Request, Response, method_of}
use portal_backend.Grpc.Policy.{
  scope_user, Phase, pre_auth, post_auth, Policy, LimitResult, policy_for_method, default_policy,
}
use portal_backend.Grpc.Server.{Server, Call, LimitAnswer}
use portal_backend.Grpc.Limit
use portal_backend.Grpc.Limit.{RateLimitCheck, phase_checks}
use portal_backend.Grpc.Chain

-- At the effect `n` the limiter lets the key through.
abbrev pub Answered : Server → Policy → ℕ → Text → Type 0
Answered s policy n key =
    (a : LimitAnswer) × (s.limiter n key policy.limit
        (if policy.burst == 0 then policy.limit else policy.burst) policy.window
      ≡ some a)
    × (ltb 0 a.allowed ≡ true)

-- The limiter lets each of the keys through, one after the other from the effect `n` on.
abbrev pub Passed : Server → Policy → ℕ → List RateLimitCheck → Type 0
Passed s policy n [] = Unit {0}
Passed s policy n (c ∷ cs) = Answered s policy n c.key × Passed s policy (suc n) cs

allow-Returns :
    (s : Server) (key : Text) (policy : Policy) (w : World)
    → Returns
        (Limit.allow s key policy)
        w
        (λ res w'. (w'.step ≡ suc w.step) × (res.allowed ≡ true → Answered s policy w.step key))
unfolding Limit.allow
allow-Returns s key policy w = Returns-bind (
    Returns-ensure _ _ λ _. Returns-bind (
      Returns-ensure _ _ λ _. Returns-bind (
        Returns-ensure _ _ λ _. Returns-bind (
          Returns-ask _ (
            Returns-bind
              (Returns-or_none _ _ λ a is_a. Returns-pure (refl, λ yes. (a, is_a, yes))))))))

module _ (s : Server) (closed : s.fail_open ≡ false) {A : Type 0} (handler : M A)
    (policy : Policy) where
  checked-Post :
      (c : RateLimitCheck) (r : Outcome LimitResult) (rest : M A) (v : World) (n : ℕ) (P : Type 0)
      → Post (λ res w'. (w'.step ≡ suc n) × (res.allowed ≡ true → Answered s policy n c.key)) (r, v)
      → (v.step ≡ suc n → Returns rest v (λ _ _. P))
      → Post (λ _ _. Answered s policy n c.key × P) (Limit.checked s handler c.scope r rest v)
  checked-Post c (ok res) rest v n P (next, answered) k =
      (Returns-bind (
        Returns-ensure res.allowed _ λ yes. Returns-mono (k next) (λ a w' p. (answered yes, p)))).at
  checked-Post c (err e) rest v n P h k =
      (Returns-if s.fail_open handler (fail _) (λ opened. ground (arith, opened, closed))
        (λ _. Returns-fail)).at
  checked-Post c panic rest v n P h k = tt

  check_each-Returns :
      (checks : List RateLimitCheck) (w : World)
      → Returns (Limit.check_each s handler policy checks) w (λ _ _. Passed s policy w.step checks)
  unfolding Limit.check_each
  check_each-Returns [] w = Returns-always handler (λ a. tt)
  check_each-Returns (c ∷ cs) w = record {
    at =
        let x = Limit.allow s c.key policy w in
        checked-Post c x.0 (Limit.check_each s handler policy cs) x.1 w.step
          (Passed s policy (suc w.step) cs) (allow-Returns s c.key policy w).at
          (λ next.
            subst
              (λ n.
                Returns (Limit.check_each s handler policy cs) x.1 (λ _ _. Passed s policy n cs))
              next (check_each-Returns cs x.1));
  }

recovery-Returns :
    {A : Type 0} (m : M A) {w : World} {Q : A → World → Type 0}
    → Returns m w Q
    → Returns (Chain.recovery m) w Q
unfolding Chain.recovery
recovery-Returns m {w} {Q} h = record { at = recovered-Post (m w).0 (m w).1 h.at }
  where
    recovered-Post : (r : Outcome _) (v : World) → Post Q (r, v) → Post Q (Chain.recovered r, v)
    recovered-Post (ok a) v h = h
    recovered-Post (err e) v h = tt
    recovered-Post panic v h = tt

-- Where the limiter's failures close the server, a call that returns was let through by the limiter
-- for each key that its method's policy checks before authentication, one after the other, at the
-- rate, the burst and the period of the policy.
pub serve_was_limited :
    (s : Server) (call : Call) (req : Request) (w : World) (resp : Response) (w' : World)
    → s.fail_open ≡ false
    → Chain.serve s call req w ≡ (ok resp, w')
    → Passed s (policy_for_method (method_of req)) w.step (phase_checks s call pre_auth none req w)
unfolding Chain.serve Limit.rate_limit
serve_was_limited s call req w resp w' closed returned =
    Returns-ok resp w'
      (recovery-Returns _ (record {
        at = (check_each-Returns s closed _ _ (phase_checks s call pre_auth none req w) w).at;
      }))
      returned

module _ (s : Server) (call : Call) (req : Request) {A : Type 0} (handler : M A) (w : World) where
  default_checks :
      (b : Bool)
      → Limit.check_each s handler default_policy
          (if b then Limit.build_checks s call none req w default_policy (scope_user ∷ []) else [])
          w
        ≡ handler w
  unfolding Limit.check_each Limit.build_checks Limit.value_for_scope Limit.user_id_from_context
  default_checks true = refl
  default_checks false = refl

-- A call without a caller, of a method with the default policy, is not limited in either phase: the
-- handler runs as it would alone.
pub default_policy_unlimited :
    (s : Server) (call : Call) (phase : Phase) (req : Request) {A : Type 0} (handler : M A)
    (w : World)
    → policy_for_method (method_of req) ≡ default_policy
    → Limit.rate_limit s call phase none req handler w ≡ handler w
unfolding Limit.rate_limit Limit.phase_checks default_policy
default_policy_unlimited s call phase req handler w same =
    subst
      (λ p.
        Limit.check_each s handler p
          (if s.rate_limit_enabled && Limit.same_phase p.phase phase
            then Limit.build_checks s call none req w p p.scopes
            else [])
          w
        ≡ handler w)
      (sym same)
      (default_checks s call req handler w
        (s.rate_limit_enabled && Limit.same_phase post_auth phase))
