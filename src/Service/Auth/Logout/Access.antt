-- ===== src/Service/Auth/Logout/Access.antt =====
-- Without a session of its id that is unrevoked, an access token is refused.
use mathlib.Core.Path.{subst}
use portal_backend.Prelude.{
  ℕ, ◌≡◌, true, false, List, [], ◌∷◌, some, any, first, ◌==◌, ==_iff, Bool-cases, inl, inr, arith,
}
use portal_backend.Text.{Text}
use portal_backend.Model.{AuthSession}
use portal_backend.World.{World, ok}
use portal_backend.Repo.Sessions.{is_active_id, is_unrevoked}
use portal_backend.Access.Authenticator.{Principal, authenticate}
use portal_backend.Access.Gate.{authenticate_admits}

active_is_unrevoked :
    (now i : ℕ) (rows : List AuthSession) (s : AuthSession)
    → first (is_active_id now i) rows ≡ some s
    → any (is_unrevoked i) rows ≡ true
active_is_unrevoked now i [] s h = ground arith
active_is_unrevoked now i (r ∷ rows) s h = ground (arith, active_is_unrevoked now i rows s)

-- While no session of the id is unrevoked, a caller who is accepted has another session.
pub closed_is_refused :
    (s : ℕ) (token : Text) (v : World) (p : Principal) (v' : World)
    → any (is_unrevoked s) v.base.auth_sessions ≡ false
    → authenticate token v ≡ (ok p, v')
    → (p.session_id == s) ≡ false
closed_is_refused s token v p v' closed accepted =
    let (n, from, to, session, is_session, own, role, is_role, may) =
      authenticate_admits token v p v' accepted in
    let alive =
      active_is_unrevoked (v.env.clock n) p.session_id v.base.auth_sessions session is_session in
    elim (Bool-cases (p.session_id == s)) [
      | inl is_same ↦ ground (
        arith,
        closed,
        subst (λ i. any (is_unrevoked i) v.base.auth_sessions ≡ true)
            ((==_iff p.session_id s).0 is_same) alive,
      )
      | inr other ↦ other
    ]
