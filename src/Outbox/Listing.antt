-- ===== src/Outbox/Listing.antt =====
-- What the worker lists: events of the outbox that wait to be published.
use portal_backend.Prelude.{
  ℕ, ℤ, pos, negsuc, zero, suc, ◌≡◌, refl, ◌∙◌, Bool, false, not, ◌&&◌, ◌||◌, List, [], ◌∷◌, any,
  select, take, arith,
}
use portal_backend.Model.{OutboxEvent}
use portal_backend.Repo.Outbox.{is_claimable, is_due, insert_by_age, by_age, limited}

module _ (q : OutboxEvent → Bool) where
  any-take : (n : ℕ) (es : List OutboxEvent) → any q es ≡ false → any q (take n es) ≡ false
  any-take zero es h = refl
  any-take (suc n) [] h = refl
  any-take (suc n) (e ∷ es) h = ground (arith, any-take n es)

  any-limited : (n : ℤ) (es : List OutboxEvent) → any q es ≡ false → any q (limited n es) ≡ false
  any-limited (pos n) es h = any-take n es h
  any-limited (negsuc n) es h = h

  any-insert_by_age :
      (e : OutboxEvent) (es : List OutboxEvent) → any q (insert_by_age e es) ≡ (q e || any q es)
  any-insert_by_age e [] = ground arith
  any-insert_by_age e (f ∷ fs) = ground (arith, any-insert_by_age e fs)

  any-by_age : (es : List OutboxEvent) → any q (by_age es) ≡ any q es
  unfolding by_age
  any-by_age [] = refl
  any-by_age (e ∷ es) = any-insert_by_age e (by_age es) ∙ ground (arith, any-by_age es)

  any-select_due :
      (now : ℕ) (locked : OutboxEvent → Bool) (es : List OutboxEvent)
      → any (λ e. q e && is_claimable e.status) es ≡ false
      → any q (select (λ e. is_due now e && not (locked e)) es) ≡ false
  unfolding is_due
  any-select_due now locked [] h = refl
  any-select_due now locked (e ∷ es) h = ground (arith, any-select_due now locked es)

  -- a test that no event passes that may be claimed
  pub none_listed :
      (now : ℕ) (limit : ℤ) (locked : OutboxEvent → Bool) (es : List OutboxEvent)
      → any (λ e. q e && is_claimable e.status) es ≡ false
      → any q (limited limit (by_age (select (λ e. is_due now e && not (locked e)) es))) ≡ false
  none_listed now limit locked es h =
      any-limited limit _ (any-by_age _ ∙ any-select_due now locked es h)
