-- ===== src/Outbox/Claims.antt =====
-- Two workers that claim events, one after the other.
use mathlib.Core.Path.{subst}
use portal_backend.Prelude.{
  ◌≡◌, refl, sym, ◌∙◌, Bool, false, ◌&&◌, List, [], ◌∷◌, any, any-update_where, arith,
}
use portal_backend.Model.{OutboxEvent}
use portal_backend.World.{World, ok}
use portal_backend.World.Returns.{
  Returns, Returns-ok, Returns-bind, Returns-query, Returns-write, Returns-with_tx, Returns-pure,
  Returns-mono,
}
use portal_backend.Repo.Outbox
use portal_backend.Repo.Outbox.{is_claimable, mem_id}
use portal_backend.Outbox.Listing.{none_listed}
use portal_backend.Outbox.Worker.{Worker, ids_of, claim, claim_pending_events}

same_list : (a b : List OutboxEvent) → ok a ≡ ok b → a ≡ b
same_list a b h = cc

none_of_none :
    (es : List OutboxEvent) → any (λ e. mem_id e.id [] && is_claimable e.status) es ≡ false
none_of_none [] = refl
none_of_none (e ∷ es) = none_of_none es

-- no event of these ids waits to be claimed
abbrev NotWaiting : List OutboxEvent → List OutboxEvent → Type 0
NotWaiting es rows = any (λ e. mem_id e.id (ids_of es) && is_claimable e.status) rows ≡ false

claim-Returns :
    (k : Worker) (es : List OutboxEvent) (w : World)
    → Returns (claim k es) w (λ fs w'. (fs ≡ es) × NotWaiting es w'.tx.outbox_events)
unfolding claim Outbox.mark_publishing Outbox.claim_row
claim-Returns k [] w = Returns-pure (refl, none_of_none w.tx.outbox_events)
claim-Returns k (e ∷ es) w = Returns-bind (
    Returns-write _ _ _ λ _ _. Returns-pure (
      refl,
      any-update_where (λ f. mem_id f.id (ids_of (e ∷ es)) && is_claimable f.status)
          (λ f. mem_id f.id (ids_of (e ∷ es)) && is_claimable f.status) _ w.tx.outbox_events
          (λ f h. ground arith) (λ f h. h),
    ))

claimed-Returns :
    (k : Worker) (w : World)
    → Returns (claim_pending_events k) w (λ es w'. NotWaiting es w'.base.outbox_events)
unfolding claim_pending_events Outbox.list_pending_for_update
claimed-Returns k w = Returns-with_tx _ (
    Returns-bind (
      Returns-query _ _ λ listed is_listed.
        Returns-mono (claim-Returns k listed _)
          λ es w1 x. subst (λ l. NotWaiting l w1.tx.outbox_events) (sym x.0) x.1))

-- where no event that passes a test waits, none is claimed that does
other-Returns :
    (q : OutboxEvent → Bool) (k : Worker) (w : World)
    → any (λ e. q e && is_claimable e.status) w.base.outbox_events ≡ false
    → Returns (claim_pending_events k) w (λ es w'. any q es ≡ false)
unfolding claim_pending_events Outbox.list_pending_for_update
other-Returns q k w h = Returns-with_tx _ (
    Returns-bind (
      Returns-query _ _ λ listed is_listed. Returns-mono (claim-Returns k listed _) λ es w1 x.
        subst (λ l. any q l ≡ false) (same_list _ _ is_listed ∙ sym x.0)
          (none_listed q _ _ k.locked _ h)))

-- Where a worker has claimed events, and another one claims while the outbox is what the first left,
-- the two have no event in common: the id of no event of the second is one of the first.
pub claims_are_disjoint :
    (k l : Worker) (w w' v v' : World) (es fs : List OutboxEvent)
    → claim_pending_events k w ≡ (ok es, w')
    → v.base.outbox_events ≡ w'.base.outbox_events
    → claim_pending_events l v ≡ (ok fs, v')
    → any (λ e. mem_id e.id (ids_of es)) fs ≡ false
claims_are_disjoint k l w w' v v' es fs first same second =
    let claimed = Returns-ok es w' (claimed-Returns k w) first in
    Returns-ok fs v' (other-Returns (λ e. mem_id e.id (ids_of es)) l v (rw same claimed)) second
