-- ===== src/Outbox/Death.antt =====
-- An event that the publisher refuses each time, where no effect fails.
use portal_backend.Prelude.{
  ℕ, pos, zero, suc, ◌+◌, ◌≤◌, ◌<◌, ◌≡◌, refl, Bool, true, false, ◌&&◌, List, [], ◌∷◌, some, take,
  any, leb, ◌==◌, arith, Bool-cases, inl, inr,
}
use portal_backend.Text.{Text}
use portal_backend.Model.{OutboxEvent, OutboxStatus, status_dead_letter}
use portal_backend.World.{World, ok, with_tx, query, write, ask, log_err, ◌>>=◌}
use portal_backend.Repo.Outbox
use portal_backend.Repo.Outbox.{is_claimable, is_due_at, claim_row, dead_row, retry_row}
use portal_backend.Outbox.Retry.{next_retry_at}
use portal_backend.Outbox.Final.{is_final, run_keeps_final}
use portal_backend.Outbox.Worker.{
  Worker, limit_of, claim, claim_pending_events, handle_publish_failed, after_publish, publish_all,
  publish_pending, run,
}

take_none : (n : ℕ) → take {A = OutboxEvent} n [] ≡ []
take_none zero = refl
take_none (suc n) = refl

same_id : (i : ℕ) → (i == i) ≡ true
same_id i = ground arith

abbrev pub is_dead : OutboxStatus → Bool
is_dead status_dead_letter = true
is_dead _ = false

abbrev pub is_dead_letter : ℕ → OutboxEvent → Bool
is_dead_letter i e = e.id == i && is_dead e.status

any_dead :
    (q : OutboxEvent → Bool) (es : List OutboxEvent)
    → any (λ e. is_final e.status && q e) es ≡ true
    → any q es ≡ true
any_dead q [] h = h
any_dead q (e ∷ es) h = ground (arith, any_dead q es)

-- a later world in which the event alone in the outbox is this one
abbrev with_event : OutboxEvent → ℕ → World → World
with_event e step w = record w {
  step = step;
  base = record w.base { outbox_events = e ∷ [] };
  tx = record w.base { outbox_events = e ∷ [] };
}

-- the event as it is claimed, four effects later
abbrev claimed_event : Worker → OutboxEvent → World → OutboxEvent
claimed_event k e w = claim_row (w.env.clock (suc (suc w.step))) k.worker_id e

abbrev claimed : Worker → OutboxEvent → World → World
claimed k e w = with_event (claimed_event k e w) (suc (suc (suc (suc w.step)))) w

-- the time of the next attempt that is chosen after a claim
abbrev next_time : Worker → OutboxEvent → World → ℕ
next_time k e w =
    next_retry_at k.config (e.retry_count + 1)
      (record (claimed k e w) { step = suc (suc (suc (suc (suc w.step)))) })

module _ (k : Worker) (b : ℕ) (error : Text) (one_at_least : k.config.batch_size ≡ pos (suc b))
    (unlocked : (e : OutboxEvent) → k.locked e ≡ false)
    (fails : (n : ℕ) (e : OutboxEvent) → k.publish n e ≡ some error) where
  claim_lem :
      (e : OutboxEvent) (w : World)
      → ((n : ℕ) → w.env.fault n ≡ false)
      → w.base.outbox_events ≡ e ∷ []
      → is_claimable e.status ≡ true
      → is_due_at e.next_retry_at (w.env.clock (suc w.step)) ≡ true
      → claim_pending_events k w ≡ (ok (e ∷ []), claimed k e w)
  unfolding claim_pending_events claim Outbox.list_pending_for_update Outbox.mark_publishing
      Outbox.is_due Outbox.by_age claim_row with_tx query write ◌>>=◌
  claim_lem e w calm alone waits due =
      rw
        (
          calm w.step,
          calm (suc w.step),
          alone,
          waits,
          due,
          unlocked e,
          one_at_least,
          take_none b,
          calm (suc (suc w.step)),
          same_id e.id,
          waits,
          calm (suc (suc (suc w.step))),
        )
        refl

  dead_lem :
      (e : OutboxEvent) (w : World)
      → ((n : ℕ) → w.env.fault n ≡ false)
      → leb (limit_of k e) (e.retry_count + 1) ≡ true
      → publish_all k (e ∷ []) (claimed k e w) ≡ (
        ok tt,
        with_event
            (dead_row error (claimed_event k e w))
            (suc (suc (suc (suc (suc (suc w.step))))))
            w,
      )
  unfolding publish_all after_publish handle_publish_failed Outbox.mark_dead_letter ask log_err
      ◌>>=◌ write claim_row dead_row
  dead_lem e w calm last =
      rw
        (
          fails (suc (suc (suc (suc w.step)))) e,
          last,
          calm (suc (suc (suc (suc (suc w.step))))),
          same_id e.id,
        )
        refl

  retry_lem :
      (e : OutboxEvent) (w : World)
      → ((n : ℕ) → w.env.fault n ≡ false)
      → leb (limit_of k e) (e.retry_count + 1) ≡ false
      → publish_all k (e ∷ []) (claimed k e w) ≡ (
        ok tt,
        with_event
            (retry_row (e.retry_count + 1) error (next_time k e w) (claimed_event k e w))
            (suc (suc (suc (suc (suc (suc (suc w.step)))))))
            w,
      )
  unfolding publish_all after_publish handle_publish_failed Outbox.mark_retry_scheduled ask log_err
      ◌>>=◌ write claim_row retry_row
  retry_lem e w calm more =
      rw
        (
          fails (suc (suc (suc (suc w.step)))) e,
          more,
          calm (suc (suc (suc (suc (suc (suc w.step)))))),
          same_id e.id,
        )
        refl

  -- a round in which the event is due
  round_lem :
      (e : OutboxEvent) (w : World) (v : World)
      → claim_pending_events k w ≡ (ok (e ∷ []), claimed k e w)
      → publish_all k (e ∷ []) (claimed k e w) ≡ (ok tt, v)
      → (n : ℕ) → run k (suc n) w ≡ run k n v
  unfolding publish_pending run log_err ◌>>=◌
  round_lem e w v claims publishes n = rw (claims, publishes) refl

  dead_stays :
      (e : OutboxEvent) (w : World) (n : ℕ)
      → ((m : ℕ) → w.env.fault m ≡ false)
      → w.base.outbox_events ≡ e ∷ []
      → is_claimable e.status ≡ true
      → is_due_at e.next_retry_at (w.env.clock (suc w.step)) ≡ true
      → leb (limit_of k e) (e.retry_count + 1) ≡ true
      → any (is_dead_letter e.id) (run k (suc n) w).1.base.outbox_events ≡ true
  unfolding dead_row claim_row
  dead_stays e w n calm alone waits due last =
      rw (round_lem e w _ (claim_lem e w calm alone waits due) (dead_lem e w calm last) n) (
        any_dead (is_dead_letter e.id)
          (run k n (
            with_event (dead_row error (claimed_event k e w))
              (suc (suc (suc (suc (suc (suc w.step)))))) w)).1.base.outbox_events
          (run_keeps_final k n (is_dead_letter e.id)
            (with_event (dead_row error (claimed_event k e w))
              (suc (suc (suc (suc (suc (suc w.step)))))) w)
            (ground (arith, same_id e.id)) (ground (arith, same_id e.id))))

  by_then :
      (e : OutboxEvent) (w : World) {t : ℕ} → next_time k e w ≤ t → leb (next_time k e w) t ≡ true
  by_then e w h = ground arith

  -- Where no effect fails, the publisher refuses every event, no row is locked, a round claims at least
  -- one event, and a retry is due by the next effect, an event that is alone in the outbox and due is a
  -- dead letter after as many rounds as attempts are left to it, or more.
  pub refused_event_dies :
      (n : ℕ) (e : OutboxEvent) (w : World)
      → ((i : ℕ) → w.env.fault i ≡ false)
      → ((i j c : ℕ) → i < j → next_retry_at k.config c (record w { step = i }) ≤ w.env.clock j)
      → w.base.outbox_events ≡ e ∷ []
      → is_claimable e.status ≡ true
      → is_due_at e.next_retry_at (w.env.clock (suc w.step)) ≡ true
      → limit_of k e ≤ e.retry_count + suc n
      → any (is_dead_letter e.id) (run k (suc n) w).1.base.outbox_events ≡ true
  unfolding retry_row claim_row next_retry_at
  refused_event_dies zero e w calm elapsed alone waits due left =
      dead_stays e w zero calm alone waits due (ground arith)
  refused_event_dies (suc n) e w calm elapsed alone waits due left =
      elim (Bool-cases (leb (limit_of k e) (e.retry_count + 1))) [
        | inl last ↦ dead_stays e w (suc n) calm alone waits due last
        | inr more ↦
            rw
              (round_lem e w _ (claim_lem e w calm alone waits due) (retry_lem e w calm more)
                (suc n))
              (refused_event_dies n
                (retry_row (e.retry_count + 1) error (next_time k e w) (claimed_event k e w))
                (with_event
                  (retry_row (e.retry_count + 1) error (next_time k e w) (claimed_event k e w))
                  (suc (suc (suc (suc (suc (suc (suc w.step))))))) w)
                calm elapsed refl refl
                (by_then e w (
                  elapsed (suc (suc (suc (suc (suc w.step)))))
                    (suc (suc (suc (suc (suc (suc (suc (suc w.step)))))))) (e.retry_count + 1)
                    (omega arith)))
                (omega (arith, left)))
      ]
