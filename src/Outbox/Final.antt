-- ===== src/Outbox/Final.antt =====
-- Events that are published or dead letters, over the rounds of the worker.
use portal_backend.Prelude.{
  ℕ, zero, suc, ◌≡◌, Bool, true, false, ◌&&◌, List, [], ◌∷◌, Option, none, some, any, update_where,
  arith,
}
use portal_backend.Text.{Text}
use portal_backend.Model.{OutboxEvent, OutboxStatus, status_published, status_dead_letter, Db}
use portal_backend.World.{World, base_ctx, tx_ctx}
use portal_backend.World.Keeps.{
  Keeps, Keeps-pure, Keeps-ask, Keeps-query, Keeps-write, Keeps-with_tx, Keeps-if, Keeps-bind,
  Keeps-log_err,
}
use portal_backend.Repo.Outbox
use portal_backend.Repo.Outbox.{is_claimable, is_publishing, is_in_flight, mem_id}
use portal_backend.Outbox.Worker.{
  Worker, claim, claim_pending_events, handle_publish_failed, after_publish, publish_all,
  publish_pending, run,
}

abbrev pub is_final : OutboxStatus → Bool
is_final status_published = true
is_final status_dead_letter = true
is_final _ = false

claimable_open : (s : OutboxStatus) → is_claimable s ≡ true → is_final s ≡ false
claimable_open s h = ground arith

publishing_open : (s : OutboxStatus) → is_publishing s ≡ true → is_final s ≡ false
publishing_open s h = ground arith

-- an update of rows that are not final
any-update_where_final :
    (p q : OutboxEvent → Bool) (f : OutboxEvent → OutboxEvent) (es : List OutboxEvent)
    → ((e : OutboxEvent) → p e ≡ true → is_final e.status ≡ false)
    → any (λ e. is_final e.status && q e) es ≡ true
    → any (λ e. is_final e.status && q e) (update_where p f es) ≡ true
any-update_where_final p q f [] h k = k
any-update_where_final p q f (e ∷ es) h k = ground (arith, h e, any-update_where_final p q f es h)

-- There is a final event that passes a test.
abbrev pub HasFinal : (OutboxEvent → Bool) → Db → Type 0
HasFinal q db = any (λ e. is_final e.status && q e) db.outbox_events ≡ true

module _ (q : OutboxEvent → Bool) where
  mark_publishing-Keeps :
      (ids : List ℕ) (worker : Text)
      → Keeps (λ _. HasFinal q) (Outbox.mark_publishing tx_ctx ids worker)
  unfolding Outbox.mark_publishing
  mark_publishing-Keeps ids worker = Keeps-write _ _ _ (λ w db.
      any-update_where_final (λ e. mem_id e.id ids && is_claimable e.status) q _ db.outbox_events
        (λ e h. claimable_open e.status (ground arith)))

  mark_published-Keeps : (i : ℕ) → Keeps (λ _. HasFinal q) (Outbox.mark_published base_ctx i)
  unfolding Outbox.mark_published
  mark_published-Keeps i = Keeps-write _ _ _ (λ w db.
      any-update_where_final (is_in_flight i) q _ db.outbox_events
        (λ e h. publishing_open e.status (ground arith)))

  mark_retry_scheduled-Keeps :
      (i count : ℕ) (error : Text) (next : ℕ)
      → Keeps (λ _. HasFinal q) (Outbox.mark_retry_scheduled base_ctx i count error next)
  unfolding Outbox.mark_retry_scheduled
  mark_retry_scheduled-Keeps i count error next = Keeps-write _ _ _ (λ w db.
      any-update_where_final (is_in_flight i) q _ db.outbox_events
        (λ e h. publishing_open e.status (ground arith)))

  mark_dead_letter-Keeps :
      (i : ℕ) (error : Text) → Keeps (λ _. HasFinal q) (Outbox.mark_dead_letter base_ctx i error)
  unfolding Outbox.mark_dead_letter
  mark_dead_letter-Keeps i error = Keeps-write _ _ _ (λ w db.
      any-update_where_final (is_in_flight i) q _ db.outbox_events
        (λ e h. publishing_open e.status (ground arith)))

  claim-Keeps : (k : Worker) (es : List OutboxEvent) → Keeps (λ _. HasFinal q) (claim k es)
  unfolding claim
  claim-Keeps k [] = Keeps-pure []
  claim-Keeps k (e ∷ es) = Keeps-bind _ _ (mark_publishing-Keeps _ _) (λ _. Keeps-pure _)

  claim_pending_events-Keeps : (k : Worker) → Keeps (λ _. HasFinal q) (claim_pending_events k)
  unfolding claim_pending_events Outbox.list_pending_for_update
  claim_pending_events-Keeps k =
      Keeps-with_tx _ (Keeps-bind _ _ (Keeps-query _ _) (λ es. claim-Keeps k es))

  after_publish-Keeps :
      (k : Worker) (e : OutboxEvent) (answer : Option Text)
      → Keeps (λ _. HasFinal q) (after_publish k e answer)
  unfolding after_publish handle_publish_failed
  after_publish-Keeps k e none = mark_published-Keeps _
  after_publish-Keeps k e (some error) =
      Keeps-if _ _ _ (Keeps-log_err _ (mark_dead_letter-Keeps _ _)) (
        Keeps-bind _ _ (Keeps-ask _) (λ next. Keeps-log_err _ (mark_retry_scheduled-Keeps _ _ _ _)))

  publish_all-Keeps :
      (k : Worker) (es : List OutboxEvent) → Keeps (λ _. HasFinal q) (publish_all k es)
  unfolding publish_all
  publish_all-Keeps k [] = Keeps-pure tt
  publish_all-Keeps k (e ∷ es) =
      Keeps-bind _ _ (Keeps-ask _)
        (λ answer. Keeps-bind _ _ (after_publish-Keeps k e answer) (λ _. publish_all-Keeps k es))

  run-Keeps : (k : Worker) (n : ℕ) → Keeps (λ _. HasFinal q) (run k n)
  unfolding run publish_pending
  run-Keeps k zero = Keeps-pure tt
  run-Keeps k (suc n) =
      Keeps-bind _ _
        (Keeps-log_err _
          (Keeps-bind _ _ (claim_pending_events-Keeps k) (λ es. publish_all-Keeps k es)))
        (λ _. run-Keeps k n)

-- However many rounds the worker runs, and whatever fails in them, an event that was published or a
-- dead letter is one afterwards, unchanged: any test that such an event passed is passed by one.
pub run_keeps_final :
    (k : Worker) (n : ℕ) (q : OutboxEvent → Bool) (w : World)
    → HasFinal q w.base
    → HasFinal q w.tx
    → HasFinal q (run k n w).1.base
run_keeps_final k n q w h t = ((run-Keeps q k n).at w (h, t)).0
