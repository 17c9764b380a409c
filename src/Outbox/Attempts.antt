-- ===== src/Outbox/Attempts.antt =====
-- The count of attempts that the row of an event records, and its limit.
use mathlib.Core.Path.{subst}
use portal_backend.Prelude.{
  ℕ, zero, suc, ◌+◌, ◌≡◌, refl, Bool, true, false, not, ◌&&◌, ◌||◌, List, [], ◌∷◌, Option, none,
  some, any, any-update_where_none, ltb, leb, ◌==◌, ==_iff, split_and, sym, arith,
}
use portal_backend.Text.{Text}
use portal_backend.Model.{OutboxEvent, Db}
use portal_backend.World.{World, ok, base_ctx, moment}
use portal_backend.World.Yields.{
  Yields, Yields-kept, Yields-pure, Yields-ask, Yields-query, Yields-write, Yields-with_tx,
  Yields-if, Yields-bind, Yields-log_err,
}
use portal_backend.Repo.Outbox
use portal_backend.Repo.Outbox.{is_claimable, is_in_flight, mem_id}
use portal_backend.Outbox.Final.{is_final}
use portal_backend.Outbox.Listing.{none_listed}
use portal_backend.Outbox.Worker.{
  Worker, limit_of, ids_of, claim, claim_pending_events, handle_publish_failed, after_publish,
  publish_all, publish_pending, run,
}

-- The limit of an event is that of its id, and where the event is not final its retry_count is lower.
abbrev pub is_within : Worker → (ℕ → ℕ) → OutboxEvent → Bool
is_within k limit e =
    limit_of k e == limit e.id && (is_final e.status || ltb e.retry_count (limit e.id))

abbrev pub exceeds_limit : Worker → (ℕ → ℕ) → OutboxEvent → Bool
exceeds_limit k limit e = not (is_within k limit e)

abbrev pub WithinLimits : Worker → (ℕ → ℕ) → Db → Type 0
WithinLimits k limit db = any (exceeds_limit k limit) db.outbox_events ≡ false

same_events : (a b : List OutboxEvent) → ok a ≡ ok b → a ≡ b
same_events a b h = cc

module _ (k : Worker) (limit : ℕ → ℕ) where
  abbrev Within : OutboxEvent → Type 0
  Within e = exceeds_limit k limit e ≡ false

  abbrev AllWithin : List OutboxEvent → Type 0
  AllWithin es = any (exceeds_limit k limit) es ≡ false

  narrow :
      (es : List OutboxEvent)
      → AllWithin es
      → any (λ e. exceeds_limit k limit e && is_claimable e.status) es ≡ false
  narrow [] h = refl
  narrow (e ∷ es) h = ground (arith, narrow es)

  claimed-Within :
      (now : ℕ) (worker : Text) (r : OutboxEvent)
      → is_claimable r.status ≡ true
      → Within r
      → Within (Outbox.claim_row now worker r)
  unfolding Outbox.claim_row
  claimed-Within now worker r p h = ground arith

  published-Within : (now : ℕ) (r : OutboxEvent) → Within r → Within (Outbox.published_row now r)
  unfolding Outbox.published_row
  published-Within now r h = ground arith

  dead-Within : (error : Text) (r : OutboxEvent) → Within r → Within (Outbox.dead_row error r)
  unfolding Outbox.dead_row
  dead-Within error r h = ground arith

  retry-Within :
      (count : ℕ) (error : Text) (next : ℕ) (r : OutboxEvent)
      → ltb count (limit r.id) ≡ true
      → Within r
      → Within (Outbox.retry_row count error next r)
  unfolding Outbox.retry_row
  retry-Within count error next r p h = ground arith

  claim-Yields :
      (es : List OutboxEvent)
      → AllWithin es
      → Yields (λ _. WithinLimits k limit) AllWithin (claim k es)
  unfolding claim Outbox.mark_publishing
  claim-Yields [] h = Yields-pure [] h
  claim-Yields (e ∷ es) h =
      Yields-bind {Q = λ _. Unit {0}} _ _
        (Yields-write _ _ _
          (λ w db.
            any-update_where_none (λ r. mem_id r.id (ids_of (e ∷ es)) && is_claimable r.status)
              (exceeds_limit k limit) _ db.outbox_events
              (λ r p. claimed-Within (moment w) k.worker_id r (split_and _ _ p).1))
          (λ _. tt))
        (λ _ _. Yields-pure (e ∷ es) h)

  claim_pending_events-Yields :
      Yields (λ _. WithinLimits k limit) AllWithin (claim_pending_events k)
  unfolding claim_pending_events Outbox.list_pending_for_update
  claim_pending_events-Yields = Yields-with_tx _ (
      Yields-bind {Q = AllWithin} _ _
        (Yields-query _ _ (λ w db es h is_listed. subst AllWithin (same_events _ es is_listed) (
          none_listed (exceeds_limit k limit) _ _ k.locked db.outbox_events
            (narrow db.outbox_events h))))
        (λ es h. claim-Yields es h))

  mark_published-Yields :
      (i : ℕ)
      → Yields (λ _. WithinLimits k limit) (λ _. Unit {0}) (Outbox.mark_published base_ctx i)
  unfolding Outbox.mark_published
  mark_published-Yields i =
      Yields-write _ _ _
        (λ w db.
          any-update_where_none (is_in_flight i) (exceeds_limit k limit) _ db.outbox_events
            (λ r p. published-Within (moment w) r))
        (λ _. tt)

  mark_dead_letter-Yields :
      (i : ℕ) (error : Text)
      → Yields
          (λ _. WithinLimits k limit)
          (λ _. Unit {0})
          (Outbox.mark_dead_letter base_ctx i error)
  unfolding Outbox.mark_dead_letter
  mark_dead_letter-Yields i error =
      Yields-write _ _ _
        (λ w db.
          any-update_where_none (is_in_flight i) (exceeds_limit k limit) _ db.outbox_events
            (λ r p. dead-Within error r))
        (λ _. tt)

  mark_retry_scheduled-Yields :
      (i count : ℕ) (error : Text) (next : ℕ)
      → ltb count (limit i) ≡ true
      → Yields
          (λ _. WithinLimits k limit)
          (λ _. Unit {0})
          (Outbox.mark_retry_scheduled base_ctx i count error next)
  unfolding Outbox.mark_retry_scheduled
  mark_retry_scheduled-Yields i count error next left =
      Yields-write _ _ _
        (λ w db.
          any-update_where_none (is_in_flight i) (exceeds_limit k limit) _ db.outbox_events (λ r p.
            retry-Within count error next r (
              subst (λ j. ltb count (limit j) ≡ true) (sym ((==_iff r.id i).0 (split_and _ _ p).0))
                left)))
        (λ _. tt)

  -- a further attempt is scheduled only below the limit
  left_to_try :
      (e : OutboxEvent)
      → Within e
      → leb (limit_of k e) (e.retry_count + 1) ≡ false
      → ltb (e.retry_count + 1) (limit e.id) ≡ true
  left_to_try e h again = ground arith

  after_publish-Yields :
      (e : OutboxEvent) (answer : Option Text)
      → Within e
      → Yields (λ _. WithinLimits k limit) (λ _. Unit {0}) (after_publish k e answer)
  unfolding after_publish handle_publish_failed
  after_publish-Yields e none h = mark_published-Yields e.id
  after_publish-Yields e (some error) h =
      Yields-if _ _ _ (λ dead. Yields-log_err _ (mark_dead_letter-Yields e.id error))
        (λ again. Yields-bind {Q = λ _. Unit {0}} _ _ (Yields-ask _ (λ w. tt)) (λ next _.
          Yields-log_err _ (mark_retry_scheduled-Yields e.id _ error next (left_to_try e h again))))

  publish_all-Yields :
      (es : List OutboxEvent)
      → AllWithin es
      → Yields (λ _. WithinLimits k limit) (λ _. Unit {0}) (publish_all k es)
  unfolding publish_all
  publish_all-Yields [] h = Yields-pure tt tt
  publish_all-Yields (e ∷ es) h =
      Yields-bind {Q = λ _. Unit {0}} _ _ (Yields-ask _ (λ w. tt)) (λ answer _.
        Yields-bind _ _ (after_publish-Yields e answer (ground arith))
          (λ _ _. publish_all-Yields es (ground arith)))

  run-Yields : (n : ℕ) → Yields (λ _. WithinLimits k limit) (λ _. Unit {0}) (run k n)
  unfolding run publish_pending
  run-Yields zero = Yields-pure tt tt
  run-Yields (suc n) =
      Yields-bind _ _
        (Yields-log_err _ (Yields-bind _ _ claim_pending_events-Yields publish_all-Yields))
        (λ _ _. run-Yields n)

-- Where each event that is neither published nor a dead letter has a retry_count below its limit, in
-- the committed database and in what a transaction sees, it is so in the committed database after any
-- number of rounds of the worker, whatever fails in them. An attempt whose mark fails is not counted
-- there.
pub run_keeps_limits :
    (k : Worker) (limit : ℕ → ℕ) (n : ℕ) (w : World)
    → WithinLimits k limit w.base
    → WithinLimits k limit w.tx
    → WithinLimits k limit (run k n w).1.base
run_keeps_limits k limit n w h t = (Yields-kept _ (run-Yields k limit n) w (h, t)).0
