-- ===== src/Outbox/Worker.antt =====
-- internal/worker/worker.go: the worker claims events that are due, publishes each, and marks what
-- came of it.
use portal_backend.Prelude.{
  ℕ, zero, suc, ◌+◌, Bool, List, [], ◌∷◌, Option, none, some, leb, if◌then◌else◌,
}
use portal_backend.Text.{Text}
use portal_backend.Model.{OutboxEvent}
use portal_backend.World.{M, base_ctx, tx_ctx, pure, ◌>>=◌, ◌>>◌, log_err, ask, with_tx}
use portal_backend.Repo.Outbox
use portal_backend.Outbox.Retry.{Config, next_retry_at, or_default}

-- What the worker is built with. `publish` is the publisher at the number of the effect, with the
-- text of its error; `locked` tells the rows that another transaction has locked.
pub record Worker : Type 0 where
  pub config : Config
  pub worker_id : Text
  pub publish : ℕ → OutboxEvent → Option Text
  pub locked : OutboxEvent → Bool

abbrev pub ids_of : List OutboxEvent → List ℕ
ids_of [] = []
ids_of (e ∷ es) = e.id ∷ ids_of es

-- no update where no event is due
unfoldable pub claim : Worker → List OutboxEvent → M (List OutboxEvent)
claim k [] = pure []
claim k (e ∷ es) = do Outbox.mark_publishing tx_ctx (ids_of (e ∷ es)) k.worker_id; pure (e ∷ es)

unfoldable pub claim_pending_events : Worker → M (List OutboxEvent)
claim_pending_events k = with_tx (do
  pending ← Outbox.list_pending_for_update tx_ctx k.locked k.config.batch_size
  claim k pending)

-- an event's own limit, or that of the worker
abbrev pub limit_of : Worker → OutboxEvent → ℕ
limit_of k e = or_default e.max_retry k.config.max_retry

-- a mark that fails is logged only
unfoldable pub handle_publish_failed : Worker → OutboxEvent → Text → M (Unit {0})
handle_publish_failed k e error =
    if leb (limit_of k e) (e.retry_count + 1)
    then log_err (Outbox.mark_dead_letter base_ctx e.id error)
    else (do
      next ← ask (next_retry_at k.config (e.retry_count + 1))
      log_err (Outbox.mark_retry_scheduled base_ctx e.id (e.retry_count + 1) error next))

unfoldable pub after_publish : Worker → OutboxEvent → Option Text → M (Unit {0})
after_publish k e none = Outbox.mark_published base_ctx e.id
after_publish k e (some error) = handle_publish_failed k e error

-- the loop over the claimed events; it ends where a mark as published fails
unfoldable pub publish_all : Worker → List OutboxEvent → M (Unit {0})
publish_all k [] = pure tt
publish_all k (e ∷ es) = do
  answer ← ask (λ w. k.publish w.step e)
  after_publish k e answer
  publish_all k es

unfoldable pub publish_pending : Worker → M (Unit {0})
publish_pending k = do events ← claim_pending_events k; publish_all k events

-- the rounds of a number of ticks; a round that fails is logged only
unfoldable pub run : Worker → ℕ → M (Unit {0})
run k zero = pure tt
run k (suc n) = log_err (publish_pending k) >> run k n
