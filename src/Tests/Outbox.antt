-- ===== src/Tests/Outbox.antt =====
-- Runs of the worker of internal/worker.
use portal_backend.Prelude.{
  pos, ℕ, Bool, first, false, ◌≡◌, true, refl, List, [], ◌∷◌, none, some, ◌==◌, any, arith,
}
use portal_backend.Model.{
  OutboxEvent, NotificationEvent, notify_verify_email, OutboxStatus, status_publishing,
  status_published, status_pending,
}
use portal_backend.World
use portal_backend.World.{World, base_ctx, moment}
use portal_backend.Text.{text_eq}
use portal_backend.Repo.Outbox as Repo
use portal_backend.Repo.Outbox.{is_in_flight, mem_id}
use portal_backend.Outbox.Retry.{
  Config, Float64, backoff, moved, jittered, apply_jitter, next_retry_at, expected,
  next_retry_at_lem,
}
use portal_backend.Outbox.Worker as Rounds
use portal_backend.Outbox.Worker.{Worker}
use portal_backend.Outbox.Final.{HasFinal, run_keeps_final}
use portal_backend.Outbox.Claims.{claims_are_disjoint}
use portal_backend.Outbox.Death.{is_dead_letter, refused_event_dies}
use portal_backend.Outbox.Attempts.{WithinLimits, run_keeps_limits}
use portal_backend.Outbox.Publisher.{publish, wrapped}
use portal_backend.Outbox.Publisher.Sendable.{event_is_written}
use portal_backend.Service.Notification
use portal_backend.Service.Notification.{create_notification_outbox_event}
use portal_backend.Outbox.Flight.{AreAll, is_settled, after_publish_settles}
use portal_backend.Tests.{calm, db, returned}

-- numbers of which each that is computed is 0
abbrev zeroes : Float64
zeroes = record {
  plus = λ a b. 0;
  minus = λ a b. 0;
  times = λ a b. 0;
  less = λ a b. false;
  at_most = λ a b. false;
  of_duration = λ a. 0;
  to_duration = λ a. a;
  random = λ n. 0;
}

abbrev config : Config
config = record {
  batch_size = pos 5;
  max_retry = 3;
  retry_initial_backoff = 10;
  retry_max_backoff = 35;
  retry_jitter_ratio = 1;
  floats = zeroes;
}

-- a worker whose publisher fails
abbrev worker : Worker
worker = record {
  config = config;
  worker_id = 0x77 ∷ [];
  publish = λ n e. some (0x65 ∷ []);
  locked = λ e. false;
}

abbrev event : ℕ → OutboxStatus → OutboxEvent
event i s = record {
  id = i;
  topic = [];
  message_key = [];
  payload = [];
  status = s;
  retry_count = 0;
  max_retry = 3;
  last_error = none;
  next_retry_at = none;
  claimed_at = none;
  claimed_by = none;
  published_at = none;
  created_at = i;
}

abbrev outbox : World
outbox = record calm {
  base = record db {
    outbox_events =
        event 1 status_published ∷ event 2 status_pending ∷ event 3 status_publishing ∷ [];
  };
  tx = record db {
    outbox_events =
        event 1 status_published ∷ event 2 status_pending ∷ event 3 status_publishing ∷ [];
  };
}

run_keeps_final_example : HasFinal (λ e. e.id == 1) (Rounds.run worker 2 outbox).1.base
run_keeps_final_example = run_keeps_final worker 2 (λ e. e.id == 1) outbox refl refl

after_publish_settles_example :
    AreAll 3
      (is_settled worker (event 3 status_publishing) (some (0x65 ∷ [])))
      (Rounds.after_publish worker
        (event 3 status_publishing)
        (some (0x65 ∷ []))
        outbox).1.base.outbox_events
after_publish_settles_example =
    after_publish_settles worker (event 3 status_publishing) (some (0x65 ∷ [])) outbox (λ n. refl)
      (refl, refl)

next_retry_at_lem_example :
    next_retry_at config 3 calm
    ≡ moved (moment calm) (apply_jitter config.floats calm.step (expected config 2) 1)
next_retry_at_lem_example = next_retry_at_lem config 3 calm (omega arith) (omega arith)

run_keeps_limits_example : WithinLimits worker (λ i. 3) (Rounds.run worker 2 outbox).1.base
run_keeps_limits_example = run_keeps_limits worker (λ i. 3) 2 outbox refl refl

-- a worker that claims one event at a time
abbrev slow : Worker
slow = record worker { config = record config { batch_size = pos 1 } }

abbrev waiting : World
waiting = record calm {
  base = record db { outbox_events = event 2 status_pending ∷ event 4 status_pending ∷ [] };
}

abbrev first_claim : World.Outcome (List OutboxEvent) × World
first_claim = Rounds.claim_pending_events slow waiting

abbrev second_claim : World.Outcome (List OutboxEvent) × World
second_claim = Rounds.claim_pending_events slow first_claim.1

claims_are_disjoint_example :
    any (λ e. mem_id e.id (Rounds.ids_of (returned [] first_claim.0))) (returned [] second_claim.0)
    ≡ false
unfolding Rounds.claim_pending_events Rounds.claim Repo.list_pending_for_update Repo.mark_publishing
    Repo.claim_row Repo.is_due Repo.by_age World.with_tx World.query World.write World.◌>>=◌
claims_are_disjoint_example =
    claims_are_disjoint slow slow waiting first_claim.1 first_claim.1 second_claim.1
      (returned [] first_claim.0) (returned [] second_claim.0) refl refl refl

abbrev lonely : World
lonely = record calm { base = record db { outbox_events = event 2 status_pending ∷ [] } }

refused_event_dies_example :
    any (is_dead_letter 2) (Rounds.run worker 3 lonely).1.base.outbox_events ≡ true
unfolding next_retry_at moved apply_jitter jittered
refused_event_dies_example =
    refused_event_dies worker 4 (0x65 ∷ []) refl (λ e. refl) (λ n e. refl) 2
      (event 2 status_pending) lonely (λ i. refl) (λ i j c h. omega (arith, h)) refl refl refl
      (omega arith)

-- a notification, put in the outbox before a round of the worker
abbrev notice : NotificationEvent
notice = record {
  event_id = 0x31 ∷ [];
  occurred_at = 1000;
  notification_type = notify_verify_email;
  recipient_id = [];
  recipient_email = [];
  recipient_name = [];
  template = notify_verify_email;
  data_username = [];
  data_url = [];
  valid_until = 2000;
  business_key = [];
}

abbrev notified : World
notified = (create_notification_outbox_event base_ctx (0x74 ∷ []) notice calm).1

-- the first event of the topic
abbrev is_ours : OutboxEvent → Bool
is_ours e = text_eq e.topic (0x74 ∷ [])

abbrev sent : OutboxEvent
sent = elim (first is_ours (Rounds.run worker 1 notified).1.base.outbox_events) [
  | none ↦ event 0 status_pending
  | some e ↦ e
]

event_is_written_example : publish (λ n m. some m.topic) 0 sent ≡ wrapped (some (0x74 ∷ []))
unfolding create_notification_outbox_event Notification.get_max_retry_from_env Rounds.run
    Rounds.publish_pending Rounds.claim_pending_events Rounds.claim Rounds.publish_all
    Rounds.after_publish Rounds.handle_publish_failed next_retry_at moved apply_jitter jittered
    Repo.create Repo.stored Repo.list_pending_for_update Repo.mark_publishing
    Repo.mark_retry_scheduled Repo.claim_row Repo.retry_row Repo.is_due Repo.by_age World.with_tx
    World.query World.write World.◌>>=◌ World.ensure World.ask World.or_none World.log_err backoff
event_is_written_example =
    event_is_written base_ctx (0x74 ∷ []) notice worker 1 (λ n m. some m.topic) 0 is_ours sent calm
      refl refl refl
