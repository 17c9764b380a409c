-- ===== src/Outbox/Publisher/Sendable.antt =====
-- The topics and the keys of the events in the outbox, where internal/service/publisher.go puts events
-- and the worker runs.
use portal_backend.Prelude.{
  ℕ, zero, suc, ◌≡◌, refl, ◌∙◌, Bool, true, false, not, ◌||◌, List, [], ◌∷◌, Option, none, some,
  any, first, update_where, ◌&&◌, any-update_where_none, any-append_one, arith,
}
use portal_backend.Text.{Text, is_empty}
use portal_backend.Errors.{Error}
use portal_backend.Model.{Db, OutboxEvent, NotificationEvent}
use portal_backend.World.{World, M, Ctx, moment, ◌>>=◌, ◌>>◌, ensure}
use portal_backend.World.Keeps.{
  Keeps, Keeps-ask, Keeps-or_none, Keeps-reads, Keeps-write, Keeps-query, Keeps-bind, Keeps-with_tx,
  Keeps-pure, Keeps-log_err, keeps_rules,
}
use portal_backend.Repo.Outbox
use portal_backend.Outbox.Worker.{
  Worker, claim, claim_pending_events, handle_publish_failed, after_publish, publish_all,
  publish_pending, run,
}
use portal_backend.Outbox.Publisher.{Message, message_of, wrapped, publish}
use portal_backend.Service.Notification.{create_notification_outbox_event}

-- no topic or no key
abbrev pub is_unsendable : OutboxEvent → Bool
is_unsendable e = is_empty e.topic || is_empty e.message_key

abbrev pub Sendable : Db → Type 0
Sendable db = any is_unsendable db.outbox_events ≡ false

neither : {a b : Bool} → a ≡ false → b ≡ false → (a || b) ≡ false
neither h k = ground arith

marked :
    (p : OutboxEvent → Bool) (g : OutboxEvent → OutboxEvent) (es : List OutboxEvent)
    → ((e : OutboxEvent) → is_unsendable (g e) ≡ is_unsendable e)
    → any is_unsendable es ≡ false
    → any is_unsendable (update_where p g es) ≡ false
marked p g es same = any-update_where_none p is_unsendable g es (λ e q h. same e ∙ h)

mark_publishing-Keeps :
    (c : Ctx) (ids : List ℕ) (worker : Text)
    → Keeps (λ _. Sendable) (Outbox.mark_publishing c ids worker)
unfolding Outbox.mark_publishing
mark_publishing-Keeps c ids worker = Keeps-write _ _ _ (λ w db.
    marked (λ e. Outbox.mem_id e.id ids && Outbox.is_claimable e.status)
      (Outbox.claim_row (moment w) worker) db.outbox_events (λ e. refl))

mark_published-Keeps : (c : Ctx) (i : ℕ) → Keeps (λ _. Sendable) (Outbox.mark_published c i)
unfolding Outbox.mark_published
mark_published-Keeps c i = Keeps-write _ _ _ (λ w db.
    marked (Outbox.is_in_flight i) (Outbox.published_row (moment w)) db.outbox_events (λ e. refl))

mark_retry_scheduled-Keeps :
    (c : Ctx) (i count : ℕ) (error : Text) (next : ℕ)
    → Keeps (λ _. Sendable) (Outbox.mark_retry_scheduled c i count error next)
unfolding Outbox.mark_retry_scheduled
mark_retry_scheduled-Keeps c i count error next = Keeps-write _ _ _ (λ w db.
    marked (Outbox.is_in_flight i) (Outbox.retry_row count error next) db.outbox_events (λ e. refl))

mark_dead_letter-Keeps :
    (c : Ctx) (i : ℕ) (error : Text) → Keeps (λ _. Sendable) (Outbox.mark_dead_letter c i error)
unfolding Outbox.mark_dead_letter
mark_dead_letter-Keeps c i error =
    Keeps-write _ _ _
      (λ w db. marked (Outbox.is_in_flight i) (Outbox.dead_row error) db.outbox_events (λ e. refl))

ruleset marks = (
  keeps_rules, mark_publishing-Keeps, mark_published-Keeps, mark_retry_scheduled-Keeps,
  mark_dead_letter-Keeps,
)

claim-Keeps : (k : Worker) (es : List OutboxEvent) → Keeps (λ _. Sendable) (claim k es)
unfolding claim
claim-Keeps k [] = search marks depth 4
claim-Keeps k (e ∷ es) = search marks depth 8

claim_pending_events-Keeps : (k : Worker) → Keeps (λ _. Sendable) (claim_pending_events k)
unfolding claim_pending_events Outbox.list_pending_for_update
claim_pending_events-Keeps k =
    Keeps-with_tx _ (Keeps-bind _ _ (Keeps-query _ _) (λ es. claim-Keeps k es))

after_publish-Keeps :
    (k : Worker) (e : OutboxEvent) (answer : Option Text)
    → Keeps (λ _. Sendable) (after_publish k e answer)
unfolding after_publish handle_publish_failed
after_publish-Keeps k e none = search marks depth 4
after_publish-Keeps k e (some error) = search marks depth 10

publish_all-Keeps : (k : Worker) (es : List OutboxEvent) → Keeps (λ _. Sendable) (publish_all k es)
unfolding publish_all
publish_all-Keeps k [] = Keeps-pure tt
publish_all-Keeps k (e ∷ es) =
    Keeps-bind _ _ (Keeps-ask _)
      (λ answer. Keeps-bind _ _ (after_publish-Keeps k e answer) (λ _. publish_all-Keeps k es))

run-Keeps : (k : Worker) (n : ℕ) → Keeps (λ _. Sendable) (run k n)
unfolding run publish_pending
run-Keeps k zero = Keeps-pure tt
run-Keeps k (suc n) =
    Keeps-bind _ _
      (Keeps-log_err _
        (Keeps-bind _ _ (claim_pending_events-Keeps k) (λ es. publish_all-Keeps k es)))
      (λ _. run-Keeps k n)

-- what follows a test knows its result
Keeps-ensured :
    {P : Db → Type 0} {A : Type 0} (b : Bool) (e : Error) (m : M A)
    → (b ≡ true → Keeps (λ _. P) m)
    → Keeps (λ _. P) (ensure b e >> m)
unfolding ensure ◌>>=◌
Keeps-ensured true e m h = record { at = (h refl).at }
Keeps-ensured false e m h = record { at = λ w k. k }

filled :
    (topic key : Text)
    → not (is_empty topic) ≡ true
    → not (is_empty key) ≡ true
    → (is_empty topic || is_empty key) ≡ false
filled topic key h k = ground arith

create-Keeps :
    (c : Ctx) (e : OutboxEvent)
    → is_unsendable e ≡ false
    → Keeps (λ _. Sendable) (Outbox.create c e)
unfolding Outbox.create
create-Keeps c e h =
    Keeps-write _ _ _ (λ w db k. any-append_one is_unsendable db.outbox_events _ ∙ neither k h)

create_notification-Keeps :
    (c : Ctx) (topic : Text) (event : NotificationEvent)
    → Keeps (λ _. Sendable) (create_notification_outbox_event c topic event)
unfolding create_notification_outbox_event
create_notification-Keeps c topic event = Keeps-ensured _ _ _ λ h. Keeps-ensured _ _ _ λ k.
    Keeps-bind _ _ (Keeps-reads _ (λ w. Keeps-or_none _ _)) λ payload.
      Keeps-bind _ _ (Keeps-ask _) λ i.
        Keeps-bind _ _ (Keeps-ask _) λ retries. create-Keeps c _ (filled topic event.event_id h k)

first_is_sendable :
    (q : OutboxEvent → Bool) (es : List OutboxEvent) (e : OutboxEvent)
    → any is_unsendable es ≡ false
    → first q es ≡ some e
    → is_unsendable e ≡ false
first_is_sendable q [] e h k = ground arith
first_is_sendable q (x ∷ es) e h k = ground (arith, first_is_sendable q es e)

publish_sendable :
    (write_messages : ℕ → Message → Option Text) (step : ℕ) (e : OutboxEvent)
    → is_unsendable e ≡ false
    → publish write_messages step e ≡ wrapped (write_messages step (message_of e))
unfolding publish
publish_sendable write_messages step e h = ground arith

-- Where every event of the outbox has a topic and a key, it is so after a notification has been put
-- there, with any context, and after any number of rounds of the worker, however each of them ends:
-- the publisher answers for each event what the writer of Kafka does, and refuses none itself.
pub event_is_written :
    (c : Ctx) (topic : Text) (event : NotificationEvent) (k : Worker) (n : ℕ)
    (write_messages : ℕ → Message → Option Text) (step : ℕ) (q : OutboxEvent → Bool)
    (e : OutboxEvent) (w : World)
    → Sendable w.base
    → Sendable w.tx
    → let created = (create_notification_outbox_event c topic event w).1 in
      first q (run k n created).1.base.outbox_events ≡ some e
      → publish write_messages step e ≡ wrapped (write_messages step (message_of e))
event_is_written c topic event k n write_messages step q e w base tx found =
    let created = (create_notification-Keeps c topic event).at w (base, tx) in
    publish_sendable write_messages step e
      (first_is_sendable q _ e ((run-Keeps k n).at _ created).0 found)
