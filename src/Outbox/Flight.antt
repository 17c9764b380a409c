-- ===== src/Outbox/Flight.antt =====
-- What the mark after a publication makes of an event, where no effect fails.
use portal_backend.Prelude.{
  ℕ, suc, ◌+◌, ◌≡◌, refl, Bool, true, false, not, ◌&&◌, List, [], ◌∷◌, Option, none, some, is_some,
  any, update_where, leb, ◌==◌, arith, Bool-cases, inl, inr, if◌then◌else◌,
}
use portal_backend.Text.{Text}
use portal_backend.Model.{
  OutboxEvent, OutboxStatus, status_published, status_retry_scheduled, status_dead_letter,
}
use portal_backend.World.{World, write, ask, log_err, ◌>>=◌}
use portal_backend.Repo.Outbox
use portal_backend.Repo.Outbox.{is_in_flight, is_publishing}
use portal_backend.Outbox.Worker.{Worker, limit_of, handle_publish_failed, after_publish}

abbrev is_published : OutboxStatus → Bool
is_published status_published = true
is_published _ = false

abbrev is_scheduled : OutboxStatus → Bool
is_scheduled status_retry_scheduled = true
is_scheduled _ = false

abbrev is_dead : OutboxStatus → Bool
is_dead status_dead_letter = true
is_dead _ = false

-- What a row of the event is to be after the publisher's answer: published, with the time; or with the
-- error, a dead letter after the last attempt, and before it scheduled, with one attempt more.
abbrev pub is_settled : Worker → OutboxEvent → Option Text → OutboxEvent → Bool
is_settled k e none r = is_published r.status && is_some r.published_at
is_settled k e (some error) r =
    is_some r.last_error
    && (if leb (limit_of k e) (e.retry_count + 1)
        then is_dead r.status
        else is_scheduled r.status && r.retry_count == e.retry_count + 1 && is_some r.next_retry_at)

-- Some row of the id passes the test, and none fails it.
abbrev pub AreAll : ℕ → (OutboxEvent → Bool) → List OutboxEvent → Type 0
AreAll i q es =
    (any (λ r. r.id == i && q r) es ≡ true) × (any (λ r. r.id == i && not (q r)) es ≡ false)

module _ (i : ℕ) (q : OutboxEvent → Bool) (f : OutboxEvent → OutboxEvent)
    (same : (r : OutboxEvent) → ((f r).id == i) ≡ (r.id == i))
    (good : (r : OutboxEvent) → q (f r) ≡ true) where
  none_fails :
      (es : List OutboxEvent)
      → any (λ r. r.id == i && not (is_publishing r.status)) es ≡ false
      → any (λ r. r.id == i && not (q r)) (update_where (is_in_flight i) f es) ≡ false
  none_fails [] h = refl
  none_fails (r ∷ es) h = elim (Bool-cases (is_in_flight i r)) [
    | inl flies ↦ rw (flies, good r, same r) (ground (arith, none_fails es))
    | inr stays ↦ rw stays (ground (arith, none_fails es))
  ]

  some_passes :
      (es : List OutboxEvent)
      → any (λ r. r.id == i && is_publishing r.status) es ≡ true
      → any (λ r. r.id == i && q r) (update_where (is_in_flight i) f es) ≡ true
  some_passes [] h = h
  some_passes (r ∷ es) h = elim (Bool-cases (is_in_flight i r)) [
    | inl flies ↦ rw (flies, good r, same r) (ground (arith, flies))
    | inr stays ↦ rw stays (ground (arith, some_passes es))
  ]

  settle_all :
      (es : List OutboxEvent)
      → AreAll i (λ r. is_publishing r.status) es
      → AreAll i q (update_where (is_in_flight i) f es)
  settle_all es h = (some_passes es h.0, none_fails es h.1)

-- Where no effect fails and each row of the event's id is in flight, each is settled by the mark that
-- follows the publisher's answer: published, a dead letter, or scheduled with one attempt more, as the
-- answer and the limit say.
pub after_publish_settles :
    (k : Worker) (e : OutboxEvent) (answer : Option Text) (w : World)
    → ((n : ℕ) → w.env.fault n ≡ false)
    → AreAll e.id (λ r. is_publishing r.status) w.base.outbox_events
    → AreAll e.id (is_settled k e answer) (after_publish k e answer w).1.base.outbox_events
unfolding after_publish handle_publish_failed Outbox.mark_published Outbox.mark_dead_letter
    Outbox.mark_retry_scheduled Outbox.published_row Outbox.dead_row Outbox.retry_row write ask
    log_err ◌>>=◌
after_publish_settles k e none w h fly =
    rw (h w.step) (settle_all e.id _ _ (λ r. refl) (λ r. refl) w.base.outbox_events fly)
after_publish_settles k e (some error) w h fly =
    elim (Bool-cases (leb (limit_of k e) (e.retry_count + 1))) [
      | inl b ↦
          rw (b, h w.step, fly.0)
            (settle_all e.id _ _ (λ r. refl) (λ r. refl) w.base.outbox_events fly)
      | inr b ↦
          rw (b, h (suc w.step))
            (settle_all e.id _ _ (λ r. refl) (λ r. ground arith) w.base.outbox_events fly)
    ]
