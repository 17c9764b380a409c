-- ===== src/Repo/Outbox.antt =====
-- internal/repository/impl/outbox_repository.go
use portal_backend.Prelude.{
  ℕ, ℤ, pos, negsuc, Bool, true, false, not, ◌&&◌, ◌||◌, List, ◌∷◌, ◌++◌, [], Option, none, some,
  any, select, take, update_where, leb, ◌==◌, if◌then◌else◌,
}
use portal_backend.Text.{Text}
use portal_backend.Model.{
  OutboxEvent, OutboxStatus, status_pending, status_publishing, status_retry_scheduled,
  status_published, status_dead_letter,
}
use portal_backend.World.{ok, err, M, Ctx, moment, query, write}
use portal_backend.Errors.{driver}

-- a limit of 0 is stored as the column's default
unfoldable pub stored : ℕ → OutboxEvent → OutboxEvent
stored now e = record e {
  max_retry = if e.max_retry == 0 then 10 else e.max_retry;
  created_at = now;
}

unfoldable pub create : Ctx → OutboxEvent → M (Unit {0})
unfolding stored
create c e =
    write c (λ w db. ok tt)
      (λ w db. record db { outbox_events = db.outbox_events ++ stored (moment w) e ∷ [] })

-- WHERE status IN (pending, retry_scheduled)
abbrev pub is_claimable : OutboxStatus → Bool
is_claimable status_pending = true
is_claimable status_retry_scheduled = true
is_claimable _ = false

abbrev pub is_publishing : OutboxStatus → Bool
is_publishing status_publishing = true
is_publishing _ = false

-- next_retry_at IS NULL OR next_retry_at <= now
abbrev pub is_due_at : Option ℕ → ℕ → Bool
is_due_at none now = true
is_due_at (some t) now = leb t now

unfoldable pub is_due : ℕ → OutboxEvent → Bool
is_due now e = is_claimable e.status && is_due_at e.next_retry_at now

-- ORDER BY created_at: insertion into a list that is sorted by it
abbrev pub insert_by_age : OutboxEvent → List OutboxEvent → List OutboxEvent
insert_by_age e [] = e ∷ []
insert_by_age e (f ∷ fs) =
    if leb e.created_at f.created_at then e ∷ f ∷ fs else f ∷ insert_by_age e fs

unfoldable pub by_age : List OutboxEvent → List OutboxEvent
by_age [] = []
by_age (e ∷ es) = insert_by_age e (by_age es)

-- Limit: gorm writes no limit for a negative one.
abbrev pub limited : {A : Type 0} → ℤ → List A → List A
limited (pos n) es = take n es
limited (negsuc n) es = es

-- The rows that another worker has locked are skipped (SKIP LOCKED): `locked` are their ids.
unfoldable pub list_pending_for_update : Ctx → (OutboxEvent → Bool) → ℤ → M (List OutboxEvent)
unfolding is_due by_age
list_pending_for_update c locked limit = query c (λ w db.
    ok (
      limited limit
        (by_age (select (λ e. is_due (moment w) e && not (locked e)) db.outbox_events))))

abbrev pub mem_id : ℕ → List ℕ → Bool
mem_id i [] = false
mem_id i (j ∷ js) = i == j || mem_id i js

unfoldable pub claim_row : ℕ → Text → OutboxEvent → OutboxEvent
claim_row now worker e = record e {
  status = status_publishing;
  claimed_at = some now;
  claimed_by = some worker;
}

unfoldable pub mark_publishing : Ctx → List ℕ → Text → M (Unit {0})
unfolding claim_row
mark_publishing c ids worker =
    write c (λ w db. ok tt)
      (λ w db. record db {
        outbox_events =
            update_where (λ e. mem_id e.id ids && is_claimable e.status)
              (claim_row (moment w) worker) db.outbox_events;
      })

abbrev pub is_in_flight : ℕ → OutboxEvent → Bool
is_in_flight i e = e.id == i && is_publishing e.status

unfoldable pub published_row : ℕ → OutboxEvent → OutboxEvent
published_row now e = record e {
  status = status_published;
  published_at = some now;
  last_error = none;
  next_retry_at = none;
  claimed_at = none;
  claimed_by = none;
}

-- no row affected is no error
unfoldable pub mark_published : Ctx → ℕ → M (Unit {0})
unfolding published_row
mark_published c i =
    write c (λ w db. ok tt)
      (λ w db. record db {
        outbox_events = update_where (is_in_flight i) (published_row (moment w)) db.outbox_events;
      })

unfoldable pub retry_row : ℕ → Text → ℕ → OutboxEvent → OutboxEvent
retry_row count error next e = record e {
  status = status_retry_scheduled;
  retry_count = count;
  last_error = some error;
  next_retry_at = some next;
  claimed_at = none;
  claimed_by = none;
}

unfoldable pub mark_retry_scheduled : Ctx → ℕ → ℕ → Text → ℕ → M (Unit {0})
unfolding retry_row
mark_retry_scheduled c i count error next =
    write c (λ w db. ok tt)
      (λ w db. record db {
        outbox_events = update_where (is_in_flight i) (retry_row count error next) db.outbox_events;
      })

unfoldable pub dead_row : Text → OutboxEvent → OutboxEvent
dead_row error e = record e {
  status = status_dead_letter;
  last_error = some error;
  next_retry_at = none;
  claimed_at = none;
  claimed_by = none;
}

-- no row affected is gorm.ErrRecordNotFound here, an error of the driver's package
unfoldable pub mark_dead_letter : Ctx → ℕ → Text → M (Unit {0})
unfolding dead_row
mark_dead_letter c i error =
    write c (λ w db. if any (is_in_flight i) db.outbox_events then ok tt else err driver)
      (λ w db. record db {
        outbox_events = update_where (is_in_flight i) (dead_row error) db.outbox_events;
      })
