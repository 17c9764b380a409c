-- ===== src/App/Lifecycle/Ends.antt =====
-- How Run may end.
use portal_backend.Prelude.{
  ℕ, suc, ◌+◌, ◌≡◌, refl, Bool, true, not, ◌||◌, List, [], ◌∷◌, ◌++◌, Option, none, some, length,
  any, any-append_one, arith, if◌then◌else◌,
}
use portal_backend.App.Lifecycle.{
  Part, grpc_server, http_server, outbox_worker, RunError, End, Running, send, is_server, Step,
  signal, server_ends, worker_wakes, cancelled, ticked, Reachable, at_start, after, Ready, received,
  returned, without_closed, end_of,
}

abbrev pub one_if : Bool → ℕ
one_if b = if b then 1 else 0

-- The parts that run.
abbrev pub running : Running → ℕ
running s = one_if s.grpc_runs + one_if s.http_runs + one_if s.worker_runs

-- Each part has sent its result or runs, and without a signal no result is the worker's.
abbrev pub Sent : Running → Type 0
Sent s =
    (length s.sent + running s ≡ 3)
    × ((s.signalled || not (any (λ m. not (is_server m.0)) s.sent)) ≡ true)

length-append_one : {A : Type 0} (xs : List A) (a : A) → length (xs ++ a ∷ []) ≡ suc (length xs)
length-append_one [] a = refl
length-append_one (x ∷ xs) a = ground (arith, length-append_one xs a)

Step-Sent : (s t : Running) → Step s t → Sent s → Sent t
Step-Sent s t (signal s') h = (h.0, refl)
Step-Sent s t (server_ends s' grpc_server result server there) h = ground (
  arith,
  length-append_one s.sent (grpc_server, result),
  any-append_one (λ m. not (is_server m.0)) s.sent (grpc_server, result),
)
Step-Sent s t (server_ends s' http_server result server there) h = ground (
  arith,
  length-append_one s.sent (http_server, result),
  any-append_one (λ m. not (is_server m.0)) s.sent (http_server, result),
)
Step-Sent s t (server_ends s' outbox_worker result server there) h = ground arith
Step-Sent s t (worker_wakes s' cancelled signalled there) h =
    ground (arith, length-append_one s.sent (outbox_worker, none))
Step-Sent s t (worker_wakes s' (ticked result) ready there) h = h

-- Whatever happens while Run waits, the results that are sent and the parts that run are three
-- together, so no send waits for a place in the channel of three; and without a signal no result is
-- the worker's.
pub results_fit : (s : Running) → Reachable s → Sent s
results_fit s at_start = (refl, refl)
results_fit s (after r t before step) = Step-Sent r s step (results_fit r before)

-- Nothing was started, and the error of NewGatewayMux is returned.
abbrev pub EndsUnstarted : Option RunError → End → Type 0
EndsUnstarted gateway e = (x : RunError) × (gateway ≡ some x) × (e ≡ returned (some x))

-- The first result that was sent is a server's, and it is returned.
abbrev pub EndsWithServer : End → Type 0
EndsWithServer e =
    (s : Running) × Reachable s
    × (part : Part) × (result : Option RunError) × (rest : List (Part × Option RunError)) × (s.sent
        ≡ (part, result) ∷ rest)
    × (is_server part ≡ true)
    × (e ≡ returned (without_closed result))

-- After the signal, as long as nothing is sent, the worker may end and its result be taken before the
-- signal is seen: then Run returns without an error, and without Shutdown.
pub signal_may_skip_shutdown :
    (s : Running)
    → s.signalled ≡ true
    → s.worker_runs ≡ true
    → s.sent ≡ []
    → (t : Running) × Step s t × (c : Ready t) × (end_of t c ≡ returned none)
unfolding end_of
signal_may_skip_shutdown s signalled there empty = (
  send outbox_worker none s,
  worker_wakes s cancelled signalled there,
  received outbox_worker none [] (rw empty refl),
  refl,
)
