-- ===== src/App/Lifecycle.antt =====
-- Run and Shutdown of internal/app/run.go. The two servers and the outbox worker run beside each
-- other, and each sends its result once to a channel of three places; what Run waits for is a step
-- relation. A server may end at any time with any result; the worker goes round the select of its Run.
pub mod Ends
use portal_backend.Prelude.{
  ℕ, ◌+◌, Bool, true, false, ◌≡◌, List, [], ◌∷◌, ◌++◌, Option, none, some, if◌then◌else◌,
}

pub data Part : Type 0 where
  grpc_server http_server outbox_worker : Part

-- http.ErrServerClosed, or another error
pub data RunError : Type 0 where
  server_closed other_error : RunError

pub record Running : Type 0 where
  pub signalled : Bool
  pub grpc_runs : Bool
  pub http_runs : Bool
  pub worker_runs : Bool
  pub sent : List (Part × Option RunError)  -- errCh

-- what Run starts
abbrev pub started : Running
started = record {
  signalled = false;
  grpc_runs = true;
  http_runs = true;
  worker_runs = true;
  sent = [];
}

abbrev pub runs : Running → Part → Bool
runs s grpc_server = s.grpc_runs
runs s http_server = s.http_runs
runs s outbox_worker = s.worker_runs

abbrev pub stopped : Part → Running → Running
stopped grpc_server s = record s { grpc_runs = false }
stopped http_server s = record s { http_runs = false }
stopped outbox_worker s = record s { worker_runs = false }

abbrev pub send : Part → Option RunError → Running → Running
send part result s = record (stopped part s) { sent = s.sent ++ (part, result) ∷ [] }

abbrev pub is_server : Part → Bool
is_server outbox_worker = false
is_server _ = true

-- what wakes the select of the worker's Run in internal/worker/worker.go: the end of its context, or a
-- tick, with how publishPending ends
pub data Wake : Type 0 where
  cancelled : Wake
  ticked : Option RunError → Wake

-- the context of the worker is that of the signal
abbrev pub can_wake : Running → Wake → Bool
can_wake s cancelled = s.signalled
can_wake s (ticked result) = true

-- an error of a round is logged, and the loop goes on
abbrev pub loop_turn : Wake → Running → Running
loop_turn cancelled s = send outbox_worker none s
loop_turn (ticked result) s = s

pub data Step : Running → Running → Type 0 where
  signal : (s : Running) → Step s (record s { signalled = true })
  server_ends :
      (s : Running) (part : Part) (result : Option RunError)
      → is_server part ≡ true
      → runs s part ≡ true
      → Step s (send part result s)
  worker_wakes :
      (s : Running) (wake : Wake)
      → can_wake s wake ≡ true
      → s.worker_runs ≡ true
      → Step s (loop_turn wake s)

-- what may come of the start while Run waits
pub data Reachable : Running → Type 0 where
  at_start : Reachable started
  after : (s t : Running) → Reachable s → Step s t → Reachable t

-- The cases of the select that are ready. Where both are, either may be taken.
pub data Ready (s : Running) : Type 0 where
  done : s.signalled ≡ true → Ready s
  received :
      (part : Part) (result : Option RunError) (rest : List (Part × Option RunError))
      → s.sent ≡ (part, result) ∷ rest
      → Ready s

-- how Run ends: by Shutdown, or it returns at once
pub data End : Type 0 where
  by_shutdown : End
  returned : Option RunError → End

-- errors.Is(err, http.ErrServerClosed)
abbrev pub without_closed : Option RunError → Option RunError
without_closed (some server_closed) = none
without_closed result = result

unfoldable pub end_of : (s : Running) → Ready s → End
end_of s (done h) = by_shutdown
end_of s (received part result rest h) = returned (without_closed result)

-- How a whole Run may end, where NewGatewayMux answers with this error or none: with that error before
-- anything is started, or by the select, with or without a signal that has come by then.
pub data RunEnds (gateway : Option RunError) (signalled : Bool) (e : End) : Type 0 where
  refused : (x : RunError) → gateway ≡ some x → e ≡ returned (some x) → RunEnds gateway signalled e
  selected :
      (s : Running) (c : Ready s)
      → gateway ≡ none
      → Reachable s
      → s.signalled ≡ signalled
      → e ≡ end_of s c
      → RunEnds gateway signalled e

-- what Shutdown calls, in order
pub data Call : Type 0 where
  graceful_stop forced_stop http_shutdown : Call

-- Shutdown: the gRPC server is stopped by force where the graceful stop takes too long, then the
-- HTTP server is shut down, and its error returned
unfoldable pub shutdown : Bool → Option RunError → List Call × Option RunError
shutdown in_time http_error =
    if in_time
    then (graceful_stop ∷ http_shutdown ∷ [], http_error)
    else (graceful_stop ∷ forced_stop ∷ http_shutdown ∷ [], http_error)
