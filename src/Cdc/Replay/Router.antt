-- ===== src/Cdc/Replay/Router.antt =====
-- A run of the consumer of internal/infrastructure/cdc, and the replay of what its messages mean.
use portal_backend.Prelude.{
  Bool, true, false, List, Option, some, ◌≡◌, refl, ◌∙◌, sym, if◌then◌else◌,
}
use portal_backend.Text.{Text, text_eq}
use portal_backend.Cdc.Indexer.{Cluster, Act}
use portal_backend.Cdc.Handlers
use portal_backend.Cdc.Handlers.{Codec, DebeziumEvent}
use portal_backend.Cdc.Consumer.{Message, Fetch, Consumer, run}
use portal_backend.Cdc.Replay.{
  Change, keep, View, replay, changes, settled, change_on, user_change, audit_change,
}
use portal_backend.Cdc.Replay.Rules.{Effects, run_replays, replay_again, replay_at}
use portal_backend.Cdc.Replay.Refines.{Makes, user_event-Makes, audit_event-Makes}
use portal_backend.Cdc.Handlers.{unsupported, on_first, on_second}

module _ {S : Type 0} (get : S → View) where
  routed-Makes :
      (first second : Bool) (ch ch' : Change) (e : Text) (s : S) (x y : Option Text × S)
      → Makes get ch s x
      → Makes get ch' s y
      → Makes get
          (if first then ch else if second then ch' else keep)
          s
          (if first then x else if second then y else (some e, s))
  routed-Makes true second ch ch' e s x y h h' = h
  routed-Makes false true ch ch' e s x y h h' = h'
  routed-Makes false false ch ch' e s x y h h' = record { made = λ id w. cc; apart = λ id w. refl }

module _ {S T : Type 0} (k : Codec) (users : Cluster S) (audit_logs : Cluster T)
    (user_topic audit_topic : Text) where
  abbrev pub router : Text → Text → Act (S × T)
  router = Handlers.new_router k users audit_logs user_topic audit_topic

  -- what a message means for the users' documents, and for those of the audit log
  abbrev pub user_message : Message → Change
  user_message = change_on audit_topic user_topic (λ value. keep) (user_change k)

  abbrev pub audit_message : Message → Change
  audit_message = change_on audit_topic user_topic (audit_change k) (λ value. keep)

  abbrev pub users_of : S × T → View
  users_of s = users.get s.0

  abbrev pub audit_logs_of : S × T → View
  audit_logs_of s = audit_logs.get s.1

  user_message-Makes :
      (m : Message) (s : S × T) → Makes users_of (user_message m) s (router m.topic m.value s)
  unfolding Handlers.new_router Handlers.route Handlers.handle_user_event
      Handlers.handle_audit_event
  user_message-Makes m s =
      let h = user_event-Makes users k (k.unmarshal m.value) s.0 in
      routed-Makes users_of (text_eq audit_topic m.topic) (text_eq user_topic m.topic) keep
        (user_change k m.value) unsupported s
        (on_second (Handlers.on_audit_event k audit_logs (k.unmarshal m.value)) s)
        (on_first (Handlers.on_user_event k users (k.unmarshal m.value)) s)
        (record { made = λ id w. refl; apart = λ id w. refl })
        (record { made = h.made; apart = h.apart })

  audit_message-Makes :
      (m : Message) (s : S × T) → Makes audit_logs_of (audit_message m) s (router m.topic m.value s)
  unfolding Handlers.new_router Handlers.route Handlers.handle_user_event
      Handlers.handle_audit_event
  audit_message-Makes m s =
      let h = audit_event-Makes audit_logs k (k.unmarshal m.value) s.1 in
      routed-Makes audit_logs_of (text_eq audit_topic m.topic) (text_eq user_topic m.topic)
        (audit_change k m.value) keep unsupported s
        (on_second (Handlers.on_audit_event k audit_logs (k.unmarshal m.value)) s)
        (on_first (Handlers.on_user_event k users (k.unmarshal m.value)) s)
        (record { made = h.made; apart = h.apart })
        (record { made = λ id w. refl; apart = λ id w. refl })

  user-Effects : Effects users_of user_message router
  user-Effects = record {
    done = λ m s id h. (user_message-Makes m s).made id h;
    other = λ m s id h. (user_message-Makes m s).apart id h;
  }

  audit-Effects : Effects audit_logs_of audit_message router
  audit-Effects = record {
    done = λ m s id h. (audit_message-Makes m s).made id h;
    other = λ m s id h. (audit_message-Makes m s).apart id h;
  }

  -- After a run of the consumer the document of a user is what replaying the changes of the messages
  -- makes of it, if each message that changes it was handled without an error.
  pub users_are_replayed :
      (id : Text) (inputs : List Fetch) (c : Consumer (S × T))
      → settled router user_message id inputs c ≡ true
      → users_of (run router inputs c).store id
        ≡ replay (changes user_message inputs) (users_of c.store) id
  users_are_replayed = run_replays users_of user_message router user-Effects

  -- After a run of the consumer the document of an audit log is what replaying the changes of the
  -- messages makes of it, if each message that changes it was handled without an error.
  pub audit_logs_are_replayed :
      (id : Text) (inputs : List Fetch) (c : Consumer (S × T))
      → settled router audit_message id inputs c ≡ true
      → audit_logs_of (run router inputs c).store id
        ≡ replay (changes audit_message inputs) (audit_logs_of c.store) id
  audit_logs_are_replayed = run_replays audit_logs_of audit_message router audit-Effects

  -- A user's document is the same after its messages are delivered once more in their order, if each
  -- message that changes it is handled without an error both times.
  pub redelivery_keeps_users :
      (id : Text) (inputs : List Fetch) (c : Consumer (S × T))
      → settled router user_message id inputs c ≡ true
      → settled router user_message id inputs (run router inputs c) ≡ true
      → users_of (run router inputs (run router inputs c)).store id
        ≡ users_of (run router inputs c).store id
  redelivery_keeps_users id inputs c once twice =
      users_are_replayed id inputs (run router inputs c) twice
      ∙ replay_at cs _ _ id (users_are_replayed id inputs c once)
      ∙ replay_again cs (users_of c.store) id
      ∙ sym (users_are_replayed id inputs c once)
    where
      cs : List Change
      cs = changes user_message inputs
