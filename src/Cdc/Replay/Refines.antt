-- ===== src/Cdc/Replay/Refines.antt =====
-- The handlers of the router where they return without an error, and the changes of the messages.
use portal_backend.Prelude.{
  Bool, true, false, Option, none, some, ◌≡◌, refl, arith, if◌then◌else◌, Bool-cases, inl, inr,
}
use portal_backend.Text.{Text, text_eq, is_empty}
use portal_backend.Cdc.Json.{Fields}
use portal_backend.Cdc.Documents.{UserDocument}
use portal_backend.Cdc.Indexer
use portal_backend.Cdc.Indexer.{
  Cluster, Act, Reply, no_answer, answered, succeeded, is_gone, is_error,
}
use portal_backend.Cdc.Handlers
use portal_backend.Cdc.Handlers.{Codec, DebeziumEvent}
use portal_backend.Cdc.Replay.{
  Change, keep, put, remove, View, apply, touches, stored, user_put, user_upsert, audit_upsert,
  removal, change_of_event,
}

-- What an action has done to the documents, in view of a change.
pub record Makes {S : Type 0} (get : S → View) (change : Change) (s : S) (x : Option Text × S)
    : Type 0 where
  pub made : (id : Text) → x.0 ≡ none → get x.1 id ≡ apply change (get s) id
  pub apart : (id : Text) → touches change id ≡ false → get x.1 id ≡ get s id

module _ {S : Type 0} (c : Cluster S) where
  Makes-keep : (s : S) (e : Option Text) → Makes c.get keep s (e, s)
  Makes-keep s e = record { made = λ id h. refl; apart = λ id h. refl }

  Makes-if :
      (b : Bool) (s : S) (ch : Change) (x : Option Text × S)
      → Makes c.get ch s x
      → Makes c.get (if b then keep else ch) s (if b then (none, s) else x)
  Makes-if true s ch x h = Makes-keep s none
  Makes-if false s ch x h = h

  index_done : (a b : Text) (r : Reply) → Indexer.index_error c a b r ≡ none → succeeded r ≡ true
  index_done a b no_answer h = cc
  index_done a b (answered n) h = ground (arith, h)

  delete_done : (a b : Text) (r : Reply) → Indexer.delete_error c a b r ≡ none → is_gone r ≡ true
  delete_done a b no_answer h = cc
  delete_done a b (answered n) h = ground (arith, h)

  index_body-Makes :
      (m a b id body : Text) (s : S)
      → Makes c.get (put id body) s (Indexer.index_body c m a b id (some body) s)
  unfolding Indexer.index_body
  index_body-Makes m a b id body s = record {
    made = λ other h. elim (Bool-cases (text_eq id other)) [
      | inl same ↦ ground (
        arith,
        same,
        c.index_stores id body s (index_done a b (c.index id body s).0 h) other same,
      )
      | inr apart ↦ ground (arith, apart, c.index_keeps id body s other apart)
    ];
    apart = λ other h. c.index_keeps id body s other h;
  }

  delete_id-Makes :
      (a b id : Text) (s : S) → Makes c.get (remove id) s (Indexer.delete_id c a b id s)
  unfolding Indexer.delete_id
  delete_id-Makes a b id s = record {
    made = λ other h. elim (Bool-cases (text_eq id other)) [
      | inl same ↦
          ground
            (arith, same, c.delete_removes id s (delete_done a b (c.delete id s).0 h) other same)
      | inr apart ↦ ground (arith, apart, c.delete_keeps id s other apart)
    ];
    apart = λ other h. c.delete_keeps id s other h;
  }

  wrapped-Makes :
      (k : Codec) (words : Text) (ch : Change) (s : S) (x : Option Text × S)
      → Makes c.get ch s x
      → Makes c.get ch s (Handlers.wrapped k c words x)
  wrapped-Makes k words ch s (none, s') h = h
  wrapped-Makes k words ch s (some e, s') h = record { made = λ id w. cc; apart = h.apart }

  stored-Makes :
      (m a b id : Text) (body : Option Text) (s : S)
      → Makes c.get (stored id body) s (Indexer.index_body c m a b id body s)
  unfolding Indexer.index_body
  stored-Makes m a b id none s = Makes-keep s (some m)
  stored-Makes m a b id (some body) s = index_body-Makes m a b id body s

  module _ (k : Codec) where
    user_put-Makes :
        (doc : Option UserDocument) (s : S)
        → Makes c.get (user_put k doc) s (Handlers.upsert_user_document k c doc s)
    unfolding Indexer.index_user
    user_put-Makes none s = Makes-keep s _
    user_put-Makes (some doc) s =
        Makes-if (is_empty doc.id) s _ _
          (wrapped-Makes k _ _ s _ (stored-Makes _ _ _ doc.id (k.marshal_user doc) s))

    user_upsert-Makes :
        (after : Option Fields) (s : S)
        → Makes c.get (user_upsert k after) s (Handlers.handle_user_upsert k c after s)
    unfolding Handlers.handle_user_upsert
    user_upsert-Makes none s = Makes-keep s none
    user_upsert-Makes (some after) s = user_put-Makes _ s

    user_delete-Makes :
        (before : Option Fields) (s : S)
        → Makes c.get (removal before) s (Handlers.handle_user_delete k c before s)
    unfolding Handlers.handle_user_delete Indexer.delete_user
    user_delete-Makes none s = Makes-keep s none
    user_delete-Makes (some before) s =
        Makes-if _ s _ _ (wrapped-Makes k _ _ s _ (delete_id-Makes _ _ _ s))

    audit_upsert-Makes :
        (after : Option Fields) (s : S)
        → Makes c.get (audit_upsert k after) s (Handlers.handle_audit_upsert k c after s)
    unfolding Handlers.handle_audit_upsert Indexer.index_audit_log
    audit_upsert-Makes none s = Makes-keep s none
    audit_upsert-Makes (some after) s = Makes-if _ s _ _ (stored-Makes _ _ _ _ _ s)

    audit_delete-Makes :
        (before : Option Fields) (s : S)
        → Makes c.get (removal before) s (Handlers.handle_audit_delete k c before s)
    unfolding Handlers.handle_audit_delete Indexer.delete_audit_log
    audit_delete-Makes none s = Makes-keep s none
    audit_delete-Makes (some before) s = Makes-if _ s _ _ (delete_id-Makes _ _ _ s)

  -- the switch on the operation
  switch-Makes :
      (up down : Bool) (ch ch' : Change) (s : S) (x y : Option Text × S)
      → Makes c.get ch s x
      → Makes c.get ch' s y
      → Makes c.get
          (if up then ch else if down then ch' else keep)
          s
          (if up then x else if down then y else (none, s))
  switch-Makes true down ch ch' s x y h h' = h
  switch-Makes false true ch ch' s x y h h' = h'
  switch-Makes false false ch ch' s x y h h' = Makes-keep s none

  pub user_event-Makes :
      (k : Codec) (e : Option DebeziumEvent) (s : S)
      → Makes c.get (change_of_event (user_upsert k) e) s (Handlers.on_user_event k c e s)
  user_event-Makes k none s = Makes-keep s _
  user_event-Makes k (some e) s =
      switch-Makes _ _ _ _ s _ _ (user_upsert-Makes k e.after s) (user_delete-Makes k e.before s)

  pub audit_event-Makes :
      (k : Codec) (e : Option DebeziumEvent) (s : S)
      → Makes c.get (change_of_event (audit_upsert k) e) s (Handlers.on_audit_event k c e s)
  audit_event-Makes k none s = Makes-keep s _
  audit_event-Makes k (some e) s =
      switch-Makes _ _ _ _ s _ _ (audit_upsert-Makes k e.after s) (audit_delete-Makes k e.before s)
