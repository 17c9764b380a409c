-- ===== src/Cdc/Replay/Rules.antt =====
-- Replaying changes, and a run of the consumer over a handler that makes them.
use portal_backend.Prelude.{
  Bool, true, false, not, ◌||◌, List, [], ◌∷◌, Option, none, some, is_none, ◌≡◌, refl, ◌∙◌, sym, ap,
  arith, Bool-cases, split_and, is_none_sound, inl, inr, ◌⊎◌,
}
use portal_backend.Text.{Text}
use portal_backend.Cdc.Indexer.{Act}
use portal_backend.Cdc.Consumer.{
  Message, Fetch, fetched, fetch_error, stopped, Consumer, run, on_message, after_handle,
}
use portal_backend.Cdc.Replay.{
  Change, keep, put, remove, View, apply, touches, replay, changes, settled,
}

-- A view counts at an id only by its value there.
apply_at : (c : Change) (v w : View) (id : Text) → v id ≡ w id → apply c v id ≡ apply c w id
apply_at keep v w id h = h
apply_at (put i body) v w id h = ground (arith, h)
apply_at (remove i) v w id h = ground (arith, h)

pub replay_at :
    (cs : List Change) (v w : View) (id : Text) → v id ≡ w id → replay cs v id ≡ replay cs w id
replay_at [] v w id h = h
replay_at (c ∷ cs) v w id h = replay_at cs (apply c v) (apply c w) id (apply_at c v w id h)

pub apply_untouched :
    (c : Change) (v : View) (id : Text) → touches c id ≡ false → apply c v id ≡ v id
apply_untouched keep v id h = refl
apply_untouched (put i body) v id h = ground (arith, h)
apply_untouched (remove i) v id h = ground (arith, h)

-- What a change that touches an id leaves there does not depend on what was there.
apply_touched :
    (c : Change) (v w : View) (id : Text) → touches c id ≡ true → apply c v id ≡ apply c w id
apply_touched keep v w id h = ground (arith, h)
apply_touched (put i body) v w id h = ground (arith, h)
apply_touched (remove i) v w id h = ground (arith, h)

-- Either the changes leave an id alone, or they leave the same there whatever was there.
replay_absolute :
    (cs : List Change) (id : Text)
    → ((v : View) → replay cs v id ≡ v id) ⊎ ((v w : View) → replay cs v id ≡ replay cs w id)
replay_absolute [] id = inl (λ v. refl)
replay_absolute (c ∷ cs) id = elim (replay_absolute cs id) [
  | inr same ↦ inr (λ v w. same (apply c v) (apply c w))
  | inl alone ↦ elim (Bool-cases (touches c id)) [
    | inl touched ↦
        inr (λ v w. alone (apply c v) ∙ apply_touched c v w id touched ∙ sym (alone (apply c w)))
    | inr no_touch ↦ inl (λ v. alone (apply c v) ∙ apply_untouched c v id no_touch)
  ]
]

-- Replaying the changes once more changes nothing.
pub replay_again :
    (cs : List Change) (v : View) (id : Text) → replay cs (replay cs v) id ≡ replay cs v id
replay_again cs v id = elim (replay_absolute cs id) [
  | inl alone ↦ alone (replay cs v)
  | inr same ↦ same (replay cs v) v
]

-- A handled message does to a document what its change says, if it is handled without an error or
-- does not concern the document.
pub record Effects {S : Type 0} (get : S → View) (change : Message → Change)
    (handle : Text → Text → Act S) : Type 0 where
  pub done :
      (m : Message) (s : S) (id : Text)
      → (handle m.topic m.value s).0 ≡ none
      → get (handle m.topic m.value s).1 id ≡ apply (change m) (get s) id
  pub other :
      (m : Message) (s : S) (id : Text)
      → touches (change m) id ≡ false
      → get (handle m.topic m.value s).1 id ≡ get s id

module _ {S : Type 0} (get : S → View) (change : Message → Change) (handle : Text → Text → Act S)
    (e : Effects get change handle) where
  store_of_message :
      (m : Message) (commits : Bool) (c : Consumer S)
      → (on_message handle m commits c).store ≡ (handle m.topic m.value c.store).1
  unfolding on_message
  store_of_message m commits c = after_store (handle m.topic m.value c.store)
    where
      after_store : (x : Option Text × S) → (after_handle handle m commits c x).store ≡ x.1
      after_store (none, s) = refl
      after_store (some e, s) = refl

  message_applies :
      (m : Message) (commits : Bool) (c : Consumer S) (id : Text)
      → (not (touches (change m) id) || is_none (handle m.topic m.value c.store).0) ≡ true
      → get (on_message handle m commits c).store id ≡ apply (change m) (get c.store) id
  message_applies m commits c id h =
      ap (λ s. get s id) (store_of_message m commits c)
      ∙ elim (Bool-cases (touches (change m) id)) [
        | inl touched ↦ e.done m c.store id (is_none_sound _ (settles touched))
        | inr apart ↦
            e.other m c.store id apart ∙ sym (apply_untouched (change m) (get c.store) id apart)
      ]
    where
      settles : touches (change m) id ≡ true → is_none (handle m.topic m.value c.store).0 ≡ true
      settles touched = ground (arith, h, touched)

  pub run_replays :
      (id : Text) (inputs : List Fetch) (c : Consumer S)
      → settled handle change id inputs c ≡ true
      → get (run handle inputs c).store id ≡ replay (changes change inputs) (get c.store) id
  unfolding run settled
  run_replays id [] c h = refl
  run_replays id (stopped ∷ inputs) c h = refl
  run_replays id (fetch_error ∷ inputs) c h = run_replays id inputs c h
  run_replays id (fetched m commits ∷ inputs) c h =
      let both = split_and _ _ h in
      run_replays id inputs (on_message handle m commits c) both.1
      ∙ replay_at (changes change inputs) _ _ id (message_applies m commits c id both.0)
