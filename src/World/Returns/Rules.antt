-- ===== src/World/Returns/Rules.antt =====
-- The rule for each way to build an action: binding, environment, statements and transactions.
use mathlib.Core.Path.{subst}
use portal_backend.Prelude.{Bool, true, false, Option, none, some, ◌≡◌, refl, if◌then◌else◌}
use portal_backend.Errors.{Error}
use portal_backend.Model.{Db}
use portal_backend.World.{
  World, Outcome, ok, err, panic, M, Ctx, view, put, tick, pure, fail, continue, ◌>>=◌, replace_err,
  map_err, ask, or_none, deref, query, settle, write, commit, with_tx,
}

abbrev pub Post : {A : Type 0} → (A → World → Type 0) → Outcome A × World → Type 0
Post Q (ok a, w) = Q a w
Post Q (err e, w) = Unit {0}
Post Q (panic, w) = Unit {0}

-- If the action returns from the world `w`, its result and the world it leaves satisfy `Q`.
pub record Returns {A : Type 0} (m : M A) (w : World) (Q : A → World → Type 0) : Type 0 where
  pub at : Post Q (m w)

pub Returns-ok :
    {A : Type 0} {Q : A → World → Type 0} {m : M A} {w : World} (a : A) (w' : World)
    → Returns m w Q
    → m w ≡ (ok a, w')
    → Q a w'
Returns-ok {Q = Q} a w' h e = subst (Post Q) e h.at

module _ {A B : Type 0} (Q : B → World → Type 0) where
  continue-Post :
      (r : Outcome A) (f : A → M B) (w : World)
      → Post (λ a w'. Returns (f a) w' Q) (r, w)
      → Post Q (continue r f w)
  continue-Post (ok a) f w h = h.at
  continue-Post (err e) f w h = tt
  continue-Post panic f w h = tt

module _ {A B : Type 0} {Q : B → World → Type 0} where
  pub Returns-bind :
      {m : M A} {f : A → M B} {w : World}
      → Returns m w (λ a w'. Returns (f a) w' Q)
      → Returns (m >>= f) w Q
  unfolding ◌>>=◌
  Returns-bind {m} {f} {w} h = record { at = continue-Post Q (m w).0 f (m w).1 h.at }

module _ {A : Type 0} (Q : A → World → Type 0) where
  replace_err-Post :
      (f : Error → Error) (r : Outcome A) (w : World) → Post Q (r, w) → Post Q (replace_err f r, w)
  replace_err-Post f (ok a) w h = h
  replace_err-Post f (err e) w h = tt
  replace_err-Post f panic w h = tt

  answer-Post : (r : Outcome A) (w : World) → ((a : A) → r ≡ ok a → Q a w) → Post Q (r, w)
  answer-Post (ok a) w h = h a refl
  answer-Post (err e) w h = tt
  answer-Post panic w h = tt

  query-Post :
      (b : Bool) (e : Error) (r : Outcome A) (w : World)
      → ((a : A) → r ≡ ok a → Q a w)
      → Post Q (if b then (err e, w) else (r, w))
  query-Post true e r w h = tt
  query-Post false e r w h = answer-Post r w h

  write-Post :
      (b : Bool) (e : Error) (r : Outcome A) (x y : World)
      → ((a : A) → r ≡ ok a → Q a x)
      → Post Q (if b then (err e, y) else settle r x y)
  write-Post true e r x y h = tt
  write-Post false e (ok a) x y h = h a refl
  write-Post false e (err _) x y h = tt
  write-Post false e panic x y h = tt

  commit_if-Post :
      (b : Bool) (e : Error) (a : A) (x y : World)
      → Q a x
      → Post Q (if b then (err e, y) else (ok a, x))
  commit_if-Post true e a x y h = tt
  commit_if-Post false e a x y h = h

  commit-Post :
      (r : Outcome A) (w : World)
      → Post (λ a w'. Q a (record (tick w') { base = w'.tx })) (r, w)
      → Post Q (commit r w)
  commit-Post (ok a) w h = commit_if-Post (w.env.fault w.step) _ a _ _ h
  commit-Post (err e) w h = tt
  commit-Post panic w h = tt

  if-Post :
      (b : Bool) (x y : Outcome A × World)
      → (b ≡ true → Post Q x)
      → (b ≡ false → Post Q y)
      → Post Q (if b then x else y)
  if-Post true x y h k = h refl
  if-Post false x y h k = k refl

  with_tx-Post :
      (b : Bool) (e : Error) (x : Outcome A × World) (y : World)
      → Post Q x
      → Post Q (if b then (err e, y) else x)
  with_tx-Post true e x y h = tt
  with_tx-Post false e x y h = h

module _ {A : Type 0} {Q : A → World → Type 0} where
  pub Returns-pure : {a : A} {w : World} → Q a w → Returns (pure a) w Q
  Returns-pure h = record { at = h }

  pub Returns-fail : {e : Error} {w : World} → Returns (fail {A = A} e) w Q
  Returns-fail = record { at = tt }

  pub Returns-map_err :
      (f : Error → Error) (m : M A) {w : World} → Returns m w Q → Returns (map_err f m) w Q
  unfolding map_err
  Returns-map_err f m {w} h = record { at = replace_err-Post Q f (m w).0 (m w).1 h.at }

  pub Returns-ask : (f : World → A) {w : World} → Q (f w) (tick w) → Returns (ask f) w Q
  unfolding ask
  Returns-ask f h = record { at = h }

  pub Returns-or_none :
      (e : Error) {w : World} (o : Option A)
      → ((a : A) → o ≡ some a → Q a w)
      → Returns (or_none e o) w Q
  unfolding or_none
  Returns-or_none e none h = record { at = tt }
  Returns-or_none e (some a) h = record { at = h a refl }

  pub Returns-some : (e : Error) {w : World} (a : A) → Q a w → Returns (or_none e (some a)) w Q
  unfolding or_none
  Returns-some e a h = record { at = h }

  pub Returns-deref_some : {w : World} (a : A) → Q a w → Returns (deref (some a)) w Q
  unfolding deref
  Returns-deref_some a h = record { at = h }

  pub Returns-deref :
      {w : World} (o : Option A) → ((a : A) → o ≡ some a → Q a w) → Returns (deref o) w Q
  unfolding deref
  Returns-deref none h = record { at = tt }
  Returns-deref (some a) h = record { at = h a refl }

  pub Returns-if :
      (b : Bool) (m n : M A) {w : World}
      → (b ≡ true → Returns m w Q)
      → (b ≡ false → Returns n w Q)
      → Returns (if b then m else n) w Q
  Returns-if true m n h k = h refl
  Returns-if false m n h k = k refl

  pub Returns-if_at :
      (b : World → Bool) (m n : M A) {w : World}
      → (b w ≡ true → Returns m w Q)
      → (b w ≡ false → Returns n w Q)
      → Returns (λ v. if b v then m v else n v) w Q
  Returns-if_at b m n {w} h k = record { at = if-Post Q (b w) _ _ (λ e. (h e).at) (λ e. (k e).at) }

  pub Returns-query :
      (c : Ctx) (f : World → Db → Outcome A) {w : World}
      → ((a : A) → f w (view c w) ≡ ok a → Q a (tick w))
      → Returns (query c f) w Q
  unfolding query
  Returns-query c f {w} h = record {
    at = query-Post Q (w.env.fault w.step) _ (f w (view c w)) (tick w) h;
  }

  pub Returns-write :
      (c : Ctx) (f : World → Db → Outcome A) (g : World → Db → Db) {w : World}
      → ((a : A) → f w (view c w) ≡ ok a → Q a (put c (g w) (tick w)))
      → Returns (write c f g) w Q
  unfolding write
  Returns-write c f g {w} h = record {
    at = write-Post Q (w.env.fault w.step) _ (f w (view c w)) (put c (g w) (tick w)) (tick w) h;
  }

  pub Returns-with_tx :
      (m : M A) {w : World}
      → Returns m
          (record (tick w) { tx = w.base })
          (λ a w'. Q a (record (tick w') { base = w'.tx }))
      → Returns (with_tx m) w Q
  unfolding with_tx
  Returns-with_tx m {w} h = record {
    at =
        let w0 : World = record (tick w) { tx = w.base } in
        with_tx-Post Q (w.env.fault w.step) _ (commit (m w0).0 (m w0).1) (tick w)
          (commit-Post Q (m w0).0 (m w0).1 h.at);
  }
