-- ===== src/World/Stays.antt =====
-- Actions that leave the revocation store and the environment alone: one rule for each way to build an
-- action.
use portal_backend.Prelude.{Bool, true, false, ◌≡◌, refl, ◌∙◌, Option, none, some, if◌then◌else◌}
use portal_backend.Errors.{Error, driver}
use portal_backend.Model.{Db}
use portal_backend.World.{
  World, Outcome, ok, err, panic, M, Ctx, base_ctx, tx_ctx, view, put, tick, pure, continue, ◌>>=◌,
  map_err, ensure, or_none, deref, ask, query, write, settle, commit, with_tx,
}

pub record Unrevoked (w v : World) : Type 0 where
  pub revoked : v.revoked ≡ w.revoked
  pub env : v.env ≡ w.env

pub record Stays {A : Type 0} (m : M A) : Type 0 where
  pub at : (w : World) → Unrevoked w (m w).1

abbrev pub Unrevoked-refl : (w : World) → Unrevoked w w
Unrevoked-refl w = record { revoked = refl; env = refl }

put-Unrevoked : (c : Ctx) (g : Db → Db) (w : World) → Unrevoked w (put c g w)
put-Unrevoked base_ctx g w = record { revoked = refl; env = refl }
put-Unrevoked tx_ctx g w = record { revoked = refl; env = refl }

chain : (u v w : World) → Unrevoked u v → Unrevoked v w → Unrevoked u w
chain u v w h k = record { revoked = k.revoked ∙ h.revoked; env = k.env ∙ h.env }

module _ {A : Type 0} (w : World) where
  if-Unrevoked :
      (b : Bool) (x y : Outcome A × World)
      → Unrevoked w x.1
      → Unrevoked w y.1
      → Unrevoked w (if b then x else y).1
  if-Unrevoked true x y h k = h
  if-Unrevoked false x y h k = k

  settle-Unrevoked :
      (r : Outcome A) (x y : World) → Unrevoked w x → Unrevoked w y → Unrevoked w (settle r x y).1
  settle-Unrevoked (ok a) x y h k = h
  settle-Unrevoked (err e) x y h k = k
  settle-Unrevoked panic x y h k = k

  commit-Unrevoked : (r : Outcome A) (v : World) → Unrevoked w v → Unrevoked w (commit r v).1
  commit-Unrevoked (ok a) v h =
      if-Unrevoked (v.env.fault v.step) (err driver, tick v) (ok a, record (tick v) { base = v.tx })
        (record { revoked = h.revoked; env = h.env }) (record { revoked = h.revoked; env = h.env })
  commit-Unrevoked (err e) v h = h
  commit-Unrevoked panic v h = h

module _ {A : Type 0} where
  pub Stays-pure : (a : A) → Stays (pure a)
  Stays-pure a = record { at = Unrevoked-refl }

  pub Stays-ask : (f : World → A) → Stays (ask f)
  unfolding ask
  Stays-ask f = record { at = λ w. record { revoked = refl; env = refl } }

  pub Stays-query : (c : Ctx) (f : World → Db → Outcome A) → Stays (query c f)
  unfolding query
  Stays-query c f = record {
    at = λ w.
        if-Unrevoked w (w.env.fault w.step) (err driver, tick w) (f w (view c w), tick w)
          (record { revoked = refl; env = refl }) (record { revoked = refl; env = refl });
  }

  pub Stays-write :
      (c : Ctx) (f : World → Db → Outcome A) (g : World → Db → Db) → Stays (write c f g)
  unfolding write
  Stays-write c f g = record {
    at = λ w.
        let ticked : Unrevoked w (tick w) = record { revoked = refl; env = refl } in
        if-Unrevoked w (w.env.fault w.step) (err driver, tick w)
          (settle (f w (view c w)) (put c (g w) (tick w)) (tick w)) ticked
          (settle-Unrevoked w (f w (view c w)) _ (tick w)
            (chain w (tick w) _ ticked (put-Unrevoked c (g w) (tick w))) ticked);
  }

  pub Stays-with_tx : (m : M A) → Stays m → Stays (with_tx m)
  unfolding with_tx
  Stays-with_tx m h = record {
    at = λ w.
        let start : World = record (tick w) { tx = w.base } in
        let begun : Unrevoked w start = record { revoked = refl; env = refl } in
        if-Unrevoked w (w.env.fault w.step) (err driver, tick w) (commit (m start).0 (m start).1)
          (record { revoked = refl; env = refl })
          (commit-Unrevoked w (m start).0 (m start).1
            (chain w start (m start).1 begun (h.at start)));
  }

  pub Stays-if : (b : Bool) (m n : M A) → Stays m → Stays n → Stays (if b then m else n)
  Stays-if true m n h k = h
  Stays-if false m n h k = k

  pub Stays-map_err : (f : Error → Error) (m : M A) → Stays m → Stays (map_err f m)
  unfolding map_err
  Stays-map_err f m h = record { at = λ w. h.at w }

  pub Stays-or_none : (e : Error) (o : Option A) → Stays (or_none e o)
  unfolding or_none
  Stays-or_none e none = record { at = Unrevoked-refl }
  Stays-or_none e (some a) = record { at = Unrevoked-refl }

  pub Stays-deref : (o : Option A) → Stays (deref o)
  unfolding deref
  Stays-deref none = record { at = Unrevoked-refl }
  Stays-deref (some a) = record { at = Unrevoked-refl }

  -- an action that looks at the world first
  pub Stays-reads : (m : World → M A) → ((w : World) → Stays (m w)) → Stays (λ w. m w w)
  Stays-reads m h = record { at = λ w. (h w).at w }

module _ {A B : Type 0} where
  continue-Unrevoked :
      (u : World) (r : Outcome A) (f : A → M B) (w : World)
      → Unrevoked u w
      → ((a : A) → Stays (f a))
      → Unrevoked u (continue r f w).1
  continue-Unrevoked u (ok a) f w h k = chain u w _ h ((k a).at w)
  continue-Unrevoked u (err e) f w h k = h
  continue-Unrevoked u panic f w h k = h

  pub Stays-bind : (m : M A) (f : A → M B) → Stays m → ((a : A) → Stays (f a)) → Stays (m >>= f)
  unfolding ◌>>=◌
  Stays-bind m f h k = record { at = λ w. continue-Unrevoked w (m w).0 f (m w).1 (h.at w) k }

pub Stays-ensure : (b : Bool) (e : Error) → Stays (ensure b e)
unfolding ensure
Stays-ensure true e = record { at = Unrevoked-refl }
Stays-ensure false e = record { at = Unrevoked-refl }

pub ruleset stays_rules = (
  Stays-pure, Stays-ask, Stays-query, Stays-write, Stays-with_tx, Stays-if, Stays-map_err,
  Stays-or_none, Stays-deref, Stays-bind, Stays-ensure,
)
