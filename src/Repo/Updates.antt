-- ===== src/Repo/Updates.antt =====
-- An update that affects no row says so and changes nothing.
use portal_backend.Prelude.{Option, none, some, Bool, false, List, any, ◌≡◌, arith}
use portal_backend.Errors.{not_found}
use portal_backend.Model.{Db}
use portal_backend.World.{World, ok, err, Ctx, view, tick, write}
use portal_backend.Repo.{found, affecting}

pub found-some : {A : Type 0} → (o : Option A) (a : A) → found o ≡ ok a → o ≡ some a
found-some none a h = cc
found-some (some b) a h = cc

pub not_found-write :
    {A : Type 0} (c : Ctx) (p : World → A → Bool) (rows : Db → List A) (g : World → Db → Db)
    (w : World)
    → (write c (λ w db. affecting (p w) (rows db)) g w).0 ≡ err not_found
    → (any (p w) (rows (view c w)) ≡ false)
      × ((write c (λ w db. affecting (p w) (rows db)) g w).1 ≡ tick w)
unfolding write
not_found-write c p rows g w h = ground arith
