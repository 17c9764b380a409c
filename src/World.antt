-- ===== src/World.antt =====
-- What a request runs in: the committed database and the one that an open transaction sees, the
-- revocation store, and the environment, which chooses each failure, time, id and random token by
-- the number of the effect. A call of the program is an action of `M`: it returns, fails with an
-- error, or panics, and the world that it leaves comes back in each case.
use Prim.Native.String.{String}
use portal_backend.Prelude.{
  ℕ, suc, Bool, true, false, Option, none, some, List, [], ◌∷◌, if◌then◌else◌,
}
use portal_backend.Text.{Text}
use portal_backend.Errors.{Error, driver, not_found}
use portal_backend.Model.{NotificationEvent, Json, TokenClaims, Db}
pub mod Atomic
pub mod Returns
pub mod Keeps
pub mod Gated
pub mod Blind
pub mod Yields
pub mod Stays

-- What the program calls and does not implement (packages, services, configuration). `fault n`:
-- the n-th effect fails in its driver.
pub record Env : Type 0 where
  pub fault : ℕ → Bool
  pub clock : ℕ → ℕ
  pub uuid : ℕ → ℕ
  pub uuid_text : ℕ → Text  -- UUID.String
  pub lower : ℕ → ℕ  -- unicode.ToLower
  pub parse_address : Text → Bool  -- mail.ParseAddress succeeds
  pub bcrypt_generate : ℕ → Text → Option Text
  pub bcrypt_compare : Text → Text → Bool
  pub sha256_hex : Text → Text
  pub random_hex : ℕ → Option Text  -- 32 bytes of crypto/rand, in hexadecimal
  pub sign : TokenClaims → ℕ → ℕ → Option Text  -- a JWT with its issue and expiry times
  pub verify : ℕ → Text → Option TokenClaims  -- a JWT checked and read at a time
  pub query_escape : Text → Text  -- url.QueryEscape
  pub marshal : NotificationEvent → Option Text  -- json.Marshal
  pub get_env : String → Text  -- os.Getenv
  pub parse_duration : Text → Option ℕ  -- time.ParseDuration
  pub atoi : Text → Option ℕ  -- strconv.Atoi; 0 stands for every value that is not positive
  pub sql_key : Text → Text  -- LOWER(TRIM(…)) of the database
  pub sql_le : Text → Text → Bool  -- the collation of ORDER BY
  pub marshal_fields : List (String × Json) → Option Text  -- json.Marshal of a map
  pub ilike : Text → Text → Bool  -- a column ILIKE %pattern%
  pub notification_topic : Text
  pub frontend_url : Text
  pub refresh_ttl : ℕ
  pub access_ttl : ℕ

pub record World : Type 0 where
  pub env : Env
  pub step : ℕ
  pub base : Db
  pub tx : Db  -- what the open transaction sees; it means nothing outside one
  pub revoked : List (ℕ × ℕ)  -- the revocation store: a session and until when

pub data Outcome (A : Type 0) : Type 0 where
  ok : A → Outcome A
  err : Error → Outcome A
  panic : Outcome A

abbrev pub M : Type 0 → Type 0
M A = World → Outcome A × World

-- The context that a repository is called with: with or without the transaction in it (getDB).
pub data Ctx : Type 0 where
  base_ctx tx_ctx : Ctx

abbrev pub view : Ctx → World → Db
view base_ctx w = w.base
view tx_ctx w = w.tx

-- A statement outside the transaction is committed at once, and the transaction sees it too.
abbrev pub put : Ctx → (Db → Db) → World → World
put base_ctx f w = record w { base = f w.base; tx = f w.tx }
put tx_ctx f w = record w { tx = f w.tx }

abbrev pub tick : World → World
tick w = record w { step = suc w.step }

abbrev pub moment : World → ℕ
moment w = w.env.clock w.step

abbrev pub fresh : World → ℕ
fresh w = w.env.uuid w.step

abbrev pub pure : {A : Type 0} → A → M A
pure a w = (ok a, w)

abbrev pub fail : {A : Type 0} → Error → M A
fail e w = (err e, w)

abbrev pub crash : {A : Type 0} → M A
crash w = (panic, w)

abbrev pub continue : {A B : Type 0} → Outcome A → (A → M B) → M B
continue (ok a) f w = f a w
continue (err e) f w = (err e, w)
continue panic f w = (panic, w)

infixl 5 ◌>>=◌ ◌>>◌
unfoldable pub ◌>>=◌ : {A B : Type 0} → M A → (A → M B) → M B
◌>>=◌ m f w = let (r, w') = m w in continue r f w'

abbrev pub ◌>>◌ : {B : Type 0} → M (Unit {0}) → M B → M B
m >> k = m >>= λ _. k

-- `if err != nil { … }`: the error is replaced.
abbrev pub replace_err : {A : Type 0} → (Error → Error) → Outcome A → Outcome A
replace_err f (ok a) = ok a
replace_err f (err e) = err (f e)
replace_err f panic = panic

unfoldable pub map_err : {A : Type 0} → (Error → Error) → M A → M A
map_err f m w = let (r, w') = m w in (replace_err f r, w')

-- `if err := f(); err != nil { return e }`
abbrev pub or_err : {A : Type 0} → Error → M A → M A
or_err e m = map_err (λ _. e) m

-- `if err := f(); err != nil { log.Println(err) }`
abbrev pub swallow : Outcome (Unit {0}) → Outcome (Unit {0})
swallow (ok a) = ok tt
swallow (err e) = ok tt
swallow panic = panic

unfoldable pub log_err : M (Unit {0}) → M (Unit {0})
log_err m w = let (r, w') = m w in (swallow r, w')

-- `if err := f(); err != nil && !errors.Is(err, repository.ErrNotFound) { return err }`
abbrev pub swallow_not_found : Outcome (Unit {0}) → Outcome (Unit {0})
swallow_not_found (ok a) = ok tt
swallow_not_found (err not_found) = ok tt
swallow_not_found (err e) = err e
swallow_not_found panic = panic

unfoldable pub unless_not_found : M (Unit {0}) → M (Unit {0})
unless_not_found m w = let (r, w') = m w in (swallow_not_found r, w')

-- A lookup whose repository.ErrNotFound is tolerated and leaves nil.
abbrev pub null_not_found : {A : Type 0} → Outcome A → Outcome (Option A)
null_not_found (ok a) = ok (some a)
null_not_found (err not_found) = ok none
null_not_found (err e) = err e
null_not_found panic = panic

unfoldable pub nullable : {A : Type 0} → M A → M (Option A)
nullable m w = let (r, w') = m w in (null_not_found r, w')

-- A return with an error where a test fails.
unfoldable pub ensure : Bool → Error → M (Unit {0})
ensure b e w = if b then (ok tt, w) else (err e, w)

-- The environment read by an effect: the time, an id, randomness.
unfoldable pub ask : {A : Type 0} → (World → A) → M A
ask f w = (ok (f w), tick w)

unfoldable pub or_none : {A : Type 0} → Error → Option A → M A
or_none e none w = (err e, w)
or_none e (some a) w = (ok a, w)

-- A pointer is followed: the program panics at nil.
unfoldable pub deref : {A : Type 0} → Option A → M A
deref none w = (panic, w)
deref (some a) w = (ok a, w)

-- A query: it fails in the driver, or answers from the database of its context.
unfoldable pub query : {A : Type 0} → Ctx → (World → Db → Outcome A) → M A
query c f w = if w.env.fault w.step then (err driver, tick w) else (f w (view c w), tick w)

abbrev pub settle : {A : Type 0} → Outcome A → World → World → Outcome A × World
settle (ok a) changed same = (ok a, changed)
settle (err e) changed same = (err e, same)
settle panic changed same = (panic, same)

-- A statement that writes: the driver may refuse it, `f` may (a constraint, no row affected), or
-- the change `g` is made in the database of its context.
unfoldable pub write : {A : Type 0} → Ctx → (World → Db → Outcome A) → (World → Db → Db) → M A
write c f g w =
    if w.env.fault w.step
    then (err driver, tick w)
    else settle (f w (view c w)) (put c (g w) (tick w)) (tick w)

abbrev pub commit : {A : Type 0} → Outcome A → World → Outcome A × World
commit (ok a) w =
    if w.env.fault w.step then (err driver, tick w) else (ok a, record (tick w) { base = w.tx })
commit (err e) w = (err e, w)
commit panic w = (panic, w)

-- internal/repository/impl/tx_manager.go: WithTx
unfoldable pub with_tx : {A : Type 0} → M A → M A
with_tx body w =
    if w.env.fault w.step
    then (err driver, tick w)
    else let (r, w') = body (record (tick w) { tx = w.base }) in commit r w'
