-- ===== src/RateLimit/Gateway.antt =====
-- services/gateway/src/ratelimit.ts: the pre-handler that charges a request to its tenant.
-- `options.limiter` is the in-memory limiter; the configuration's optional numbers are `Option`.
use lms_saas.Prelude.{
  ℕ, ◌≡◌, ◌≢◌, ap, Option, none, some, [], ◌∷◌, ◌++◌, Text, text, text_eq, Lacks, if◌then◌else◌,
  nat_eq, append-separator-injective, append-cancel_left,
}
use lms_saas.RateLimit.{RateLimitResult, Buckets, check}
use lms_saas.RateLimit.Window.{check-apart}

pub record Config : Type 0 where
  pub rate_limit_max : Option ℕ
  pub rate_limit_window_seconds : Option ℕ

pub record Request : Type 0 where
  pub tenant : Option Text
  pub method : Text
  pub route_url : Option Text
  pub url : Text

abbrev or_default {ℓ} : {A : Type ℓ} → Option A → A → A
or_default none d = d
or_default (some a) d = a

-- DEFAULT_RATE_LIMIT_MAX and DEFAULT_RATE_LIMIT_WINDOW_SECONDS
abbrev pub default_rate_limit_max : ℕ
default_rate_limit_max = 600

abbrev pub default_rate_limit_window_seconds : ℕ
default_rate_limit_window_seconds = 60

-- LimitResolver, and the one that is used when the options name none.
abbrev pub LimitResolver : Type 0
LimitResolver = Text → Config → ℕ

unfoldable pub default_limit_resolver : LimitResolver
default_limit_resolver tenant config = or_default config.rate_limit_max default_rate_limit_max

-- `url.split("?")[0]`
pub path_of : Text → Text
path_of [] = []
path_of (u ∷ s) = if nat_eq u b'?' then [] else u ∷ path_of s

unfoldable pub route_label : Request → Text
unfolding path_of
route_label req = req.method ++ (b':' ∷ or_default req.route_url (path_of req.url))

unfoldable pub rate_key : Text → Text → Text
rate_key tenant label = text "ratelimit:" ++ (tenant ++ (b':' ∷ label))

-- What the pre-handler does to the reply.
pub data Outcome : Type 0 where
  unlimited : Outcome
  annotated : ℕ → ℕ → Outcome
  rate_limited : ℕ → ℕ → ℕ → Outcome

abbrev outcome_of : RateLimitResult → Outcome
outcome_of r =
    if r.allowed
    then annotated r.limit r.remaining
    else rate_limited r.limit r.remaining r.retry_after_seconds

charge : LimitResolver → Config → Buckets → ℕ → Request → Option Text → Outcome × Buckets
charge limit_for config buckets now req none = (unlimited, buckets)
charge limit_for config buckets now req (some tenant) =
    let window = or_default config.rate_limit_window_seconds default_rate_limit_window_seconds in
    let r =
      check buckets now (rate_key tenant (route_label req)) (limit_for tenant config) window in
    (outcome_of r.0, r.1)

-- rateLimitGuard
pub rate_limit_guard : Option LimitResolver → Config → Buckets → ℕ → Request → Outcome × Buckets
unfolding charge
rate_limit_guard limit_for config buckets now req =
    charge (or_default limit_for default_limit_resolver) config buckets now req req.tenant

rate_key-injective :
    (a b s t : Text) → Lacks b':' a → Lacks b':' b → rate_key a s ≡ rate_key b t → a ≡ b
unfolding rate_key
rate_key-injective a b s t ha hb e =
    (append-separator-injective b':' a b s t ha hb (append-cancel_left (text "ratelimit:") _ _ e)).0

charge-apart :
    (limit_for : LimitResolver) (config : Config) (buckets : Buckets) (now later : ℕ)
    (req req' : Request) (a b : Text)
    → a ≢ b
    → Lacks b':' a
    → Lacks b':' b
    → (charge limit_for config
        (charge limit_for config buckets now req (some a)).1
        later
        req'
        (some b)).0
      ≡ (charge limit_for config buckets later req' (some b)).0
unfolding charge
charge-apart limit_for config buckets now later req req' a b ne ha hb = ap outcome_of (
    check-apart buckets (rate_key a (route_label req)) (rate_key b (route_label req')) now _ _ later
      _ _ (λ e. ne (rate_key-injective a b _ _ ha hb e)))

-- One tenant cannot use up another's budget: for tenant ids without a colon, a request of one
-- tenant leaves the answer to any later request of the other unchanged, whatever the routes.
pub guard-isolates_tenants :
    (limit_for : Option LimitResolver) (config : Config) (buckets : Buckets) (now later : ℕ)
    (req req' : Request) (a b : Text)
    → req.tenant ≡ some a
    → req'.tenant ≡ some b
    → a ≢ b
    → Lacks b':' a
    → Lacks b':' b
    → (rate_limit_guard limit_for config
        (rate_limit_guard limit_for config buckets now req).1
        later
        req').0
      ≡ (rate_limit_guard limit_for config buckets later req').0
unfolding rate_limit_guard
guard-isolates_tenants limit_for config buckets now later req req' a b ea eb ne ha hb =
    simp (ea, eb)
      (charge-apart (or_default limit_for default_limit_resolver) config buckets now later req req'
        a b ne ha hb)
