-- ===== src/RateLimit/Tests.antt =====
-- Runs of the limiter and of the gateway's guard on concrete requests.
use lms_saas.Prelude.{◌+◌, ◌*◌, ◌≡◌, refl, true, none, some, [], ◌∷◌, Text, text, text_eq, arith}
use lms_saas.RateLimit.{Buckets, check, nonnegative, negative, upstash_check}
use lms_saas.RateLimit.Window.{granted, granted-window, retry_after_suffices}
use lms_saas.RateLimit.Gateway.{
  Config, Request, rate_limit_guard, guard-isolates_tenants, route_label,
}

abbrev fresh : Buckets
fresh = []

-- One hit of two is spent, in a window that ends at 70 seconds.
abbrev half_spent : Buckets
half_spent = (text "k", record { count = 1; reset_at = 70000 }) ∷ []

abbrev spent : Buckets
spent = (text "k", record { count = 2; reset_at = 70000 }) ∷ []

granted-window_example : granted fresh (text "k") 2 60 (10000 ∷ 20000 ∷ 30000 ∷ 69999 ∷ []) ≡ 2
granted-window_example =
    granted-window fresh (text "k") 2 60 10000 (20000 ∷ 30000 ∷ 69999 ∷ []) tt (omega arith)

retry_after_suffices_example :
    let r = check spent 68500 (text "k") 2 60 in
    let r' = (check r.1 (68500 + r.0.retry_after_seconds * 1000) (text "k") 2 60).0 in
    (r'.allowed ≡ true) × (r'.remaining + 1 ≡ 2)
unfolding check
retry_after_suffices_example = retry_after_suffices spent (text "k") 2 60 68500 refl (omega arith)

refused_at_68500 : (check spent 68500 (text "k") 2 60).0.retry_after_seconds ≡ 2
unfolding check
refused_at_68500 = refl

upstash_without_window : (upstash_check (nonnegative 9) negative 8 60).retry_after_seconds ≡ 60
unfolding upstash_check
upstash_without_window = refl

abbrev config : Config
config = record { rate_limit_max = some 1; rate_limit_window_seconds = none }

abbrev request_of : Text → Request
request_of t = record {
  tenant = some t;
  method = text "GET";
  route_url = none;
  url = text "/courses?page=2";
}

label_drops_query : route_label (request_of (text "a")) ≡ text "GET:/courses"
unfolding route_label
label_drops_query = refl

guard-isolates_tenants_example :
    (rate_limit_guard none config
      (rate_limit_guard none config fresh 5 (request_of (text "a"))).1
      6
      (request_of (text "b"))).0
    ≡ (rate_limit_guard none config fresh 6 (request_of (text "b"))).0
guard-isolates_tenants_example =
    guard-isolates_tenants none config fresh 5 6 (request_of (text "a")) (request_of (text "b"))
      (text "a") (text "b") refl refl (λ e. ground arith) (omega arith) (omega arith)
