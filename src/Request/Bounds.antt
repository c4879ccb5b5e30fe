-- ===== src/Request/Bounds.antt =====
-- src/domain/request-settings.ts, `defaultRequestSettings` and `normalizeRequestSettings` on settings of
-- the right types, and `getRequestSettings` of src/features/request-workbench/model/request.ts.
use purr.Common.{ℕ, ◌≤◌, Bool, true, ◌&&◌, Option, none, some, arith, leb, if◌then◌else◌}
use purr.Request.{Settings, HttpVersion, auto, RequestDraft}

pub record RequestSettings : Type 0 where
  pub follow_redirects : Bool
  pub max_redirects : ℕ
  pub timeout_ms : ℕ
  pub validate_tls_certificates : Bool
  pub http_version : HttpVersion
  pub store_cookies : Bool

abbrev default_request_settings : RequestSettings
default_request_settings = record {
  follow_redirects = true;
  max_redirects = 10;
  timeout_ms = 60000;
  validate_tls_certificates = true;
  http_version = auto;
  store_cookies = true;
}

-- A field that its schema accepts.
abbrev accepted : (ℕ → Bool) → Option ℕ → Option ℕ
accepted p none = none
accepted p (some n) = if p n then some n else none

abbrev is_max_redirects : ℕ → Bool
is_max_redirects n = leb n 50

abbrev is_timeout : ℕ → Bool
is_timeout n = leb 1 n && leb n 3600000

-- The fields that are left; without any of them `undefined` and an empty object count the same below.
unfoldable normalize_request_settings : Option Settings → Settings
normalize_request_settings none = record {
  follow_redirects = none;
  max_redirects = none;
  timeout_ms = none;
  validate_tls_certificates = none;
  http_version = none;
  store_cookies = none;
}
normalize_request_settings (some s) = record s {
  max_redirects = accepted is_max_redirects s.max_redirects;
  timeout_ms = accepted is_timeout s.timeout_ms;
}

abbrev given_or {ℓ} : {A : Type ℓ} → Option A → A → A
given_or none d = d
given_or (some a) d = a

unfoldable pub get_request_settings : RequestDraft → RequestSettings
unfolding normalize_request_settings
get_request_settings draft =
    let given = normalize_request_settings draft.settings in
    record {
      follow_redirects = given_or given.follow_redirects default_request_settings.follow_redirects;
      max_redirects = given_or given.max_redirects default_request_settings.max_redirects;
      timeout_ms = given_or given.timeout_ms default_request_settings.timeout_ms;
      validate_tls_certificates =
          given_or given.validate_tls_certificates
            default_request_settings.validate_tls_certificates;
      http_version = given_or given.http_version default_request_settings.http_version;
      store_cookies = given_or given.store_cookies draft.use_cookie_jar;
    }

redirects-le : (o : Option ℕ) → given_or (accepted is_max_redirects o) 10 ≤ 50
redirects-le none = omega arith
redirects-le (some n) = ground arith

timeout-le :
    (o : Option ℕ)
    → (1 ≤ given_or (accepted is_timeout o) 60000)
      × (given_or (accepted is_timeout o) 60000 ≤ 3600000)
timeout-le none = (omega arith, omega arith)
timeout-le (some n) = (ground arith, ground arith)

-- The limits of `requestSettingsSchema`.
abbrev pub IsBounded : RequestSettings → Type 0
IsBounded s = (s.max_redirects ≤ 50) × ((1 ≤ s.timeout_ms) × (s.timeout_ms ≤ 3600000))

-- Whatever settings a draft holds, those that its request runs with are within the limits: 50 redirects
-- at most, and a timeout from a millisecond to an hour.
pub get_request_settings-IsBounded : (draft : RequestDraft) → IsBounded (get_request_settings draft)
unfolding get_request_settings
get_request_settings-IsBounded draft = on draft.settings
  where
    on :
        (o : Option Settings)
        → (given_or (normalize_request_settings o).max_redirects 10 ≤ 50)
          × ((1 ≤ given_or (normalize_request_settings o).timeout_ms 60000)
              × (given_or (normalize_request_settings o).timeout_ms 60000 ≤ 3600000))
    on none = (omega arith, (omega arith, omega arith))
    on (some s) = (redirects-le s.max_redirects, timeout-le s.timeout_ms)
