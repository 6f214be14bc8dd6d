-- ===== src/Pool/Eligibility.antt =====
-- The predicates of one account and of its credential: pool.go's methods on `account`, and `usable`,
-- `needsRefresh` and `deterministicJitter` of internal/auth/auth.go.
use grokcli2api_go.Prelude.{
  ℕ, ◌+◌, ◌*◌, ◌%◌, String, Bool, true, false, not, ◌&&◌, ◌||◌, Option, none, some, List, [], ◌∷◌,
  ◌==◌, if◌then◌else◌, ltb, eqb, is_nil, select,
}
use grokcli2api_go.Prelude.Map.{Map, lookup, keys}
use grokcli2api_go.Prelude.Sort.{text_ltb, sort_by}
use grokcli2api_go.Catalog.{ModelDescriptor}
use grokcli2api_go.Pool.{
  AuthMode, api_key, external, web_login, Credential, CooldownState, Account, Digest,
}

-- 10^9 nanoseconds
abbrev pub second : ℕ
second = 1000000000

abbrev pub minute : ℕ
minute = 60000000000

abbrev pub is_api_key : AuthMode → Bool
is_api_key api_key = true
is_api_key _ = false

abbrev pub is_external : AuthMode → Bool
is_external external = true
is_external web_login = true
is_external _ = false

-- t.IsZero()
abbrev pub is_zero_time : ℕ → Bool
is_zero_time t = eqb t 0

unfoldable pub usable : Credential → ℕ → Bool
usable c now =
    if c.access_token == ""
    then false
    else if is_external c.auth_mode && is_zero_time c.expires_at
    then false
    else if is_zero_time c.expires_at
    then true
    else ltb (now + minute) c.expires_at

unfoldable pub needs_refresh : Credential → ℕ → ℕ → Bool
needs_refresh c now jitter =
    if is_api_key c.auth_mode
    then false
    else if is_external c.auth_mode && is_zero_time c.expires_at
    then true
    else if c.access_token == ""
    then true
    else if is_zero_time c.expires_at
    then false
    else not (ltb (now + (2 * minute + jitter)) c.expires_at)

pub deterministic_jitter : Digest → String → ℕ
deterministic_jitter d id = (d.byte id 0 * 256 + d.byte id 1) % 300 * second

abbrev pub has_credential : Option Credential → Bool
has_credential none = false
has_credential (some c) = true

unfoldable pub available : Account → ℕ → Bool
available a now = not a.disabled && (not (ltb now a.cooldown_until) && has_credential a.credential)

abbrev pub usable_if_any : Option Credential → ℕ → Bool
usable_if_any none now = false
usable_if_any (some c) now = usable c now

unfoldable pub request_usable : Account → ℕ → Bool
unfolding usable
request_usable a now =
    not a.disabled && (not (ltb now a.cooldown_until) && usable_if_any a.credential now)

-- sort.SearchStrings on the sorted list of models, and the test at the index found.
unfoldable pub search_models : String → List String → Bool
search_models model [] = false
search_models model (x ∷ xs) = if text_ltb x model then search_models model xs else x == model

abbrev pub described_model : AuthMode → Option ModelDescriptor → Bool
described_model mode none = false
described_model mode (some d) =
    if d.hidden then false else not (is_api_key mode) || d.supported_in_api

-- hasModelLocked; the callers have seen that there is a credential.
unfoldable pub has_model : Map ModelDescriptor → Credential → String → Bool
unfolding search_models
has_model descriptors c model =
    if is_nil descriptors
    then search_models model c.models
    else described_model c.auth_mode (lookup model descriptors)

abbrev pub cooling : Option CooldownState → ℕ → Bool
cooling none now = false
cooling (some c) now = ltb now c.until

abbrev pub has_model_if_any : Account → Option Credential → String → Bool
has_model_if_any a none model = false
has_model_if_any a (some c) model = has_model a.descriptors c model

unfoldable pub supports_model : Account → ℕ → String → Bool
unfolding has_model
supports_model a now model =
    if model == ""
    then true
    else if a.disabled
    then false
    else has_model_if_any a a.credential model && not (cooling (lookup model a.model_cooldowns) now)

-- modelIDsLocked
unfoldable pub model_ids : Map ModelDescriptor → Credential → List String
unfolding has_model
model_ids descriptors c =
    if is_nil descriptors
    then c.models
    else sort_by (λ s. s) (select (has_model descriptors c) (keys descriptors))
