-- ===== src/Pool/Tests/Data.antt =====
-- A pool of two accounts, for the runs of the tests.
use grokcli2api_go.Prelude.{false, some, [], ◌∷◌, if◌then◌else◌, eqb}
use grokcli2api_go.Catalog.{ModelDescriptor, no_descriptor, backend_responses}
use grokcli2api_go.Pool.{oidc, Credential, Account, affinity_soft, Pool, Digest}
use grokcli2api_go.Pool.Refresh.{Outcome, renewed}
use grokcli2api_go.Pool.Acquire.{Request}

-- A digest that leaves every text as it is.
abbrev pub plain_digest : Digest
plain_digest = record { hex = λ s. s; byte = λ s i. 7 }

abbrev pub token : Credential
token = record {
  path = "auths/a.json";
  scope = "sso";
  access_token = "token";
  refresh_token = "refresh";
  auth_mode = oidc;
  expires_at = 0;
  models = "grok-4" ∷ [];
  models_updated_at = 0;
}

abbrev pub grok : ModelDescriptor
grok = record no_descriptor { id = "grok-4"; backend = backend_responses }

abbrev pub account_a : Account
account_a = record {
  id = "a";
  credential = some token;
  descriptors = ("grok-4", grok) ∷ [];
  catalog_etag = "";
  catalog_updated = 0;
  cooldown_until = 0;
  cooldown_cause = "";
  model_cooldowns = [];
  disabled = false;
  disable_reason = "";
  deleting = false;
  generation = 1;
  refresh_fails = 0;
  inflight = 0;
}

abbrev pub account_b : Account
account_b = record account_a { id = "b"; inflight = 1 }

abbrev pub two_accounts : Pool
two_accounts = record {
  account_max_inflight = 1;
  heap = λ p. if eqb p 1 then account_b else account_a;
  accounts = ("a", 0) ∷ ("b", 1) ∷ [];
  states = [];
  catalogs = [];
  active = 0 ∷ 1 ∷ [];
  active_by_model = ("grok-4", 0 ∷ 1 ∷ []) ∷ [];
  cursor = 0;
  affinity = record { shards = λ i. []; ttl = 100; limit = 4 };
  rebuild_requested = false;
  capacity_epoch = 0;
  timers = [];
}

abbrev pub request : Request
request = record {
  affinity = record { key = "session:1"; mode = affinity_soft; tenant = "t" };
  model = "grok-4";
  exclude = [];
}

abbrev pub renewing : Credential → Outcome
renewing c = renewed c
