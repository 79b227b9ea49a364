-- ===== src/Tests/Access.antt =====
-- Credentials of app/services/auth.py at work.
use ocr_service.Prelude.{
  ◌↔◌, inl, ℕ, ◌≡◌, refl, String, true, none, some, List, [], ◌∷◌, ◌==◌, string_eq, arith,
  if◌then◌else◌,
}
use ocr_service.Prelude.Outcome.{ok, err}
use ocr_service.Text.{append, partition, starts_with}
use ocr_service.Auth.{AuthContext, Caches, has_scope}
use ocr_service.Auth.Cache.{new_cache, get_cached, set_cached, find, drop_key, put_key}
use ocr_service.Auth.Cache.Refinement.{Op, get, set, wipe, Run, blank, perform_all, perform_all-Run}
use ocr_service.Auth.Keys.{ApiKey, Moment, key_cache, key_context, resolve_api_key, settle_key}
use ocr_service.Auth.Guard.{World, check_credential, authenticate, require_auth, require_scope}
use ocr_service.Auth.Grounds.{Event, settled, after, play}
use ocr_service.Auth.Access.{Authentic, require_scope-Authentic}
use ocr_service.Auth.Uncached.{Granted, uncached_key_passes_iff}

abbrev raw_key : String
raw_key = "ocr_0123456789"

abbrev header : String
header = append "Bearer " raw_key

abbrev row : ApiKey
row = record {
  tenant_id = 7;
  scopes = some ("extract" ∷ []);
  expires_at = some 1000;
  revoked_at = none;
}

abbrev hash : String → String
hash s = append "hash of " s

abbrev world : World
world = record {
  hash = hash;
  rows = λ t k. if k == hash raw_key then ok (some row) else ok none;
  jwt = record {
    decode = λ token key. err "bad signature";
    parse_uuid = λ v. none;
    is_zero = λ s. s == "0";
    show = λ v. "value";
  };
  file = ok none;
}

abbrev caches : Caches
caches = record { keys = key_cache; public_key = none }

abbrev now : Moment
now = record { start = 1; read = 2; finish = 3; date = 900 }

abbrev earlier : List Event
earlier = settled now (omega arith, omega arith) raw_key ∷ []

abbrev seen : Caches
seen = record { keys = play world.hash world.rows earlier key_cache; public_key = none }

abbrev later : Moment
later = record { start = 50; read = 51; finish = 52; date = 949 }

abbrev ctx : AuthContext
ctx = key_context raw_key row

passed :
    (require_scope world (play world.hash world.rows []) "extract" later (some header) seen).0
    ≡ ok ctx
unfolding append partition starts_with after settle_key set_cached put_key find drop_key get_cached
    resolve_api_key check_credential authenticate require_auth require_scope
passed = refl

require_scope-Authentic_example :
    (has_scope "extract" ctx ≡ true)
    × ((text : String) × (some header ≡ some text) × Authentic world seen 50 text ctx)
require_scope-Authentic_example =
    require_scope-Authentic world "extract" earlier [] later (some header) seen ctx
      (omega arith, omega arith) refl passed

uncached_key_passes_iff_example :
    ((require_scope world (λ c. c) "extract" now (some header) caches).0 ≡ ok ctx)
    ↔ Granted world "extract" raw_key now ctx
unfolding starts_with append get_cached find
uncached_key_passes_iff_example =
    uncached_key_passes_iff world (λ c. c) "extract" now raw_key caches ctx refl refl

key_passes : (require_scope world (λ c. c) "extract" now (some header) caches).0 ≡ ok ctx
unfolding starts_with append get_cached find
key_passes =
    (uncached_key_passes_iff world (λ c. c) "extract" now raw_key caches ctx refl refl).1 (record {
      row = row;
      read = refl;
      good = record { unrevoked = refl; unexpired = omega arith };
      grants = inl refl;
      context = refl;
    })

abbrev ops : List (ℕ × Op ℕ)
ops =
    (1, set "a" 5)
    ∷ (30, get "a")
    ∷ (90, get "a")
    ∷ (91, set "b" 6)
    ∷ (92, wipe)
    ∷ (93, get "b")
    ∷ []

perform_all-Run_example : Run 60 ops (perform_all ops (new_cache 60 1)).0 blank
perform_all-Run_example =
    perform_all-Run 60 1 ops
      (omega arith, (omega arith, (omega arith, (omega arith, (omega arith, (omega arith, tt))))))
