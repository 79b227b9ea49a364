-- ===== src/Auth/Admission.antt =====
-- Which API keys `resolve_api_key` of app/services/auth.py accepts, over all that its cache has seen.
use ocr_service.Prelude.{
  ap, ℕ, ◌≤◌, ◌≡◌, refl, ◌∙◌, String, Option, none, some, List, ltb, string_eq, arith, Bool-cases,
  Option-cases, inl, inr,
}
use ocr_service.Prelude.Outcome.{Outcome, ok, Outcome-cases}
use ocr_service.Auth.{AuthContext}
use ocr_service.Auth.Cache.{find, get_cached}
use ocr_service.Auth.Grounds.{
  IsOrdered, Event, Admitted, play, IsJustified, Grounded-verdict, IsJustified-play,
}
use ocr_service.Auth.Keys.{
  key_answer, ApiKey, Moment, Cached, key_answer, key_cache, settle_key, resolve_api_key,
}

module _ (hash : String → String) (rows : ℕ → String → Outcome String (Option ApiKey)) where
  Admitted-earlier :
      (t u : ℕ) (hashed : String) (ctx : AuthContext)
      → t ≤ u
      → Admitted hash rows u hashed ctx
      → Admitted hash rows t hashed ctx
  Admitted-earlier t u hashed ctx le a = record {
    at = a.at;
    raw_key = a.raw_key;
    row = a.row;
    is_ordered = a.is_ordered;
    same = a.same;
    was_read = a.was_read;
    not_revoked = a.not_revoked;
    not_expired = a.not_expired;
    context = a.context;
    fresh = omega (arith, le, a.fresh);
  }

  key_answer_ok :
      (v : Option AuthContext) (ctx : AuthContext) → key_answer v ≡ ok ctx → v ≡ some ctx
  key_answer_ok none ctx h = absurd (ground arith)
  key_answer_ok (some c) ctx h = ground arith

  get_cached-Grounded :
      (now : ℕ) (key : String) (c : Cached) (ctx : AuthContext)
      → IsJustified hash rows c
      → (get_cached now key c).0 ≡ some (some ctx)
      → Admitted hash rows now key ctx
  unfolding get_cached
  get_cached-Grounded now key c ctx j h = elim (Option-cases (find key c.entries)) [
    | inl f ↦ absurd (ground arith)
    | inr (e, f) ↦ (elim (Bool-cases (ltb e.expires now)) [
      | inl s ↦ absurd (ground arith)
      | inr s ↦
          Admitted-earlier now e.expires key ctx (ground arith)
            (j.grounded key e f ctx (ground arith))
    ])
  ]

  settle_key-Admitted :
      (at : Moment) (raw_key : String) (c : Cached) (ctx : AuthContext)
      → IsOrdered at
      → (settle_key hash rows at raw_key c).0 ≡ ok ctx
      → Admitted hash rows at.start (hash raw_key) ctx
  unfolding settle_key
  settle_key-Admitted at raw_key c ctx i h = elim (Outcome-cases (rows at.read (hash raw_key))) [
    | inr (message, r) ↦ absurd (ground arith)
    | inl (found, r) ↦ Admitted-earlier at.start _ (hash raw_key) ctx (omega (arith, i.0, i.1)) (
        Grounded-verdict hash rows at raw_key found i r ctx
          (key_answer_ok _ ctx (rw (settle_key, r) at h)))
  ]

  IsJustified-start : IsJustified hash rows key_cache
  unfolding find
  IsJustified-start = record { ttl = refl; grounded = λ k e h. absurd (ground arith) }

  -- Whatever the cache has seen, before the request and while it waits, a key that `resolve_api_key`
  -- accepts is good: its context is that of a row that was read for its hash, by a resolution that
  -- ended with the row neither revoked nor expired, and no longer ago than the time to live when this
  -- resolution began.
  pub resolve_api_key-Admitted :
      (earlier meanwhile : List Event) (at : Moment) (raw_key : String) (ctx : AuthContext)
      → IsOrdered at
      → (resolve_api_key hash rows
          (play hash rows meanwhile)
          at
          raw_key
          (play hash rows earlier key_cache)).0
        ≡ ok ctx
      → Admitted hash rows at.start (hash raw_key) ctx
  unfolding resolve_api_key
  resolve_api_key-Admitted earlier meanwhile at raw_key ctx i h =
      elim (Option-cases
        (get_cached at.start (hash raw_key) (play hash rows earlier key_cache)).0) [
          | inl f ↦ settle_key-Admitted at raw_key _ ctx i (rw (resolve_api_key, f) at h)
          | inr (v, f) ↦
              get_cached-Grounded at.start (hash raw_key) _ ctx
                (IsJustified-play hash rows earlier key_cache IsJustified-start)
                (f ∙ ap some (key_answer_ok v ctx (rw (resolve_api_key, f) at h)))
        ]
