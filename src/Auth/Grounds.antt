-- ===== src/Auth/Grounds.antt =====
-- What the cache of API keys in app/services/auth.py may hold, over all that has been done with it.
use ocr_service.Prelude.{
  leb, ◌<◌, sym, ℕ, ◌+◌, ◌≤◌, ◌≡◌, refl, ◌∙◌, String, Bool, true, false, Option, none, some, List,
  [], ◌∷◌, ltb, ◌==◌, string_eq, if◌then◌else◌, arith, eq_iff, Bool-cases, Option-cases, inl, inr,
}
use ocr_service.Prelude.Outcome.{Outcome, ok, Outcome-cases}
use ocr_service.Store.Laws.{some_injective}
use ocr_service.Auth.{AuthContext}
use ocr_service.Auth.Cache.{Entry, Data, find, put_key, get_cached, set_cached}
use ocr_service.Auth.Cache.Refinement.{find-drop_key, find-put_key}
use ocr_service.Auth.Keys.{
  ApiKey, Moment, Cached, is_refused, key_context, verdict, cache_ttl_s, settle_key,
}

abbrev pub IsOrdered : Moment → Type 0
IsOrdered at = (at.start ≤ at.read) × (at.read ≤ at.finish)

-- What other requests do to the cache: a look, or what follows a query.
pub data Event : Type 0 where
  looked : ℕ → String → Event
  settled : (at : Moment) → IsOrdered at → String → Event

revoked_at_none : (date : ℕ) (row : ApiKey) → is_refused date row ≡ false → row.revoked_at ≡ none
revoked_at_none date row h = elim (Option-cases row.revoked_at) [
  | inl n ↦ n
  | inr (t, r) ↦ absurd (ground arith)
]

expires_later :
    (date : ℕ) (row : ApiKey)
    → is_refused date row ≡ false
    → (t : ℕ) → row.expires_at ≡ some t
    → date < t
expires_later date row h t e = elim (Option-cases row.revoked_at) [
  | inr (u, r) ↦ absurd (ground arith)
  | inl n ↦ live (rw (n, e) at h)
]
  where
    live : leb t date ≡ false → date < t
    live g = ground arith

module _ (hash : String → String) (rows : ℕ → String → Outcome String (Option ApiKey)) where
  -- The context is that of a row which was read for a key with this hash and was neither revoked nor
  -- expired at the end of that resolution, and this end is at most the time to live before `t`.
  pub record Admitted (t : ℕ) (hashed : String) (ctx : AuthContext) : Type 0 where
    pub at : Moment
    pub raw_key : String
    pub row : ApiKey
    pub is_ordered : IsOrdered at
    pub same : hash raw_key ≡ hashed
    pub was_read : rows at.read hashed ≡ ok (some row)
    pub not_revoked : row.revoked_at ≡ none
    pub not_expired : (t : ℕ) → row.expires_at ≡ some t → at.date < t
    pub context : key_context raw_key row ≡ ctx
    pub fresh : t ≤ at.finish + cache_ttl_s

  -- One event on the cache.
  unfoldable pub after : Event → Cached → Cached
  unfolding get_cached settle_key
  after (looked now raw_key) c = (get_cached now (hash raw_key) c).1
  after (settled at i raw_key) c = (settle_key hash rows at raw_key c).1

  abbrev pub play : List Event → Cached → Cached
  play [] c = c
  play (e ∷ es) c = play es (after e c)

  abbrev pub Grounded : String → Entry (Option AuthContext) → Type 0
  Grounded key e = (ctx : AuthContext) → e.value ≡ some ctx → Admitted e.expires key ctx

  pub record IsJustified (c : Cached) : Type 0 where
    pub ttl : c.ttl ≡ cache_ttl_s
    pub grounded :
        (key : String) (e : Entry (Option AuthContext))
        → find key c.entries ≡ some e
        → Grounded key e

  pub IsJustified-get_cached :
      (now : ℕ) (key : String) (c : Cached) → IsJustified c → IsJustified (get_cached now key c).1
  unfolding get_cached
  IsJustified-get_cached now key c j = elim (Option-cases (find key c.entries)) [
    | inl f ↦ rw (get_cached, f) j
    | inr (e, f) ↦ (elim (Bool-cases (ltb e.expires now)) [
      | inl s ↦
          rw (get_cached, f, s)
            (record {
              ttl = j.ttl;
              grounded = λ k d h. j.grounded k d (ground (arith, h, find-drop_key key k c.entries));
            })
      | inr s ↦ rw (get_cached, f, s) j
    ])
  ]

  pub Grounded-verdict :
      (at : Moment) (raw_key : String) (found : Option ApiKey)
      → IsOrdered at
      → rows at.read (hash raw_key) ≡ ok found
      → Grounded
          (hash raw_key)
          (record { expires = at.finish + cache_ttl_s; value = verdict at.date raw_key found })
  Grounded-verdict at raw_key none i r ctx h = absurd (ground arith)
  Grounded-verdict at raw_key (some row) i r ctx h = elim (Bool-cases (is_refused at.date row)) [
    | inl bad ↦ absurd (ground arith)
    | inr good ↦ record {
      at = at;
      raw_key = raw_key;
      row = row;
      is_ordered = i;
      same = refl;
      was_read = r;
      not_revoked = revoked_at_none at.date row good;
      not_expired = expires_later at.date row good;
      context = some_injective (sym (rw good refl) ∙ h);
      fresh = omega arith;
    }
  ]

  -- What a look-up finds has its grounds.
  IsGrounded : Data (Option AuthContext) → Type 0
  IsGrounded d =
      (key : String) (e : Entry (Option AuthContext)) → find key d ≡ some e → Grounded key e

  IsGrounded-put_key :
      (key : String) (new : Entry (Option AuthContext)) (d : Data (Option AuthContext))
      → Grounded key new
      → IsGrounded d
      → IsGrounded (put_key key new d)
  unfolding IsGrounded
  IsGrounded-put_key key new d g j k e h = elim (Bool-cases (key == k)) [
    | inl f ↦ rw (← (eq_iff key k).0 f, ← found (if_true f)) g
    | inr f ↦ j k e (found_later f)
  ]
    where
      found : find k (put_key key new d) ≡ some new → new ≡ e
      found i = some_injective (sym i ∙ h)

      if_true : (key == k) ≡ true → find k (put_key key new d) ≡ some new
      if_true f = find-put_key key k new d ∙ rw f refl

      found_later : (key == k) ≡ false → find k d ≡ some e
      found_later f = sym (find-put_key key k new d ∙ rw f refl) ∙ h

  IsGrounded-if :
      (b : Bool) (d : Data (Option AuthContext)) → IsGrounded d → IsGrounded (if b then [] else d)
  unfolding IsGrounded find
  IsGrounded-if true d j = λ k e h. absurd (ground arith)
  IsGrounded-if false d j = j

  IsJustified-set_cached :
      (now : ℕ) (key : String) (v : Option AuthContext) (c : Cached)
      → Grounded key (record { expires = now + cache_ttl_s; value = v })
      → IsJustified c
      → IsJustified (set_cached now key v c)
  unfolding set_cached IsGrounded
  IsJustified-set_cached now key v c g j = record {
    ttl = j.ttl;
    grounded = rw j.ttl (IsGrounded-put_key key _ _ g (IsGrounded-if _ c.entries j.grounded));
  }

  pub IsJustified-settle_key :
      (at : Moment) (raw_key : String) (c : Cached)
      → IsOrdered at
      → IsJustified c
      → IsJustified (settle_key hash rows at raw_key c).1
  unfolding settle_key
  IsJustified-settle_key at raw_key c i j = elim (Outcome-cases (rows at.read (hash raw_key))) [
    | inr (message, r) ↦ rw (settle_key, r) j
    | inl (found, r) ↦
        rw (settle_key, r)
          (IsJustified-set_cached at.finish (hash raw_key) _ c
            (Grounded-verdict at raw_key found i r) j)
  ]

  pub IsJustified-play : (es : List Event) (c : Cached) → IsJustified c → IsJustified (play es c)
  unfolding after
  IsJustified-play [] c j = j
  IsJustified-play (looked now raw_key ∷ es) c j =
      IsJustified-play es _ (IsJustified-get_cached now (hash raw_key) c j)
  IsJustified-play (settled at i raw_key ∷ es) c j =
      IsJustified-play es _ (IsJustified-settle_key at raw_key c i j)
