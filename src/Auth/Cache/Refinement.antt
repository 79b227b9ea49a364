-- ===== src/Auth/Cache/Refinement.antt =====
-- `_TTLCache` of app/services/auth.py against a memory that forgets by time, or all at once.
use ocr_service.Prelude.{
  ◌∙◌, eq_iff, ℕ, ◌+◌, ◌≤◌, ◌≡◌, refl, String, Option, none, some, List, [], ◌∷◌, ltb, leb, length,
  ◌==◌, string_eq, if◌then◌else◌, arith, Bool-cases, Option-cases, inl, inr,
}
use ocr_service.Auth.Cache.{
  Entry, Data, TtlCache, new_cache, find, drop_key, put_key, get_cached, set_cached, clear_cache,
}

pub data Op (V : Type 0) : Type 0 where
  get : String → Op V
  set : String → V → Op V
  wipe : Op V

-- What was last set under each key, with the time after which it is stale.
abbrev pub Memory : Type 0 → Type 0
Memory V = String → Option (Entry V)

module _ {V : Type 0} where
  abbrev pub recall : ℕ → Option (Entry V) → Option V
  recall now none = none
  recall now (some e) = if ltb e.expires now then none else some e.value

  abbrev pub remember : String → Entry V → Memory V → Memory V
  remember key e m k = if key == k then some e else m k

  abbrev pub blank : Memory V
  blank key = none

  -- One operation of the cache, with its answer.
  unfoldable pub perform : ℕ → Op V → TtlCache V → Option V × TtlCache V
  unfolding get_cached set_cached
  perform now (get key) c = get_cached now key c
  perform now (set key v) c = (none, set_cached now key v c)
  perform now wipe c = (none, clear_cache c)

  abbrev pub perform_all : List (ℕ × Op V) → TtlCache V → List (Option V) × TtlCache V
  perform_all [] c = ([], c)
  perform_all ((now, op) ∷ ops) c =
      let (answer, d) = perform now op c in
      let (answers, e) = perform_all ops d in (answer ∷ answers, e)

-- What a memory may do: it answers with the last value set under the key, while that is fresh; it
-- may forget everything before a value is set.
pub data Step {V : Type 0} (ttl now : ℕ) : Op V → Option V → Memory V → Memory V → Type 0 where
  answers : (key : String) (m : Memory V) → Step ttl now (get key) (recall now (m key)) m m
  keeps :
      (key : String) (v : V) (m : Memory V)
      → Step ttl now (set key v) none m (remember key (record { expires = now + ttl; value = v }) m)
  forgets :
      (key : String) (v : V) (m : Memory V)
      → Step ttl now
          (set key v)
          none
          m
          (remember key (record { expires = now + ttl; value = v }) blank)
  clears : (m : Memory V) → Step ttl now wipe none m blank

-- Operations at their times, with their answers.
pub data Run {V : Type 0} (ttl : ℕ) : List (ℕ × Op V) → List (Option V) → Memory V → Type 0 where
  done : (m : Memory V) → Run ttl [] [] m
  next :
      (now : ℕ) (op : Op V) (ops : List (ℕ × Op V)) (a : Option V) (given : List (Option V))
      (m n : Memory V)
      → Step ttl now op a m n
      → Run ttl ops given n
      → Run ttl ((now, op) ∷ ops) (a ∷ given) m

-- The times never go back.
abbrev pub IsTimed : {V : Type 0} → ℕ → List (ℕ × Op V) → Type 0
IsTimed t [] = Unit
IsTimed t ((now, op) ∷ ops) = (t ≤ now) × IsTimed now ops

module _ {V : Type 0} where
  pub find-drop_key :
      (key k : String) (d : Data V)
      → find k (drop_key key d) ≡ (if key == k then none else find k d)
  unfolding find drop_key
  find-drop_key key k [] = ground arith
  find-drop_key key k ((j, e) ∷ d) =
      ground (arith, find-drop_key key k d, eq_iff key k, eq_iff j key, eq_iff j k)

  pub find-put_key :
      (key k : String) (e : Entry V) (d : Data V)
      → find k (put_key key e d) ≡ (if key == k then some e else find k d)
  unfolding find put_key
  find-put_key key k e [] = refl
  find-put_key key k e ((j, f) ∷ d) =
      ground (arith, find-put_key key k e d, eq_iff key k, eq_iff j key, eq_iff j k)

  -- From a time on, the cache and the memory give the same values.
  abbrev Matches : ℕ → TtlCache V → Memory V → Type 0
  Matches t c m =
      (key : String) (now : ℕ) → t ≤ now → recall now (find key c.entries) ≡ recall now (m key)

  Matches-get_cached :
      (t now : ℕ) (key : String) (c : TtlCache V) (m : Memory V)
      → t ≤ now
      → Matches t c m
      → Matches now (get_cached now key c).1 m
  unfolding get_cached
  Matches-get_cached t now key c m le h k u lu = elim (Option-cases (find key c.entries)) [
    | inl f ↦ rw (get_cached, f) (h k u (omega (arith, le, lu)))
    | inr (e, f) ↦
        rw (get_cached, f)
          (ground (arith, h k u, h key u, find-drop_key key k c.entries, eq_iff key k))
  ]

  get_cached-recall :
      (t now : ℕ) (key : String) (c : TtlCache V) (m : Memory V)
      → t ≤ now
      → Matches t c m
      → (get_cached now key c).0 ≡ recall now (m key)
  unfolding get_cached
  get_cached-recall t now key c m le h = elim (Option-cases (find key c.entries)) [
    | inl f ↦ rw (get_cached, f) (ground (arith, h key now le))
    | inr (e, f) ↦ rw (get_cached, f) (ground (arith, h key now le))
  ]

  if_recall :
      (now u : ℕ) (key k : String) (v : V) (c : TtlCache V) (m : Memory V)
      → recall u (find k c.entries) ≡ recall u (m k)
      → recall u (
          if key == k then some (record { expires = now + c.ttl; value = v }) else find k c.entries)
        ≡ recall u (remember key (record { expires = now + c.ttl; value = v }) m k)
  if_recall now u key k v c m h = elim (Bool-cases (key == k)) [
    | inl f ↦ rw f refl
    | inr f ↦ rw f h
  ]

  Matches-set_cached :
      (t now : ℕ) (key : String) (v : V) (c : TtlCache V) (m : Memory V)
      → t ≤ now
      → Matches t c m
      → (n : Memory V) × Step c.ttl now (set key v) none m n
        × Matches now (set_cached now key v c) n
  unfolding set_cached
  Matches-set_cached t now key v c m le h = elim (Bool-cases (leb c.maxsize (length c.entries))) [
    | inl full ↦ (
      remember key (record { expires = now + c.ttl; value = v }) blank,
      forgets key v m,
      λ k u lu. rw (set_cached, full) (unfold find put_key in refl),
    )
    | inr room ↦ (
      remember key (record { expires = now + c.ttl; value = v }) m,
      keeps key v m,
      λ k u lu.
          rw (set_cached, room, find-put_key key k _ c.entries)
            (if_recall now u key k v c m (h k u (omega (arith, le, lu)))),
    )
  ]

  Matches-perform :
      (t now : ℕ) (op : Op V) (c : TtlCache V) (m : Memory V)
      → t ≤ now
      → Matches t c m
      → (n : Memory V) × Step c.ttl now op (perform now op c).0 m n
        × Matches now (perform now op c).1 n
  unfolding perform
  Matches-perform t now (get key) c m le h = (
    m,
    rw (get_cached-recall t now key c m le h) (answers key m),
    Matches-get_cached t now key c m le h,
  )
  Matches-perform t now (set key v) c m le h = Matches-set_cached t now key v c m le h
  Matches-perform t now wipe c m le h = (blank, clears m, λ k u lu. unfold find in refl)

  pub ttl-perform : (now : ℕ) (op : Op V) (c : TtlCache V) → (perform now op c).1.ttl ≡ c.ttl
  unfolding perform get_cached set_cached
  ttl-perform now (get key) c = elim (Option-cases (find key c.entries)) [
    | inl f ↦ rw (get_cached, f) refl
    | inr (e, f) ↦ rw (get_cached, f) (ground arith)
  ]
  ttl-perform now (set key v) c = refl
  ttl-perform now wipe c = refl

  Run-perform_all :
      (t ttl : ℕ) (ops : List (ℕ × Op V)) (c : TtlCache V) (m : Memory V)
      → c.ttl ≡ ttl
      → IsTimed t ops
      → Matches t c m
      → Run ttl ops (perform_all ops c).0 m
  Run-perform_all t ttl [] c m e i h = done m
  Run-perform_all t ttl ((now, op) ∷ ops) c m e i h =
      next now op ops _ _ m (stepped.0) (rw (← e) (stepped.1)) (
        Run-perform_all now ttl ops (perform now op c).1 stepped.0 (ttl-perform now op c ∙ e) i.1
          stepped.2)
    where
      stepped :
          (n : Memory V) × Step c.ttl now op (perform now op c).0 m n
          × Matches now (perform now op c).1 n
      stepped = Matches-perform t now op c m i.0 h

  -- Whatever is done with a new cache, at times that never go back, its answers are those of a memory
  -- that holds the last value set under each key for `ttl`, and that forgets only all at once, just
  -- before a value is set or when it is cleared.
  pub perform_all-Run :
      (ttl maxsize : ℕ) (ops : List (ℕ × Op V))
      → IsTimed 0 ops
      → Run ttl ops (perform_all ops (new_cache ttl maxsize)).0 blank
  perform_all-Run ttl maxsize ops i =
      Run-perform_all 0 ttl ops (new_cache ttl maxsize) blank refl i (λ k u lu. unfold find in refl)
