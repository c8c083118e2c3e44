-- ===== src/Gateway/Cache.antt =====
-- The cache of answers with its lazy reconnection: `Cache` (gateway/app/cache.py). The Redis client is what
-- it answers: whether a connection attempt at a time succeeds, and what a read or a write then does.
use polygate.Prelude.{
  ℕ, ◌+◌, ◌≡◌, Bool, false, not, ◌&&◌, Option, none, some, List, [], ◌∷◌, String, ltb, arith,
  if◌then◌else◌, Bool-cases, inl, inr, str_eq, subst,
}

-- What a command of the client answers: a value, or a `RedisError`.
pub data Fetched : Type 0 where
  fetched : Option String → Fetched
  redis_error : Fetched

-- The state of the cache; times are on the monotonic clock.
pub record Cache : Type 0 where
  pub connected : Bool
  pub last_attempt : Option ℕ

-- An operation at a time, with the answer of the client.
pub data CacheCall : Type 0 where
  get_call : ℕ → Fetched → CacheCall
  set_call : ℕ → Bool → CacheCall
  enabled_call : ℕ → CacheCall

module _ {V : Type 0} (backoff : ℕ) (connects : ℕ → Bool) (parse : String → Option V) where
  abbrev pub backs_off : ℕ → Option ℕ → Bool
  backs_off now none = false
  backs_off now (some t) = ltb now (t + backoff)

  -- Whether `_get_client` tries to connect.
  abbrev pub tries : ℕ → Cache → Bool
  tries now c = not c.connected && not (backs_off now c.last_attempt)

  -- `_get_client`
  unfoldable pub get_client : ℕ → Cache → Bool × Cache
  get_client now c =
      if tries now c
      then (connects now, record { connected = connects now; last_attempt = some now })
      else (c.connected, c)

  -- `__init__`
  unfoldable pub new_cache : ℕ → Cache
  unfolding get_client
  new_cache now = (get_client now (record { connected = false; last_attempt = none })).1

  -- `_invalidate`
  abbrev pub invalidate : Cache → Cache
  invalidate c = record c { connected = false }

  abbrev pub read_value : Option String → Option V
  read_value none = none
  read_value (some raw) = if str_eq raw "" then none else parse raw

  -- `get`: a value, or a miss whatever goes wrong.
  unfoldable pub cache_get : ℕ → Fetched → Cache → Option V × Cache
  cache_get now answer c =
      let (usable, d) = get_client now c in
      if usable
      then (elim answer [ redis_error ↦ (none, invalidate d) | fetched o ↦ (read_value o, d) ])
      else (none, d)

  -- `set`
  unfoldable pub cache_set : ℕ → Bool → Cache → Cache
  cache_set now works c =
      let (usable, d) = get_client now c in if usable && not works then invalidate d else d

  abbrev pub time_of : CacheCall → ℕ
  time_of (get_call now answer) = now
  time_of (set_call now works) = now
  time_of (enabled_call now) = now

  abbrev pub after_call : CacheCall → Cache → Cache
  after_call (get_call now answer) c = (cache_get now answer c).1
  after_call (set_call now works) c = cache_set now works c
  after_call (enabled_call now) c = (get_client now c).1

  -- The times at which calls try to connect.
  unfoldable pub attempt_times : List CacheCall → Cache → List ℕ
  attempt_times [] c = []
  attempt_times (x ∷ xs) c =
      let later = attempt_times xs (after_call x c) in
      if tries (time_of x) c then time_of x ∷ later else later

  -- Each time at least the window after the one before.
  abbrev pub AreSpaced : Option ℕ → List ℕ → Type 0
  AreSpaced before [] = Unit
  AreSpaced before (t ∷ ts) = (backs_off t before ≡ false) × AreSpaced (some t) ts

  -- A call leaves the time of its attempt, or the time before.
  after_call-last_attempt :
      (x : CacheCall) (c : Cache)
      → (after_call x c).last_attempt
        ≡ (if tries (time_of x) c then some (time_of x) else c.last_attempt)
  unfolding cache_get cache_set get_client
  after_call-last_attempt (get_call now redis_error) c = ground arith
  after_call-last_attempt (get_call now (fetched o)) c = ground arith
  after_call-last_attempt (set_call now works) c = ground arith
  after_call-last_attempt (enabled_call now) c = ground arith

  -- Whatever operations come, whatever they answer and whenever they come, two attempts to connect
  -- are never closer than the backoff window.
  pub attempt_times-AreSpaced :
      (xs : List CacheCall) (c : Cache) → AreSpaced c.last_attempt (attempt_times xs c)
  unfolding attempt_times
  attempt_times-AreSpaced [] c = tt
  attempt_times-AreSpaced (x ∷ xs) c = elim (Bool-cases (tries (time_of x) c)) [
    | inl y ↦
        let e : (after_call x c).last_attempt ≡ some (time_of x) =
          rw y at (after_call-last_attempt x c) in
        let more : AreSpaced (some (time_of x)) (attempt_times xs (after_call x c)) =
          subst (λ o. AreSpaced o (attempt_times xs (after_call x c))) e
            (attempt_times-AreSpaced xs (after_call x c)) in
        rw (y, attempt_times) (ground arith, more)
    | inr n ↦
        let e : (after_call x c).last_attempt ≡ c.last_attempt =
          rw n at (after_call-last_attempt x c) in
        let more : AreSpaced c.last_attempt (attempt_times xs (after_call x c)) =
          subst (λ o. AreSpaced o (attempt_times xs (after_call x c))) e
            (attempt_times-AreSpaced xs (after_call x c)) in
        rw (n, attempt_times) more
  ]
