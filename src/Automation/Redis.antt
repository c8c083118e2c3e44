-- ===== src/Automation/Redis.antt =====
-- What the job store relies on of Redis: string keys, sets and sorted sets, each as a key space of its
-- own with the documented effect of its commands. Values are stored parsed. A key that expires is deleted
-- by a step of its own (`expire_key` in Automation/Queue).
use polygate.Prelude.{
  ℕ, ◌≡◌, false, ◌&&◌, ◌||◌, not, Option, none, some, List, String, str_eq, mem_text, leb,
  if◌then◌else◌, is_some,
}

-- GET, SET and DEL.
pub record Strings (V : Type 0) : Type 1 where
  pub Space : Type 0
  pub get : String → Space → Option V
  pub set : String → V → Space → Space
  pub del : String → Space → Space
  pub get_set :
      (k j : String) (v : V) (s : Space)
      → get j (set k v s) ≡ (if str_eq k j then some v else get j s)
  pub get_del :
      (k j : String) (s : Space) → get j (del k s) ≡ (if str_eq k j then none else get j s)

-- SMEMBERS, SADD and SREM.
pub record Sets : Type 1 where
  pub Space : Type 0
  pub smembers : Space → List String
  pub sadd : String → Space → Space
  pub srem : String → Space → Space
  pub smembers_sadd :
      (k j : String) (s : Space)
      → mem_text j (smembers (sadd k s)) ≡ (str_eq k j || mem_text j (smembers s))
  pub smembers_srem :
      (k j : String) (s : Space)
      → mem_text j (smembers (srem k s)) ≡ (not (str_eq k j) && mem_text j (smembers s))

-- ZSCORE, ZADD, ZREM, and the members in order of their scores.
pub record SortedSets : Type 1 where
  pub Space : Type 0
  pub zscore : String → Space → Option ℕ
  pub zadd : String → ℕ → Space → Space
  pub zrem : String → Space → Space
  pub zrangebyscore : ℕ → Space → List String
  pub zrevrange : Space → List String
  pub zscore_zadd :
      (k j : String) (n : ℕ) (s : Space)
      → zscore j (zadd k n s) ≡ (if str_eq k j then some n else zscore j s)
  pub zscore_zrem :
      (k j : String) (s : Space) → zscore j (zrem k s) ≡ (if str_eq k j then none else zscore j s)
  pub zrangebyscore_lem :
      (n : ℕ) (j : String) (s : Space)
      → mem_text j (zrangebyscore n s) ≡ (elim (zscore j s) [ none ↦ false | some t ↦ leb t n ])
  pub zrevrange_lem : (j : String) (s : Space) → mem_text j (zrevrange s) ≡ is_some (zscore j s)
