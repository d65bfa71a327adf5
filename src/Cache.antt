-- ===== src/Cache.antt =====
-- app/infrastructure/cache.py: `SearchCache`. Redis and the `json` library are parameters; an answer
-- of either is a value or an exception, and every exception is caught.
use Prim.Native.String as Text
use ioka.Prelude.{ℕ, String, ◌≡◌, false, ◌==◌, Option, none, some, if◌then◌else◌}
use ioka.Json.{Fields, search_message}

-- What a call of a library ends with.
pub data Reply (A : Type 0) : Type 0 where
  answered : A → Reply A
  broken : Reply A

-- The commands GET, and SETEX with its time to live, on the server's state.
pub record Redis (R : Type 0) : Type 0 where
  pub get : String → R → Reply (Option String) × R
  pub setex : String → ℕ → String → R → Reply (Unit {0}) × R

pub record JsonLibrary : Type 0 where
  pub dumps : Fields → String
  pub loads : String → Reply Fields

pub record SearchCache (R : Type 0) : Type 0 where
  pub redis : Redis R
  pub json : JsonLibrary
  pub ttl_seconds : ℕ

abbrev pub prefixed : String → String
prefixed key = Text.◌++◌ "flight-search:" key

-- `json.loads(value) if value else None`, or `None` where it raises
abbrev pub parsed : Reply Fields → Option Fields
parsed (answered fields) = some fields
parsed broken = none

abbrev pub loaded : JsonLibrary → Reply (Option String) → Option Fields
loaded json (answered (some value)) = if value == "" then none else parsed (json.loads value)
loaded json (answered none) = none
loaded json broken = none

module _ {R : Type 0} (cache : SearchCache R) where
  unfoldable pub cache_get : String → R → Option Fields × R
  cache_get key r =
      let (reply, r') = cache.redis.get (prefixed key) r in (loaded cache.json reply, r')

  -- a failed write leaves what the server made of it
  unfoldable pub cache_set : String → Fields → R → R
  cache_set key value r =
      (cache.redis.setex (prefixed key) cache.ttl_seconds (cache.json.dumps value) r).1

  -- What the service relies on: a text that was written with the cache's time to live is read back,
  -- and `loads` reads what `dumps` writes for a search, which is not empty.
  pub record IsWorking : Type 0 where
    pub get-setex :
        (key value : String) (r : R)
        → cache.redis.get key (cache.redis.setex key cache.ttl_seconds value r).1
          ≡ (answered (some value), (cache.redis.setex key cache.ttl_seconds value r).1)
    pub loads-dumps :
        (search_id : String)
        → cache.json.loads (cache.json.dumps (search_message search_id))
          ≡ answered (search_message search_id)
    pub dumps_nonempty :
        (search_id : String) → (cache.json.dumps (search_message search_id) == "") ≡ false

  -- In a working cache the search that was set is found.
  pub cache_get-cache_set :
      IsWorking
      → (key search_id : String) (r : R)
      → cache_get key (cache_set key (search_message search_id) r)
        ≡ (some (search_message search_id), cache_set key (search_message search_id) r)
  unfolding cache_get cache_set
  cache_get-cache_set w key search_id r = rw (
    w.get-setex (prefixed key) (cache.json.dumps (search_message search_id)) r,
    w.dumps_nonempty search_id,
    w.loads-dumps search_id,
  )
