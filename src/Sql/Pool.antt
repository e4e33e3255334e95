-- ===== src/Sql/Pool.antt =====
-- src/sql/pool.rs: the cache of verified pools. A call that finds no pool opens one and proves it outside
-- the lock, then publishes it under the lock, so an execution is a sequence of these steps in any
-- order. A pool is its number; a credential generation is its sixteen bytes.
pub mod Bounds
pub mod Served
use sequel_ace_mcp.Prelude.{
  ℕ, Bool, true, false, not, Option, none, some, List, [], ◌∷◌, ◌++◌, map, Text, ◌==◌, eqb, leb,
  if◌then◌else◌, length, retain, or_else, unwrap_or,
}
use sequel_ace_mcp.Prelude.Assoc.{Assoc, lookup, insert, remove, text_eq}
use sequel_ace_mcp.Approval.Canonical.{join}
use sequel_ace_mcp.Ssh.Splitting.{display}

abbrev pub max_pools : ℕ
max_pools = 16

pub record PoolEntry : Type 0 where
  pub pool : ℕ
  pub generation : Text
  pub tunnel_generation : Option ℕ

abbrev pub Pools : Type 0
Pools = Assoc Text PoolEntry

-- What the key takes of a connection.
pub record Endpoint : Type 0 where
  pub name : Text
  pub host : Text
  pub port : ℕ
  pub user : Text
  pub database : Option Text
  pub ssl : Bool
  pub ssl_server_name : Option Text

abbrev shown : Option ℕ → Text
shown none = []
shown (some g) = display g

abbrev flag : Bool → Text
flag true = b't' ∷ b'r' ∷ b'u' ∷ b'e' ∷ []
flag false = b'f' ∷ b'a' ∷ b'l' ∷ b's' ∷ b'e' ∷ []

unfoldable pub config_key : Endpoint → Option Text → ℕ → Option Text → Option ℕ → Option ℕ → Text
unfolding display join
config_key conn database revision host_override port_override tunnel_generation = join (1 ∷ []) (
    conn.name
    ∷ unwrap_or host_override conn.host
    ∷ display (unwrap_or port_override conn.port)
    ∷ conn.user
    ∷ unwrap_or (or_else database conn.database) []
    ∷ flag conn.ssl
    ∷ unwrap_or conn.ssl_server_name []
    ∷ display revision
    ∷ shown tunnel_generation
    ∷ [])

-- The pool of an entry whose credential is the given one.
abbrev pub matching : Text → Option PoolEntry → Option ℕ
matching generation none = none
matching generation (some e) = if e.generation == generation then some e.pool else none

-- The fast path of `verified_pool`.
unfoldable pub find_pool : Text → Text → Pools → Option ℕ
unfolding lookup
find_pool key generation pools = matching generation (lookup key pools)

pub data Published : Type 0 where
  pool : ℕ → Published
  cache_full : ℕ → Published

abbrev pub insert_within : Text → PoolEntry → Pools → Pools × Published
insert_within key e pools =
    if leb max_pools (length pools)
    then (pools, cache_full (length pools))
    else (insert key e pools, pool e.pool)

abbrev pub publish_over : Text → PoolEntry → Option PoolEntry → Pools → Pools × Published
publish_over key e none pools = insert_within key e pools
publish_over key e (some old) pools =
    if old.generation == e.generation
    then (pools, pool old.pool)
    else insert_within key e (remove key pools)

-- The slow path of `verified_pool`, from its second lock on; `e` holds the candidate.
unfoldable pub publish : Text → PoolEntry → Pools → Pools × Published
unfolding lookup insert remove
publish key e pools = publish_over key e (lookup key pools) pools

abbrev pub rides : ℕ → Option ℕ → Bool
rides generation none = false
rides generation (some g) = eqb g generation

-- `evict_by_generation`, with how many it removes.
unfoldable pub evict_by_generation : ℕ → Pools → Pools × ℕ
evict_by_generation generation pools = (
  retain (λ kv. not (rides generation kv.1.tunnel_generation)) pools,
  length (retain (λ kv. rides generation kv.1.tunnel_generation) pools),
)

pub data Call : Type 0 where
  publishes : (key : Text) → PoolEntry → Call
  evicts : ℕ → Call
  invalidates : Call

abbrev pub step : Pools → Call → Pools
step pools (publishes key e) = (publish key e pools).0
step pools (evicts generation) = (evict_by_generation generation pools).0
step pools invalidates = []

unfoldable pub run : Pools → List Call → Pools
unfolding publish evict_by_generation
run pools [] = pools
run pools (c ∷ calls) = run (step pools c) calls
