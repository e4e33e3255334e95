-- ===== src/Sql/Pool/Bounds.antt =====
-- src/sql/pool.rs: how many pools the cache holds.
use sequel_ace_mcp.Prelude.{
  ◌≤◌, inl, inr, Option, none, some, List, [], ◌∷◌, Text, ◌==◌, length, length-retain, Bool-cases,
  arith,
}
use sequel_ace_mcp.Prelude.Assoc.{lookup, insert, remove, text_eq}
use sequel_ace_mcp.Sql.Pool.{
  max_pools, PoolEntry, Pools, insert_within, publish_over, publish, evict_by_generation, Call,
  publishes, evicts, invalidates, step, run,
}

length-remove : (k : Text) (m : Pools) → length (remove k m) ≤ length m
unfolding remove
length-remove k [] = omega arith
length-remove k ((j, v) ∷ m) = ground (arith, length-remove k m)

length-insert_within :
    (k : Text) (e : PoolEntry) (m : Pools)
    → length m ≤ max_pools
    → length (insert_within k e m).0 ≤ max_pools
unfolding insert
length-insert_within k e m h = ground (arith, length-remove k m)

length-publish_over :
    (k : Text) (e : PoolEntry) (o : Option PoolEntry) (m : Pools)
    → length m ≤ max_pools
    → length (publish_over k e o m).0 ≤ max_pools
length-publish_over k e none m h = length-insert_within k e m h
length-publish_over k e (some old) m h = elim (Bool-cases (old.generation == e.generation)) [
  | inl same ↦ rw same h
  | inr rotated ↦
      rw rotated (length-insert_within k e (remove k m) (omega (arith, length-remove k m)))
]

length-step : (m : Pools) (c : Call) → length m ≤ max_pools → length (step m c) ≤ max_pools
unfolding publish evict_by_generation
length-step m (publishes k e) h = length-publish_over k e (lookup k m) m h
length-step m (evicts g) h = omega (arith, length-retain {0} _ m)
length-step m invalidates h = omega arith

length-run_from :
    (m : Pools) (cs : List Call) → length m ≤ max_pools → length (run m cs) ≤ max_pools
unfolding run
length-run_from m [] h = h
length-run_from m (c ∷ cs) h = length-run_from (step m c) cs (length-step m c h)

-- From an empty cache, after any publications, evictions and invalidations at most 16 pools are held.
pub length-run : (cs : List Call) → length (run [] cs) ≤ max_pools
length-run cs = length-run_from [] cs (omega arith)
