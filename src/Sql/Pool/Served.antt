-- ===== src/Sql/Pool/Served.antt =====
-- src/sql/pool.rs: which pool a caller gets from the cache.
use sequel_ace_mcp.Prelude.{
  ℕ, ◌≡◌, refl, sym, subst, true, false, Option, none, some, List, [], ◌∷◌, ◌++◌, Text, ◌==◌,
  eq_iff, leb, length, not, Bool-cases, Option-cases, arith, ◌⊎◌, inl, inr, All, All-append,
  All-map, All-retain_test, append_assoc, append-nil,
}
use sequel_ace_mcp.Prelude.Assoc.{lookup, remove, text_eq, All-remove, All-insert, All-lookup}
use sequel_ace_mcp.Sql.Pool.{
  max_pools, PoolEntry, Pools, rides, find_pool, insert_within, publish_over, publish,
  evict_by_generation, Call, publishes, evicts, invalidates, step, run,
}

-- The call publishes the entry under the key.
abbrev pub Makes : Text × PoolEntry → Call → Type 0
Makes (k, e) (publishes key candidate) = (k ≡ key) × (e ≡ candidate)
Makes (k, e) _ = ⊥

-- The call neither empties the cache nor retires the entry's tunnel.
abbrev pub Spares : PoolEntry → Call → Type 0
Spares e (publishes key candidate) = Unit
Spares e (evicts g) = rides g e.tunnel_generation ≡ false
Spares e invalidates = ⊥

-- Some call published the entry, and all calls after it spare it.
abbrev pub IsLive : Text × PoolEntry → List Call → Type 0
IsLive x [] = ⊥
IsLive x (c ∷ cs) = (Makes x c × All (Spares x.1) cs) ⊎ IsLive x cs

IsLive-snoc :
    (x : Text × PoolEntry) (history : List Call) (c : Call)
    → Spares x.1 c
    → IsLive x history
    → IsLive x (history ++ c ∷ [])
IsLive-snoc x [] c s h = absurd h
IsLive-snoc x (b ∷ history) c s (inl (made, spared)) =
    inl (made, All-append _ history (c ∷ []) spared (s, tt))
IsLive-snoc x (b ∷ history) c s (inr h) = inr (IsLive-snoc x history c s h)

IsLive-new :
    (x : Text × PoolEntry) (history : List Call) (c : Call)
    → Makes x c
    → IsLive x (history ++ c ∷ [])
IsLive-new x [] c m = inl (m, tt)
IsLive-new x (b ∷ history) c m = inr (IsLive-new x history c m)

-- Every entry is live.
abbrev Serves : List Call → Pools → Type 0
Serves history m = All (λ x. IsLive x history) m

module _ (P : Text × PoolEntry → Type 0) (k : Text) (e : PoolEntry) (new : P (k, e)) where
  All-insert_within : (m : Pools) → All P m → All P (insert_within k e m).0
  All-insert_within m h = elim (Bool-cases (leb max_pools (length m))) [
    | inl full ↦ rw full h
    | inr room ↦ rw room (All-insert P k e m new h)
  ]

  All-publish_over : (o : Option PoolEntry) (m : Pools) → All P m → All P (publish_over k e o m).0
  All-publish_over none m h = All-insert_within m h
  All-publish_over (some old) m h = elim (Bool-cases (old.generation == e.generation)) [
    | inl same ↦ rw same h
    | inr rotated ↦ rw rotated (All-insert_within (remove k m) (All-remove P k m h))
  ]

rides-kept : (g : ℕ) (o : Option ℕ) → not (rides g o) ≡ true → rides g o ≡ false
rides-kept g o h = elim (Bool-cases (rides g o)) [
  | inl rode ↦ absurd (ground arith)
  | inr kept ↦ kept
]

Serves-step :
    (history : List Call) (m : Pools) (c : Call)
    → Serves history m
    → Serves (history ++ c ∷ []) (step m c)
unfolding publish evict_by_generation
Serves-step history m (publishes k e) h =
    All-publish_over _ k e (IsLive-new _ history (publishes k e) (refl, refl)) (lookup k m) m
      (All-map (λ x. IsLive x history) _ m (λ x. IsLive-snoc x history (publishes k e) tt) h)
Serves-step history m (evicts g) h =
    All-retain_test (λ x. IsLive x history) _ _ m
      (λ x l kept. IsLive-snoc x history (evicts g) (rides-kept g x.1.tunnel_generation kept) l) h
Serves-step history m invalidates h = tt

Serves-run :
    (history cs : List Call) (m : Pools) → Serves history m → Serves (history ++ cs) (run m cs)
unfolding run
Serves-run history [] m h = subst (λ l. Serves l m) (sym (append-nil history)) h
Serves-run history (c ∷ cs) m h =
    subst (λ l. Serves l (run m (c ∷ cs))) (append_assoc history (c ∷ []) cs)
      (Serves-run (history ++ c ∷ []) cs (step m c) (Serves-step history m c h))

-- The entry behind a found pool.
Found : Text → Text → Pools → ℕ → PoolEntry → Type 0
Found key generation m p e = (lookup key m ≡ some e) × (e.pool ≡ p) × (e.generation ≡ generation)

find_pool-Found :
    (key generation : Text) (m : Pools) (p : ℕ)
    → find_pool key generation m ≡ some p
    → (e : PoolEntry) × Found key generation m p e
unfolding find_pool Found
find_pool-Found key generation m p h = elim (Option-cases (lookup key m)) [
  | inl missing ↦ absurd (ground arith)
  | inr (e, found) ↦ elim (Bool-cases (e.generation == generation)) [
    | inl same ↦ (e, (found, ground arith, (eq_iff e.generation generation).0 same))
    | inr other ↦ absurd (ground arith)
  ]
]

-- If after any calls on an empty cache the fast path finds a pool, then one of those calls published
-- that pool under the same key and with the presented credential's generation, and no call after it
-- retired the tunnel that the pool rides or emptied the cache.
pub find_pool-IsLive :
    (cs : List Call) (key generation : Text) (p : ℕ)
    → find_pool key generation (run [] cs) ≡ some p
    → (e : PoolEntry) × (e.pool ≡ p) × (e.generation ≡ generation) × IsLive (key, e) cs
unfolding Found
find_pool-IsLive cs key generation p h =
    let (e, found) = find_pool-Found key generation (run [] cs) p h in
    let live = All-lookup _ key (run [] cs) e found.0 (Serves-run [] cs [] tt) in
    (e, found.1, found.2, live)
