-- ===== src/Backup/Extractor/Limited.antt =====
-- What `with_limit` makes of the queries that it accepts.
use sequel_ace_mcp.Prelude.{
  subst, if◌then◌else◌, ℕ, ◌≡◌, ◌≢◌, ◌⊎◌, inl, inr, refl, sym, ap, append-nil, Bool, true, false,
  ◌||◌, Option, none, some, List, [], ◌∷◌, ◌++◌, Text, text, ◌==◌, eq_iff, contains, All, Any,
  Bool-cases, Option-cases, arith,
}
use sequel_ace_mcp.Policy.Lexical.{to_ascii_lowercase}
use sequel_ace_mcp.Backup.Extractor.Limits.{
  strip_suffix, prefixed, trailing_lock_suffixes, limited, unlocked, behind, is_refused, with_limit,
}

prefixed-some :
    (c : ℕ) (o : Option Text) (b : Text)
    → prefixed c o ≡ some b
    → (rest : Text) × (o ≡ some rest) × (b ≡ c ∷ rest)
prefixed-some c none b h = absurd (ground arith)
prefixed-some c (some rest) b h = (rest, refl, ground arith)

strip_suffix-append : (s p base : Text) → strip_suffix s p ≡ some base → s ≡ base ++ p
unfolding strip_suffix
strip_suffix-append [] p base h = elim (Bool-cases (p == [])) [
  | inl e ↦ ground (arith, eq_iff p [])
  | inr n ↦ absurd (ground arith)
]
strip_suffix-append (c ∷ s) p base h = elim (Bool-cases ((c ∷ s) == p)) [
  | inl e ↦ ground (arith, eq_iff (c ∷ s) p)
  | inr n ↦
      let kept : prefixed c (strip_suffix s p) ≡ some base =
        subst (λ b. (if b then some [] else prefixed c (strip_suffix s p)) ≡ some base) n h in
      let (rest, e, shape) = prefixed-some c (strip_suffix s p) base kept in
      rw shape (ap (λ l. c ∷ l) (strip_suffix-append s p rest e))
]

prefixed-ne-none : (c : ℕ) (o : Option Text) → o ≢ none → prefixed c o ≢ none
prefixed-ne-none c none n e = n refl
prefixed-ne-none c (some rest) n e = absurd (ground arith)

-- A text that ends in `p` has it stripped.
strip_suffix-ne-none : (base p : Text) → strip_suffix (base ++ p) p ≢ none
unfolding strip_suffix
strip_suffix-ne-none [] [] = λ e. cc
strip_suffix-ne-none [] (c ∷ p) =
    rw ((eq_iff (c ∷ p) (c ∷ p)).1 refl) (λ (e : ◌≡◌ {A = Option Text} (some []) none). cc)
strip_suffix-ne-none (c ∷ base) p = elim (Bool-cases ((c ∷ (base ++ p)) == p)) [
  | inl e ↦ rw e (λ (k : ◌≡◌ {A = Option Text} (some []) none). cc)
  | inr n ↦ rw n (prefixed-ne-none c (strip_suffix (base ++ p) p) (strip_suffix-ne-none base p))
]

abbrev EndsIn : Text → Text → Type 0
EndsIn s p = (base : Text) × (s ≡ base ++ p)

strip_suffix-none : (s p : Text) → strip_suffix s p ≡ none → ¬ EndsIn s p
strip_suffix-none s p h (base, e) =
    strip_suffix-ne-none base p (subst (λ t. strip_suffix t p ≡ none) e h)

-- The parts of an accepted query: what stands before its lock clause, and that clause, which is only
-- missing where the query ends in none of them.
pub record IsLimited (s : Text) (n : ℕ) (t : Text) : Type 0 where
  pub base : Text
  pub lock : Text
  pub whole : s ≡ base ++ lock
  pub written : t ≡ limited base n lock
  pub a_lock :
      Any (λ l. lock ≡ l) trailing_lock_suffixes
      ⊎ ((lock ≡ []) × All (λ l. ¬ EndsIn s l) trailing_lock_suffixes)

unlocked-IsLimited :
    (s : Text) (n : ℕ) (t : Text)
    → All (λ l. ¬ EndsIn s l) trailing_lock_suffixes
    → unlocked s n ≡ some t
    → IsLimited s n t
unlocked-IsLimited s n t free h = record {
  base = s;
  lock = [];
  whole = sym (append-nil s);
  written = ground arith;
  a_lock = inr (refl, free);
}

-- The loop over the suffixes that are left, where the query ends in none of those before.
behind-IsLimited :
    (s : Text) (n : ℕ) (t : Text) (suffixes : List Text)
    → ((l : Text) → Any (λ x. l ≡ x) suffixes → Any (λ x. l ≡ x) trailing_lock_suffixes)
    → (All (λ l. ¬ EndsIn s l) suffixes → All (λ l. ¬ EndsIn s l) trailing_lock_suffixes)
    → behind s n suffixes ≡ some t
    → IsLimited s n t
behind-IsLimited s n t [] f g h = unlocked-IsLimited s n t (g tt) h
behind-IsLimited s n t (suffix ∷ suffixes) f g h = elim (Option-cases (strip_suffix s suffix)) [
  | inl e ↦
      behind-IsLimited s n t suffixes (λ l a. f l (inr a))
        (λ free. g (strip_suffix-none s suffix e, free))
        (subst
          (λ o.
            (elim o [ some base ↦ some (limited base n suffix) | none ↦ behind s n suffixes ])
            ≡ some t)
          e h)
  | inr (base, e) ↦
      let made : some (limited base n suffix) ≡ some t =
        subst
          (λ o.
            (elim o [ some b ↦ some (limited b n suffix) | none ↦ behind s n suffixes ]) ≡ some t)
          e h in
      record {
        base = base;
        lock = suffix;
        whole = strip_suffix-append s suffix base e;
        written = ground arith;
        a_lock = inl (f suffix (inl refl));
      }
]

or_left : (a b : Bool) → (a || b) ≡ false → a ≡ false
or_left true b h = absurd (ground arith)
or_left false b h = refl

passed : (a b : Bool) → (if a then true else b) ≡ false → (a ≡ false) × (b ≡ false)
passed true b h = absurd (ground arith)
passed false b h = (refl, h)

none_is_some : {t : Text} → ◌≡◌ {A = Option Text} none (some t) → ⊥
none_is_some e = cc

is_refused-false :
    (s : Text)
    → is_refused s ≡ false
    → (contains s (text ";") ≡ false) × (contains (to_ascii_lowercase s) (text " limit ") ≡ false)
unfolding is_refused
is_refused-false s k =
    let (no_semicolon, later) = passed _ _ k in
    let (no_limit, rest) = passed _ _ later in (no_semicolon, or_left _ _ no_limit)

abbrev WithTest : Text → ℕ → Text → Bool → Type 0
WithTest s n t b = (if b then none else behind s n trailing_lock_suffixes) ≡ some t

-- A query that `with_limit` accepts holds no semicolon and no LIMIT between spaces. If it ends in one
-- of the five lock clauses, written in capitals, the result is the query with the bound put before
-- that clause; if it ends in none of them, the bound stands behind the query.
pub with_limit-IsLimited :
    (s : Text) (n : ℕ) (t : Text)
    → with_limit s n ≡ some t
    → IsLimited s n t
      × (contains s (text ";") ≡ false)
      × (contains (to_ascii_lowercase s) (text " limit ") ≡ false)
unfolding with_limit
with_limit-IsLimited s n t h = elim (Bool-cases (is_refused s)) [
  | inl r ↦ absurd (none_is_some (subst (WithTest s n t) r h))
  | inr k ↦ (
    behind-IsLimited s n t trailing_lock_suffixes (λ l a. a) (λ a. a) (subst (WithTest s n t) k h),
    (is_refused-false s k).0,
    (is_refused-false s k).1,
  )
]
