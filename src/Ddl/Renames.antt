-- ===== src/Ddl/Renames.antt =====
-- The preflight of a chain of renamings in src/sql/ddl.rs, and the server that runs it.
use sequel_ace_mcp.Prelude.{
  ℕ, ◌+◌, ◌≤◌, ◌≡◌, ◌⊎◌, refl, ap, sym, ◌∙◌, subst, Bool, true, false, Option, none, some, List, [],
  ◌∷◌, ◌++◌, Text, text, if◌then◌else◌, unwrap_or, or_else, retain, arith, Bool-cases, inl, inr,
}
use sequel_ace_mcp.Policy.Model.{ddl}
use sequel_ace_mcp.Policy.Statement.{TableRef, ClassifiedStatement}
use sequel_ace_mcp.Ddl.Rewrite.{Target}
use sequel_ace_mcp.Ddl.Preflight.{
  DdlPreflight, present, in_the_way, no_source, Result, ok, err, panicked, ◌>>=◌, target_eq,
  resolve_target, Known, find, is_other, known_or, is_nil, chunks, preflight_ddl, rename_step,
  renames,
}
use sequel_ace_mcp.Ddl.Chain.{
  rename, chain, resolve_all, mentions, target_eq_iff, target_eq_refl, target_ne, find-rename_step,
}

-- The two steps of a chain that gives a value.
ok_parts {κ ℓ} :
    {X : Type κ} {Y : Type ℓ} {y : Y} (next : X → Result Y) (first : Result X)
    → ok y ≡ (first >>= next)
    → (x : X) × (ok y ≡ next x) × (ok x ≡ first)
ok_parts next panicked e = cc
ok_parts next (err problem) e = cc
ok_parts next (ok x) e = (x, e, refl)

or_else-none : (o : Option Bool) → or_else o none ≡ o
or_else-none none = refl
or_else-none (some p) = refl

unknown_of : {P : Type 0} {n : ℕ} → (n ≤ 1) ⊎ (P × (n ≤ 2)) → 2 ≤ n → P
unknown_of (inl few) h = absurd (omega arith)
unknown_of (inr (p, few)) h = p

at_most : {P : Type 0} {n m : ℕ} → (n ≤ 1) ⊎ (P × (n ≤ 2)) → m + 1 ≤ n → m ≤ 1
at_most (inl few) h = omega arith
at_most (inr (p, few)) h = omega arith

module _ (table_exists : Target → Result Bool) (exists : Target → Bool) where
  -- What is known agrees with the tables, for each table that the rest of the chain names.
  abbrev Agrees : Known → (Target → Bool) → List (Target × Target) → Type 0
  Agrees known now ids =
      (t : Target) → 1 ≤ mentions t ids → unwrap_or (find t known) (exists t) ≡ now t

  -- A table that is named once more at most if it is known, and twice if not.
  abbrev HasRoom : Known → List (Target × Target) → Type 0
  HasRoom known ids =
      (t : Target) → (mentions t ids ≤ 1) ⊎ ((find t known ≡ none) × (mentions t ids ≤ 2))

  known_or_lem :
      ((t : Target) → table_exists t ≡ ok (exists t))
      → (t : Target) (o : Option Bool) → known_or table_exists t o ≡ ok (unwrap_or o (exists t))
  known_or_lem answers t none = answers t
  known_or_lem answers t (some p) = refl

  rename_step_lem :
      ((t : Target) → table_exists t ≡ ok (exists t))
      → (known : Known) (now : Target → Bool) (src dst : Target) (ids : List (Target × Target))
      → Agrees known now ((src, dst) ∷ ids)
      → rename_step table_exists known src dst ≡ (
          if now src
          then if now dst
            then err (in_the_way dst)
            else ok (retain (is_other src) known ++ (src, false) ∷ (dst, true) ∷ [])
          else err (no_source src))
  unfolding rename_step
  rename_step_lem answers known now src dst ids agrees =
      let s =
        known_or_lem answers src (find src known)
        ∙ ap ok (agrees src (ground (arith, target_eq_refl src))) in
      let d =
        known_or_lem answers dst (find dst known)
        ∙ ap ok (agrees dst (ground (arith, target_eq_refl dst))) in
      elim (Bool-cases (now src)) [
        | inl a ↦ elim (Bool-cases (now dst)) [
          | inl b ↦ rw (a, b) (rw (s, a) (rw (d, b) refl))
          | inr b ↦ rw (a, b) (rw (s, a) (rw (d, b) refl))
        ]
        | inr a ↦ rw a (rw (s, a) refl)
      ]

  Agrees-rename :
      (known : Known) (now : Target → Bool) (src dst : Target) (ids : List (Target × Target))
      → Agrees known now ((src, dst) ∷ ids)
      → HasRoom known ((src, dst) ∷ ids)
      → now src ≡ true
      → now dst ≡ false
      → Agrees
          (retain (is_other src) known ++ (src, false) ∷ (dst, true) ∷ [])
          (rename now src dst)
          ids
  Agrees-rename known now src dst ids agrees room a b t named =
      let found = find-rename_step t src dst known in
      elim (Bool-cases (target_eq dst t)) [
        | inl d ↦
            (let dst_t : dst ≡ t = (target_eq_iff dst t).0 d in
              let s : target_eq src t ≡ false = target_ne src t (λ q. cc) in
              let unknown : find t known ≡ none = unknown_of (room t) (ground arith) in
              rw d (rw (rw (s, d) at found) (rw unknown refl)))
        | inr d ↦ elim (Bool-cases (target_eq src t)) [
          | inl s ↦ rw (d, s) (rw (rw s at found) refl)
          | inr s ↦
              (let k = or_else-none (find t known) in
                rw (d, s) (rw (rw (s, d) at found) (rw k (agrees t (omega arith)))))
        ]
      ]

  HasRoom-rename :
      (known : Known) (src dst : Target) (ids : List (Target × Target))
      → HasRoom known ((src, dst) ∷ ids)
      → HasRoom (retain (is_other src) known ++ (src, false) ∷ (dst, true) ∷ []) ids
  HasRoom-rename known src dst ids room t =
      let found = find-rename_step t src dst known in
      elim (Bool-cases (target_eq src t)) [
        | inl s ↦ inl (at_most (room t) (ground arith))
        | inr s ↦ elim (Bool-cases (target_eq dst t)) [
          | inl d ↦ inl (at_most (room t) (ground arith))
          | inr d ↦ elim (room t) [
            | inl few ↦ inl (ground arith)
            | inr (unknown, few) ↦
                inr ((rw (s, d) at found) ∙ or_else-none (find t known) ∙ unknown, ground arith)
          ]
        ]
      ]

  pub renames_cons :
      (fallback_db : Option Text) (known : Known) (src dst : TableRef)
      (pairs : List (TableRef × TableRef)) (s d : Target)
      → resolve_target fallback_db src ≡ ok s
      → resolve_target fallback_db dst ≡ ok d
      → renames table_exists fallback_db known ((src, dst) ∷ pairs)
        ≡ (rename_step table_exists known s d >>= λ k. renames table_exists fallback_db k pairs)
  unfolding renames
  renames_cons fallback_db known src dst pairs s d p q = rw (p, q) refl

  renames-chain_step :
      ((t : Target) → table_exists t ≡ ok (exists t))
      → (go : Known → Result DdlPreflight) (known : Known) (now : Target → Bool) (s d : Target)
        (rest : List (Target × Target))
      → Agrees known now ((s, d) ∷ rest)
      → HasRoom known ((s, d) ∷ rest)
      → ((k : Known) (n : Target → Bool) → Agrees k n rest → HasRoom k rest → go k ≡ chain n rest)
      → (rename_step table_exists known s d >>= go) ≡ chain now ((s, d) ∷ rest)
  renames-chain_step answers go known now s d rest agrees room ih =
      rw (rename_step_lem answers known now s d rest agrees) (elim (Bool-cases (now s)) [
        | inl a ↦ elim (Bool-cases (now d)) [
          | inl b ↦ rw (a, b) refl
          | inr b ↦
              rw (a, b)
                (ih (retain (is_other s) known ++ (s, false) ∷ (d, true) ∷ []) (rename now s d)
                  (Agrees-rename known now s d rest agrees room a b)
                  (HasRoom-rename known s d rest room))
        ]
        | inr a ↦ rw a refl
      ])

  renames-chain_from :
      ((t : Target) → table_exists t ≡ ok (exists t))
      → (fallback_db : Option Text) (pairs : List (TableRef × TableRef))
        (ids : List (Target × Target))
      → resolve_all fallback_db pairs ≡ ok ids
      → (known : Known) (now : Target → Bool) → Agrees known now ids
      → HasRoom known ids
      → renames table_exists fallback_db known pairs ≡ chain now ids
  unfolding renames
  renames-chain_from answers fallback_db [] ids resolved known now agrees room =
      let e : ids ≡ [] = cc in rw e refl
  renames-chain_from answers fallback_db ((src, dst) ∷ pairs) ids resolved known now agrees room =
      let (s, r1, src_ok) = ok_parts _ (resolve_target fallback_db src) (sym resolved) in
      let (d, r2, dst_ok) = ok_parts _ (resolve_target fallback_db dst) r1 in
      let (rest, r3, rest_ok) = ok_parts _ (resolve_all fallback_db pairs) r2 in
      let e : (s, d) ∷ rest ≡ ids = cc in
      subst (λ l. renames table_exists fallback_db known ((src, dst) ∷ pairs) ≡ chain now l) e
        (renames_cons fallback_db known src dst pairs s d (sym src_ok) (sym dst_ok)
          ∙ renames-chain_step answers (λ k. renames table_exists fallback_db k pairs) known now s d
              rest (subst (Agrees known now) (sym e) agrees) (subst (HasRoom known) (sym e) room)
              (renames-chain_from answers fallback_db pairs rest (sym rest_ok)))

  renames-chain :
      ((t : Target) → table_exists t ≡ ok (exists t))
      → (fallback_db : Option Text) (pairs : List (TableRef × TableRef))
        (ids : List (Target × Target))
      → resolve_all fallback_db pairs ≡ ok ids
      → ((t : Target) → mentions t ids ≤ 2)
      → renames table_exists fallback_db [] pairs ≡ chain exists ids
  renames-chain answers fallback_db pairs ids resolved few =
      renames-chain_from answers fallback_db pairs ids resolved [] exists (λ t h. refl)
        (λ t. inr (refl, few t))

  chunks_cases :
      (fallback_db : Option Text) (refs : List TableRef) (pairs : List (TableRef × TableRef))
      → chunks refs ≡ ok pairs
      → (if is_nil refs
          then ok present
          else (chunks refs >>= λ ps. renames table_exists fallback_db [] ps))
        ≡ renames table_exists fallback_db [] pairs
  unfolding chunks renames
  chunks_cases fallback_db [] pairs e =
      let nil : [] ≡ pairs = cc in
      subst (λ ps. ok present ≡ renames table_exists fallback_db [] ps) nil refl
  chunks_cases fallback_db (r ∷ refs) pairs e = rw e refl

  -- If the server answers by a table's existence, the tables of a RENAME come in pairs, each has a
  -- database in scope, and none is named more than twice, the preflight passes the statement exactly
  -- if a server runs it from left to right, and else reports the first step that the server refuses.
  pub preflight_ddl-chain :
      ((t : Target) → table_exists t ≡ ok (exists t))
      → (fallback_db : Option Text) (c : ClassifiedStatement) (pairs : List (TableRef × TableRef))
        (ids : List (Target × Target))
      → c.category ≡ ddl
      → c.ast_type ≡ text "rename"
      → chunks c.mutated_tables ≡ ok pairs
      → resolve_all fallback_db pairs ≡ ok ids
      → ((t : Target) → mentions t ids ≤ 2)
      → preflight_ddl table_exists fallback_db c ≡ chain exists ids
  unfolding preflight_ddl
  preflight_ddl-chain answers fallback_db c pairs ids category ast paired resolved few =
      rw (category, ast) (chunks_cases fallback_db c.mutated_tables pairs paired)
      ∙ renames-chain answers fallback_db pairs ids resolved few
