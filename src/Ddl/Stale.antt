-- ===== src/Ddl/Stale.antt =====
-- A chain of renamings that names a table for the third time.
use sequel_ace_mcp.Prelude.{
  ◌≡◌, ◌≢◌, refl, sym, ◌∙◌, Bool, true, false, Option, some, [], ◌∷◌, Text, map,
}
use sequel_ace_mcp.Policy.Statement.{TableRef}
use sequel_ace_mcp.Ddl.Rewrite.{Target}
use sequel_ace_mcp.Ddl.Preflight.{present, no_source, Result, ok, err, rename_step, renames}
use sequel_ace_mcp.Ddl.Chain.{chain, target_ne, target_eq_iff}
use sequel_ace_mcp.Ddl.Renames.{renames_cons}

abbrev pub qualified : Target → TableRef
qualified t = record { database = some (t.0); table = t.1 }

abbrev pub both_qualified : Target × Target → TableRef × TableRef
both_qualified (s, d) = (qualified s, qualified d)

module _ (table_exists : Target → Result Bool) (exists : Target → Bool)
    (answers : (u : Target) → table_exists u ≡ ok (exists u)) (a b t c : Target)
    (distinct : (a ≢ b) × (a ≢ t) × (a ≢ c) × (b ≢ t) × (b ≢ c) × (t ≢ c)) where
  first_step :
      exists a ≡ true
      → exists t ≡ false
      → rename_step table_exists [] a t ≡ ok ((a, false) ∷ (t, true) ∷ [])
  unfolding rename_step
  first_step ea et = rw (answers a) (rw ea (rw (answers t) (rw et refl)))

  second_step :
      exists b ≡ true
      → rename_step table_exists ((a, false) ∷ (t, true) ∷ []) b a
        ≡ ok ((a, false) ∷ (t, true) ∷ (b, false) ∷ (a, true) ∷ [])
  unfolding rename_step
  second_step eb =
      let ab = target_ne a b distinct.0 in
      let tb = target_ne t b (λ e. distinct.3 (sym e)) in
      let aa = (target_eq_iff a a).1 refl in
      rw (ab, tb) (rw (answers b) (rw eb (rw (aa) (rw (ab, tb)))))

  -- The first entry for `a` is the stale one.
  third_step :
      rename_step table_exists ((a, false) ∷ (t, true) ∷ (b, false) ∷ (a, true) ∷ []) a c
      ≡ err (no_source a)
  unfolding rename_step
  third_step = rw ((target_eq_iff a a).1 refl) refl

  refused :
      (fallback_db : Option Text)
      → exists a ≡ true
      → exists b ≡ true
      → exists t ≡ false
      → renames table_exists fallback_db [] (map both_qualified ((a, t) ∷ (b, a) ∷ (a, c) ∷ []))
        ≡ err (no_source a)
  refused fallback_db ea eb et =
      renames_cons table_exists exists fallback_db [] (qualified a) (qualified t)
        (map both_qualified ((b, a) ∷ (a, c) ∷ [])) a t refl refl
      ∙ rw (first_step ea et) (
          renames_cons table_exists exists fallback_db ((a, false) ∷ (t, true) ∷ []) (qualified b)
            (qualified a) (map both_qualified ((a, c) ∷ [])) b a refl refl
          ∙ rw (second_step eb) (
              renames_cons table_exists exists fallback_db
                ((a, false) ∷ (t, true) ∷ (b, false) ∷ (a, true) ∷ []) (qualified a) (qualified c)
                [] a c refl refl
              ∙ rw third_step refl))

  runs :
      exists a ≡ true
      → exists b ≡ true
      → exists t ≡ false
      → exists c ≡ false
      → chain exists ((a, t) ∷ (b, a) ∷ (a, c) ∷ []) ≡ ok present
  runs ea eb et ec =
      let aa = (target_eq_iff a a).1 refl in
      let ta = target_ne t a (λ e. distinct.1 (sym e)) in
      let ab = target_ne a b distinct.0 in
      let tb = target_ne t b (λ e. distinct.3 (sym e)) in
      let ac = target_ne a c distinct.2 in
      let tc = target_ne t c distinct.5 in
      let bc = target_ne b c distinct.4 in simp (aa, ta, ab, tb, ac, tc, bc, ea, eb, et, ec)

-- `RENAME TABLE a TO t, b TO a, a TO c` is refused for want of `a`, which the second step has made, if
-- `a` and `b` exist, `t` and `c` do not, and the four differ; a server runs it.
pub renames_stale :
    (table_exists : Target → Result Bool) (exists : Target → Bool)
    → ((u : Target) → table_exists u ≡ ok (exists u))
    → (fallback_db : Option Text) (a b t c : Target)
    → (a ≢ b) × (a ≢ t) × (a ≢ c) × (b ≢ t) × (b ≢ c) × (t ≢ c)
    → exists a ≡ true
    → exists b ≡ true
    → exists t ≡ false
    → exists c ≡ false
    → (renames table_exists fallback_db [] (map both_qualified ((a, t) ∷ (b, a) ∷ (a, c) ∷ []))
        ≡ err (no_source a))
      × (chain exists ((a, t) ∷ (b, a) ∷ (a, c) ∷ []) ≡ ok present)
renames_stale table_exists exists answers fallback_db a b t c distinct ea eb et ec = (
  refused table_exists exists answers a b t c distinct fallback_db ea eb et,
  runs table_exists exists answers a b t c distinct ea eb et ec,
)
