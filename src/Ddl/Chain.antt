-- ===== src/Ddl/Chain.antt =====
-- A chain of renamings, as a server runs it, and what the preflight of src/sql/ddl.rs knows of the
-- tables after each step.
use sequel_ace_mcp.Prelude.{
  ℕ, ◌+◌, ◌≡◌, ◌≢◌, ◌↔◌, refl, ap, sym, ◌∙◌, Bool, true, false, Option, none, some, List, [], ◌∷◌,
  ◌++◌, Text, if◌then◌else◌, ◌==◌, eq_iff, or_else, retain, arith, Bool-cases, inl, inr,
}
use sequel_ace_mcp.Policy.Statement.{TableRef}
use sequel_ace_mcp.Ddl.Rewrite.{Target}
use sequel_ace_mcp.Ddl.Preflight.{
  DdlPreflight, present, in_the_way, no_source, Result, ok, err, ◌>>=◌, target_eq, resolve_target,
  Known, find, is_other,
}

-- The tables after one renaming.
abbrev pub rename : (Target → Bool) → Target → Target → Target → Bool
rename now src dst t = if target_eq dst t then true else if target_eq src t then false else now t

-- A server renames from left to right, and refuses a source that is not there and a destination that
-- is.
abbrev pub chain : (Target → Bool) → List (Target × Target) → Result DdlPreflight
chain now [] = ok present
chain now ((src, dst) ∷ ids) =
    let rest = chain (rename now src dst) ids in
    if now src then if now dst then err (in_the_way dst) else rest else err (no_source src)

abbrev pub resolve_all : Option Text → List (TableRef × TableRef) → Result (List (Target × Target))
resolve_all fallback_db [] = ok []
resolve_all fallback_db ((src, dst) ∷ pairs) = resolve_target fallback_db src >>= λ src_id.
    resolve_target fallback_db dst >>= λ dst_id.
    resolve_all fallback_db pairs >>= λ ids. ok ((src_id, dst_id) ∷ ids)

abbrev pub one : Bool → ℕ
one b = if b then 1 else 0

-- How often a chain names a table.
abbrev pub mentions : Target → List (Target × Target) → ℕ
mentions t [] = 0
mentions t ((src, dst) ∷ ids) = one (target_eq src t) + one (target_eq dst t) + mentions t ids

pub target_eq_iff : (t u : Target) → (target_eq t u ≡ true) ↔ (t ≡ u)
target_eq_iff (a, b) (c, d) = (
  λ h.
      let first : a ≡ c = (eq_iff a c).0 (ground arith) in
      let second : b ≡ d = (eq_iff b d).0 (ground arith) in cc,
  λ e.
      let first : (a == c) ≡ true = (eq_iff a c).1 (cc) in
      let second : (b == d) ≡ true = (eq_iff b d).1 (cc) in ground arith,
)

pub target_eq_refl : (t : Target) → target_eq t t ≡ true
target_eq_refl t = (target_eq_iff t t).1 refl

pub ne_of_target : (t u : Target) → target_eq t u ≡ false → t ≢ u
ne_of_target t u h = λ e. cc ((target_eq_iff t u).1 e)

pub target_ne : (t u : Target) → t ≢ u → target_eq t u ≡ false
target_ne t u h = elim (Bool-cases (target_eq t u)) [
  | inl e ↦ absurd (h ((target_eq_iff t u).0 e))
  | inr e ↦ e
]

pub find-rename_step :
    (t src dst : Target) (known : Known)
    → find t (retain (is_other src) known ++ (src, false) ∷ (dst, true) ∷ []) ≡ (
        if target_eq src t
        then some false
        else or_else (find t known) (if target_eq dst t then some true else none))
find-rename_step t src dst [] = refl
find-rename_step t src dst ((u, p) ∷ known) =
    let ih = find-rename_step t src dst known in
    elim (Bool-cases (target_eq u src)) [
      | inl e ↦
          (let u_src : u ≡ src = (target_eq_iff u src).0 e in
            elim (Bool-cases (target_eq src t)) [
              | inl s ↦ rw (e, s) (rw s at ih)
              | inr s ↦
                  (let k : target_eq u t ≡ false = ap (λ (x : Target). target_eq x t) u_src ∙ s in
                    rw (e, s, k) (rw s at ih))
            ])
      | inr e ↦ elim (Bool-cases (target_eq u t)) [
        | inl k ↦
            (let u_t : u ≡ t = (target_eq_iff u t).0 k in
              let s : target_eq src t ≡ false =
                target_ne src t (λ q. ne_of_target u src e (u_t ∙ sym q)) in
              rw (e, k, s) refl)
        | inr k ↦ rw (e, k) ih
      ]
    ]
