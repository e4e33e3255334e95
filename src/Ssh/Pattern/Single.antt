-- ===== src/Ssh/Pattern/Single.antt =====
-- What the matcher does with `?`, the wildcard for one character.
use sequel_ace_mcp.Prelude.{
  ℕ, ◌≡◌, ◌≢◌, refl, ◌∙◌, Bool, true, false, ◌&&◌, [], ◌∷◌, Text, text, eqb, eqb_iff, drop, ◌==◌,
  arith, All, Any, Bool-cases, starts_with, inl, inr, subst,
}
use sequel_ace_mcp.Ssh.Pattern.{
  is_escaped, translate, any_suffix, is_head, glob_rec, glob_match, has_wildcard, matches_name,
  matches_pattern,
}
use sequel_ace_mcp.Ssh.Pattern.Glob.{glob_rec-star, glob_rec-char}

-- A text of which no character is escaped by the translation, nor is a wildcard: a label of a host name.
abbrev pub IsLabel : Text → Type 0
IsLabel t = All (λ c. (is_escaped c ≡ false) × (c ≢ b'?')) t

-- Some character of a pattern is `?`.
abbrev pub HasMark : Text → Type 0
HasMark p = Any (λ c. c ≡ b'?') p

IsLabel-drop : (t : Text) → IsLabel t → IsLabel (drop 1 t)
IsLabel-drop [] l = l
IsLabel-drop (c ∷ t) l = l.1

and-false : (a : Bool) {b : Bool} → b ≡ false → (a && b) ≡ false
and-false a h = ground arith

any_suffix-false :
    (f : Text → Bool)
    → ((t : Text) → IsLabel t → f t ≡ false)
    → (t : Text) → IsLabel t
    → any_suffix f t ≡ false
unfolding any_suffix
any_suffix-false f h [] l = h [] l
any_suffix-false f h (c ∷ t) l = rw (h (c ∷ t) l) (any_suffix-false f h t l.1)

is_head-false : (e : ℕ) (t : Text) → is_escaped e ≡ true → IsLabel t → is_head e t ≡ false
is_head-false e [] h l = refl
is_head-false e (d ∷ t) h l = elim (Bool-cases (eqb d e)) [
  | inl same ↦
      absurd (cc (h, subst (λ (x : ℕ). is_escaped x ≡ false) ((eqb_iff d e).0 same) (l.0.0)))
  | inr other ↦ other
]

-- A `.` that neither `*` nor `\` follows is read as itself.
glob_rec-dot :
    (d : ℕ) (r t : Text)
    → eqb d b'*' ≡ false
    → eqb d b'\\' ≡ false
    → IsLabel t
    → glob_rec (b'.' ∷ d ∷ r) t ≡ false
unfolding glob_rec
glob_rec-dot d r t star slash l =
    let h = is_head-false b'.' t refl l in rw (glob_rec, star, slash) (rw h refl)

glob_rec-dot_escape :
    (d : ℕ) (r t : Text)
    → is_escaped d ≡ true
    → IsLabel t
    → glob_rec (b'.' ∷ b'\\' ∷ d ∷ r) t ≡ false
unfolding glob_rec
glob_rec-dot_escape d r t e l = let h = is_head-false d t e l in rw h refl

-- The translation of `?` is a `.`, which is read as itself.
glob_rec-mark : (c : ℕ) (p t : Text) → c ≡ b'?' → IsLabel t → glob_rec (translate (c ∷ p)) t ≡ false
unfolding translate
glob_rec-mark c [] t e l =
    let h = is_head-false b'.' t refl l in rw e (unfold glob_rec in rw h refl)
glob_rec-mark c (d ∷ p) t e l = elim (Bool-cases (eqb d b'*')) [
  | inl star ↦ rw (e, star) (glob_rec-dot b'.' (b'*' ∷ translate p) t refl refl l)
  | inr no_star ↦ elim (Bool-cases (eqb d b'?')) [
    | inl mark ↦ rw (e, no_star, mark) (glob_rec-dot b'.' (translate p) t refl refl l)
    | inr no_mark ↦ elim (Bool-cases (is_escaped d)) [
      | inl esc ↦ rw (e, no_star, no_mark, esc) (glob_rec-dot_escape d (translate p) t esc l)
      | inr plain ↦
          rw (e, no_star, no_mark, plain) (glob_rec-dot d (translate p) t no_star (ground arith) l)
    ]
  ]
]

glob_rec-HasMark : (p t : Text) → HasMark p → IsLabel t → glob_rec (translate p) t ≡ false
glob_rec-HasMark [] t h l = absurd h
glob_rec-HasMark (c ∷ p) t (inl h) l = glob_rec-mark c p t h l
glob_rec-HasMark (c ∷ p) t (inr h) l = elim (Bool-cases (eqb c b'*')) [
  | inl star ↦
      glob_rec-star c p t ((eqb_iff c b'*').0 star)
      ∙ any_suffix-false (glob_rec (translate p)) (λ u k. glob_rec-HasMark p u h k) t l
  | inr no_star ↦ elim (Bool-cases (eqb c b'?')) [
    | inl mark ↦ glob_rec-mark c p t ((eqb_iff c b'?').0 mark) l
    | inr no_mark ↦
        glob_rec-char c p t (ground arith) (ground arith)
        ∙ and-false (is_head c t) (glob_rec-HasMark p (drop 1 t) h (IsLabel-drop t l))
  ]
]

has_wildcard_of_mark : (p : Text) → HasMark p → has_wildcard p ≡ true
has_wildcard_of_mark [] h = absurd h
has_wildcard_of_mark (c ∷ p) (inl h) = ground arith
has_wildcard_of_mark (c ∷ p) (inr h) = ground (arith, has_wildcard_of_mark p h)

not-HasMark : (p t : Text) → (p == t) ≡ true → HasMark p → IsLabel t → ⊥
not-HasMark [] t e h l = h
not-HasMark (c ∷ p) [] e h l = cc
not-HasMark (c ∷ p) (d ∷ t) e (inl h) l = l.0.1 (ground arith)
not-HasMark (c ∷ p) (d ∷ t) e (inr h) l = not-HasMark p t (ground arith) h l.1

matches_name-HasMark : (p host : Text) → HasMark p → IsLabel host → matches_name p host ≡ false
unfolding matches_name glob_match
matches_name-HasMark p host h l = elim (Bool-cases (p == host)) [
  | inl e ↦ absurd (not-HasMark p host e h l)
  | inr e ↦ rw (matches_name, e) (rw (has_wildcard_of_mark p h) (glob_rec-HasMark p host h l))
]

-- A pattern with a `?` that has no port matches no host that consists of letters, digits and dashes,
-- or of any characters but `?` and those that the translation escapes.
pub matches_pattern-HasMark :
    (p host : Text) (port : ℕ)
    → starts_with p (text "[") ≡ false
    → HasMark p
    → IsLabel host
    → matches_pattern p host port ≡ false
unfolding matches_pattern
matches_pattern-HasMark p host port form h l = elim (Bool-cases (eqb port 22)) [
  | inl e ↦ rw form (rw e (matches_name-HasMark p host h l))
  | inr e ↦ rw form (rw e refl)
]
