-- ===== src/Ssh/Pattern/Glob.antt =====
-- What a host pattern means, and the matcher on patterns without `?`.
use sequel_ace_mcp.Prelude.{
  ℕ, ◌≡◌, ◌≢◌, ◌↔◌, inl, inr, refl, sym, ◌∙◌, Bool, true, false, ◌&&◌, [], ◌∷◌, ◌++◌, Text, text,
  eqb, eqb_iff, drop, ◌==◌, eq_iff, arith, All, Bool-cases, some, starts_with, subst, Lacks,
}
use sequel_ace_mcp.Ssh.Splitting.{decimal, cut_close}
use sequel_ace_mcp.Ssh.Pattern.{
  is_escaped, translate, any_suffix, is_head, glob_rec, glob_match, has_wildcard, matches_name,
  matches_bracketed, matches_pattern,
}

-- The patterns of known_hosts: `*` stands for any text, `?` for one character, another character for
-- itself.
pub data Globs : Text → Text → Type 0 where
  end : Globs [] []
  skip : {c : ℕ} {p t : Text} → c ≡ b'*' → Globs p t → Globs (c ∷ p) t
  more : {c d : ℕ} {p t : Text} → c ≡ b'*' → Globs (c ∷ p) t → Globs (c ∷ p) (d ∷ t)
  one : {c d : ℕ} {p t : Text} → c ≡ b'?' → Globs p t → Globs (c ∷ p) (d ∷ t)
  same : {c d : ℕ} {p t : Text} → c ≢ b'*' → c ≢ b'?' → d ≡ c → Globs p t → Globs (c ∷ p) (d ∷ t)

pub glob_rec-star :
    (c : ℕ) (p t : Text)
    → c ≡ b'*'
    → glob_rec (translate (c ∷ p)) t ≡ any_suffix (glob_rec (translate p)) t
unfolding glob_rec translate
glob_rec-star c p t e = rw e refl

glob_rec-plain :
    (c : ℕ) (p t : Text)
    → eqb c b'.' ≡ false
    → eqb c b'\\' ≡ false
    → glob_rec (c ∷ p) t ≡ (is_head c t && glob_rec p (drop 1 t))
unfolding glob_rec
glob_rec-plain c [] t dot slash = refl
glob_rec-plain c (d ∷ p) t dot slash = rw (glob_rec, dot, dot, slash)

pub glob_rec-char :
    (c : ℕ) (p t : Text)
    → c ≢ b'*'
    → c ≢ b'?'
    → glob_rec (translate (c ∷ p)) t ≡ (is_head c t && glob_rec (translate p) (drop 1 t))
unfolding translate
glob_rec-char c p t star mark =
    let s : eqb c b'*' ≡ false = ground arith in
    let q : eqb c b'?' ≡ false = ground arith in
    elim (Bool-cases (is_escaped c)) [
      | inl e ↦ rw (s, q, e) (unfold glob_rec in refl)
      | inr e ↦ rw (s, q, e) (glob_rec-plain c (translate p) t (ground arith) (ground arith))
    ]

module _ (f : Text → Bool) (c : ℕ) (p : Text) (star : c ≡ b'*') where
  Globs-any_suffix :
      ((t : Text) → f t ≡ true → Globs p t) → (t : Text) → any_suffix f t ≡ true → Globs (c ∷ p) t
  unfolding any_suffix
  Globs-any_suffix h [] e = skip star (h [] e)
  Globs-any_suffix h (d ∷ t) e = elim (Bool-cases (f (d ∷ t))) [
    | inl here ↦ skip star (h (d ∷ t) here)
    | inr there ↦ more star (Globs-any_suffix h t (ground arith))
  ]

  any_suffix-true : (t : Text) → f t ≡ true → any_suffix f t ≡ true
  unfolding any_suffix
  any_suffix-true [] e = e
  any_suffix-true (d ∷ t) e = rw e refl

  any_suffix_tail : (d : ℕ) (t : Text) → any_suffix f t ≡ true → any_suffix f (d ∷ t) ≡ true
  unfolding any_suffix
  any_suffix_tail d t e = elim (Bool-cases (f (d ∷ t))) [ inl h ↦ rw h refl | inr h ↦ rw h e ]

-- No character of a pattern is `?`.
abbrev pub IsWithoutMarks : Text → Type 0
IsWithoutMarks p = All (λ c. c ≢ b'?') p

Globs_of_char :
    (c : ℕ) (p t : Text)
    → c ≢ b'*'
    → c ≢ b'?'
    → ((u : Text) → glob_rec (translate p) u ≡ true → Globs p u)
    → (is_head c t && glob_rec (translate p) (drop 1 t)) ≡ true
    → Globs (c ∷ p) t
Globs_of_char c p [] star mark h e = absurd (cc)
Globs_of_char c p (d ∷ t) star mark h e = same star mark (ground arith) (h t (ground arith))

Globs_of_glob_rec : (p t : Text) → IsWithoutMarks p → glob_rec (translate p) t ≡ true → Globs p t
unfolding translate glob_rec
Globs_of_glob_rec [] [] h e = end
Globs_of_glob_rec [] (d ∷ t) h e = absurd (cc)
Globs_of_glob_rec (c ∷ p) t h e = elim (Bool-cases (eqb c b'*')) [
  | inl star ↦
      (let s = (eqb_iff c b'*').0 star in
        Globs-any_suffix (glob_rec (translate p)) c p s (λ u k. Globs_of_glob_rec p u h.1 k) t
          (sym (glob_rec-star c p t s) ∙ e))
  | inr no_star ↦
      (let n : c ≢ b'*' = ground arith in
        Globs_of_char c p t n h.0 (λ u k. Globs_of_glob_rec p u h.1 k)
          (sym (glob_rec-char c p t n h.0) ∙ e))
]

glob_rec_of_Globs : (p t : Text) → Globs p t → IsWithoutMarks p → glob_rec (translate p) t ≡ true
glob_rec_of_Globs [] [] end h = unfold translate glob_rec in refl
glob_rec_of_Globs [] (d ∷ t) g h = elim g [ ]
glob_rec_of_Globs (c ∷ p) t (skip star g) h =
    glob_rec-star c p t star
    ∙ any_suffix-true (glob_rec (translate p)) c p star t (glob_rec_of_Globs p t g h.1)
glob_rec_of_Globs (c ∷ p) (d ∷ t) (more star g) h =
    glob_rec-star c p (d ∷ t) star
    ∙ any_suffix_tail (glob_rec (translate p)) c p star d t
        (sym (glob_rec-star c p t star) ∙ glob_rec_of_Globs (c ∷ p) t g h)
glob_rec_of_Globs (c ∷ p) (d ∷ t) (one mark g) h = absurd (h.0 mark)
glob_rec_of_Globs (c ∷ p) (d ∷ t) (same star mark e g) h =
    let rest = glob_rec_of_Globs p t g h.1 in
    glob_rec-char c p (d ∷ t) star mark ∙ rw ((eqb_iff d c).1 e, rest)

-- The matcher decides the meaning of a pattern without `?`.
pub glob_rec_iff : (p t : Text) → IsWithoutMarks p → (glob_rec (translate p) t ≡ true) ↔ Globs p t
glob_rec_iff p t h = (Globs_of_glob_rec p t h, λ g. glob_rec_of_Globs p t g h)

Globs_refl : (p : Text) → IsWithoutMarks p → Globs p p
Globs_refl [] h = end
Globs_refl (c ∷ p) h = elim (Bool-cases (eqb c b'*')) [
  | inl star ↦ (let s = (eqb_iff c b'*').0 star in more {d = c} s (skip s (Globs_refl p h.1)))
  | inr no_star ↦ same (ground arith) h.0 refl (Globs_refl p h.1)
]

-- Without a wildcard a pattern names itself alone.
eq_of_Globs : (p t : Text) → Globs p t → has_wildcard p ≡ false → p ≡ t
eq_of_Globs [] [] end h = refl
eq_of_Globs [] (d ∷ t) g h = elim g [ ]
eq_of_Globs (c ∷ p) t (skip star g) h = absurd (ground arith)
eq_of_Globs (c ∷ p) (d ∷ t) (more star g) h = absurd (ground arith)
eq_of_Globs (c ∷ p) (d ∷ t) (one mark g) h = absurd (ground arith)
eq_of_Globs (c ∷ p) (d ∷ t) (same star mark e g) h =
    let rest = eq_of_Globs p t g (ground arith) in cc

pub matches_name_iff :
    (p host : Text) → IsWithoutMarks p → (matches_name p host ≡ true) ↔ Globs p host
unfolding matches_name glob_match
matches_name_iff p host h = elim (Bool-cases (p == host)) [
  | inl e ↦
      rw (e, matches_name) (λ _. subst (Globs p) ((eq_iff p host).0 e) (Globs_refl p h), λ _. refl)
  | inr e ↦ elim (Bool-cases (has_wildcard p)) [
    | inl w ↦ rw (matches_name, e) (rw w (glob_rec_iff p host h))
    | inr w ↦
        rw (matches_name, e)
          (rw w (λ k. absurd (cc), λ g. absurd (cc ((eq_iff p host).1 (eq_of_Globs p host g w)))))
  ]
]

-- A host field's pattern: a name, or a name with a port.
pub data HostForm : Type 0 where
  bare : Text → HostForm
  bracketed : Text → Text → HostForm

abbrev pub name_of : HostForm → Text
name_of (bare p) = p
name_of (bracketed p q) = p

abbrev pub written : HostForm → Text
written (bare p) = p
written (bracketed p q) = b'[' ∷ (p ++ b']' ∷ b':' ∷ q)

-- A bare name does not start like the other form, and a bracketed one holds no `]`.
abbrev pub IsForm : HostForm → Type 0
IsForm (bare p) = starts_with p (text "[") ≡ false
IsForm (bracketed p q) = Lacks b']' p

-- What the form means for a host and a port.
abbrev pub Covers : HostForm → Text → ℕ → Type 0
Covers (bare p) host port = (port ≡ 22) × Globs p host
Covers (bracketed p q) host port = (q ≡ decimal port) × Globs p host

cut_close-append : (p q : Text) → Lacks b']' p → cut_close (p ++ b']' ∷ b':' ∷ q) ≡ some (p, q)
unfolding cut_close
cut_close-append [] q h = refl
cut_close-append (c ∷ p) q h =
    let other : eqb c b']' ≡ false = ground arith in
    rw (cut_close, other) (rw (cut_close-append p q h.1))

matches_bracketed_iff :
    (before q p w host : Text) (port : ℕ)
    → drop 1 before ≡ p
    → IsWithoutMarks p
    → (matches_bracketed (some (before, q)) w host port ≡ true)
      ↔ ((q ≡ decimal port) × Globs p host)
unfolding matches_bracketed
matches_bracketed_iff before q p w host port e h = elim (Bool-cases (q == decimal port)) [
  | inl same_port ↦
      rw (same_port, e)
        (
          λ k. ((eq_iff q (decimal port)).0 same_port, (matches_name_iff p host h).0 k),
          λ k. (matches_name_iff p host h).1 k.1,
        )
  | inr other ↦ rw other (λ k. absurd (cc), λ k. absurd (cc ((eq_iff q (decimal port)).1 k.0)))
]

-- An entry's pattern without `?` matches a host and a port exactly when the port is the pattern's, 22
-- for a bare name, and the name stands for the host, `*` for any text.
pub matches_pattern_iff :
    (f : HostForm) (host : Text) (port : ℕ)
    → IsForm f
    → IsWithoutMarks (name_of f)
    → (matches_pattern (written f) host port ≡ true) ↔ Covers f host port
unfolding matches_pattern
matches_pattern_iff (bare p) host port form h = elim (Bool-cases (eqb port 22)) [
  | inl e ↦ rw form (
      rw e (
        λ k. (ground arith, (matches_name_iff p host h).0 k),
        λ k. (matches_name_iff p host h).1 k.1,
      ))
  | inr e ↦ rw form (rw e (λ k. absurd (cc), λ k. absurd (ground arith)))
]
matches_pattern_iff (bracketed p q) host port form h =
    rw (cut_close-append (b'[' ∷ p) q (omega arith, form))
      (matches_bracketed_iff (b'[' ∷ p) q p (written (bracketed p q)) host port refl h)
