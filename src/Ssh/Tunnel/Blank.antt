-- ===== src/Ssh/Tunnel/Blank.antt =====
-- A blank known_hosts file has no entries.
use sequel_ace_mcp.Prelude.{
  ℕ, ◌≡◌, refl, Bool, true, false, List, [], ◌∷◌, Text, if◌then◌else◌, eqb, All, arith, Bool-cases,
  inl, inr, ◌==◌, none, Option, subst, sym, eq_iff, ◌&&◌, retain, ◌≢◌,
}
use sequel_ace_mcp.Policy.Lexical.{is_whitespace, trim_start, trim_end, trim}
use sequel_ace_mcp.Ssh.Splitting.{
  split_by, split, push, trim_end_matches, split_whitespace, is_not_empty,
}
use sequel_ace_mcp.Ssh.KnownHosts.{parse_line, parse_lines, parse_known_hosts}

abbrev pub IsBlank : Text → Type 0
IsBlank s = All (λ c. is_whitespace c ≡ true) s

IsBlank-trim_end : (s : Text) → IsBlank s → trim_end s ≡ []
unfolding trim_end
IsBlank-trim_end [] h = refl
IsBlank-trim_end (c ∷ s) h = rw (IsBlank-trim_end s h.1, h.0) refl

pub IsBlank-trim : (s : Text) → IsBlank s → trim s ≡ []
unfolding trim trim_start
IsBlank-trim s h = rw (IsBlank-trim_end s h) refl

trim_start-IsBlank : (s : Text) → trim_start s ≡ [] → IsBlank s
unfolding trim_start
trim_start-IsBlank [] h = tt
trim_start-IsBlank (c ∷ s) h = elim (Bool-cases (is_whitespace c)) [
  | inl w ↦ (w, trim_start-IsBlank s (ground arith))
  | inr n ↦ absurd (ground arith)
]

trim_end_kept-IsBlank :
    (c : ℕ) (rest : Text)
    → is_whitespace c ≡ false
    → (b : Bool) → IsBlank (if b && is_whitespace c then [] else c ∷ rest)
    → ⊥
trim_end_kept-IsBlank c rest n true h = cc (subst (λ b. IsBlank (if b then [] else c ∷ rest)) n h).0
trim_end_kept-IsBlank c rest n false h = cc (h.0)

trim_end-IsBlank : (s : Text) → IsBlank (trim_end s) → IsBlank s
unfolding trim_end
trim_end-IsBlank [] h = tt
trim_end-IsBlank (c ∷ s) h = elim (Bool-cases (is_whitespace c)) [
  | inl w ↦ elim (Bool-cases (trim_end s == [])) [
    | inl e ↦
        (let nil = (eq_iff (trim_end s) []).0 e in
          (w, trim_end-IsBlank s (subst IsBlank (sym nil) (tt))))
    | inr n ↦ (w, trim_end-IsBlank s ((rw (n) at h).1))
  ]
  | inr n ↦ absurd (trim_end_kept-IsBlank c (trim_end s) n (trim_end s == []) h)
]

pub trim-IsBlank : (s : Text) → trim s ≡ [] → IsBlank s
unfolding trim
trim-IsBlank s h = trim_end-IsBlank s (trim_start-IsBlank (trim_end s) h)

IsBlank-trim_end_matches : (c : ℕ) (s : Text) → IsBlank s → IsBlank (trim_end_matches c s)
unfolding trim_end_matches
IsBlank-trim_end_matches c [] h = tt
IsBlank-trim_end_matches c (x ∷ s) h =
    let rest = IsBlank-trim_end_matches c s h.1 in
    elim (Bool-cases (eqb x c)) [
      | inl e ↦ elim (Bool-cases (is_not_empty (trim_end_matches c s))) [
        | inl k ↦ rw (e, k) (h.0, rest)
        | inr k ↦ rw (e, k) tt
      ]
      | inr e ↦ rw e (h.0, rest)
    ]

IsBlank-parse_line : (b : Text → Option Text) (s : Text) → IsBlank s → parse_line b s ≡ none
unfolding parse_line
IsBlank-parse_line b s h =
    rw (IsBlank-trim (trim_end_matches 13 s) (IsBlank-trim_end_matches 13 s h)) refl

All-push :
    (x : ℕ) (ws : List Text) → is_whitespace x ≡ true → All IsBlank ws → All IsBlank (push x ws)
unfolding push
All-push x [] w h = ((w, tt), tt)
All-push x (v ∷ ws) w h = ((w, h.0), h.1)

All-split_by : (p : ℕ → Bool) (s : Text) → IsBlank s → All IsBlank (split_by p s)
unfolding split_by push
All-split_by p [] h = (tt, tt)
All-split_by p (x ∷ s) h = elim (Bool-cases (p x)) [
  | inl e ↦ rw e (tt, All-split_by p s h.1)
  | inr e ↦ rw e (All-push x (split_by p s) h.0 (All-split_by p s h.1))
]

All-parse_lines :
    (b : Text → Option Text) (lines : List Text) → All IsBlank lines → parse_lines b lines ≡ []
unfolding parse_lines
All-parse_lines b [] h = refl
All-parse_lines b (l ∷ lines) h =
    rw (parse_lines, IsBlank-parse_line b l h.0) (All-parse_lines b lines h.1)

pub parse_known_hosts_blank :
    (b : Text → Option Text) (c : Text) → IsBlank c → parse_known_hosts b c ≡ []
unfolding parse_known_hosts split
parse_known_hosts_blank b c h = All-parse_lines b (split_by (eqb 10) c) (All-split_by (eqb 10) c h)

retain-push : (x : ℕ) (ws : List Text) → retain is_not_empty (push x ws) ≢ []
unfolding push
retain-push x [] = λ e. cc
retain-push x (w ∷ ws) = λ e. cc

split_whitespace-IsBlank : (s : Text) → split_whitespace s ≡ [] → IsBlank s
unfolding split_whitespace split_by
split_whitespace-IsBlank [] h = tt
split_whitespace-IsBlank (x ∷ s) h = elim (Bool-cases (is_whitespace x)) [
  | inl w ↦ (w, split_whitespace-IsBlank s (rw w at h))
  | inr n ↦ absurd (retain-push x (split_by is_whitespace s) (rw n at h))
]

trim_start_blank : (s : Text) → IsBlank (trim_start s) → trim_start s ≡ []
unfolding trim_start
trim_start_blank [] h = refl
trim_start_blank (c ∷ s) h = elim (Bool-cases (is_whitespace c)) [
  | inl w ↦ rw w (trim_start_blank s (rw w at h))
  | inr n ↦ absurd (cc (n, (rw n at h).0))
]

-- A line that is not blank has a first part, which the code reads without a test.
split_whitespace-trim : (s : Text) → trim s ≢ [] → split_whitespace (trim s) ≢ []
unfolding trim
split_whitespace-trim s h =
    λ e. h (trim_start_blank (trim_end s) (split_whitespace-IsBlank (trim s) e))
