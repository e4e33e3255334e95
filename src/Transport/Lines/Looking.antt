-- ===== src/Transport/Lines/Looking.antt =====
-- What a look at the buffer keeps of what is owed.
use sequel_ace_mcp.Prelude.{
  ℕ, suc, ◌+◌, ◌-◌, ◌≤◌, ◌≡◌, refl, sym, ap, ◌∙◌, [], ◌∷◌, ◌++◌, append_assoc, arith, Text, eqb,
  ltb, length, length-drop, length-take, take, drop, take_all, take-append-drop, take-add,
  drop-drop, Lacks, inl, inr, Bool-cases, Option-cases, subst, All-append,
}
use sequel_ace_mcp.Transport.Lines.{
  newline, Phase, filling, draining, discarding, eof, min, position, again, look, unended, drain,
}
use sequel_ace_mcp.Transport.Lines.Accepted.{
  accepted, accepted-append, accepted-eq-skipped, accepted-newline,
}
use sequel_ace_mcp.Transport.Lines.Search.{IsFirst, position-some, position-none, IsFirst-append}
use sequel_ace_mcp.Transport.Lines.View.{IsValid, Kept, reader}

Lacks-searched :
    (k : ℕ) (buf : Text)
    → Lacks newline (take k buf)
    → Lacks newline (drop k buf)
    → Lacks newline buf
Lacks-searched k buf h later =
    subst (Lacks newline) (take-append-drop k buf) (All-append _ (take k buf) (drop k buf) h later)

IsFirst-searched :
    (k i : ℕ) (buf : Text)
    → k ≤ length buf
    → Lacks newline (take k buf)
    → IsFirst i (drop k buf)
    → IsFirst (k + i) buf
IsFirst-searched k i buf inside h f =
    let whole =
      subst (IsFirst (length (take k buf) + i)) (take-append-drop k buf)
        (IsFirst-append (take k buf) (drop k buf) i h f) in
    subst (λ n. IsFirst (n + i) buf) (length-take k buf inside) whole

accepted-IsFirst :
    (limit k : ℕ) (buf rest : Text)
    → IsFirst k buf
    → length buf ≤ suc limit
    → accepted limit [] (buf ++ rest)
      ≡ take (suc k) buf ++ accepted limit [] (drop (suc k) buf ++ rest)
accepted-IsFirst limit k buf rest f size =
    ap (λ b. accepted limit [] (b ++ rest)) f.found
    ∙ ap (accepted limit []) (append_assoc (take k buf) (newline ∷ drop (suc k) buf) rest)
    ∙ accepted-newline limit (take k buf) (drop (suc k) buf ++ rest) f.free
        (omega (arith, f.before, f.inside))
    ∙ ap (λ l. l ++ accepted limit [] (drop (suc k) buf ++ rest)) (sym f.line)

-- Putting out `n` bytes of an accepted line.
take-drained :
    (n d total : ℕ) (buf s : Text)
    → d + n ≤ total
    → take (total - d) (drop d buf) ++ s
      ≡ take n (drop d buf) ++ (take (total - (d + n)) (drop (d + n) buf) ++ s)
take-drained n d total buf s h =
    let m = total - (d + n) in
    let e : total - d ≡ n + m = omega arith in
    ap (λ k. take k (drop d buf) ++ s) e
    ∙ ap (λ l. l ++ s)
        (take-add n m (drop d buf) ∙ ap (λ l. take n (drop d buf) ++ take m l) (drop-drop d n buf))
    ∙ append_assoc (take n (drop d buf)) (take m (drop (d + n) buf)) s

module _ (rest : Text) (remaining : ℕ) (some_room : 1 ≤ remaining) where
  Kept-unended :
      (buf : Text) (scanned searched total limit dropped : ℕ)
      → searched ≡ length buf
      → Lacks newline buf
      → length buf ≤ suc limit
      → Kept
          (reader filling buf scanned total limit dropped)
          rest
          (unended (reader filling buf searched total limit dropped))
  Kept-unended buf scanned searched total limit dropped e free size =
      elim (Bool-cases (ltb limit (length buf))) [
        | inl long ↦ rw long (
          tt,
          refl,
          accepted-append limit [] buf rest free
              ∙ accepted-eq-skipped limit buf rest (ground arith),
        )
        | inr short ↦ rw short (
          (
            size,
            omega arith,
            subst (Lacks newline) (sym (take_all searched buf (omega arith))) free,
          ),
          refl,
          refl,
          ground arith,
          (free, ground arith),
        )
      ]

  Kept-found :
      (buf : Text) (scanned total limit dropped i : ℕ)
      → IsFirst (scanned + i) buf
      → length buf ≤ suc limit
      → Kept
          (reader filling buf scanned total limit dropped)
          rest
          (again (reader (draining 0) buf scanned (scanned + i + 1) limit dropped))
  Kept-found buf scanned total limit dropped i f size = (
    (omega arith, omega (arith, f.inside), size),
    refl,
    rw (suc_total, less_zero) (accepted-IsFirst limit (scanned + i) buf rest f size),
  )
    where
      suc_total : scanned + i + 1 ≡ suc (scanned + i)
      suc_total = omega arith

      less_zero : suc (scanned + i) - 0 ≡ suc (scanned + i)
      less_zero = omega arith

  Kept-drain :
      (n d : ℕ) (buf : Text) (scanned total limit dropped : ℕ)
      → IsValid (reader (draining d) buf scanned total limit dropped)
      → 1 ≤ n
      → d + n ≤ total
      → Kept
          (reader (draining d) buf scanned total limit dropped)
          rest
          (drain n d (reader (draining d) buf scanned total limit dropped))
  Kept-drain n d buf scanned total limit dropped v some_out inside =
      elim (Bool-cases (eqb (d + n) total)) [
        | inl all_out ↦ rw all_out (
          (omega (arith, length-drop total buf, v.2), omega arith, tt),
          refl,
          ap (λ k. take k (drop d buf) ++ accepted limit [] (drop total buf ++ rest))
              (ground arith),
        )
        | inr some_left ↦ rw some_left (
          (ground arith, v.1, v.2),
          refl,
          take-drained n d total buf (accepted limit [] (drop total buf ++ rest)) inside,
        )
      ]

  pub Kept-look :
      (phase : Phase) (buf : Text) (scanned total limit dropped : ℕ)
      → IsValid (reader phase buf scanned total limit dropped)
      → Kept
          (reader phase buf scanned total limit dropped)
          rest
          (look remaining (reader phase buf scanned total limit dropped))
  unfolding look
  Kept-look eof buf scanned total limit dropped v = (tt, refl, refl)
  Kept-look discarding buf scanned total limit dropped v =
      (tt, refl, refl, ground arith, ground arith)
  Kept-look (draining d) buf scanned total limit dropped v =
      Kept-drain (min (total - d) remaining) d buf scanned total limit dropped v
        (ground (arith, v.0)) (ground (arith, v.0))
  Kept-look filling buf scanned total limit dropped v =
      elim (Bool-cases (ltb scanned (length buf))) [
        | inl unsearched ↦ elim (Option-cases (position (drop scanned buf))) [
          | inl missing ↦
              rw (unsearched, missing)
                (Kept-unended buf scanned (length buf) total limit dropped refl
                  (Lacks-searched scanned buf v.2 (position-none _ missing)) v.0)
          | inr (i, found) ↦
              rw (unsearched, found)
                (Kept-found buf scanned total limit dropped i
                  (IsFirst-searched scanned i buf v.1 v.2 (position-some _ i found)) v.0)
        ]
        | inr searched ↦
            let all_of : scanned ≡ length buf = ground (arith, v.1) in
            rw searched (
              Kept-unended buf scanned scanned total limit dropped all_of
                (subst (Lacks newline) (take_all scanned buf (omega arith)) v.2) v.0)
      ]
