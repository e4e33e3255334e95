-- ===== src/Policy/Lexical.antt =====
-- src/policy/classifier.rs: comment stripping and the scan for several statements, with what they use
-- of Rust's `str` (whitespace, trimming, ASCII case). A text is its list of `char`s.
pub mod Comments
pub mod Quotes
use sequel_ace_mcp.Prelude.{
  ℕ, ◌+◌, ◌-◌, Bool, true, false, ◌&&◌, ◌||◌, not, Option, none, some, List, [], ◌∷◌, ◌++◌, map,
  Text, text, ◌==◌, eqb, ltb, leb, if◌then◌else◌, zero, suc,
}

-- `char::is_whitespace`, Unicode's White_Space.
unfoldable pub is_whitespace : ℕ → Bool
is_whitespace c =
    (leb 9 c && leb c 13)
    || eqb c 0x20
    || eqb c 0x85
    || eqb c 0xA0
    || eqb c 0x1680
    || (leb 0x2000 c && leb c 0x200A)
    || eqb c 0x2028
    || eqb c 0x2029
    || eqb c 0x202F
    || eqb c 0x205F
    || eqb c 0x3000

unfoldable pub trim_start : Text → Text
unfolding is_whitespace
trim_start [] = []
trim_start (c ∷ s) = let rest = trim_start s in if is_whitespace c then rest else c ∷ s

unfoldable pub trim_end : Text → Text
unfolding is_whitespace
trim_end [] = []
trim_end (c ∷ s) = let rest = trim_end s in if rest == [] && is_whitespace c then [] else c ∷ rest

unfoldable pub trim : Text → Text
unfolding trim_start trim_end
trim s = trim_start (trim_end s)

-- `char::to_ascii_lowercase`.
unfoldable pub to_lower : ℕ → ℕ
to_lower c = if leb b'A' c && leb c b'Z' then c + 32 else c

unfoldable pub to_ascii_lowercase : Text → Text
unfolding to_lower
to_ascii_lowercase s = map to_lower s

-- Where the scan of `strip_comments` stands.
pub data Mode : Type 0 where
  code block line : Mode

-- The loops of `strip_comments`. An unterminated block comment runs to the end; a line comment ends
-- before its newline.
unfoldable pub strip_from : Mode → Text → Text
strip_from _ [] = []
strip_from code (c ∷ []) = if eqb c b'#' then text " " else c ∷ []
strip_from code (c ∷ d ∷ s) =
    let in_block = b' ' ∷ strip_from block s in
    let in_line = b' ' ∷ strip_from line (d ∷ s) in
    let plain = c ∷ strip_from code (d ∷ s) in
    if eqb c b'/' && eqb d b'*'
    then in_block
    else if (eqb c b'-' && eqb d b'-') || eqb c b'#'
    then in_line
    else plain
strip_from block (c ∷ []) = []
strip_from block (c ∷ d ∷ s) =
    let closed = strip_from code s in
    let inside = strip_from block (d ∷ s) in if eqb c b'*' && eqb d b'/' then closed else inside
strip_from line (c ∷ s) =
    let ended = c ∷ strip_from code s in
    let inside = strip_from line s in if eqb c 10 then ended else inside

unfoldable pub strip_comments : Text → Text
unfolding strip_from
strip_comments sql = strip_from code sql

-- `s.strip_suffix(';').unwrap_or(s)`.
unfoldable pub drop_semicolon : Text → Text
drop_semicolon [] = []
drop_semicolon (c ∷ []) = if eqb c b';' then [] else c ∷ []
drop_semicolon (c ∷ d ∷ s) = c ∷ drop_semicolon (d ∷ s)

-- The parenthesis depth, an `i32`; a text of 2^31 parentheses is beyond what the server accepts.
pub data Depth : Type 0 where
  nonneg : ℕ → Depth
  negative : (below : ℕ) → Depth

abbrev pub deeper : Depth → Depth
deeper (nonneg n) = nonneg (suc n)
deeper (negative zero) = nonneg 0
deeper (negative (suc n)) = negative n

abbrev pub shallower : Depth → Depth
shallower (nonneg zero) = negative 0
shallower (nonneg (suc n)) = nonneg n
shallower (negative n) = negative (suc n)

abbrev pub is_zero : Depth → Bool
is_zero (nonneg zero) = true
is_zero _ = false

abbrev pub is_quote : ℕ → Bool
is_quote c = eqb c b'\'' || eqb c b'"' || eqb c b'`'

-- The loop of `looks_like_multiple_statements`: the open quote, the depth, the previous character.
unfoldable pub scan : Option ℕ → Depth → ℕ → Text → Bool
scan quote depth prev [] = false
scan (some q) depth prev (c ∷ s) =
    scan (if eqb c q && not (eqb prev b'\\') then none else some q) depth c s
scan none depth prev (c ∷ s) =
    let rest =
      scan (if is_quote c then some c else none)
        (if eqb c b'(' then deeper depth else if eqb c b')' then shallower depth else depth) c s in
    if eqb c b';' && is_zero depth then true else rest

-- No quote is open at the first character, so the `prev` given there is not read.
unfoldable pub looks_like_multiple_statements : Text → Bool
looks_like_multiple_statements sql =
    scan none (nonneg 0) 0 (trim (drop_semicolon (trim_end (strip_comments sql))))
