-- ===== src/Prelude/Sorting.antt =====
-- Sorting of text: `sort`, `dedup`, and what a `BTreeSet<String>` yields.
use mathlib.Core.Path.{◌≡◌, refl, sym, ◌∙◌, ap₂, sym, subst}
use mathlib.Core.Bool.{true, false}
use mathlib.Core.List.{List, [], ◌∷◌, Perm, Permᴰ}
use mathlib.Core.List.Permᴰ
use mathlib.Core.Logic.{∥∥₁_elim, inl, inr}
use native.Mathlib.Omega.{arith}
use sequel_ace_mcp.Prelude.Tests.{if◌then◌else◌, Bool-cases}
use sequel_ace_mcp.Prelude.Lists.{All}
use sequel_ace_mcp.Prelude.Strings.{Text, text_leb, ◌==◌}

pub text_leb_antisymm : (s t : Text) → text_leb s t ≡ true → text_leb t s ≡ true → s ≡ t
text_leb_antisymm [] [] h k = refl
text_leb_antisymm [] (y ∷ ys) h k = cc
text_leb_antisymm (x ∷ xs) [] h k = cc
text_leb_antisymm (x ∷ xs) (y ∷ ys) h k = ground (arith, text_leb_antisymm xs ys)

pub text_leb_total : (s t : Text) → text_leb s t ≡ false → text_leb t s ≡ true
text_leb_total [] t h = cc
text_leb_total (x ∷ xs) [] h = refl
text_leb_total (x ∷ xs) (y ∷ ys) h = ground (arith, text_leb_total xs ys)

pub text_leb_trans :
    (r s t : Text) → text_leb r s ≡ true → text_leb s t ≡ true → text_leb r t ≡ true
text_leb_trans [] s t h k = refl
text_leb_trans (x ∷ xs) [] t h k = cc
text_leb_trans (x ∷ xs) (y ∷ ys) [] h k = cc
text_leb_trans (x ∷ xs) (y ∷ ys) (z ∷ zs) h k = ground (arith, text_leb_trans xs ys zs)

-- One step of an insertion sort.
unfoldable pub insert_sorted : Text → List Text → List Text
insert_sorted a [] = a ∷ []
insert_sorted a (x ∷ xs) =
    let rest = insert_sorted a xs in if text_leb a x then a ∷ x ∷ xs else x ∷ rest

unfoldable pub sort : List Text → List Text
unfolding insert_sorted
sort [] = []
sort (x ∷ xs) = insert_sorted x (sort xs)

pub insert_sorted_comm :
    (a b : Text) (xs : List Text)
    → insert_sorted a (insert_sorted b xs) ≡ insert_sorted b (insert_sorted a xs)
unfolding insert_sorted
insert_sorted_comm a b [] =
    ground (arith, text_leb_antisymm a b, text_leb_total a b, text_leb_total b a)
insert_sorted_comm a b (x ∷ xs) = ground (
  arith,
  insert_sorted_comm a b xs,
  text_leb_antisymm a b,
  text_leb_total a b,
  text_leb_total b a,
  text_leb_trans a b x,
  text_leb_trans b a x,
  text_leb_total a x,
  text_leb_total b x,
  text_leb_trans a x b,
  text_leb_trans b x a,
)

Text-set : IsSet (List Text)
Text-set = hlevel

sort-Permᴰ : {xs ys : List Text} → Permᴰ xs ys → sort xs ≡ sort ys
unfolding sort
sort-Permᴰ Permᴰ.nil = refl
sort-Permᴰ (Permᴰ.cons e p) = ap₂ insert_sorted e (sort-Permᴰ p)
sort-Permᴰ (Permᴰ.swap {a} {b} {l} e f) = insert_sorted_comm a b (sort l) ∙ cc (e, f)
sort-Permᴰ (Permᴰ.trans p q) = sort-Permᴰ p ∙ sort-Permᴰ q

-- Sorting forgets the order of its input.
pub sort-Perm : {xs ys : List Text} → Perm xs ys → sort xs ≡ sort ys
sort-Perm {xs} {ys} p = ∥∥₁_elim p (Text-set (sort xs) (sort ys)) sort-Permᴰ

module _ (P : Text → Type 0) where
  All-insert_sorted : (a : Text) (xs : List Text) → P a → All P xs → All P (insert_sorted a xs)
  unfolding insert_sorted
  All-insert_sorted a [] p h = (p, tt)
  All-insert_sorted a (x ∷ xs) p h = elim (Bool-cases (text_leb a x)) [
    | inl first ↦ rw first (p, h)
    | inr later ↦ rw later (h.0, All-insert_sorted a xs p h.1)
  ]

  pub All-sort : (xs : List Text) → All P xs → All P (sort xs)
  unfolding sort
  All-sort [] h = tt
  All-sort (x ∷ xs) h = All-insert_sorted x (sort xs) h.0 (All-sort xs h.1)

insert_sorted-Perm : (a : Text) (xs : List Text) → Permᴰ (insert_sorted a xs) (a ∷ xs)
unfolding insert_sorted
insert_sorted-Perm a [] = Permᴰ.cons refl Permᴰ.nil
insert_sorted-Perm a (x ∷ xs) = elim (Bool-cases (text_leb a x)) [
  | inl first ↦ rw first (Permᴰ.refl (a ∷ x ∷ xs))
  | inr later ↦
      rw later (Permᴰ.trans (Permᴰ.cons refl (insert_sorted-Perm a xs)) (Permᴰ.swap refl refl))
]

pub sort_perm : (xs : List Text) → Permᴰ (sort xs) xs
unfolding sort
sort_perm [] = Permᴰ.nil
sort_perm (x ∷ xs) = Permᴰ.trans (insert_sorted-Perm x (sort xs)) (Permᴰ.cons refl (sort_perm xs))

-- Texts with the same sorted list are the same up to order.
pub Perm_of_sort-eq : (xs ys : List Text) → sort xs ≡ sort ys → Perm xs ys
Perm_of_sort-eq xs ys e =
    ∣ Permᴰ.trans (Permᴰ.symm (sort_perm xs)) (subst (λ l. Permᴰ l ys) (sym e) (sort_perm ys)) ∣₁

-- `dedup` drops an element equal to the one before it.
unfoldable pub dedup : List Text → List Text
dedup [] = []
dedup (x ∷ []) = x ∷ []
dedup (x ∷ y ∷ xs) = let rest = dedup (y ∷ xs) in if x == y then rest else x ∷ rest

-- `BTreeSet<String>::insert`; the set is kept as its sorted list.
unfoldable pub set_insert : Text → List Text → List Text
set_insert a [] = a ∷ []
set_insert a (x ∷ xs) =
    let rest = set_insert a xs in
    if a == x then x ∷ xs else if text_leb a x then a ∷ x ∷ xs else x ∷ rest
