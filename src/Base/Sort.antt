-- ===== src/Base/Sort.antt =====
-- `sort.Strings`: texts in the order of their bytes, which for UTF-8 is the order of the code points.
use Prim.Native.Char.{code}
use Prim.Native.String.{String}
use mathlib.Core.Path.{◌≡◌, refl, ap, ap₂, ◌∙◌}
use mathlib.Core.Bool.{Bool, true, false}
use mathlib.Core.List.{List, [], ◌∷◌, Permᴰ}
use native.Mathlib.Omega.{arith}
use text.Mathlib.TextEquality.{Char-path}
use spotted_network.Base.Tests.{ltb, ◌==◌, if◌then◌else◌}

-- `s <= t`
str_le : String → String → Bool
str_le String.[] t = true
str_le (String.◌∷◌ c s) String.[] = false
str_le (String.◌∷◌ c s) (String.◌∷◌ d t) =
    let rest = str_le s t in
    if ltb (code c) (code d) then true else if code c == code d then rest else false

insert : String → List String → List String
insert x [] = x ∷ []
insert x (y ∷ l) = if str_le x y then x ∷ y ∷ l else y ∷ insert x l

unfoldable pub sort_strings : List String → List String
unfolding insert str_le
sort_strings [] = []
sort_strings (x ∷ l) = insert x (sort_strings l)

le_total : (s t : String) → str_le s t ≡ false → str_le t s ≡ true
unfolding str_le
le_total String.[] t h = cc
le_total (String.◌∷◌ c s) String.[] h = refl
le_total (String.◌∷◌ c s) (String.◌∷◌ d t) h = ground (arith, le_total s t)

le_trans : (s t u : String) → str_le s t ≡ true → str_le t u ≡ true → str_le s u ≡ true
unfolding str_le
le_trans String.[] t u h k = refl
le_trans (String.◌∷◌ c s) String.[] u h k = cc
le_trans (String.◌∷◌ c s) (String.◌∷◌ d t) String.[] h k = cc
le_trans (String.◌∷◌ c s) (String.◌∷◌ d t) (String.◌∷◌ e u) h k = ground (arith, le_trans s t u)

le_antisymm : (s t : String) → str_le s t ≡ true → str_le t s ≡ true → s ≡ t
unfolding str_le
le_antisymm String.[] String.[] h k = refl
le_antisymm String.[] (String.◌∷◌ d t) h k = cc
le_antisymm (String.◌∷◌ c s) String.[] h k = cc
le_antisymm (String.◌∷◌ c s) (String.◌∷◌ d t) h k =
    ap₂ String.◌∷◌ (Char-path c d (ground arith)) (le_antisymm s t (ground arith) (ground arith))

insert_comm : (x y : String) (l : List String) → insert x (insert y l) ≡ insert y (insert x l)
unfolding insert
insert_comm x y [] = ground (arith, le_total x y, le_total y x, le_antisymm x y)
insert_comm x y (z ∷ l) = ground (
  arith,
  insert_comm x y l,
  le_total x y,
  le_total y x,
  le_antisymm x y,
  le_trans x y z,
  le_trans y x z,
  le_trans x z y,
  le_trans y z x,
  le_total x z,
  le_total y z,
)

-- Sorting forgets the order in which a map was walked.
pub sort_strings-perm : {l m : List String} → Permᴰ l m → sort_strings l ≡ sort_strings m
unfolding sort_strings
sort_strings-perm Permᴰ.nil = refl
sort_strings-perm (Permᴰ.cons e p) = ap₂ insert e (sort_strings-perm p)
sort_strings-perm (Permᴰ.swap {a} {b} {l} e f) =
    insert_comm a b (sort_strings l) ∙ ap₂ insert f (ap (λ x. insert x (sort_strings l)) e)
sort_strings-perm (Permᴰ.trans p q) = sort_strings-perm p ∙ sort_strings-perm q
