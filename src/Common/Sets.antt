-- ===== src/Common/Sets.antt =====
-- `BTreeSet` of texts, as the sorted list of its elements.

use mathlib.Core.Path.{◌≡◌, refl}
use mathlib.Core.Bool.{Bool, true, false, ◌||◌}
use mathlib.Core.List.{List, [], ◌∷◌}
use native.Mathlib.Omega.{arith}
use tmdb_mteam_hub.Common.Tests.{if◌then◌else◌}
use tmdb_mteam_hub.Common.Lists.{any}
use tmdb_mteam_hub.Common.Texts.{Text, text_eq, text_eq_iff, text_lt}

abbrev pub contains : Text → List Text → Bool
contains x s = any (text_eq x) s

unfoldable pub insert_set : Text → List Text → List Text
insert_set x [] = x ∷ []
insert_set x (y ∷ s) =
    let rest = insert_set x s in
    if text_eq x y then y ∷ s else if text_lt x y then x ∷ y ∷ s else y ∷ rest

-- An inserted element is there, and no other comes or goes.
pub contains-insert_set :
    (z x : Text) (s : List Text) → contains z (insert_set x s) ≡ (text_eq z x || contains z s)
unfolding insert_set
contains-insert_set z x [] = ground arith
contains-insert_set z x (y ∷ s) =
    ground (arith, contains-insert_set z x s, text_eq_iff x y, text_eq_iff z x, text_eq_iff z y)

text_lt_total : (x y : Text) → text_eq x y ≡ false → text_lt x y ≡ false → text_lt y x ≡ true
unfolding text_eq text_lt
text_lt_total [] [] h k = cc
text_lt_total [] (d ∷ y) h k = ground arith
text_lt_total (c ∷ x) [] h k = refl
text_lt_total (c ∷ x) (d ∷ y) h k = ground (arith, text_lt_total x y)

text_lt_irrefl : (x : Text) → text_lt x x ≡ false
unfolding text_lt
text_lt_irrefl [] = refl
text_lt_irrefl (c ∷ x) = ground (arith, text_lt_irrefl x)

-- The set is sorted, so its neighbours differ.
abbrev pub IsSorted : List Text → Type 0
IsSorted [] = Unit
IsSorted (x ∷ []) = Unit
IsSorted (x ∷ y ∷ s) = (text_lt x y ≡ true) × IsSorted (y ∷ s)

pub insert_set-IsSorted : (x : Text) (s : List Text) → IsSorted s → IsSorted (insert_set x s)
unfolding insert_set
insert_set-IsSorted x [] h = tt
insert_set-IsSorted x (y ∷ []) h = ground (arith, text_lt_total x y)
insert_set-IsSorted x (y ∷ z ∷ s) h =
    ground (arith, text_lt_total x y, text_lt_total x z, insert_set-IsSorted x (z ∷ s))

-- The first two elements of a sorted set are not equal.
pub IsSorted-ne : (x y : Text) (s : List Text) → IsSorted (x ∷ y ∷ s) → text_eq x y ≡ false
IsSorted-ne x y s h = ground (arith, text_eq_iff x y, text_lt_irrefl x)
