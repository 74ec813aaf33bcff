-- ===== src/Effects/Paths.antt =====
-- Paths of Unix, as `Path::components` of the standard library reads them. `PathBuf` values are
-- equal, also in the `BTreeSet` of src/subscription/effects.rs, if their components are.
use tmdb_mteam_hub.Common.{
  ◌≡◌, List, [], ◌∷◌, Bool, true, false, not, ◌&&◌, ◌==◌, if◌then◌else◌, Text, text, text_eq,
  text_eq_iff, text_eq_refl, is_empty, starts_with, any, retain, arith, refl, ℕ,
}

abbrev begin_part : ℕ → List Text → List Text
begin_part c [] = (c ∷ []) ∷ []
begin_part c (part ∷ parts) = (c ∷ part) ∷ parts

-- The parts between the separators.
unfoldable pub split_path : Text → List Text
split_path [] = [] ∷ []
split_path (c ∷ s) = let rest = split_path s in if c == 0x2f then [] ∷ rest else begin_part c rest

-- A part that is a component: repeated separators and `.` are passed over.
abbrev pub is_component : Text → Bool
is_component part = not (is_empty part) && not (text_eq part (text "."))

-- A relative path that starts with `.` keeps this one.
abbrev pub relative_components : List Text → List Text
relative_components [] = []
relative_components (part ∷ parts) =
    if text_eq part (text ".")
    then part ∷ retain is_component parts
    else retain is_component (part ∷ parts)

-- The component of the root is the separator, which stands in no other.
unfoldable pub components : Text → List Text
unfolding split_path
components path =
    if starts_with path (text "/")
    then text "/" ∷ retain is_component (split_path path)
    else relative_components (split_path path)

unfoldable pub texts_eq : List Text → List Text → Bool
texts_eq [] [] = true
texts_eq [] (t ∷ ts) = false
texts_eq (s ∷ ss) [] = false
texts_eq (s ∷ ss) (t ∷ ts) = text_eq s t && texts_eq ss ts

-- `==` of `PathBuf`
unfoldable pub path_eq : Text → Text → Bool
unfolding components texts_eq
path_eq a b = texts_eq (components a) (components b)

-- A set of paths has the path.
abbrev pub has_path : Text → List Text → Bool
has_path path paths = any (path_eq path) paths

texts_eq_refl : (ss : List Text) → texts_eq ss ss ≡ true
unfolding texts_eq
texts_eq_refl [] = refl
texts_eq_refl (s ∷ ss) = rw (text_eq_refl s, texts_eq_refl ss) refl

texts_eq_sym : (ss ts : List Text) → texts_eq ss ts ≡ texts_eq ts ss
unfolding texts_eq
texts_eq_sym [] [] = refl
texts_eq_sym [] (t ∷ ts) = refl
texts_eq_sym (s ∷ ss) [] = refl
texts_eq_sym (s ∷ ss) (t ∷ ts) =
    ground (arith, texts_eq_sym ss ts, text_eq_iff s t, text_eq_iff t s)

pub path_eq_refl : (a : Text) → path_eq a a ≡ true
unfolding path_eq
path_eq_refl a = texts_eq_refl (components a)

pub path_eq_sym : (a b : Text) → path_eq a b ≡ path_eq b a
unfolding path_eq
path_eq_sym a b = texts_eq_sym (components a) (components b)
