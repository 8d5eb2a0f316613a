-- ===== src/Std/Split.antt =====
-- The `str` methods that take a text apart: `split`, `split_once`, `split_whitespace`, `trim`,
-- `strip_prefix` and the comparison without case.
use apprtc.Prelude.{
  ℕ, Text, ◌+◌, Option, some, none, List, [], ◌∷◌, Bool, true, false, ◌&&◌, ◌||◌, eqb, leb,
  if◌then◌else◌,
}

-- `char::is_whitespace`
unfoldable pub is_whitespace : ℕ → Bool
is_whitespace c =
    (leb 9 c && leb c 13)
    || eqb c 32
    || eqb c 133
    || eqb c 160
    || eqb c 5760
    || (leb 8192 c && leb c 8202)
    || eqb c 8232
    || eqb c 8233
    || eqb c 8239
    || eqb c 8287
    || eqb c 12288

-- Put a character before the first part.
abbrev pub onto_first : ℕ → List Text → List Text
onto_first c [] = (c ∷ []) ∷ []
onto_first c (part ∷ parts) = (c ∷ part) ∷ parts

-- `split` at the characters of a kind.
unfoldable pub split : (ℕ → Bool) → Text → List Text
split at [] = [] ∷ []
split at (c ∷ s) = let rest = split at s in if at c then [] ∷ rest else onto_first c rest

unfoldable pub filter_nonempty : List Text → List Text
filter_nonempty [] = []
filter_nonempty ([] ∷ parts) = filter_nonempty parts
filter_nonempty ((c ∷ s) ∷ parts) = (c ∷ s) ∷ filter_nonempty parts

unfoldable pub split_whitespace : Text → List Text
unfolding split filter_nonempty is_whitespace
split_whitespace s = filter_nonempty (split is_whitespace s)

-- `split("\r\n")`
unfoldable pub split_crlf : Text → List Text
split_crlf [] = [] ∷ []
split_crlf (c ∷ []) = (c ∷ []) ∷ []
split_crlf (c ∷ d ∷ s) =
    let after = split_crlf s in
    let rest = split_crlf (d ∷ s) in if eqb c 13 && eqb d 10 then [] ∷ after else onto_first c rest

unfoldable pub trim_start : Text → Text
unfolding is_whitespace
trim_start [] = []
trim_start (c ∷ s) = let rest = trim_start s in if is_whitespace c then rest else c ∷ s

-- `trim_end_matches`
unfoldable pub trim_end_matches : (ℕ → Bool) → Text → Text
trim_end_matches at [] = []
trim_end_matches at (c ∷ s) = elim (trim_end_matches at s) [
  | [] ↦ if at c then [] else c ∷ []
  | d ∷ rest ↦ c ∷ d ∷ rest
]

unfoldable pub trim : Text → Text
unfolding trim_start trim_end_matches is_whitespace
trim s = trim_end_matches is_whitespace (trim_start s)

-- `split_once` at a character.
unfoldable pub split_once : ℕ → Text → Option (Text × Text)
split_once at [] = none
split_once at (c ∷ s) =
    let later : Option (Text × Text) = elim (split_once at s) [
      | none ↦ none
      | some (key, value) ↦ some (c ∷ key, value)
    ] in
    if eqb c at then some ([], s) else later

unfoldable pub strip_prefix : Text → Text → Option Text
strip_prefix [] s = some s
strip_prefix (p ∷ ps) [] = none
strip_prefix (p ∷ ps) (c ∷ s) = let rest = strip_prefix ps s in if eqb p c then rest else none

unfoldable pub text_eq : Text → Text → Bool
text_eq [] [] = true
text_eq [] (_ ∷ _) = false
text_eq (_ ∷ _) [] = false
text_eq (c ∷ s) (d ∷ t) = eqb c d && text_eq s t

unfoldable pub to_ascii_lowercase : ℕ → ℕ
to_ascii_lowercase c = if leb b'A' c && leb c b'Z' then c + 32 else c

unfoldable pub eq_ignore_ascii_case : Text → Text → Bool
unfolding to_ascii_lowercase
eq_ignore_ascii_case [] [] = true
eq_ignore_ascii_case [] (_ ∷ _) = false
eq_ignore_ascii_case (_ ∷ _) [] = false
eq_ignore_ascii_case (c ∷ s) (d ∷ t) =
    eqb (to_ascii_lowercase c) (to_ascii_lowercase d) && eq_ignore_ascii_case s t
