-- ===== src/Game/Nickname.antt =====
-- server/src/game/GameRules.cpp, `isValidNickname`: a nickname is a sequence of bytes, each from 0 to
-- 255. The loop runs on fuel, as many steps as there are bytes; a step reads one or two of them.
pub mod Utf8
use sea_battle.Base.{
  ℕ, zero, suc, Bool, true, false, ◌&&◌, ◌||◌, List, [], ◌∷◌, Option, none, some, leb, eqb, length,
  if◌then◌else◌,
}

abbrev pub between : ℕ → ℕ → ℕ → Bool
between low high c = leb low c && leb c high

-- 'a' to 'z' or 'A' to 'Z'.
unfoldable pub is_latin_letter : ℕ → Bool
is_latin_letter c = between 97 122 c || between 65 90 c

-- '0' to '9'.
unfoldable pub is_digit : ℕ → Bool
is_digit c = between 48 57 c

unfoldable pub is_underscore : ℕ → Bool
is_underscore c = eqb c 95

-- `isValidUtf8Cyrillic` on the bytes from the position on: what is left of them when the position
-- has moved on by 2, or none for `false`.
unfoldable pub is_valid_utf8_cyrillic : List ℕ → Option (List ℕ)
is_valid_utf8_cyrillic [] = none
is_valid_utf8_cyrillic (c1 ∷ []) = none
is_valid_utf8_cyrillic (c1 ∷ c2 ∷ rest) =
    if eqb c1 208
    then if between 144 191 c2 || eqb c2 129 then some rest else none
    else if eqb c1 209
    then if between 128 143 c2 || eqb c2 145 then some rest else none
    else none

-- The body of the loop: the bytes after the character, or none for `return false`.
unfoldable pub next_char : ℕ → List ℕ → Option (List ℕ)
next_char c rest =
    if is_latin_letter c || is_digit c || is_underscore c
    then some rest
    else is_valid_utf8_cyrillic (c ∷ rest)

unfoldable pub count_chars : ℕ → List ℕ → ℕ → Option ℕ
count_chars fuel [] n = some n
count_chars zero (c ∷ rest) n = none
count_chars (suc fuel) (c ∷ rest) n = elim (next_char c rest) [
  | none ↦ none
  | some left ↦ count_chars fuel left (suc n)
]

abbrev pub good_count : Option ℕ → Bool
good_count none = false
good_count (some n) = leb 3 n && leb n 15

abbrev pub is_empty_text : List ℕ → Bool
is_empty_text [] = true
is_empty_text (c ∷ rest) = false

unfoldable pub is_valid_nickname : List ℕ → Bool
is_valid_nickname nickname =
    if is_empty_text nickname then false else good_count (count_chars (length nickname) nickname 0)
