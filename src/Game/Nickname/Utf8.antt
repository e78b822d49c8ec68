-- ===== src/Game/Nickname/Utf8.antt =====
-- GameRules.cpp, `isValidNickname`, on texts in UTF-8: which nicknames are allowed, by code points.
use sea_battle.Base.{
  ℕ, zero, suc, ◌+◌, ◌/◌, ◌%◌, ◌≤◌, ◌<◌, ◌≡◌, refl, ◌∙◌, inl, inr, Bool, false, ◌&&◌, ◌||◌, List,
  [], ◌∷◌, ◌++◌, Option, none, some, leb, ltb, eqb, length, length-append, all, arith, Bool-cases,
  Option-cases, if◌then◌else◌,
}
use sea_battle.Game.Nickname.{
  between, is_latin_letter, is_digit, is_underscore, is_valid_utf8_cyrillic, next_char, count_chars,
  is_empty_text, is_valid_nickname,
}

-- The encoding of a code point.
unfoldable pub encode : ℕ → List ℕ
encode c =
    if ltb c 128
    then c ∷ []
    else if ltb c 2048
    then (192 + c / 64) ∷ (128 + c % 64) ∷ []
    else if ltb c 65536
    then (224 + c / 4096) ∷ (128 + c / 64 % 64) ∷ (128 + c % 64) ∷ []
    else (240 + c / 262144) ∷ (128 + c / 4096 % 64) ∷ (128 + c / 64 % 64) ∷ (128 + c % 64) ∷ []

unfoldable pub encode_all : List ℕ → List ℕ
encode_all [] = []
encode_all (c ∷ cs) = encode c ++ encode_all cs

-- Latin letters, digits, the underscore, and the letters of the Russian alphabet: А to я, Ё and ё.
unfoldable pub is_allowed : ℕ → Bool
is_allowed c =
    between 97 122 c
    || between 65 90 c
    || between 48 57 c
    || eqb c 95
    || between 1040 1103 c
    || eqb c 1025
    || eqb c 1105

plain_allowed :
    (c : ℕ) → c < 128 → (is_latin_letter c || is_digit c || is_underscore c) ≡ is_allowed c
unfolding is_latin_letter is_digit is_underscore is_allowed
plain_allowed c lt = ground arith

not_plain : (c : ℕ) → 128 ≤ c → (is_latin_letter c || is_digit c || is_underscore c) ≡ false
unfolding is_latin_letter is_digit is_underscore
not_plain c le = ground arith

abbrev if_allowed : ℕ → List ℕ → Option (List ℕ)
if_allowed c rest = if is_allowed c then some rest else none

next_one : (c : ℕ) (rest : List ℕ) → c < 128 → next_char c rest ≡ if_allowed c rest
unfolding next_char is_valid_utf8_cyrillic
next_one c [] lt = ground (arith, plain_allowed c lt)
next_one c (d ∷ rest) lt = ground (arith, plain_allowed c lt)

next_two :
    (c : ℕ) (rest : List ℕ)
    → 128 ≤ c
    → c < 2048
    → next_char (192 + c / 64) ((128 + c % 64) ∷ rest) ≡ if_allowed c rest
unfolding next_char is_valid_utf8_cyrillic is_allowed
next_two c rest le lt = rw (not_plain (192 + c / 64) (omega arith)) (ground arith)

next_more : (c lead : ℕ) (rest : List ℕ) → 2048 ≤ c → 224 ≤ lead → next_char lead rest ≡ none
unfolding next_char is_valid_utf8_cyrillic
next_more c lead [] le l = ground (arith, not_plain lead)
next_more c lead (d ∷ rest) le l = ground (arith, not_plain lead)

more_allowed : (c : ℕ) → 2048 ≤ c → is_allowed c ≡ false
unfolding is_allowed
more_allowed c le = ground arith

abbrev continue : Option (List ℕ) → ℕ → ℕ → Option ℕ
continue none fuel n = none
continue (some left) fuel n = count_chars fuel left n

count_step :
    (fuel : ℕ) (c : ℕ) (rest : List ℕ) (n : ℕ)
    → count_chars (suc fuel) (c ∷ rest) n ≡ continue (next_char c rest) fuel (suc n)
unfolding count_chars
count_step fuel c rest n = elim (Option-cases (next_char c rest)) [
  | inl stop ↦ rw (count_chars, stop)
  | inr (left, go) ↦ rw (count_chars, go)
]

count_lead :
    (fuel c lead : ℕ) (rest tail : List ℕ) (n : ℕ)
    → next_char lead tail ≡ if_allowed c rest
    → count_chars (suc fuel) (lead ∷ tail) n
      ≡ (if is_allowed c then count_chars fuel rest (suc n) else none)
count_lead fuel c lead rest tail n e = elim (Bool-cases (is_allowed c)) [
  | inl good ↦ rw (count_step fuel lead tail n, e, good)
  | inr bad ↦ rw (count_step fuel lead tail n, e, bad)
]

count_char :
    (fuel c : ℕ) (rest : List ℕ) (n : ℕ)
    → count_chars (suc fuel) (encode c ++ rest) n
      ≡ (if is_allowed c then count_chars fuel rest (suc n) else none)
unfolding encode
count_char fuel c rest n = elim (Bool-cases (ltb c 128)) [
  | inl one ↦ rw one (count_lead fuel c c rest rest n (next_one c rest (ground arith)))
  | inr more ↦ elim (Bool-cases (ltb c 2048)) [
    | inl two ↦
        rw (more, two)
          (count_lead fuel c _ rest _ n (next_two c rest (ground arith) (ground arith)))
    | inr many ↦
        let large : 2048 ≤ c = ground arith in
        let bad = more_allowed c large in
        elim (Bool-cases (ltb c 65536)) [
          | inl three ↦
              rw (more, many, three)
                (count_lead fuel c _ rest _ n
                  (next_more c (224 + c / 4096) _ large (omega arith) ∙ rw bad))
          | inr four ↦
              rw (more, many, four)
                (count_lead fuel c _ rest _ n
                  (next_more c (240 + c / 262144) _ large (omega arith) ∙ rw bad))
        ]
  ]
]

length-encode : (c : ℕ) → 1 ≤ length (encode c)
unfolding encode
length-encode c = ground arith

count_all :
    (cs : List ℕ) (fuel n : ℕ)
    → length (encode_all cs) ≤ fuel
    → count_chars fuel (encode_all cs) n
      ≡ (if all is_allowed cs then some (n + length cs) else none)
unfolding encode_all all count_chars
count_all [] zero n le = ground arith
count_all [] (suc fuel) n le = ground arith
count_all (c ∷ cs) zero n le =
    absurd (omega (arith, le, length-append (encode c) (encode_all cs), length-encode c))
count_all (c ∷ cs) (suc fuel) n le =
    let rest =
      count_all cs fuel (suc n)
        (omega (arith, le, length-append (encode c) (encode_all cs), length-encode c)) in
    count_char fuel c (encode_all cs) n ∙ ground (arith, rest)

nonempty : (cs : List ℕ) → is_empty_text (encode_all cs) ≡ eqb (length cs) 0
unfolding encode_all encode
nonempty [] = refl
nonempty (c ∷ cs) = ground arith

-- A nickname in UTF-8 is valid exactly when each of its characters is a Latin letter, a digit, an
-- underscore or a Russian letter, and there are from 3 to 15 characters.
pub is_valid_nickname-encode_all :
    (cs : List ℕ)
    → is_valid_nickname (encode_all cs)
      ≡ (all is_allowed cs && leb 3 (length cs) && leb (length cs) 15)
unfolding is_valid_nickname
is_valid_nickname-encode_all cs =
    ground (arith, nonempty cs, count_all cs (length (encode_all cs)) 0 (omega arith))
