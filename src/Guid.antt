-- ===== src/Guid.antt =====
-- server/src/utils/GuidGenerator.cpp: the text of a new identifier and the test of its form. A text is
-- a list of its characters' codes; the two numbers of 64 bits that were drawn are arguments.
use native.Mathlib.Numerals.{unary_clauses}
use sea_battle.Base.{
  ℕ, zero, suc, ◌+◌, ◌-◌, ◌*◌, ◌/◌, ◌%◌, ◌^◌, ◌≤◌, ◌<◌, ◌≡◌, refl, ap, ◌∙◌, inl, inr, Bool, true,
  false, ◌&&◌, ◌||◌, List, [], ◌∷◌, ◌++◌, ltb, leb, eqb, length, length-append, all, all-append,
  append_nil, sym, if◌then◌else◌, arith, Bool-cases,
}

-- A digit as `std::hex` prints it.
unfoldable pub hex_digit : ℕ → ℕ
hex_digit d = if ltb d 10 then 48 + d else 87 + d

-- A number as `std::hex` prints it, on fuel: as many digits as it may have.
unfoldable pub hex : ℕ → ℕ → List ℕ
hex zero n = []
hex (suc fuel) n =
    let rest = hex fuel (n / 16) in
    if ltb n 16 then hex_digit n ∷ [] else rest ++ hex_digit (n % 16) ∷ []

unfoldable pub zeros : ℕ → List ℕ
zeros zero = []
zeros (suc n) = 48 ∷ zeros n

-- `std::setw(width)` with the fill character '0'; a number of 64 bits has at most 16 digits.
unfoldable pub setw : ℕ → ℕ → List ℕ
setw width n = let digits = hex 16 n in zeros (width - length digits) ++ digits

abbrev pub dash : ℕ
dash = 45

unfoldable pub generate : ℕ → ℕ → List ℕ
generate part1 part2 =
    setw 8 (part1 / 2 ^ 32 % 2 ^ 32)
    ++ (dash ∷ setw 4 (part1 / 2 ^ 16 % 2 ^ 16)
        ++ (dash ∷ setw 4 (part1 % 2 ^ 16)
            ++ (dash ∷ setw 4 (part2 / 2 ^ 48 % 2 ^ 16) ++ (dash ∷ setw 12 (part2 % 2 ^ 48)))))

-- [0-9a-f], in upper case too.
unfoldable pub is_hex : ℕ → Bool
is_hex c = (leb 48 c && leb c 57) || (leb 97 c && leb c 102) || (leb 65 c && leb c 70)

-- The parts of the regular expression of `isValid`: `n` digits and then what `k` accepts, a dash.
unfoldable pub digits_then : ℕ → (List ℕ → Bool) → List ℕ → Bool
digits_then zero k text = k text
digits_then (suc n) k [] = false
digits_then (suc n) k (c ∷ text) = is_hex c && digits_then n k text

abbrev pub dash_then : (List ℕ → Bool) → List ℕ → Bool
dash_then k [] = false
dash_then k (c ∷ text) = eqb c dash && k text

abbrev pub at_end : List ℕ → Bool
at_end [] = true
at_end (c ∷ text) = false

unfoldable pub is_valid : List ℕ → Bool
is_valid = digits_then 8 (
    dash_then (
      digits_then 4 (
        dash_then (digits_then 4 (dash_then (digits_then 4 (dash_then (digits_then 12 at_end))))))))

hex_digit-is_hex : (d : ℕ) → d < 16 → is_hex (hex_digit d) ≡ true
unfolding is_hex hex_digit
hex_digit-is_hex d lt = ground arith

all-zeros : (n : ℕ) → (all is_hex (zeros n) ≡ true) × (length (zeros n) ≡ n)
unfolding zeros all is_hex
all-zeros zero = (refl, refl)
all-zeros (suc n) = ground (arith, all-zeros n)

all-hex : (fuel n : ℕ) → all is_hex (hex fuel n) ≡ true
unfolding hex all
all-hex zero n = refl
all-hex (suc fuel) n = elim (Bool-cases (ltb n 16)) [
  | inl small ↦ rw small (ground (arith, hex_digit-is_hex n))
  | inr large ↦ rw large (
      ground (
        arith,
        all-hex fuel (n / 16),
        all-append is_hex (hex fuel (n / 16)) (hex_digit (n % 16) ∷ []),
        hex_digit-is_hex (n % 16) (omega arith),
      ))
]

-- A number below 16 ^ (width + 1) has at most width + 1 digits.
length-hex : (fuel width n : ℕ) → n < 16 ^ suc width → length (hex fuel n) ≤ suc width
unfolding hex
length-hex zero width n lt = omega arith
length-hex (suc fuel) zero n lt = ground arith
length-hex (suc fuel) (suc width) n lt =
    let pow : 16 ^ suc (suc width) ≡ 16 * 16 ^ suc width = simp unary_clauses (omega arith) in
    elim (Bool-cases (ltb n 16)) [
      | inl small ↦ rw small (omega arith)
      | inr large ↦ rw large (
          omega (
            arith,
            length-append (hex fuel (n / 16)) (hex_digit (n % 16) ∷ []),
            length-hex fuel width (n / 16) (omega (arith, pow, lt)),
          ))
    ]

-- A number that fits is printed with exactly the digits of the width.
setw_lem :
    (width n : ℕ)
    → n < 16 ^ suc width
    → (length (setw (suc width) n) ≡ suc width) × (all is_hex (setw (suc width) n) ≡ true)
unfolding setw
setw_lem width n lt =
    let digits = hex 16 n in
    let pad = zeros (suc width - length digits) in
    let (padded, pads) = all-zeros (suc width - length digits) in
    (
      omega (arith, length-append pad digits, pads, length-hex 16 width n lt),
      ground (arith, all-append is_hex pad digits, padded, all-hex 16 n),
    )

digits_then-append :
    (k : List ℕ → Bool) (xs rest : List ℕ)
    → all is_hex xs ≡ true
    → digits_then (length xs) k (xs ++ rest) ≡ k rest
unfolding digits_then all
digits_then-append k [] rest h = refl
digits_then-append k (x ∷ xs) rest h = ground (arith, digits_then-append k xs rest)

digits_then-setw :
    (k : List ℕ → Bool) (width n : ℕ) (rest : List ℕ)
    → n < 16 ^ suc width
    → digits_then (suc width) k (setw (suc width) n ++ rest) ≡ k rest
digits_then-setw k width n rest lt =
    let (len, digits) = setw_lem width n lt in
    rw len at (digits_then-append k (setw (suc width) n) rest digits)

-- Every identifier that `generate` returns, whatever 64-bit numbers were drawn, has the form that
-- `isValid` accepts: groups of 8, 4, 4, 4 and 12 hexadecimal digits with dashes between them.
pub generate-is_valid : (part1 part2 : ℕ) → is_valid (generate part1 part2) ≡ true
unfolding is_valid generate
generate-is_valid part1 part2 =
    digits_then-setw _ 7 (part1 / 2 ^ 32 % 2 ^ 32) _ (omega arith)
    ∙ digits_then-setw _ 3 (part1 / 2 ^ 16 % 2 ^ 16) _ (omega arith)
    ∙ digits_then-setw _ 3 (part1 % 2 ^ 16) _ (omega arith)
    ∙ digits_then-setw _ 3 (part2 / 2 ^ 48 % 2 ^ 16) _ (omega arith)
    ∙ ap (digits_then 12 at_end) (sym (append_nil (setw 12 (part2 % 2 ^ 48))))
    ∙ digits_then-setw at_end 11 (part2 % 2 ^ 48) [] (omega arith)
