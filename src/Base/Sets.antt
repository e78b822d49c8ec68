-- ===== src/Base/Sets.antt =====
-- `std::set`: a list without repetitions, in the order of its keys.
use Prim.Native.Nat.{ℕ, suc, ◌≤◌, Ordering}
use Prim.Native.String.{String}
use Prim.Native.String.{compare as compare_text}
use mathlib.Core.Path.{◌≡◌, refl}
use mathlib.Core.Logic.{inl, inr}
use mathlib.Core.Bool.{Bool, true, false, ◌&&◌, ◌||◌}
use mathlib.Core.List.{List, [], ◌∷◌}
use native.Mathlib.Omega.{arith}
use native.Mathlib.Decide.{ℕ_discrete}
use sea_battle.Base.Tests.{holds, ltb, if◌then◌else◌, String_discrete, Bool-cases}
use sea_battle.Base.Lists.{length}
use sea_battle.Base.Int.{ℤ, ℤ_discrete, ltb_ℤ}

-- What a set needs of its keys: equality and `std::less`.
pub record SetKey (A : Type 0) : Type 0 where
  pub same : Discrete A
  pub before : A → A → Bool

module _ {A : Type 0} ⦃k : SetKey A⦄ where
  -- `s.count(a) > 0`.
  unfoldable pub contains : List A → A → Bool
  contains [] a = false
  contains (x ∷ xs) a = holds (k.same x a) || contains xs a

  -- Puts a new key in front of the first greater one.
  pub put : A → List A → List A
  put a [] = a ∷ []
  put a (x ∷ xs) = if k.before a x then a ∷ x ∷ xs else x ∷ put a xs

  unfoldable pub insert : A → List A → List A
  unfolding put contains
  insert a xs = if contains xs a then xs else put a xs

  unfoldable pub erase : A → List A → List A
  erase a [] = []
  erase a (x ∷ xs) = if holds (k.same x a) then xs else x ∷ erase a xs

  -- No key twice.
  abbrev pub Distinct : List A → Type 0
  Distinct [] = Unit {0}
  Distinct (x ∷ xs) = (contains xs x ≡ false) × Distinct xs

  contains-put :
      (a : A) (xs : List A) (c : A) → contains (put a xs) c ≡ (holds (k.same a c) || contains xs c)
  unfolding put contains
  contains-put a [] c = refl
  contains-put a (x ∷ xs) c = ground (arith, contains-put a xs c)

  pub contains-insert :
      (a : A) (xs : List A) (c : A)
      → contains (insert a xs) c ≡ (holds (k.same a c) || contains xs c)
  unfolding insert
  contains-insert a xs c = ground (arith, contains-put a xs c)

  length-put : (a : A) (xs : List A) → length (put a xs) ≡ suc (length xs)
  unfolding put
  length-put a [] = refl
  length-put a (x ∷ xs) = ground (arith, length-put a xs)

  pub length-insert :
      (a : A) (xs : List A)
      → length (insert a xs) ≡ (if contains xs a then length xs else suc (length xs))
  unfolding insert
  length-insert a xs = ground (arith, length-put a xs)

  put-Distinct : (a : A) (xs : List A) → contains xs a ≡ false → Distinct xs → Distinct (put a xs)
  unfolding put contains
  put-Distinct a [] n d = (refl, tt)
  put-Distinct a (x ∷ xs) n d = ground (arith, put-Distinct a xs, contains-put a xs x)

  pub insert-Distinct : (a : A) (xs : List A) → Distinct xs → Distinct (insert a xs)
  unfolding insert
  insert-Distinct a xs d = ground (arith, put-Distinct a xs)

  pub contains-erase :
      (a : A) (xs : List A) (c : A)
      → Distinct xs
      → contains (erase a xs) c ≡ (if holds (k.same a c) then false else contains xs c)
  unfolding erase contains
  contains-erase a [] c d = ground arith
  contains-erase a (x ∷ xs) c d = ground (arith, contains-erase a xs c d.1)

  pub erase-Distinct : (a : A) (xs : List A) → Distinct xs → Distinct (erase a xs)
  unfolding erase
  erase-Distinct a [] d = tt
  erase-Distinct a (x ∷ xs) d = ground (arith, erase-Distinct a xs d.1, contains-erase a xs x d.1)

  pub length-erase :
      (a : A) (xs : List A) → contains xs a ≡ true → suc (length (erase a xs)) ≡ length xs
  unfolding erase contains
  length-erase a [] h = ground arith
  length-erase a (x ∷ xs) h = ground (arith, length-erase a xs)

  -- Removing keeps every other element, also where the list repeats some.
  contains-erase_ne :
      (a : A) (xs : List A) (c : A)
      → holds (k.same a c) ≡ false
      → contains (erase a xs) c ≡ contains xs c
  unfolding erase contains
  contains-erase_ne a [] c n = refl
  contains-erase_ne a (x ∷ xs) c n = ground (arith, contains-erase_ne a xs c n)

  abbrev pub Subset : List A → List A → Type 0
  Subset xs ys = (c : A) → contains xs c ≡ true → contains ys c ≡ true

  -- A list without repetitions is no longer than one that holds its elements.
  pub length-le_of_Subset : (xs ys : List A) → Distinct xs → Subset xs ys → length xs ≤ length ys
  unfolding contains
  length-le_of_Subset [] ys d s = omega arith
  length-le_of_Subset (x ∷ xs) ys d s =
      let rest =
        length-le_of_Subset xs (erase x ys) d.1
          λ c m. ground (arith, contains-erase_ne x ys c, s c) in
      ground (arith, length-erase x ys, s x, rest)

  -- If in addition the lengths agree, the two have the same elements.
  pub Subset_of_length :
      (xs ys : List A) → Distinct xs → Subset xs ys → length ys ≤ length xs → Subset ys xs
  unfolding contains
  Subset_of_length xs ys d s l c m = elim (Bool-cases (contains xs c)) [
    | inl in_xs ↦ in_xs
    | inr out ↦
        absurd
          (omega (arith, length-le_of_Subset (c ∷ xs) ys (out, d) (λ e n. ground (arith, s e, n))))
  ]

-- A cell of the board, `std::pair<int, int>`: column and row.
abbrev pub Cell : Type 0
Cell = ℤ × ℤ

unfoldable pub Cell_discrete : Discrete Cell
unfolding ℤ_discrete
Cell_discrete (x, y) (x', y') = elim (ℤ_discrete x x') [
  | yes p ↦ elim (ℤ_discrete y y') [
    | yes q ↦ yes (λ i. (p i, q i))
    | no n ↦ no (λ e. n (λ i. (e i).1))
  ]
  | no n ↦ no (λ e. n (λ i. (e i).0))
]

-- Pairs are ordered by the first component, then by the second.
abbrev cell_before : Cell → Cell → Bool
cell_before (x, y) (x', y') = ltb_ℤ x x' || holds (ℤ_discrete x x') && ltb_ℤ y y'

instance abbrev pub cell_key : SetKey Cell
cell_key = record { same = Cell_discrete; before = cell_before }

abbrev text_before : String → String → Bool
text_before s t = elim (compare_text s t) [ Ordering.lt ↦ true | _ ↦ false ]

instance abbrev pub string_key : SetKey String
string_key = record { same = String_discrete; before = text_before }

instance abbrev pub number_key : SetKey ℕ
number_key = record { same = ℕ_discrete; before = ltb }
