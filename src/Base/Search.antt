-- ===== src/Base/Search.antt =====
-- Searches in a list against membership.
use mathlib.Core.Path.{◌≡◌, refl}
use mathlib.Core.Logic.{inl, inr}
use mathlib.Core.Bool.{Bool, true, ◌||◌}
use mathlib.Core.List.{List, [], ◌∷◌, ◌++◌}
use native.Mathlib.Omega.{arith}
use sea_battle.Base.Tests.{holds, Bool-cases}
use sea_battle.Base.Lists.{any, all, for_each, All}
use sea_battle.Base.Sets.{SetKey, contains, insert, contains-insert}

module _ {A : Type 0} ⦃k : SetKey A⦄ where
  pub any_of_contains :
      (p : A → Bool) (xs : List A) (c : A) → contains xs c ≡ true → p c ≡ true → any p xs ≡ true
  unfolding any contains
  any_of_contains p [] c m h = m
  any_of_contains p (x ∷ xs) c m h = ground (arith, any_of_contains p xs c)

  pub contains_of_any :
      (p : A → Bool) (xs : List A)
      → any p xs ≡ true
      → (c : A) × (contains xs c ≡ true) × (p c ≡ true)
  unfolding any contains
  contains_of_any p [] h = cc
  contains_of_any p (x ∷ xs) h = elim (Bool-cases (p x)) [
    | inl yes_x ↦ (x, ground arith, yes_x)
    | inr no_x ↦ let (c, m, e) = contains_of_any p xs (ground arith) in (c, ground arith, e)
  ]

  pub all_of_contains :
      (p : A → Bool) (xs : List A) (c : A) → all p xs ≡ true → contains xs c ≡ true → p c ≡ true
  unfolding all contains
  all_of_contains p [] c h m = cc
  all_of_contains p (x ∷ xs) c h m = ground (arith, all_of_contains p xs c)

  pub all_intro :
      (p : A → Bool) (xs : List A) → ((c : A) → contains xs c ≡ true → p c ≡ true) → all p xs ≡ true
  unfolding all contains
  all_intro p [] h = refl
  all_intro p (x ∷ xs) h = ground (arith, h x, all_intro p xs (λ c m. ground (arith, h c)))

  pub All-intro {κ} :
      (P : A → Type κ) (xs : List A) → ((c : A) → contains xs c ≡ true → P c) → All P xs
  unfolding contains
  All-intro P [] h = tt
  All-intro P (x ∷ xs) h = (h x (ground arith), All-intro P xs (λ c m. h c (ground arith)))

  pub any-same : (xs : List A) (c : A) → any (λ x. holds (k.same c x)) xs ≡ contains xs c
  unfolding any contains
  any-same [] c = refl
  any-same (x ∷ xs) c = ground (arith, any-same xs c)

  pub contains-append :
      (xs ys : List A) (c : A) → contains (xs ++ ys) c ≡ (contains xs c || contains ys c)
  unfolding contains
  contains-append [] ys c = refl
  contains-append (x ∷ xs) ys c = ground (arith, contains-append xs ys c)

  -- Inserting each of a list.
  pub contains-for_each-insert :
      (s xs : List A) (c : A)
      → contains (for_each (λ s x. insert x s) s xs) c ≡ (contains s c || contains xs c)
  unfolding for_each contains
  contains-for_each-insert s [] c = ground arith
  contains-for_each-insert s (x ∷ xs) c =
      ground (arith, contains-for_each-insert (insert x s) xs c, contains-insert x s c)
