-- ===== src/Base/Lists.antt =====
-- Lists over the native numbers, loops that look for an element, and `std::set` as a sorted list.
use Prim.Native.Nat.{ℕ, zero, suc, ◌+◌}
use mathlib.Core.Path.{◌≡◌, refl, sym}
use mathlib.Core.Bool.{Bool, true, false, not, ◌&&◌, ◌||◌}
use mathlib.Core.List.{List, [], ◌∷◌, ◌++◌, map}
use mathlib.Core.Logic.{inl, inr}
use native.Mathlib.Omega.{arith}
use sea_battle.Base.Tests.{Bool-cases, if◌then◌else◌}

module _ {ℓ} {A : Type ℓ} where
  abbrev pub length : List A → ℕ
  length [] = 0
  length (x ∷ xs) = suc (length xs)

  pub length-append : (xs ys : List A) → length (xs ++ ys) ≡ length xs + length ys
  length-append [] ys = omega arith
  length-append (x ∷ xs) ys = omega (arith, length-append xs ys)

  -- `for (x : xs) if (p(x)) return true; return false;`
  unfoldable pub any : (A → Bool) → List A → Bool
  any p [] = false
  any p (x ∷ xs) = p x || any p xs

  -- `for (x : xs) if (!p(x)) return false; return true;`
  unfoldable pub all : (A → Bool) → List A → Bool
  all p [] = true
  all p (x ∷ xs) = p x && all p xs

  -- `for (x : xs) s = body(s, x);`
  unfoldable pub for_each {κ} : {S : Type κ} → (S → A → S) → S → List A → S
  for_each body s [] = s
  for_each body s (x ∷ xs) = for_each body (body s x) xs

  -- The elements of which `p` holds, in their order.
  unfoldable pub keep_if : (A → Bool) → List A → List A
  keep_if p [] = []
  keep_if p (x ∷ xs) = if p x then x ∷ keep_if p xs else keep_if p xs

  -- The first `n` elements, and the others.
  unfoldable pub take : ℕ → List A → List A
  take zero xs = []
  take (suc n) [] = []
  take (suc n) (x ∷ xs) = x ∷ take n xs

  unfoldable pub drop : ℕ → List A → List A
  drop zero xs = xs
  drop (suc n) [] = []
  drop (suc n) (x ∷ xs) = drop n xs

  pub take-append : (xs ys : List A) → take (length xs) (xs ++ ys) ≡ xs
  unfolding take
  take-append [] ys = refl
  take-append (x ∷ xs) ys = rw (take-append xs ys)

  pub drop-append : (xs ys : List A) → drop (length xs) (xs ++ ys) ≡ ys
  unfolding drop
  drop-append [] ys = refl
  drop-append (x ∷ xs) ys = drop-append xs ys

  pub take-length : (xs : List A) → take (length xs) xs ≡ xs
  unfolding take
  take-length [] = refl
  take-length (x ∷ xs) = rw (take-length xs)

  pub append_assoc : (xs ys zs : List A) → (xs ++ ys) ++ zs ≡ xs ++ (ys ++ zs)
  append_assoc [] ys zs = refl
  append_assoc (x ∷ xs) ys zs = rw (append_assoc xs ys zs)

  pub append_nil : (xs : List A) → xs ++ [] ≡ xs
  append_nil [] = refl
  append_nil (x ∷ xs) = rw (append_nil xs)

  -- Every element has the property.
  abbrev pub All {κ} : (A → Type κ) → List A → Type κ
  All P [] = Unit
  All P (x ∷ xs) = P x × All P xs

  pub All-append {κ} : (P : A → Type κ) (xs ys : List A) → All P xs → All P ys → All P (xs ++ ys)
  All-append P [] ys hx hy = hy
  All-append P (x ∷ xs) ys hx hy = (hx.0, All-append P xs ys hx.1 hy)

  -- A search that succeeds names an element that it found: every search that this one passes
  -- succeeds, and it has what all elements have.
  pub any_witness :
      (p : A → Bool) (xs : List A)
      → any p xs ≡ true
      → (a : A) × (p a ≡ true)
        × ((q : A → Bool) → q a ≡ true → any q xs ≡ true)
        × ((q : A → Bool) → all q xs ≡ true → q a ≡ true)
  unfolding any all
  any_witness p [] h = cc
  any_witness p (x ∷ xs) h = elim (Bool-cases (p x)) [
    | inl here ↦ (x, here, λ q e. ground arith, λ q e. ground arith)
    | inr there ↦
        let (a, e, any_q, all_q) = any_witness p xs (ground arith) in
        (a, e, λ q f. ground (arith, any_q q f), λ q f. all_q q (ground arith))
  ]

  pub any-append : (p : A → Bool) (xs ys : List A) → any p (xs ++ ys) ≡ (any p xs || any p ys)
  unfolding any
  any-append p [] ys = refl
  any-append p (x ∷ xs) ys = ground (arith, any-append p xs ys)

  pub all-append : (p : A → Bool) (xs ys : List A) → all p (xs ++ ys) ≡ (all p xs && all p ys)
  unfolding all
  all-append p [] ys = refl
  all-append p (x ∷ xs) ys = ground (arith, all-append p xs ys)

  pub all-not-any : (p : A → Bool) (xs : List A) → all (λ x. not (p x)) xs ≡ not (any p xs)
  unfolding all any
  all-not-any p [] = refl
  all-not-any p (x ∷ xs) = ground (arith, all-not-any p xs)

  pub any-or : (p q : A → Bool) (xs : List A) → any (λ x. p x || q x) xs ≡ (any p xs || any q xs)
  unfolding any
  any-or p q [] = refl
  any-or p q (x ∷ xs) = ground (arith, any-or p q xs)

  pub all-and : (p q : A → Bool) (xs : List A) → all (λ x. p x && q x) xs ≡ (all p xs && all q xs)
  unfolding all
  all-and p q [] = refl
  all-and p q (x ∷ xs) = ground (arith, all-and p q xs)

module _ {ℓ κ} {A : Type ℓ} {B : Type κ} where
  pub any-map : (p : B → Bool) (f : A → B) (xs : List A) → any p (map f xs) ≡ any (λ x. p (f x)) xs
  unfolding any
  any-map p f [] = refl
  any-map p f (x ∷ xs) = rw (any-map p f xs)

  -- Two nested searches may be exchanged.
  pub any-any_comm :
      (r : A → B → Bool) (xs : List A) (ys : List B)
      → any (λ x. any (r x) ys) xs ≡ any (λ y. any (λ x. r x y) xs) ys
  unfolding any
  any-any_comm r [] [] = refl
  any-any_comm r [] (y ∷ ys) = any-any_comm r [] ys
  any-any_comm r (x ∷ xs) ys =
      rw (any-any_comm r xs ys) (sym (any-or (r x) (λ y. any (λ x'. r x' y) xs) ys))
