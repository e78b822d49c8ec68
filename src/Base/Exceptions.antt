-- ===== src/Base/Exceptions.antt =====
-- Exceptions as values.
use mathlib.Core.Path.{◌≡◌, refl}
use mathlib.Core.Logic.{◌⊎◌, inl, inr}

-- The exceptions that the program throws, and the one of the JSON library that it does not catch.
pub data Exception : Type 0 where
  length_error : Exception
  player_not_in_game : Exception
  number_out_of_range : Exception

-- A result, or the exception that was thrown in its place.
pub data Throws {ℓ} (A : Type ℓ) : Type ℓ where
  ok : A → Throws A
  throw : Exception → Throws A

infixl 5 ◌>>=◌
abbrev pub ◌>>=◌ {ℓ κ} : {A : Type ℓ} {B : Type κ} → Throws A → (A → Throws B) → Throws B
ok a >>= f = f a
throw e >>= f = throw e

pub Throws-cases {ℓ} :
    {A : Type ℓ} (t : Throws A) → ((a : A) × (t ≡ ok a)) ⊎ ((e : Exception) × (t ≡ throw e))
Throws-cases (ok a) = inl (a, refl)
Throws-cases (throw e) = inr (e, refl)
