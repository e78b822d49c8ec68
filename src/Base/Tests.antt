-- ===== src/Base/Tests.antt =====
-- Boolean tests on native numbers and on texts, decisions turned into tests, and the conditional.
use Prim.Native.Nat.{ℕ, compare, Ordering}
use Prim.Native.String.{String}
use mathlib.Core.Path.{◌≡◌, refl}
use mathlib.Core.Logic.{◌↔◌, ◌⊎◌, inl, inr}
use mathlib.Core.Bool.{Bool, true, false, false≢true}
use mathlib.Core.Option.{Option, none, some}
use text.Mathlib.Text.{◌==◌ as text_eq}
use text.Mathlib.TextEquality.{eq_iff}

-- These compute to `compare`, which `ground` and `grind` read with no lemma listed.
abbrev pub ltb : ℕ → ℕ → Bool
ltb a b = elim (compare a b) [ Ordering.lt ↦ true | _ ↦ false ]

abbrev pub leb : ℕ → ℕ → Bool
leb a b = elim (compare a b) [ Ordering.gt ↦ false | _ ↦ true ]

abbrev pub eqb : ℕ → ℕ → Bool
eqb a b = elim (compare a b) [ Ordering.eq ↦ true | _ ↦ false ]

infix 1 if◌then◌else◌
abbrev pub if◌then◌else◌ {ℓ} : {A : Type ℓ} → Bool → A → A → A
if true then x else y = x
if false then x else y = y

-- To split on a computed value and keep the equation.
pub Bool-cases : (b : Bool) → (b ≡ true) ⊎ (b ≡ false)
Bool-cases true = inl refl
Bool-cases false = inr refl

pub Option-cases {ℓ} : {A : Type ℓ} (o : Option A) → (o ≡ none) ⊎ ((a : A) × (o ≡ some a))
Option-cases none = inl refl
Option-cases (some a) = inr (a, refl)

-- A decision as a test: the tactics split on the decision and so learn the equation.
abbrev pub holds {ℓ} : {P : Type ℓ} → Dec P → Bool
holds (yes p) = true
holds (no p) = false

pub holds-true {ℓ} : {P : Type ℓ} (d : Dec P) → P → holds d ≡ true
holds-true (yes p) q = refl
holds-true (no n) q = absurd (n q)

-- A decision from a test that decides.
unfoldable pub Dec_of {ℓ} : {P : Type ℓ} (b : Bool) → (b ≡ true) ↔ P → Dec P
Dec_of true e = yes (e.0 refl)
Dec_of false e = no (λ p. false≢true (e.1 p))

-- Equality of texts, `std::string::operator==`.
unfoldable pub String_discrete : Discrete String
unfolding Dec_of
String_discrete s t = Dec_of (text_eq s t) (eq_iff s t)

infix 50 ◌==◌
abbrev pub ◌==◌ : String → String → Bool
s == t = holds (String_discrete s t)
