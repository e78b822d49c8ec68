-- ===== src/Base/Maps.antt =====
-- `std::unordered_map`: an association list in which a key stands once. The order in which the
-- standard library iterates is not specified; here a new key comes last.
use Prim.Native.Nat.{suc, ◌≤◌}
use mathlib.Core.Path.{◌≡◌, refl}
use mathlib.Core.Bool.{Bool, true, false, ◌||◌, ◌&&◌}
use mathlib.Core.Option.{Option, none, some}
use mathlib.Core.List.{List, [], ◌∷◌}
use native.Mathlib.Omega.{arith}
use sea_battle.Base.Tests.{holds, if◌then◌else◌}
use sea_battle.Base.Lists.{length}
use sea_battle.Base.Sets.{SetKey, contains, Distinct}

abbrev pub filter_value : {V : Type 0} → (V → Bool) → Option V → Option V
filter_value keep none = none
filter_value keep (some v) = if keep v then some v else none

module _ {K V : Type 0} ⦃k : SetKey K⦄ where
  -- `m.find(a)`.
  unfoldable pub find : List (K × V) → K → Option V
  find [] a = none
  find ((b, v) ∷ m) a = if holds (k.same b a) then some v else find m a

  -- `m[a] = v`.
  unfoldable pub assign : List (K × V) → K → V → List (K × V)
  assign [] a v = (a, v) ∷ []
  assign ((b, w) ∷ m) a v = if holds (k.same b a) then (b, v) ∷ m else (b, w) ∷ assign m a v

  -- `m.erase(a)`.
  unfoldable pub remove : List (K × V) → K → List (K × V)
  remove [] a = []
  remove ((b, w) ∷ m) a = if holds (k.same b a) then remove m a else (b, w) ∷ remove m a

  -- `for (auto& [key, value] : m)`, where the loop keeps the entries of which `keep` holds.
  unfoldable pub keep_entries : (V → Bool) → List (K × V) → List (K × V)
  keep_entries keep [] = []
  keep_entries keep ((a, v) ∷ m) =
      if keep v then (a, v) ∷ keep_entries keep m else keep_entries keep m

  -- The values of which `keep` holds, in the order of the loop.
  unfoldable pub values_where : (V → Bool) → List (K × V) → List V
  values_where keep [] = []
  values_where keep ((a, v) ∷ m) = if keep v then v ∷ values_where keep m else values_where keep m

  unfoldable pub any_value : (V → Bool) → List (K × V) → Bool
  any_value p [] = false
  any_value p ((a, v) ∷ m) = p v || any_value p m

  pub find-assign :
      (m : List (K × V)) (a : K) (v : V) (c : K)
      → find (assign m a v) c ≡ (if holds (k.same a c) then some v else find m c)
  unfolding find assign
  find-assign [] a v c = refl
  find-assign ((b, w) ∷ m) a v c = ground (arith, find-assign m a v c)

  pub find-remove :
      (m : List (K × V)) (a c : K)
      → find (remove m a) c ≡ (if holds (k.same a c) then none else find m c)
  unfolding find remove
  find-remove [] a c = ground arith
  find-remove ((b, w) ∷ m) a c = ground (arith, find-remove m a c)

  pub length-remove : (m : List (K × V)) (a : K) → length (remove m a) ≤ length m
  unfolding remove
  length-remove [] a = omega arith
  length-remove ((b, w) ∷ m) a = ground (arith, length-remove m a)

  abbrev pub keys : List (K × V) → List K
  keys [] = []
  keys ((a, v) ∷ m) = a ∷ keys m

  pub contains-keys-assign :
      (m : List (K × V)) (a : K) (v : V) (c : K)
      → contains (keys (assign m a v)) c ≡ (holds (k.same a c) || contains (keys m) c)
  unfolding contains assign
  contains-keys-assign [] a v c = refl
  contains-keys-assign ((b, w) ∷ m) a v c = ground (arith, contains-keys-assign m a v c)

  pub assign-Distinct :
      (m : List (K × V)) (a : K) (v : V) → Distinct (keys m) → Distinct (keys (assign m a v))
  unfolding contains assign
  assign-Distinct [] a v d = (refl, tt)
  assign-Distinct ((b, w) ∷ m) a v d =
      ground (arith, assign-Distinct m a v d.1, contains-keys-assign m a v b)

  pub contains-keys-keep :
      (keep : V → Bool) (m : List (K × V)) (c : K)
      → contains (keys m) c ≡ false
      → contains (keys (keep_entries keep m)) c ≡ false
  unfolding contains keep_entries
  contains-keys-keep keep [] c n = refl
  contains-keys-keep keep ((b, w) ∷ m) c n = ground (arith, contains-keys-keep keep m c)

  pub find_absent : (m : List (K × V)) (c : K) → contains (keys m) c ≡ false → find m c ≡ none
  unfolding find contains
  find_absent [] c n = refl
  find_absent ((b, w) ∷ m) c n = ground (arith, find_absent m c)

  pub keep_entries-Distinct :
      (keep : V → Bool) (m : List (K × V))
      → Distinct (keys m)
      → Distinct (keys (keep_entries keep m))
  unfolding keep_entries
  keep_entries-Distinct keep [] d = tt
  keep_entries-Distinct keep ((b, w) ∷ m) d =
      ground (arith, keep_entries-Distinct keep m d.1, contains-keys-keep keep m b d.0)

  pub find-keep_entries :
      (keep : V → Bool) (m : List (K × V)) (c : K)
      → Distinct (keys m)
      → find (keep_entries keep m) c ≡ filter_value keep (find m c)
  unfolding find keep_entries contains
  find-keep_entries keep [] c d = refl
  find-keep_entries keep ((b, w) ∷ m) c d = ground (
    arith,
    find-keep_entries keep m c d.1,
    find_absent m c,
    contains-keys-keep keep m c,
    find_absent (keep_entries keep m) c,
  )

  pub length-values_where-assign :
      (p : V → Bool) (m : List (K × V)) (a : K) (v : V)
      → contains (keys m) a ≡ false
      → length (values_where p (assign m a v))
        ≡ (if p v then suc (length (values_where p m)) else length (values_where p m))
  unfolding values_where assign contains
  length-values_where-assign p [] a v n = ground arith
  length-values_where-assign p ((b, w) ∷ m) a v n =
      ground (arith, length-values_where-assign p m a v)

  pub length-values_where-remove :
      (p : V → Bool) (m : List (K × V)) (a : K)
      → length (values_where p (remove m a)) ≤ length (values_where p m)
  unfolding values_where remove
  length-values_where-remove p [] a = omega arith
  length-values_where-remove p ((b, w) ∷ m) a = ground (arith, length-values_where-remove p m a)

  pub length-values_where-keep_entries :
      (p keep : V → Bool) (m : List (K × V))
      → length (values_where p (keep_entries keep m)) ≤ length (values_where p m)
  unfolding values_where keep_entries
  length-values_where-keep_entries p keep [] = omega arith
  length-values_where-keep_entries p keep ((b, w) ∷ m) =
      ground (arith, length-values_where-keep_entries p keep m)

  pub length-values_where_mono :
      (p q : V → Bool) (m : List (K × V))
      → ((v : V) → p v ≡ true → q v ≡ true)
      → length (values_where p m) ≤ length (values_where q m)
  unfolding values_where
  length-values_where_mono p q [] h = omega arith
  length-values_where_mono p q ((b, w) ∷ m) h =
      ground (arith, length-values_where_mono p q m h, h w)

  pub length-values_where_none :
      (p : V → Bool) (m : List (K × V)) → any_value p m ≡ false → length (values_where p m) ≡ 0
  unfolding values_where any_value
  length-values_where_none p [] n = refl
  length-values_where_none p ((b, w) ∷ m) n = ground (arith, length-values_where_none p m)

  pub any_value-assign :
      (p : V → Bool) (m : List (K × V)) (a : K) (v : V)
      → contains (keys m) a ≡ false
      → any_value p (assign m a v) ≡ (p v || any_value p m)
  unfolding any_value assign contains
  any_value-assign p [] a v n = ground arith
  any_value-assign p ((b, w) ∷ m) a v n = ground (arith, any_value-assign p m a v)

  pub values_where-keep_entries :
      (p keep : V → Bool) (m : List (K × V))
      → values_where p (keep_entries keep m) ≡ values_where (λ v. p v && keep v) m
  unfolding values_where keep_entries
  values_where-keep_entries p keep [] = refl
  values_where-keep_entries p keep ((b, w) ∷ m) = ground (arith, values_where-keep_entries p keep m)
