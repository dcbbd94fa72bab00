-- ===== src/Prelude/Maps.antt =====
-- A map as an association list. `HashMap` fixes no order of its entries, so nothing may rest on
-- the order here.
use Prim.Native.Nat.{◌+◌}
use mathlib.Core.Path.{◌≡◌, refl}
use mathlib.Core.Bool.{Bool}
use mathlib.Core.Option.{Option, none, some}
use mathlib.Core.List.{List, [], ◌∷◌}
use native.Mathlib.Omega.{arith}
use democrachat.Prelude.Tests.{Eq, ◌==◌, if◌then◌else◌, bit}
use democrachat.Prelude.Lists.{All, count}

abbrev pub Map {ℓ κ} : Type ℓ → Type κ → Type (ℓ ⊔ κ)
Map K V = List (K × V)

abbrev pub values {ℓ κ} : {K : Type ℓ} {V : Type κ} → Map K V → List V
values [] = []
values ((k, v) ∷ m) = v ∷ values m

module _ {ℓ κ} {K : Type ℓ} {V : Type κ} ⦃e : Eq K⦄ where
  unfoldable pub get : K → Map K V → Option V
  get k [] = none
  get k ((j, v) ∷ m) = if j == k then some v else get k m

  unfoldable pub insert : K → V → Map K V → Map K V
  insert k v [] = (k, v) ∷ []
  insert k v ((j, w) ∷ m) = if j == k then (k, v) ∷ m else (j, w) ∷ insert k v m

  unfoldable pub remove : K → Map K V → Map K V
  remove k [] = []
  remove k ((j, w) ∷ m) = let rest = remove k m in if j == k then rest else (j, w) ∷ rest

  pub get-insert :
      (k j : K) (v : V) (m : Map K V) → get j (insert k v m) ≡ (if k == j then some v else get j m)
  unfolding get insert
  get-insert k j v [] = refl
  get-insert k j v ((i, w) ∷ m) =
      ground (arith, e.beq_iff k j, e.beq_iff i k, e.beq_iff i j, get-insert k j v m)

  pub get-remove : (k j : K) (m : Map K V) → get j (remove k m) ≡ (if k == j then none else get j m)
  unfolding get remove
  get-remove k j [] = ground arith
  get-remove k j ((i, w) ∷ m) =
      ground (arith, e.beq_iff k j, e.beq_iff i k, e.beq_iff i j, get-remove k j m)

  pub All-insert {ι} :
      (P : K × V → Type ι) (k : K) (v : V) (m : Map K V) → P (k, v) → All P m → All P (insert k v m)
  unfolding insert
  All-insert P k v [] h a = (h, tt)
  All-insert P k v ((j, w) ∷ m) h a = ground (arith, All-insert P k v m h a.1)

  pub All-remove {ι} : (P : K × V → Type ι) (k : K) (m : Map K V) → All P m → All P (remove k m)
  unfolding remove
  All-remove P k [] a = tt
  All-remove P k ((j, w) ∷ m) a = ground (arith, All-remove P k m a.1)

  -- What a lookup finds satisfies what holds of every entry.
  pub get-All {ι} :
      (P : K × V → Type ι) (k : K) (v : V) (m : Map K V) → All P m → get k m ≡ some v → P (k, v)
  unfolding get
  get-All P k v [] a h = absurd (cc)
  get-All P k v ((j, w) ∷ m) a h = ground (arith, e.beq_iff j k, get-All P k v m a.1)

  -- Replacing an entry moves a count by the difference of the two tests.
  pub count-insert-some :
      (p : V → Bool) (k : K) (old new : V) (m : Map K V)
      → get k m ≡ some old
      → count p (values (insert k new m)) + bit (p old) ≡ count p (values m) + bit (p new)
  unfolding get insert
  count-insert-some p k old new [] h = absurd (cc)
  count-insert-some p k old new ((j, w) ∷ m) h =
      ground (arith, e.beq_iff j k, count-insert-some p k old new m)

  pub count-insert-none :
      (p : V → Bool) (k : K) (new : V) (m : Map K V)
      → get k m ≡ none
      → count p (values (insert k new m)) ≡ count p (values m) + bit (p new)
  unfolding get insert
  count-insert-none p k new [] h = omega arith
  count-insert-none p k new ((j, w) ∷ m) h =
      ground (arith, e.beq_iff j k, count-insert-none p k new m)

pub ruleset map_laws = (get-insert, get-remove)
