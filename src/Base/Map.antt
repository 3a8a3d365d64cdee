-- ===== src/Base/Map.antt =====
-- Go's maps as association lists, over keys with a decided equality. The order of iteration, which
-- Go leaves open, is the list's.
use Prim.Native.Nat.{ℕ, ◌+◌, ◌≤◌}
use Prim.Native.String.{String}
use mathlib.Core.Path.{◌≡◌, refl}
use mathlib.Core.Logic.{◌↔◌}
use mathlib.Core.Bool.{Bool, true}
use mathlib.Core.List.{List, [], ◌∷◌}
use mathlib.Core.Option.{Option, none, some}
use native.Mathlib.Omega.{arith}
use text.Mathlib.Text.{◌==◌ as str_eq}
use text.Mathlib.TextEquality.{eq_iff}
use mine_net.Base.Tests.{◌==◌ as nat_eq, ==_iff, if◌then◌else◌}
use mine_net.Base.Lists.{length}

pub record Key (K : Type 0) : Type 0 where
  pub beq : K → K → Bool
  pub beq_iff : (a b : K) → (beq a b ≡ true) ↔ (a ≡ b)

instance abbrev pub string_key : Key String
string_key = record { beq = str_eq; beq_iff = eq_iff }

instance abbrev pub nat_key : Key ℕ
nat_key = record { beq = nat_eq; beq_iff = ==_iff }

abbrev pub Map : Type 0 → Type 0 → Type 0
Map K V = List (K × V)

module _ {K V : Type 0} ⦃k : Key K⦄ where
  unfoldable pub lookup : K → Map K V → Option V
  lookup a [] = none
  lookup a ((b, v) ∷ m) = if k.beq b a then some v else lookup a m

  unfoldable pub insert : K → V → Map K V → Map K V
  insert a v [] = (a, v) ∷ []
  insert a v ((b, w) ∷ m) = if k.beq b a then (a, v) ∷ m else (b, w) ∷ insert a v m

  unfoldable pub erase : K → Map K V → Map K V
  erase a [] = []
  erase a ((b, w) ∷ m) = if k.beq b a then erase a m else (b, w) ∷ erase a m

  pub lookup-insert :
      (a c : K) (v : V) (m : Map K V)
      → lookup c (insert a v m) ≡ (if k.beq a c then some v else lookup c m)
  unfolding lookup insert
  lookup-insert a c v [] = refl
  lookup-insert a c v ((b, w) ∷ m) =
      ground (arith, k.beq_iff a c, k.beq_iff b a, k.beq_iff b c, lookup-insert a c v m)

  pub lookup-erase :
      (a c : K) (m : Map K V) → lookup c (erase a m) ≡ (if k.beq a c then none else lookup c m)
  unfolding lookup erase
  lookup-erase a c [] = ground arith
  lookup-erase a c ((b, w) ∷ m) =
      ground (arith, k.beq_iff a c, k.beq_iff b a, k.beq_iff b c, lookup-erase a c m)

  pub length-insert_new :
      (a : K) (v : V) (m : Map K V) → lookup a m ≡ none → length (insert a v m) ≡ length m + 1
  unfolding lookup insert
  length-insert_new a v [] h = omega arith
  length-insert_new a v ((b, w) ∷ m) h = ground (arith, length-insert_new a v m)

  pub length-insert_old :
      (a : K) (v u : V) (m : Map K V) → lookup a m ≡ some u → length (insert a v m) ≡ length m
  unfolding lookup insert
  length-insert_old a v u [] h = cc
  length-insert_old a v u ((b, w) ∷ m) h = ground (arith, length-insert_old a v u m)

  pub length-insert-le : (a : K) (v : V) (m : Map K V) → length (insert a v m) ≤ length m + 1
  unfolding insert
  length-insert-le a v [] = omega arith
  length-insert-le a v ((b, w) ∷ m) = ground (arith, length-insert-le a v m)

  pub length-erase-le : (a : K) (m : Map K V) → length (erase a m) ≤ length m
  unfolding erase
  length-erase-le a [] = omega arith
  length-erase-le a ((b, w) ∷ m) = ground (arith, length-erase-le a m)

  -- No key stands twice.
  abbrev pub Distinct : Map K V → Type 0
  Distinct [] = Unit
  Distinct ((b, w) ∷ m) = (lookup b m ≡ none) × Distinct m

  pub erase_absent : (a : K) (m : Map K V) → lookup a m ≡ none → erase a m ≡ m
  unfolding lookup erase
  erase_absent a [] h = refl
  erase_absent a ((b, w) ∷ m) h = ground (arith, erase_absent a m)

  pub length-erase :
      (a : K) (u : V) (m : Map K V)
      → Distinct m
      → lookup a m ≡ some u
      → length (erase a m) + 1 ≡ length m
  unfolding lookup erase
  length-erase a u [] d h = cc
  length-erase a u ((b, w) ∷ m) d h =
      ground (arith, k.beq_iff b a, erase_absent a m, length-erase a u m)

  pub insert-Distinct : (a : K) (v : V) (m : Map K V) → Distinct m → Distinct (insert a v m)
  unfolding lookup insert
  insert-Distinct a v [] d = (refl, tt)
  insert-Distinct a v ((b, w) ∷ m) d =
      ground (arith, k.beq_iff b a, k.beq_iff a b, insert-Distinct a v m, lookup-insert a b v m)

  pub erase-Distinct : (a : K) (m : Map K V) → Distinct m → Distinct (erase a m)
  unfolding lookup erase
  erase-Distinct a [] d = tt
  erase-Distinct a ((b, w) ∷ m) d =
      ground (arith, k.beq_iff a b, erase-Distinct a m, lookup-erase a b m)

  pub lookup-insert_self : (a : K) (v : V) (m : Map K V) → lookup a (insert a v m) ≡ some v
  lookup-insert_self a v m = simp (lookup-insert, (k.beq_iff a a).1 refl)

  pub lookup-erase_self : (a : K) (m : Map K V) → lookup a (erase a m) ≡ none
  lookup-erase_self a m = simp (lookup-erase, (k.beq_iff a a).1 refl)
