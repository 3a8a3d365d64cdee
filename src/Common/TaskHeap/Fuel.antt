-- ===== src/Common/TaskHeap/Fuel.antt =====
-- The fuel of the heap's loops is enough: with more they come to the same.
use mine_net.Base.{
  ℕ, zero, suc, ◌+◌, ◌*◌, ◌<◌, ◌≡◌, refl, Bool, true, false, ◌||◌, not, List, arith, leb, ◌==◌,
  if◌then◌else◌,
}
use mine_net.Common.TaskHeap.{Task, parent, less, swap, first_child, up, down}

if-else :
    {A : Type 0} (b : Bool) (x : A) {y z : A}
    → (b ≡ false → y ≡ z)
    → (if b then x else y) ≡ (if b then x else z)
if-else true x f = refl
if-else false x f = f refl

if-then :
    {A : Type 0} (b : Bool) (x : A) {y z : A}
    → (b ≡ true → y ≡ z)
    → (if b then y else x) ≡ (if b then z else x)
if-then true x f = f refl
if-then false x f = refl

pub up_fuel : (f g : ℕ) (h : List Task) (j : ℕ) → j < f → j < g → up f h j ≡ up g h j
unfolding up
up_fuel zero g h j p q = absurd (omega arith)
up_fuel (suc f) zero h j p q = absurd (omega arith)
up_fuel (suc f) (suc g) h j p q =
    if-else (parent j == j || not (less h j (parent j))) h
      (λ e. up_fuel f g (swap h (parent j) j) (parent j) (ground arith) (ground arith))

pub down_fuel :
    (f g : ℕ) (h : List Task) (i n : ℕ) → n < f + i → n < g + i → down f h i n ≡ down g h i n
unfolding down
down_fuel zero zero h i n p q = refl
down_fuel zero (suc g) h i n p q = ground arith
down_fuel (suc f) zero h i n p q = ground arith
down_fuel (suc f) (suc g) h i n p q = if-else (leb n (2 * i + 1)) h (λ e.
    if-then (less h (first_child h i n) i) h (λ s.
      down_fuel f g (swap h i (first_child h i n)) (first_child h i n) n (ground arith)
        (ground arith)))
