-- ===== src/Common/TaskHeap/Pop.antt =====
-- heap.Pop: the task that comes first, and a heap of the others.
use mathlib.Core.List.Perm
use mathlib.Core.List.{Perm}
use mine_net.Base.{ℕ, zero, suc, ◌+◌, ◌-◌, ◌<◌, ◌≤◌, ◌≡◌, ◌∙◌, List, ◌∷◌, length, take, arith}
use mine_net.Common.TaskHeap.{Task, at, time_at, parent, swap, down, pop}
use mine_net.Common.TaskHeap.Order.{IsHeap}
use mine_net.Common.TaskHeap.Swap.{
  length-swap, at-swap, swap-perm, at-take, take-last, length-perm, append-perm, length-take_of,
}
use mine_net.Common.TaskHeap.Down.{IsSinking, IsSunk, down-IsSunk}

first-IsLeast_to :
    (k : ℕ) (h : List Task) (c : ℕ) → c < k → IsHeap h → c < length h → time_at h 0 ≤ time_at h c
first-IsLeast_to zero h c f p q = absurd (omega arith)
first-IsLeast_to (suc k) h zero f p q = omega arith
first-IsLeast_to (suc k) h (suc c) f p q = omega (
  arith,
  p (suc c) (omega arith) q (omega arith),
  first-IsLeast_to k h (parent (suc c)) (omega arith) p (omega arith),
)

-- No task of a heap is due before the first.
pub first-IsLeast : (h : List Task) (c : ℕ) → IsHeap h → c < length h → time_at h 0 ≤ time_at h c
first-IsLeast h c = first-IsLeast_to (c + 1) h c (omega arith)

-- What Pop takes and leaves.
pub record IsPopped (h : List Task) (t : Task) (rest : List Task) : Type 0 where
  pub first : t ≡ at h 0
  pub ordered : IsHeap rest
  pub same : Perm (t ∷ rest) h

popped :
    (n : ℕ) (h new : List Task)
    → length h ≡ suc n
    → IsSunk 0 n (swap h 0 n) new
    → IsPopped h (at new n) (take n new)
popped n h new e s =
    let size : length new ≡ suc n = length-perm s.same ∙ length-swap h 0 n ∙ e in
    let short : length (take n new) ≡ n = length-take_of n new (omega arith) in
    let whole : Perm (at new n ∷ take n new) new =
      rw (take-last n new size) at (Perm.symm (append-perm (take n new) (at new n))) in
    record {
      first = s.behind n (omega arith) ∙ ground (arith, at-swap h 0 n n);
      ordered = λ c p q r. ground (
        arith,
        at-take n new c (omega arith),
        at-take n new (parent c) (omega arith),
        s.ordered c p (omega arith) r,
      );
      same = Perm.trans whole (Perm.trans s.same (swap-perm h 0 n (omega arith) (omega arith)));
    }

top-IsSinking : (n : ℕ) (h : List Task) → length h ≡ suc n → IsHeap h → IsSinking 0 n (swap h 0 n) 0
top-IsSinking n h e p =
    let moved = at-swap h 0 n in
    record {
      edges = λ c q r s t. ground (
        arith,
        moved c (omega arith) (omega arith),
        moved (parent c) (omega arith) (omega arith),
        p c,
      );
      bridged = λ c q r s t. absurd (omega arith);
    }

pub pop-IsPopped : (h : List Task) → 0 < length h → IsHeap h → IsPopped h ((pop h).0) ((pop h).1)
unfolding pop
pop-IsPopped h q p =
    let n = length h - 1 in
    popped n h (down (n + 1) (swap h 0 n) 0 n) (omega arith) (
      down-IsSunk (n + 1) 0 n (swap h 0 n) 0 (omega (arith, length-swap h 0 n)) (omega arith)
        (top-IsSinking n h (omega arith) p))
