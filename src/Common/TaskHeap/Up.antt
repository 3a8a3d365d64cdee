-- ===== src/Common/TaskHeap/Up.antt =====
-- What moving a task up restores, and so heap.Push.
use mathlib.Core.List.Perm
use mine_net.Base.{
  if-cases, ℕ, zero, suc, ◌+◌, ◌<◌, ◌≤◌, ◌≡◌, ◌≢◌, ◌||◌, not, List, [], ◌∷◌, ◌++◌, length,
  length-append, arith, ◌==◌,
}
use mine_net.Common.TaskHeap.{Task, time_at, parent, less, swap, up, push}
use mine_net.Common.TaskHeap.Order.{IsHeap, IsHeapOf}
use mine_net.Common.TaskHeap.Swap.{length-swap, at-swap, swap-perm, at-append_below, append-perm}

-- Only the edge above `j` may be out of order.
pub record IsRising (h : List Task) (j : ℕ) : Type 0 where
  pub inside : j < length h
  pub edges : (c : ℕ) → 0 < c → c < length h → c ≢ j → time_at h (parent c) ≤ time_at h c
  pub bridged :
      (c : ℕ) → 0 < c → c < length h → parent c ≡ j → 0 < j → time_at h (parent j) ≤ time_at h c

swap-IsRising :
    (h : List Task) (j : ℕ)
    → IsRising h j
    → 0 < j
    → time_at h j < time_at h (parent j)
    → IsRising (swap h (parent j) j) (parent j)
swap-IsRising h j v p q =
    let size = length-swap h (parent j) j in
    let below : parent j < length h = omega (arith, v.inside) in
    let moved = at-swap h (parent j) j in
    let hi = v.inside in
    record {
      inside = omega arith;
      edges = λ c r s t.
          ground (arith, moved c below hi, moved (parent c) below hi, v.edges c, v.bridged c);
      bridged = λ c r s t u. ground (
        arith,
        moved c below hi,
        moved (parent (parent j)) below hi,
        v.edges c,
        v.edges (parent j),
      );
    }

pub up-IsHeapOf :
    (fuel : ℕ) (h : List Task) (j : ℕ) → j < fuel → IsRising h j → IsHeapOf h (up fuel h j)
unfolding up
up-IsHeapOf zero h j f v = absurd (omega arith)
up-IsHeapOf (suc fuel) h j f v =
    if-cases (IsHeapOf h) (parent j == j || not (less h j (parent j)))
      (λ stops. (λ c p q r. ground (arith, v.edges c), Perm.rfl))
      (λ rises.
        let higher : 0 < j = ground arith in
        let earlier : time_at h j < time_at h (parent j) = ground arith in
        let rest =
          up-IsHeapOf fuel (swap h (parent j) j) (parent j) (omega arith)
            (swap-IsRising h j v higher earlier) in
        (rest.0, Perm.trans rest.1 (swap-perm h (parent j) j (omega (arith, v.inside)) v.inside)))

pub push-IsHeapOf : (h : List Task) (t : Task) → IsHeap h → IsHeapOf (t ∷ h) (push h t)
unfolding push
push-IsHeapOf h t heap =
    let size : length (h ++ (t ∷ [])) ≡ length h + 1 = length-append h (t ∷ []) in
    let rising : IsRising (h ++ (t ∷ [])) (length h) = record {
      inside = omega arith;
      edges =
          λ c p q r. ground (arith, at-append_below h t c, at-append_below h t (parent c), heap c);
      bridged = λ c p q r s. absurd (omega arith);
    } in
    let risen = up-IsHeapOf (length h + 1) (h ++ (t ∷ [])) (length h) (omega arith) rising in
    (risen.0, Perm.trans risen.1 (append-perm h t))
