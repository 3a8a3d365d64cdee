-- ===== src/Common/TaskHeap/Down.antt =====
-- What moving a task down restores, and so heap.Init and heap.Pop.
use mathlib.Core.List.Perm
use mathlib.Core.List.{Perm}
use mine_net.Base.{
  if-cases, ℕ, zero, suc, ◌+◌, ◌*◌, ◌/◌, ◌<◌, ◌≤◌, ◌≡◌, ◌≢◌, ◌⊎◌, refl, ◌∙◌, List, length, arith,
  leb,
}
use mine_net.Common.TaskHeap.{
  Task, at, time_at, parent, less, swap, first_child, down, init_loop, init,
}
use mine_net.Common.TaskHeap.Order.{IsHeapOf, IsHeapTo}
use mine_net.Common.TaskHeap.Swap.{length-swap, at-swap, swap-perm, length-perm}

-- Only the edges below `i` may be out of order.
pub record IsSinking (lo n : ℕ) (h : List Task) (i : ℕ) : Type 0 where
  pub edges :
      (c : ℕ) → 0 < c → c < n → lo ≤ parent c → parent c ≢ i → time_at h (parent c) ≤ time_at h c
  pub bridged :
      (c : ℕ)
      → 0 < c
      → c < n
      → parent c ≡ i
      → 0 < i
      → lo ≤ parent i
      → time_at h (parent i) ≤ time_at h c

-- The heap's part in order, the same tasks, and those behind it where they were.
pub record IsSunk (lo n : ℕ) (old new : List Task) : Type 0 where
  pub ordered : IsHeapTo lo n new
  pub same : Perm new old
  pub behind : (c : ℕ) → n ≤ c → at new c ≡ at old c

-- The child that comes first is one of the two, and neither comes before it.
record IsFirst (h : List Task) (i n m : ℕ) : Type 0 where
  inside : m < n
  child : (m ≡ 2 * i + 1) ⊎ (m ≡ 2 * i + 2)
  least : (c : ℕ) → 0 < c → c < n → parent c ≡ i → time_at h m ≤ time_at h c

first_child-IsFirst : (h : List Task) (i n : ℕ) → 2 * i + 1 < n → IsFirst h i n (first_child h i n)
first_child-IsFirst h i n p = record {
  inside = ground arith;
  child = ground arith;
  least = λ c q r e. ground arith;
}

swap-IsSinking :
    (lo n : ℕ) (h : List Task) (i m : ℕ)
    → n ≤ length h
    → IsSinking lo n h i
    → IsFirst h i n m
    → time_at h m < time_at h i
    → IsSinking lo n (swap h i m) m
swap-IsSinking lo n h i m size v f p =
    let moved = at-swap h i m in
    let hi : i < length h = omega (arith, f.inside, f.child) in
    let hm : m < length h = omega (arith, f.inside) in
    record {
      edges = λ c q r s t. ground (
        arith,
        moved c hi hm,
        moved (parent c) hi hm,
        v.edges c,
        v.bridged m,
        f.least c,
        f.child,
      );
      bridged =
          λ c q r s t u. ground (arith, moved c hi hm, moved (parent m) hi hm, v.edges c, f.child);
    }

-- What is sunk after a swap within the heap's part is sunk.
swap-IsSunk :
    (lo n : ℕ) (h : List Task) (i j : ℕ) {new : List Task}
    → n ≤ length h
    → IsFirst h i n j
    → IsSunk lo n (swap h i j) new
    → IsSunk lo n h new
swap-IsSunk lo n h i j size f s =
    let hi : i < length h = omega (arith, f.inside, f.child) in
    let hj : j < length h = omega (arith, f.inside) in
    record {
      ordered = s.ordered;
      same = Perm.trans s.same (swap-perm h i j hi hj);
      behind = λ c p. s.behind c p ∙ ground (arith, at-swap h i j c hi hj, f.inside, f.child);
    }

pub down-IsSunk :
    (fuel lo n : ℕ) (h : List Task) (i : ℕ)
    → n ≤ length h
    → n < fuel + i
    → IsSinking lo n h i
    → IsSunk lo n h (down fuel h i n)
unfolding down
down-IsSunk zero lo n h i size f v = record {
  ordered = λ c p q r. ground (arith, v.edges c);
  same = Perm.rfl;
  behind = λ c p. refl;
}
down-IsSunk (suc fuel) lo n h i size f v =
    if-cases (IsSunk lo n h) (leb n (2 * i + 1))
      (λ leaf. record {
        ordered = λ c p q r. ground (arith, v.edges c);
        same = Perm.rfl;
        behind = λ c p. refl;
      })
      (λ inner.
        let j = first_child h i n in
        let first = first_child-IsFirst h i n (ground arith) in
        if-cases (IsSunk lo n h) (less h j i)
          (λ late. swap-IsSunk lo n h i j size first (
            down-IsSunk fuel lo n (swap h i j) j (omega (arith, length-swap h i j))
              (omega (arith, first.child)) (swap-IsSinking lo n h i j size v first (ground arith))))
          (λ settled. record {
            ordered = λ c p q r. ground (arith, v.edges c, first.least c);
            same = Perm.rfl;
            behind = λ c p. refl;
          }))

-- Init: each round orders one parent more.
init_loop-IsHeapOf : (i : ℕ) (h : List Task) → IsHeapTo i (length h) h → IsHeapOf h (init_loop i h)
unfolding init_loop
init_loop-IsHeapOf zero h p = (p, Perm.rfl)
init_loop-IsHeapOf (suc i) h p =
    let sunk = down-IsSunk (length h + 1) i (length h) h i (omega arith) (omega arith) (record {
      edges = λ c q r s t. p c q r (omega arith);
      bridged = λ c q r s t u. absurd (omega arith);
    }) in
    let later =
      init_loop-IsHeapOf i (down (length h + 1) h i (length h))
        (rw (length-perm sunk.same) sunk.ordered) in
    (later.0, Perm.trans later.1 sunk.same)

pub init-IsHeapOf : (h : List Task) → IsHeapOf h (init h)
unfolding init
init-IsHeapOf h = init_loop-IsHeapOf (length h / 2) h (λ c p q r. absurd (omega arith))
