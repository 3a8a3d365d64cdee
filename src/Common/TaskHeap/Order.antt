-- ===== src/Common/TaskHeap/Order.antt =====
-- Heap order: no task is due before its parent.
use mathlib.Core.List.{Perm}
use mine_net.Base.{ℕ, ◌<◌, ◌≤◌, List, length}
use mine_net.Common.TaskHeap.{Task, time_at, parent}

-- Among the first `n` tasks, below the parents from `lo` on.
abbrev pub IsHeapTo : ℕ → ℕ → List Task → Type 0
IsHeapTo lo n h = (c : ℕ) → 0 < c → c < n → lo ≤ parent c → time_at h (parent c) ≤ time_at h c

abbrev pub IsHeap : List Task → Type 0
IsHeap h = IsHeapTo 0 (length h) h

-- A list that is a heap and holds the same tasks.
abbrev pub IsHeapOf : List Task → List Task → Type 0
IsHeapOf old new = IsHeap new × Perm new old
