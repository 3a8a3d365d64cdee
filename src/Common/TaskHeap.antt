-- ===== src/Common/TaskHeap.antt =====
-- common/scheduler.go's TaskHeap under container/heap: Push, Pop and Init, and the two loops that move
-- one task up or down. The loops take fuel; one more than the number of tasks is enough.
pub mod Order
pub mod Swap
pub mod Up
pub mod Down
pub mod Pop
pub mod Fuel
pub mod Contents
use mine_net.Base.{
  ℕ, zero, suc, ◌+◌, ◌-◌, ◌*◌, ◌/◌, Bool, false, not, ◌&&◌, ◌||◌, List, [], ◌∷◌, ◌++◌, String,
  length, take, get_or, set, ltb, leb, ◌==◌, if◌then◌else◌,
}

-- What a task does when it is called: nothing is known of it but whether there is a function.
pub data Execute : Type 0 where
  nil_function : Execute
  function : ℕ → Execute

-- BaseTask. Times are nanoseconds, and an interval is not negative.
pub record Task : Type 0 where
  pub id : String
  pub next_time : ℕ
  pub execute : Execute
  pub is_repeat : Bool
  pub interval : ℕ

-- Where Go would panic for an index out of range, this task is read; the loops keep to the slice.
abbrev pub no_task : Task
no_task = record { id = ""; next_time = 0; execute = nil_function; is_repeat = false; interval = 0 }

abbrev pub at : List Task → ℕ → Task
at h i = get_or h i no_task

abbrev pub time_at : List Task → ℕ → ℕ
time_at h i = (at h i).next_time

abbrev pub less : List Task → ℕ → ℕ → Bool
less h i j = ltb (time_at h i) (time_at h j)

unfoldable pub swap : List Task → ℕ → ℕ → List Task
swap h i j = set (set h i (at h j)) j (at h i)

abbrev pub parent : ℕ → ℕ
parent j = (j - 1) / 2

unfoldable pub up : ℕ → List Task → ℕ → List Task
up zero h j = h
up (suc fuel) h j =
    let raised = up fuel (swap h (parent j) j) (parent j) in
    if parent j == j || not (less h j (parent j)) then h else raised

-- The child of `i` that comes first, of those below `n`; the left one exists.
abbrev pub first_child : List Task → ℕ → ℕ → ℕ
first_child h i n =
    if ltb (2 * i + 2) n && less h (2 * i + 2) (2 * i + 1) then 2 * i + 2 else 2 * i + 1

unfoldable pub down : ℕ → List Task → ℕ → ℕ → List Task
down zero h i n = h
down (suc fuel) h i n =
    let j = first_child h i n in
    let sunk = down fuel (swap h i j) j n in
    if leb n (2 * i + 1) then h else if less h j i then sunk else h

unfoldable pub push : List Task → Task → List Task
push h t = up (length h + 1) (h ++ (t ∷ [])) (length h)

-- Pop on tasks: the first goes to the end, from where TaskHeap's Pop cuts it.
unfoldable pub pop : List Task → Task × List Task
pop h = let n = length h - 1 in let sunk = down (n + 1) (swap h 0 n) 0 n in (at sunk n, take n sunk)

-- The loop of Init, with `i` parents left.
unfoldable pub init_loop : ℕ → List Task → List Task
init_loop zero h = h
init_loop (suc i) h = init_loop i (down (length h + 1) h i (length h))

unfoldable pub init : List Task → List Task
init h = init_loop (length h / 2) h
