-- ===== src/Common/TaskHeap/Contents.antt =====
-- The tasks of a heap without their order: a bag, in which TaskHeap's operations are simple.
use mathlib.Core.List
use mathlib.Core.List.Perm
use mathlib.Core.List.{Perm}
use mathlib.Core.Quot
use mathlib.Core.Quot.{Quot, Quot-set}
use native.Mathlib.Nat.{ℕ_set}
use mine_net.Base.{
  ℕ, suc, ◌+◌, ◌<◌, ◌≡◌, refl, List, [], ◌∷◌, length, arith, ltb, leb, if◌then◌else◌, Bool, false,
}
use mine_net.Common.TaskHeap.{Task, at, time_at, push, init}
use mine_net.Common.TaskHeap.Order.{IsHeap}
use mine_net.Common.TaskHeap.Up.{push-IsHeapOf}
use mine_net.Common.TaskHeap.Down.{init-IsHeapOf}
use mine_net.Common.TaskHeap.Pop.{first-IsLeast}

abbrev pub Bag : Type 0
Bag = Quot (Perm {A = Task})

abbrev pub contents : List Task → Bag
contents = Quot.mk

unfoldable pub put : Task → Bag → Bag
put t = Quot.lift Quot-set (λ h. contents (t ∷ h)) (λ g h p. Quot.sound (Perm.cons t p))

-- How many tasks of a list pass a test.
abbrev pub tally : (Task → Bool) → List Task → ℕ
tally test [] = 0
tally test (t ∷ h) = (if test t then 1 else 0) + tally test h

tally-foldr :
    (test : Task → Bool) (h : List Task)
    → List.foldr (λ t n. (if test t then 1 else 0) + n) 0 h ≡ tally test h
tally-foldr test [] = refl
tally-foldr test (t ∷ h) = omega (arith, tally-foldr test h)

pub tally-perm : (test : Task → Bool) (g h : List Task) → Perm g h → tally test g ≡ tally test h
tally-perm test g h p = omega (
  arith,
  tally-foldr test g,
  tally-foldr test h,
  Perm.foldr-eq ℕ_set (λ t n. (if test t then 1 else 0) + n) (λ s t n. omega arith) p 0,
)

unfoldable pub count : (Task → Bool) → Bag → ℕ
count test = Quot.lift ℕ_set (tally test) (tally-perm test)

-- due by `now`, and due before a time
abbrev pub is_due : ℕ → Task → Bool
is_due now t = leb t.next_time now

abbrev pub is_before : ℕ → Task → Bool
is_before time t = ltb t.next_time time

tally-none :
    (test : Task → Bool) (h : List Task)
    → ((c : ℕ) → c < length h → test (at h c) ≡ false)
    → tally test h ≡ 0
tally-none test [] p = refl
tally-none test (t ∷ h) p =
    ground (arith, p 0 (omega arith), tally-none test h (λ c q. p (suc c) (omega arith)))

-- In a heap, none is due before the first.
pub count-first : (h : List Task) → IsHeap h → count (is_before (time_at h 0)) (contents h) ≡ 0
unfolding count
count-first h p = tally-none _ h (λ c q. ground (arith, first-IsLeast h c p q))

pub count-put :
    (test : Task → Bool) (t : Task) (b : Bag)
    → count test (put t b) ≡ (if test t then 1 else 0) + count test b
unfolding count put
count-put test t = Quot.ind (λ b. ℕ_set _ _) (λ h. refl)

pub contents-push : (h : List Task) (t : Task) → IsHeap h → contents (push h t) ≡ put t (contents h)
unfolding put
contents-push h t p = Quot.sound ((push-IsHeapOf h t p).1)

pub contents-init : (h : List Task) → contents (init h) ≡ contents h
contents-init h = Quot.sound ((init-IsHeapOf h).1)

pub contents-put_back :
    (t : Task) (rest h : List Task) → Perm (t ∷ rest) h → put t (contents rest) ≡ contents h
unfolding put
contents-put_back t rest h p = Quot.sound p

pub count-not_due_empty :
    (now : ℕ) (h : List Task) → length h ≡ 0 → count (is_due now) (contents h) ≡ 0
unfolding count
count-not_due_empty now h p = tally-none _ h (λ c q. absurd (omega arith))

-- In a heap whose first task is not due, none is.
pub count-not_due :
    (now : ℕ) (h : List Task) → IsHeap h → now < time_at h 0 → count (is_due now) (contents h) ≡ 0
unfolding count
count-not_due now h p q = tally-none _ h (λ c r. ground (arith, first-IsLeast h c p r))
