-- ===== src/Common/TaskHeap/Swap.antt =====
-- What a swap of two tasks changes.
use mathlib.Core.List
use mathlib.Core.List.Perm
use mine_net.Base.{
  ℕ, zero, suc, ◌<◌, ◌≤◌, ◌≡◌, refl, sym, ap, List, [], ◌∷◌, ◌++◌, length, length-set, take, set,
  arith, ◌==◌, if◌then◌else◌,
}
use mathlib.Core.List.{Perm}
use native.Mathlib.Nat.{ℕ_set}
use mine_net.Common.TaskHeap.{Task, at, swap}

at-set :
    (h : List Task) (i c : ℕ) (v : Task)
    → i < length h
    → at (set h i v) c ≡ (if i == c then v else at h c)
at-set [] i c v p = absurd (omega arith)
at-set (x ∷ h) zero zero v p = refl
at-set (x ∷ h) zero (suc c) v p = ground arith
at-set (x ∷ h) (suc i) zero v p = ground arith
at-set (x ∷ h) (suc i) (suc c) v p = ground (arith, at-set h i c v)

-- Writing one entry trades it for the new one.
set-perm : (h : List Task) (i : ℕ) (v : Task) → i < length h → Perm (at h i ∷ set h i v) (v ∷ h)
set-perm [] i v p = absurd (omega arith)
set-perm (x ∷ h) zero v p = Perm.swap v x h
set-perm (x ∷ h) (suc i) v p =
    Perm.trans (Perm.swap x (at h i) (set h i v))
      (Perm.trans (Perm.cons x (set-perm h i v (omega arith))) (Perm.swap v x h))

pub length-swap : (h : List Task) (i j : ℕ) → length (swap h i j) ≡ length h
unfolding swap
length-swap h i j = simp length-set

pub at-swap :
    (h : List Task) (i j c : ℕ)
    → i < length h
    → j < length h
    → at (swap h i j) c ≡ (if j == c then at h i else if i == c then at h j else at h c)
unfolding swap
at-swap h i j c p q = rw (
  at-set (set h i (at h j)) j c (at h i) (omega (arith, length-set h i (at h j))),
  at-set h i c (at h j) p,
)

pub swap-perm : (h : List Task) (i j : ℕ) → i < length h → j < length h → Perm (swap h i j) h
unfolding swap
swap-perm h i j p q =
    let once = set h i (at h j) in
    let moved : at once j ≡ at h j = ground (arith, at-set h i j (at h j)) in
    let second = rw moved at (set-perm once j (at h i) (omega (arith, length-set h i (at h j)))) in
    Perm.cons_inv (Perm.trans second (set-perm h i (at h j) p))

-- A permutation keeps the number of tasks.
length-foldr : (h : List Task) → List.foldr (λ t n. suc n) 0 h ≡ length h
length-foldr [] = refl
length-foldr (x ∷ h) = ap suc (length-foldr h)

pub length-perm : {g h : List Task} → Perm g h → length g ≡ length h
length-perm {g} {h} p =
    rw (sym (length-foldr g), sym (length-foldr h))
      (Perm.foldr-eq ℕ_set (λ t n. suc n) (λ s t n. refl) p 0)

pub append-perm : (h : List Task) (t : Task) → Perm (h ++ (t ∷ [])) (t ∷ h)
append-perm [] t = Perm.rfl
append-perm (x ∷ h) t = Perm.trans (Perm.cons x (append-perm h t)) (Perm.swap t x h)

pub at-append : (h : List Task) (t : Task) → at (h ++ (t ∷ [])) (length h) ≡ t
at-append [] t = refl
at-append (x ∷ h) t = at-append h t

pub at-append_below :
    (h : List Task) (t : Task) (c : ℕ) → c < length h → at (h ++ (t ∷ [])) c ≡ at h c
at-append_below [] t c p = absurd (omega arith)
at-append_below (x ∷ h) t zero p = refl
at-append_below (x ∷ h) t (suc c) p = at-append_below h t c (omega arith)

pub at-take : (n : ℕ) (h : List Task) (c : ℕ) → c < n → at (take n h) c ≡ at h c
at-take zero h c p = absurd (omega arith)
at-take (suc n) [] c p = refl
at-take (suc n) (x ∷ h) zero p = refl
at-take (suc n) (x ∷ h) (suc c) p = at-take n h c (omega arith)

-- The last task and those in front of it.
pub take-last : (n : ℕ) (h : List Task) → length h ≡ suc n → take n h ++ (at h n ∷ []) ≡ h
take-last zero (x ∷ []) e = refl
take-last (suc n) (x ∷ h) e = ap (◌∷◌ x) (take-last n h (omega arith))
take-last n h e = absurd (omega arith)

pub length-take_of : (n : ℕ) (h : List Task) → n ≤ length h → length (take n h) ≡ n
length-take_of zero h p = refl
length-take_of (suc n) [] p = absurd (omega arith)
length-take_of (suc n) (x ∷ h) p = ap suc (length-take_of n h (omega arith))
