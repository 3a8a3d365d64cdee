-- ===== src/Metrics/Registration.antt =====
-- Registering the program's collectors never meets a name twice.
use text.Mathlib.Text.{◌==◌ as str_eq}
use text.Mathlib.TextEquality.{eq_iff}
use mathlib.Core.Path.{subst}
use mine_net.Base.{
  ◌≡◌, refl, sym, ◌∙◌, Bool, true, false, not, ◌&&◌, ◌||◌, List, [], ◌∷◌, map, String, ok,
  Bool-cases, inl, inr, arith,
}
use mine_net.Metrics.Collectors.{Collector, Registry, full_name, has, register_all}

abbrev pub distinct : List String → Bool
distinct [] = true
distinct (n ∷ ns) = not (has n ns) && distinct ns

abbrev pub all : (String → Bool) → List String → Bool
all test [] = true
all test (n ∷ ns) = test n && all test ns

pub all-has :
    (test : String → Bool) (n : String) (ns : List String)
    → all test ns ≡ true
    → has n ns ≡ true
    → test n ≡ true
all-has test n [] a h = cc
all-has test n (m ∷ ms) a h = elim (Bool-cases (str_eq m n)) [
  | inl e ↦ subst (λ x. test x ≡ true) ((eq_iff m n).0 e) (ground arith)
  | inr e ↦ all-has test n ms (ground arith) (ground arith)
]

clashing : true ≡ false → ⊥
clashing e = cc

swap_or : (a b c : Bool) → (a || (b || c)) ≡ ((b || a) || c)
swap_or a b c = ground arith

distinct-head : (n : String) (ns : List String) → distinct (n ∷ ns) ≡ true → has n ns ≡ false
distinct-head n ns d = ground arith

distinct-tail : (n : String) (ns : List String) → distinct (n ∷ ns) ≡ true → distinct ns ≡ true
distinct-tail n ns d = ground arith

has-head : (n : String) (ns : List String) → has n (n ∷ ns) ≡ true
has-head n ns = ground (arith, (eq_iff n n).1 refl)

has-tail : (n m : String) (ns : List String) → has n ns ≡ true → has n (m ∷ ns) ≡ true
has-tail n m ns h = ground arith

-- Names that are new stay new when another is taken in.
IsNew-tail :
    (x : String) (ns ms : List String)
    → has x ns ≡ false
    → ((n : String) → has n (x ∷ ns) ≡ true → has n ms ≡ false)
    → (n : String) → has n ns ≡ true
    → has n (x ∷ ms) ≡ false
IsNew-tail x ns ms a f n h =
    let apart : str_eq x n ≡ false = elim (Bool-cases (str_eq x n)) [
      | inr e ↦ e
      | inl e ↦ absurd (clashing (sym h ∙ subst (λ y. has y ns ≡ false) ((eq_iff x n).0 e) a))
    ] in
    ground (arith, f n (has-tail n x ns h))

module _ {R : Type 0} (g : Registry R) where
  pub register_all-ok :
      (cs : List Collector) (r : R)
      → distinct (map full_name cs) ≡ true
      → ((n : String) → has n (map full_name cs) ≡ true → g.valid_name n ≡ true)
      → ((n : String) → has n (map full_name cs) ≡ true → has n (g.names r) ≡ false)
      → (r2 : R) × (register_all g cs r ≡ ok r2)
        × ((n : String) → has n (g.names r2) ≡ (has n (map full_name cs) || has n (g.names r)))
  unfolding register_all
  register_all-ok [] r d v f = (r, refl, λ n. refl)
  register_all-ok (c ∷ cs) r d v f =
      let x = full_name c in
      let ns = map full_name cs in
      let first = g.must_register-new c r (v x (has-head x ns)) (f x (has-head x ns)) in
      let rest =
        register_all-ok cs (first.0) (distinct-tail x ns d) (λ n h. v n (has-tail n x ns h))
          (rw (first.2) (IsNew-tail x ns (g.names r) (distinct-head x ns d) f)) in
      (
        rest.0,
        rw (first.1) (rest.1),
        λ n. rest.2 n ∙ rw (first.2) (swap_or (has n ns) (str_eq x n) (has n (g.names r))),
      )
