-- ===== src/Network/ConnPool/Removal.antt =====
-- network/conn_pool.go, Remove and Close: what they leave of the pool.
use mathlib.Core.Path.{subst}
use mine_net.Base.{
  ℕ, ap, ◌∙◌, Bool, Option, if◌then◌else◌, false, ◌+◌, ◌≡◌, refl, sym, true, false, none, some, [],
  ◌∷◌, String, arith, Option-cases, inl, inr,
}
use mine_net.Base.Map.{Distinct, Map, string_key, lookup, lookup-insert_self, lookup-erase_self}
use mine_net.Network.ConnPool.Pool.{
  Result, ConnectionInterface, PoolMetrics, ConnPool, remove, remove_found, remove_closed, swept,
  sweep_metrics, close_each, close_pool,
}

module _ {C : Type 0} (i : ConnectionInterface C) where
  remove-absent :
      (p : ConnPool C) (id : String) → lookup id p.connections ≡ none → remove i p id ≡ (p, none)
  unfolding remove remove_found
  remove-absent p id e = simp e

  -- A connection that somebody has closed is removed without an error.
  remove-closed_entry :
      (p : ConnPool C) (id : String) (c : C)
      → lookup id p.connections ≡ some c
      → i.is_closed c ≡ true
      → (lookup id (remove i p id).0.connections ≡ none) × ((remove i p id).1 ≡ none)
  unfolding remove remove_found remove_closed
  remove-closed_entry p id c found closed =
      simp (found, i.close_again c closed) (lookup-erase_self id p.connections, refl)

  remove-found :
      (p : ConnPool C) (id : String) (c : C)
      → lookup id p.connections ≡ some c
      → remove i p id ≡ remove_closed i id (i.close c) p
  unfolding remove remove_found
  remove-found p id c e = simp e

  abbrev pub IsGone : ConnPool C → String → Type 0
  IsGone q id = (lookup id (remove i q id).0.connections ≡ none) × ((remove i q id).1 ≡ none)

  IsGone-absent : (q : ConnPool C) (id : String) → lookup id q.connections ≡ none → IsGone q id
  IsGone-absent q id e = simp (remove-absent q id e) (e, refl)

  remove_closed-IsGone :
      (p : ConnPool C) (id : String) (o : C × Result)
      → i.is_closed o.0 ≡ true
      → IsGone (remove_closed i id o p).0 id
  unfolding remove_closed
  remove_closed-IsGone p id (d, some e) h =
      remove-closed_entry _ id d (lookup-insert_self id d p.connections) h
  remove_closed-IsGone p id (d, none) h = IsGone-absent _ id (lookup-erase_self id p.connections)

  -- Whatever Remove reports, a second Remove of the id leaves no entry for it, and reports nothing.
  remove_again : (p : ConnPool C) (id : String) → IsGone (remove i p id).0 id
  remove_again p id = elim (Option-cases (lookup id p.connections)) [
    | inl e ↦ simp (remove-absent p id e) (e, refl)
    | inr (c, e) ↦
        subst (λ x. IsGone x.0 id) (sym (remove-found p id c e))
          (remove_closed-IsGone p id (i.close c) (i.close-is_closed c))
  ]

  -- What Close of the pool leaves of an entry: the connection behind its own Close if that reports
  -- an error, and otherwise nothing.
  abbrev pub kept : C × Result → Option C
  kept (c, some e) = some c
  kept (c, none) = none

  abbrev pub left_open : Option C → Option C
  left_open none = none
  left_open (some c) = kept (i.close c)

  abbrev pub failed : Result → ℕ
  failed none = 0
  failed (some e) = 1

  -- How many connections report an error when they are closed.
  abbrev pub close_failures : Map String C → ℕ
  close_failures [] = 0
  close_failures ((k, c) ∷ m) = failed (i.close c).1 + close_failures m

  lookup-swept :
      (j k : String) (o : C × Result) (r : Map String C × PoolMetrics)
      → (string_key.beq k j ≡ true → lookup j r.0 ≡ none)
      → lookup j (swept k o r).0 ≡ (if string_key.beq k j then kept o else lookup j r.0)
  unfolding lookup
  lookup-swept j k (c, some e) r h = refl
  lookup-swept j k (c, none) r h = ground (arith)

  lookup-close_each :
      (j : String) (m : Map String C) (s : PoolMetrics)
      → Distinct m
      → lookup j (close_each i m s).0 ≡ left_open (lookup j m)
  unfolding close_each lookup
  lookup-close_each j [] s d = refl
  lookup-close_each j ((k, c) ∷ m) s d =
      let ih = lookup-close_each j m (sweep_metrics (i.close c).1 s) d.1 in
      let absent = λ (e : string_key.beq k j ≡ true).
        ih ∙ ap left_open (subst (λ x. lookup x m ≡ none) ((string_key.beq_iff k j).0 e) d.0) in
      lookup-swept j k (i.close c) _ absent ∙ by_test (string_key.beq k j) ih
    where
      by_test :
          (b : Bool) {x : Option C}
          → x ≡ left_open (lookup j m)
          → (if b then kept (i.close c) else x) ≡ left_open (if b then some c else lookup j m)
      by_test true e = refl
      by_test false e = e

  close_errors-swept :
      (k : String) (o : C × Result) (r : Map String C × PoolMetrics) → (swept k o r).1 ≡ r.1
  close_errors-swept k (c, some e) r = refl
  close_errors-swept k (c, none) r = refl

  close_errors-sweep_metrics :
      (o : Result) (s : PoolMetrics) → (sweep_metrics o s).close_errors ≡ s.close_errors + failed o
  close_errors-sweep_metrics (some e) s = refl
  close_errors-sweep_metrics none s = omega arith

  close_errors-close_each :
      (m : Map String C) (s : PoolMetrics)
      → (close_each i m s).1.close_errors ≡ s.close_errors + close_failures m
  unfolding close_each
  close_errors-close_each [] s = omega arith
  close_errors-close_each ((k, c) ∷ m) s =
      let swept_same =
        close_errors-swept k (i.close c) (close_each i m (sweep_metrics (i.close c).1 s)) in
      ap (λ (x : PoolMetrics). x.close_errors) swept_same
      ∙ omega (
        arith,
        close_errors-close_each m (sweep_metrics (i.close c).1 s),
        close_errors-sweep_metrics (i.close c).1 s,
      )

  -- Closing the pool closes each connection once: under its id stands afterwards the connection
  -- behind its Close, if that reported an error, and otherwise nothing; the errors are counted.
  pub lookup-close_pool :
      (p : ConnPool C)
      → Distinct p.connections
      → ((k : String) → lookup k (close_pool i p).connections ≡ left_open (lookup k p.connections))
        × ((close_pool i p).metrics.close_errors
            ≡ p.metrics.close_errors + close_failures p.connections)
  unfolding close_pool
  lookup-close_pool p d = (
    λ k. lookup-close_each k p.connections p.metrics d,
    close_errors-close_each p.connections p.metrics,
  )
