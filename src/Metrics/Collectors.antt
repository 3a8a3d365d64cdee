-- ===== src/Metrics/Collectors.antt =====
-- Prometheus as the metrics use it: a collector's options, and the registry, a parameter. R: the
-- registry's states.
use text.Mathlib.Text.{◌==◌ as str_eq}
use Prim.Native.String.{◌++◌}
use mine_net.Base.Map.{Map}
use mine_net.Base.{
  true, ℕ, ◌≡◌, Bool, false, ◌||◌, List, [], ◌∷◌, String, Outcome, ok, ◌>>=◌, if◌then◌else◌,
}

pub data Kind : Type 0 where
  is_counter is_gauge is_histogram : Kind

-- The help text is left out.
pub record Collector : Type 0 where
  pub kind : Kind
  pub namespace : String
  pub subsystem : String
  pub name : String
  pub labels : List String
  pub buckets : List ℕ
  pub const_labels : Map String String

abbrev pub counter : String → String → String → List String → Collector
counter namespace subsystem name labels = record {
  kind = is_counter;
  namespace = namespace;
  subsystem = subsystem;
  name = name;
  labels = labels;
  buckets = [];
  const_labels = [];
}

abbrev pub gauge : String → String → String → List String → Collector
gauge namespace subsystem name labels = record (counter namespace subsystem name labels) {
  kind = is_gauge;
}

abbrev pub histogram : String → String → String → List String → List ℕ → Collector
histogram namespace subsystem name labels buckets =
    record (counter namespace subsystem name labels) { kind = is_histogram; buckets = buckets }

-- BuildFQName, for a name that is not empty.
abbrev pub prefixed : String → String → String
prefixed part rest = if str_eq part "" then rest else part ++ ("_" ++ rest)

unfoldable pub full_name : Collector → String
full_name c = prefixed c.namespace (prefixed c.subsystem c.name)

abbrev pub has : String → List String → Bool
has n [] = false
has n (m ∷ ms) = str_eq m n || has n ms

-- MustRegister takes a collector whose full name is well-formed and new; it panics on one that
-- collides.
pub record Registry (R : Type 0) : Type 0 where
  pub names : R → List String
  pub valid_name : String → Bool
  pub must_register : Collector → R → Outcome String R
  pub must_register-new :
      (c : Collector) (r : R)
      → valid_name (full_name c) ≡ true
      → has (full_name c) (names r) ≡ false
      → (r2 : R) × (must_register c r ≡ ok r2) × (names r2 ≡ full_name c ∷ names r)

-- MustRegister on several collectors, one after another.
unfoldable pub register_all : {R : Type 0} → Registry R → List Collector → R → Outcome String R
register_all g [] r = ok r
register_all g (c ∷ cs) r = g.must_register c r >>= λ r2. register_all g cs r2
