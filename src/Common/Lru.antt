-- ===== src/Common/Lru.antt =====
-- common/lru.go: one cache for each module that registers one. hashicorp's lru.Cache is a parameter.
use mathlib.Core.Path.{subst}
use mine_net.Base.{
  ℕ, ◌≡◌, ◌∙◌, refl, false, Option, none, some, Outcome, ok, err, panic, String, Option-cases,
  Bool-cases, inl, inr,
}
use mine_net.Base.Map.{Map, string_key, lookup, insert, lookup-insert, lookup-insert_self}

-- `new_cache` refuses some sizes; a value is found behind its own Add. Get moves an entry up.
pub record CacheLib (K V E : Type 0) : Type 1 where
  pub Cache : Type 0
  pub new_cache : ℕ → Outcome E Cache
  pub insert_value : K → V → Cache → Cache
  pub get_entry : K → Cache → Cache × Option V
  pub get_entry-insert_value :
      (k : K) (v : V) (c : Cache) → (get_entry k (insert_value k v c)).1 ≡ some v

module _ {K V E : Type 0} (lib : CacheLib K V E) where
  open lib use {Cache, new_cache, insert_value, get_entry}

  abbrev pub Manager : Type 0
  Manager = Map String Cache

  -- Behind the look for the module, and the call of New.
  unfoldable pub register_new : String → Outcome E Cache → Manager → Manager × Outcome E (Unit {0})
  register_new name (ok c) m = (insert name c m, ok tt)
  register_new name (err e) m = (m, err e)
  register_new name panic m = (m, panic)

  unfoldable pub register_found :
      Option Cache → String → ℕ → Manager → Manager × Outcome E (Unit {0})
  register_found (some c) name size m = (m, ok tt)
  register_found none name size m = register_new name (new_cache size) m

  unfoldable pub register_lru : String → ℕ → Manager → Manager × Outcome E (Unit {0})
  register_lru name size m = register_found (lookup name m) name size m

  unfoldable pub get_lru : String → Manager → Option Cache
  get_lru name m = lookup name m

  unfoldable pub set_found : Option Cache → String → K → V → Manager → Manager
  set_found none name k v m = m
  set_found (some c) name k v m = insert name (insert_value k v c) m

  unfoldable pub set_value : String → K → V → Manager → Manager
  set_value name k v m = set_found (get_lru name m) name k v m

  unfoldable pub get_found : Option Cache → String → K → Manager → Manager × Option V
  get_found none name k m = (m, none)
  get_found (some c) name k m = let (c', value) = get_entry k c in (insert name c' m, value)

  unfoldable pub get_value : String → K → Manager → Manager × Option V
  get_value name k m = get_found (get_lru name m) name k m

  register_lru-registered :
      (name : String) (size : ℕ) (m : Manager) (c : Cache)
      → lookup name m ≡ some c
      → register_lru name size m ≡ (m, ok tt)
  unfolding register_lru register_found
  register_lru-registered name size m c e = simp e

  register_new-other :
      (name other : String) (o : Outcome E Cache) (m : Manager)
      → string_key.beq other name ≡ false
      → lookup name (register_new other o m).0 ≡ lookup name m
  unfolding register_new
  register_new-other name other (ok c) m e = simp (lookup-insert other name c m, e)
  register_new-other name other (err x) m e = refl
  register_new-other name other panic m e = refl

  -- No registration, of whatever module, takes a module's cache.
  register_lru-keeps :
      (name other : String) (size : ℕ) (m : Manager) (c : Cache)
      → lookup name m ≡ some c
      → lookup name (register_lru other size m).0 ≡ some c
  register_lru-keeps name other size m c found = elim (Option-cases (lookup other m)) [
    | inr (d, e) ↦ rw (register_lru-registered other size m d e) found
    | inl e ↦ elim (Bool-cases (string_key.beq other name)) [
      | inl same ↦
          let at_name : lookup name m ≡ none =
            subst (λ k. lookup k m ≡ none) ((string_key.beq_iff other name).0 same) e in
          absurd (cc)
      | inr apart ↦
          unfold register_lru register_found in
          simp e (register_new-other name other (new_cache size) m apart ∙ found)
    ]
  ]

  register_lru-new :
      (name : String) (size : ℕ) (m : Manager) (d : Cache)
      → lookup name m ≡ none
      → new_cache size ≡ ok d
      → lookup name (register_lru name size m).0 ≡ some d
  unfolding register_lru register_found register_new
  register_lru-new name size m d absent made = simp (absent, made) (lookup-insert_self name d m)

  pub set_value_lem :
      (name other : String) (size : ℕ) (k : K) (v : V) (m : Manager) (c : Cache)
      → get_lru name m ≡ some c
      → (get_lru name (register_lru other size m).0 ≡ some c)
        × ((d : Cache)
            → get_lru other m ≡ none
            → new_cache size ≡ ok d
            → get_lru other (register_lru other size m).0 ≡ some d)
        × ((get_value name k (set_value name k v m)).1 ≡ some v)
        × (string_key.beq name other ≡ false
            → get_lru other (set_value name k v m) ≡ get_lru other m)
  unfolding get_lru get_value get_found set_value set_found
  set_value_lem name other size k v m c found = (
    register_lru-keeps name other size m c found,
    register_lru-new other size m,
    simp (found, lookup-insert_self name (insert_value k v c) m, lib.get_entry-insert_value k v c),
    λ apart. simp (found, lookup-insert name other (insert_value k v c) m, apart),
  )

  -- For a module without a cache, setting does nothing and nothing is found.
  pub set_value-unregistered :
      (name : String) (k : K) (v : V) (m : Manager)
      → get_lru name m ≡ none
      → (set_value name k v m ≡ m) × (get_value name k m ≡ (m, none))
  unfolding get_lru get_value get_found set_value set_found
  set_value-unregistered name k v m absent = simp absent (refl, refl)
