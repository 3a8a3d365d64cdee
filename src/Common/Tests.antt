-- ===== src/Common/Tests.antt =====
-- Runs of the caches, over a cache that never forgets.
use mine_net.Base.{ℕ, ◌≡◌, refl, false, none, some, [], ◌∷◌, ok, err, ◌==◌, if◌then◌else◌}
use mine_net.Base.Map.{Map, nat_key, string_key, lookup, insert, lookup-insert_self}
use mine_net.Common.Lru.{
  CacheLib, Manager, register_lru, get_lru, set_value, get_value, set_value_lem,
}

abbrev keeping : CacheLib ℕ ℕ ℕ
keeping = record {
  Cache = Map ℕ ℕ;
  new_cache = λ size. if size == 0 then err 0 else ok [];
  insert_value = insert;
  get_entry = λ k c. (c, lookup k c);
  get_entry-insert_value = lookup-insert_self;
}

abbrev caches : Manager keeping
caches = ("items", (1, 10) ∷ []) ∷ ("users", []) ∷ []

set_value_lem_example :
    (get_lru keeping "items" (register_lru keeping "carts" 5 caches).0 ≡ some ((1, 10) ∷ []))
    × ((d : Map ℕ ℕ)
        → get_lru keeping "carts" caches ≡ none
        → keeping.new_cache 5 ≡ ok d
        → get_lru keeping "carts" (register_lru keeping "carts" 5 caches).0 ≡ some d)
    × ((get_value keeping "items" 2 (set_value keeping "items" 2 20 caches)).1 ≡ some 20)
    × (string_key.beq "items" "carts" ≡ false
        → get_lru keeping "carts" (set_value keeping "items" 2 20 caches)
          ≡ get_lru keeping "carts" caches)
unfolding get_lru lookup
set_value_lem_example = set_value_lem keeping "items" "carts" 5 2 20 caches ((1, 10) ∷ []) refl
