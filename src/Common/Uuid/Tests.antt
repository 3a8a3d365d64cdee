-- ===== src/Common/Uuid/Tests.antt =====
-- An id.
use mine_net.Base.{ℕ, ◌≡◌, refl, List, [], ◌∷◌, arith}
use mine_net.Common.Uuid.Unique.{generate_connection_id-inj}
use mine_net.Common.Uuid.{generate_connection_id, digits, encode_hex, print, hex_digit}

id :
    generate_connection_id 1700000000000000005 (0 ∷ 255 ∷ 26 ∷ 7 ∷ 1 ∷ 2 ∷ 3 ∷ 160 ∷ [])
    ≡ "1700000000000000005-00ff1a07010203a0"
unfolding generate_connection_id digits encode_hex print hex_digit
id = refl

generate_connection_id-inj_example :
    ◌≡◌ {A = ℕ} 1700000000000000005 1700000000000000005
    × (◌≡◌ {A = List ℕ}
        (1 ∷ 2 ∷ 3 ∷ 4 ∷ 5 ∷ 6 ∷ 7 ∷ 255 ∷ [])
        (1 ∷ 2 ∷ 3 ∷ 4 ∷ 5 ∷ 6 ∷ 7 ∷ 255 ∷ []))
generate_connection_id-inj_example =
    generate_connection_id-inj 1700000000000000005 1700000000000000005
      (1 ∷ 2 ∷ 3 ∷ 4 ∷ 5 ∷ 6 ∷ 7 ∷ 255 ∷ []) (1 ∷ 2 ∷ 3 ∷ 4 ∷ 5 ∷ 6 ∷ 7 ∷ 255 ∷ []) (omega arith)
      (omega arith) (omega arith) (omega arith) refl
