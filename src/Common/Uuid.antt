-- ===== src/Common/Uuid.antt =====
-- common/uuid.go: the ids of connections. fmt's %d and hex.EncodeToString are written out, as their
-- packages document them; the clock and the random bytes are arguments.
pub mod Unique
pub mod Tests
use Prim.Native.Char.{Char}
use Prim.Native.String
use mine_net.Base.{
  ℕ, zero, suc, ◌+◌, ◌/◌, ◌%◌, List, [], ◌∷◌, ◌++◌, String, get_or, ltb, if◌then◌else◌,
}

abbrev hex_table : List Char
hex_table =
    "0" ∷ "1" ∷ "2" ∷ "3" ∷ "4" ∷ "5" ∷ "6" ∷ "7" ∷ "8" ∷ "9" ∷ "a" ∷ "b" ∷ "c" ∷ "d" ∷ "e" ∷ "f"
    ∷ []

unfoldable pub hex_digit : ℕ → Char
hex_digit n = get_or hex_table n "0"

-- The decimal digits of a number that has at most so many.
unfoldable pub digits : ℕ → ℕ → List ℕ
digits zero n = []
digits (suc f) n =
    let rest = digits f (n / 10) in if ltb n 10 then n ∷ [] else rest ++ (n % 10 ∷ [])

-- The two hexadecimal digits of each byte.
unfoldable pub encode_hex : List ℕ → List ℕ
encode_hex [] = []
encode_hex (b ∷ bs) = (b / 16) ∷ (b % 16) ∷ encode_hex bs

-- Digits in front of a text.
unfoldable pub print : List ℕ → String → String
print [] s = s
print (d ∷ ds) s = String.◌∷◌ (hex_digit d) (print ds s)

-- A number of nanoseconds, which is below 2 ^ 63, has at most 19 digits.
abbrev pub most_digits : ℕ
most_digits = 19

unfoldable pub generate_connection_id : ℕ → List ℕ → String
generate_connection_id now random =
    print (digits most_digits now) (String.◌∷◌ "-" (print (encode_hex random) String.[]))
