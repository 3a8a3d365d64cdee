-- ===== src/Base/Bits.antt =====
-- Bytes: exclusive or, and encoding/binary's big-endian integers.
use Prim.Native.Nat.{ℕ, zero, suc, ◌+◌, ◌*◌, ◌/◌, ◌%◌, ◌^◌, ◌<◌, bit_xor}
use mathlib.Core.Path.{◌≡◌, refl, ap, ◌∙◌}
use mathlib.Core.Bool.{Bool, true, ◌&&◌}
use mathlib.Core.List.{List, [], ◌∷◌, ◌++◌, append_assoc, append-nil}
use native.Mathlib.Omega.{arith}
use native.Mathlib.Nat.{pow-suc}
use mine_net.Base.Tests.{◌==◌, ltb}
use mine_net.Base.Lists.{length, length-append, All, All-append}

abbrev pub IsByte : ℕ → Type 0
IsByte b = b < 256

-- A test that holds of every number below a bound.
unfoldable pub checked : (ℕ → Bool) → ℕ → Bool
checked test zero = true
checked test (suc n) = checked test n && test n

pub checked-lt : (test : ℕ → Bool) (n k : ℕ) → k < n → checked test n ≡ true → test k ≡ true
unfolding checked
checked-lt test zero k below h = absurd (omega arith)
checked-lt test (suc n) k below h = ground (arith, checked-lt test n k)

xor_ok : ℕ → ℕ → Bool
xor_ok x k = ltb (bit_xor x k) 256 && (bit_xor (bit_xor x k) k == x)

xor_table : checked (λ x. checked (xor_ok x) 256) 256 ≡ true
unfolding checked xor_ok
xor_table = refl

xor_ok_sound : (x k : ℕ) → xor_ok x k ≡ true → IsByte (bit_xor x k) × (bit_xor (bit_xor x k) k ≡ x)
unfolding xor_ok
xor_ok_sound x k h = ground arith

-- A byte masked by a byte is a byte, and the same mask restores it.
pub bit_xor-IsByte :
    (x k : ℕ) → IsByte x → IsByte k → IsByte (bit_xor x k) × (bit_xor (bit_xor x k) k ≡ x)
bit_xor-IsByte x k hx hk =
    let row = checked-lt (λ y. checked (xor_ok y) 256) 256 x hx xor_table in
    xor_ok_sound x k (checked-lt (xor_ok x) 256 k hk row)

-- `binary.BigEndian.PutUint…` at a width of `n` bytes: the low `n` bytes of `v`, highest first.
unfoldable pub put_be : ℕ → ℕ → List ℕ
put_be zero v = []
put_be (suc n) v = put_be n (v / 256) ++ (v % 256) ∷ []

get_be_from : ℕ → List ℕ → ℕ
get_be_from acc [] = acc
get_be_from acc (b ∷ bs) = get_be_from (acc * 256 + b) bs

-- `binary.BigEndian.Uint…` of all the bytes of a slice.
unfoldable pub get_be : List ℕ → ℕ
unfolding get_be_from
get_be bs = get_be_from 0 bs

pub length-put_be : (n v : ℕ) → length (put_be n v) ≡ n
unfolding put_be
length-put_be zero v = refl
length-put_be (suc n) v =
    omega (arith, length-append (put_be n (v / 256)) ((v % 256) ∷ []), length-put_be n (v / 256))

pub put_be-IsByte : (n v : ℕ) → All IsByte (put_be n v)
unfolding put_be
put_be-IsByte zero v = tt
put_be-IsByte (suc n) v = All-append IsByte _ _ (put_be-IsByte n (v / 256)) (omega arith, tt)

get_be_from-put_be :
    (n v acc : ℕ) (rest : List ℕ)
    → v < 256 ^ n
    → get_be_from acc (put_be n v ++ rest) ≡ get_be_from (acc * 256 ^ n + v) rest
unfolding put_be get_be_from
get_be_from-put_be zero v acc rest h = ap (λ (t : ℕ). get_be_from t rest) (omega arith)
get_be_from-put_be (suc n) v acc rest h =
    let small : v / 256 < 256 ^ n = omega (arith, pow-suc 256 n) in
    let joined : (acc * 256 ^ n + v / 256) * 256 + v % 256 ≡ acc * 256 ^ suc n + v =
      omega (arith, ap (λ (t : ℕ). acc * t) (pow-suc 256 n)) in
    rw append_assoc (
      get_be_from-put_be n (v / 256) acc ((v % 256) ∷ rest) small
      ∙ ap (λ (t : ℕ). get_be_from t rest) joined)

-- Reading back gives the value, if it fits the width.
pub get_be-put_be : (n v : ℕ) → v < 256 ^ n → get_be (put_be n v) ≡ v
unfolding get_be get_be_from
get_be-put_be n v h = (rw append-nil at (get_be_from-put_be n v 0 [] h)) ∙ omega arith
