-- ===== src/Common/Uuid/Unique.antt =====
-- An id names its time and its random bytes: a reader finds them again.
use Prim.Native.Char.{Char, code}
use mine_net.Base.{
  ℕ, zero, suc, ◌+◌, ◌-◌, ◌*◌, ◌/◌, ◌%◌, ◌^◌, ◌<◌, ◌≤◌, ◌≡◌, refl, sym, ap, ◌∙◌, Bool, true, false,
  ◌&&◌, not, List, [], ◌∷◌, ◌++◌, String, All, All-append, ltb, ◌==◌, Bool-cases, inl, inr,
  if◌then◌else◌, arith,
}
use mine_net.Base.Bits.{IsByte, checked, checked-lt}
use mine_net.Common.Uuid.{hex_digit, digits, encode_hex, print, most_digits, generate_connection_id}

value : Char → ℕ
value c = if ltb (code c) 58 then code c - 48 else code c - 87

-- A digit is no dash, and has its value.
digit_ok : ℕ → Bool
digit_ok d = (value (hex_digit d) == d) && not (code (hex_digit d) == 45)

digit_table : checked digit_ok 16 ≡ true
unfolding checked digit_ok value hex_digit
digit_table = refl

digit_sound :
    (d : ℕ) → digit_ok d ≡ true → (value (hex_digit d) ≡ d) × ((code (hex_digit d) == 45) ≡ false)
unfolding digit_ok
digit_sound d h = ground arith

digit_lem : (d : ℕ) → d < 16 → (value (hex_digit d) ≡ d) × ((code (hex_digit d) == 45) ≡ false)
digit_lem d h = digit_sound d (checked-lt digit_ok 16 d h digit_table)

-- Digits behind digits that have been read.
read_digits : ℕ → List ℕ → ℕ
read_digits acc [] = acc
read_digits acc (d ∷ ds) = read_digits (acc * 10 + d) ds

-- The number up to the dash, and the text behind it.
read_number : ℕ → String → ℕ × String
read_number acc String.[] = (acc, String.[])
read_number acc (String.◌∷◌ c s) =
    let rest = read_number (acc * 10 + value c) s in if code c == 45 then (acc, s) else rest

read_hex : String → List ℕ
read_hex (String.◌∷◌ a (String.◌∷◌ b s)) = (value a * 16 + value b) ∷ read_hex s
read_hex s = []

abbrev IsDigit : ℕ → Type 0
IsDigit d = d < 10

read_number-print :
    (acc : ℕ) (ds : List ℕ) (s : String)
    → All IsDigit ds
    → read_number acc (print ds (String.◌∷◌ "-" s)) ≡ (read_digits acc ds, s)
unfolding read_number print read_digits
read_number-print acc [] s h = refl
read_number-print acc (d ∷ ds) s h =
    let (same, other) = digit_lem d (omega (arith, h.0)) in
    rw (other, same) (read_number-print (acc * 10 + d) ds s h.1)

read_hex-print : (bs : List ℕ) → All IsByte bs → read_hex (print (encode_hex bs) String.[]) ≡ bs
unfolding read_hex print encode_hex
read_hex-print [] h = refl
read_hex-print (b ∷ bs) h =
    let (high, _) = digit_lem (b / 16) (omega (arith, h.0)) in
    let (low, _) = digit_lem (b % 16) (omega arith) in
    rw (high, low, read_hex-print bs h.1) (ap (λ (n : ℕ). n ∷ bs) (omega arith))

read_digits-append :
    (acc : ℕ) (ds : List ℕ) (d : ℕ) → read_digits acc (ds ++ (d ∷ [])) ≡ read_digits acc ds * 10 + d
unfolding read_digits
read_digits-append acc [] d = refl
read_digits-append acc (e ∷ ds) d = read_digits-append (acc * 10 + e) ds d

-- The first number that has more digits.
bound : ℕ → ℕ
bound zero = 1
bound (suc f) = 10 * bound f

digits_lem : (f n : ℕ) → n < bound f → (read_digits 0 (digits f n) ≡ n) × All IsDigit (digits f n)
unfolding bound digits read_digits
digits_lem zero n h = (omega arith, tt)
digits_lem (suc f) n h =
    let (same, small) = digits_lem f (n / 10) (omega arith) in
    elim (Bool-cases (ltb n 10)) [
      | inl e ↦ rw e (omega arith, ground arith)
      | inr e ↦ rw e (
        read_digits-append 0 (digits f (n / 10)) (n % 10) ∙ omega (arith, same),
        All-append IsDigit (digits f (n / 10)) (n % 10 ∷ []) small (omega arith),
      )
    ]

enough : 2 ^ 63 ≤ bound most_digits
unfolding bound
enough = omega arith

read_id : String → ℕ × List ℕ
read_id s = let (now, rest) = read_number 0 s in (now, read_hex rest)

read_id-generate_connection_id :
    (now : ℕ) (random : List ℕ)
    → now < 2 ^ 63
    → All IsByte random
    → read_id (generate_connection_id now random) ≡ (now, random)
unfolding read_id generate_connection_id
read_id-generate_connection_id now random h bytes =
    let (same, small) = digits_lem most_digits now (omega (arith, enough)) in
    let number =
      read_number-print 0 (digits most_digits now) (print (encode_hex random) String.[]) small in
    rw (number, same, read_hex-print random bytes) refl

-- Two ids are equal only if they were made at the same nanosecond, by an int64 clock, of the same
-- random bytes.
pub generate_connection_id-inj :
    (now later : ℕ) (random others : List ℕ)
    → now < 2 ^ 63
    → later < 2 ^ 63
    → All IsByte random
    → All IsByte others
    → generate_connection_id now random ≡ generate_connection_id later others
    → (now ≡ later) × (random ≡ others)
generate_connection_id-inj now later random others h k bytes bytes' e =
    let same =
      sym (read_id-generate_connection_id now random h bytes)
      ∙ ap read_id e
      ∙ read_id-generate_connection_id later others k bytes' in
    (ap (λ (p : ℕ × List ℕ). p.0) same, ap (λ (p : ℕ × List ℕ). p.1) same)
