-- ===== src/CString/Hex.antt =====
-- `%08lx` and `%d`, as driver/src/data.c prints them.
use fanuc_driver.Prelude.{
  ℕ, zero, suc, ◌+◌, ◌/◌, ◌%◌, ◌≤◌, ◌≡◌, ◌≢◌, [], ◌∷◌, ltb, if◌then◌else◌, length, arith, ℤ, pos,
  negsuc,
}
use fanuc_driver.CString.{Bytes}
use fanuc_driver.CString.Laws.{IsText}

unfoldable pub hex_digit : ℕ → ℕ
hex_digit d = if ltb d 10 then 48 + d else 87 + d

-- The low `k` hexadecimal digits of `n`, the highest first, before `rest`.
unfoldable pub hex_digits : ℕ → ℕ → Bytes → Bytes
unfolding hex_digit
hex_digits zero n rest = rest
hex_digits (suc k) n rest = hex_digits k (n / 16) (hex_digit (n % 16) ∷ rest)

-- `%08lx` of an unsigned long of 32 bits, which has eight digits at most.
unfoldable pub hex8 : ℕ → Bytes
unfolding hex_digits
hex8 n = hex_digits 8 n []

pub length-hex_digits : (k n : ℕ) (rest : Bytes) → length (hex_digits k n rest) ≡ k + length rest
unfolding hex_digits
length-hex_digits zero n rest = omega arith
length-hex_digits (suc k) n rest =
    omega (arith, length-hex_digits k (n / 16) (hex_digit (n % 16) ∷ rest))

pub length-hex8 : (n : ℕ) → length (hex8 n) ≡ 8
unfolding hex8
length-hex8 n = omega (arith, length-hex_digits 8 n [])

hex_digit-ne-zero : (d : ℕ) → hex_digit d ≢ 0
unfolding hex_digit
hex_digit-ne-zero d = ground arith

hex_digits-IsText : (k n : ℕ) (rest : Bytes) → IsText rest → IsText (hex_digits k n rest)
unfolding hex_digits
hex_digits-IsText zero n rest h = h
hex_digits-IsText (suc k) n rest h =
    hex_digits-IsText k (n / 16) (hex_digit (n % 16) ∷ rest) (hex_digit-ne-zero (n % 16), h)

pub hex8-IsText : (n : ℕ) → IsText (hex8 n)
unfolding hex8
hex8-IsText n = hex_digits-IsText 8 n [] tt

-- The decimal digits of `n`, the highest first, before `rest`; `k` bounds their number.
unfoldable pub dec_digits : ℕ → ℕ → Bytes → Bytes
dec_digits zero n rest = rest
dec_digits (suc k) n rest =
    let more = dec_digits k (n / 10) ((48 + n % 10) ∷ rest) in
    if ltb n 10 then (48 + n) ∷ rest else more

-- `%d` of a short, which has five digits at most.
unfoldable pub dec_short : ℤ → Bytes
unfolding dec_digits
dec_short (pos n) = dec_digits 5 n []
dec_short (negsuc n) = 45 ∷ dec_digits 5 (suc n) []

length-dec_digits : (k n : ℕ) (rest : Bytes) → length (dec_digits k n rest) ≤ k + length rest
unfolding dec_digits
length-dec_digits zero n rest = omega arith
length-dec_digits (suc k) n rest =
    ground (arith, length-dec_digits k (n / 10) ((48 + n % 10) ∷ rest))

pub length-dec_short : (z : ℤ) → length (dec_short z) ≤ 6
unfolding dec_short
length-dec_short (pos n) = omega (arith, length-dec_digits 5 n [])
length-dec_short (negsuc n) = omega (arith, length-dec_digits 5 (suc n) [])

dec_digits-IsText : (k n : ℕ) (rest : Bytes) → IsText rest → IsText (dec_digits k n rest)
unfolding dec_digits
dec_digits-IsText zero n rest h = h
dec_digits-IsText (suc k) n rest h =
    ground (arith, dec_digits-IsText k (n / 10) ((48 + n % 10) ∷ rest))

pub dec_short-IsText : (z : ℤ) → IsText (dec_short z)
unfolding dec_short
dec_short-IsText (pos n) = dec_digits-IsText 5 n [] tt
dec_short-IsText (negsuc n) = ground (arith, dec_digits-IsText 5 (suc n) [] tt)
