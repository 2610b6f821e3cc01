-- ===== src/CString/Laws.antt =====
-- What the string functions leave in an array: its size, and the string that it then holds.
use fanuc_driver.Prelude.{
  ℕ, zero, suc, ◌≤◌, ◌<◌, ◌≡◌, ◌≢◌, refl, ap, [], ◌∷◌, ◌++◌, true, false, none, some, length, take,
  drop, arith, All, length-append, length-drop, not,
}
use fanuc_driver.CString.{Bytes, c_str, sprintf, pad, strncpy, bytes_eq, strcmp_ne, strncmp_ne}

-- No byte of a text is NUL.
abbrev pub IsText : Bytes → Type 0
IsText = All (λ c. c ≢ 0)

pub c_str_text : (s rest : Bytes) → IsText s → c_str (s ++ 0 ∷ rest) ≡ s
unfolding c_str
c_str_text [] rest h = refl
c_str_text (c ∷ s) rest h = ground (arith, c_str_text s rest h.1, h.0)

pub c_str-IsText : (b : Bytes) → IsText (c_str b)
unfolding c_str
c_str-IsText [] = tt
c_str-IsText (c ∷ b) = ground (arith, c_str-IsText b)

pub length-c_str : (b : Bytes) → length (c_str b) ≤ length b
unfolding c_str
length-c_str [] = omega arith
length-c_str (c ∷ b) = ground (arith, length-c_str b)

pub take-IsText : (n : ℕ) (s : Bytes) → IsText s → IsText (take n s)
take-IsText zero s h = tt
take-IsText (suc n) [] h = tt
take-IsText (suc n) (c ∷ s) h = (h.0, take-IsText n s h.1)

pub append-IsText : (s t : Bytes) → IsText s → IsText t → IsText (s ++ t)
append-IsText [] t h k = k
append-IsText (c ∷ s) t h k = (h.0, append-IsText s t h.1 k)

-- A text that fits with its NUL is written.
pub sprintf_fits :
    (buf s : Bytes)
    → length s < length buf
    → sprintf buf s ≡ some (s ++ 0 ∷ drop (suc (length s)) buf)
unfolding sprintf
sprintf_fits buf s h = ground arith

-- A text that does not fit leaves the array.
pub sprintf_overflow : (buf s : Bytes) → length buf ≤ length s → sprintf buf s ≡ none
unfolding sprintf
sprintf_overflow buf s h = ground arith

pub length-sprintf : (buf s : Bytes) {r : Bytes} → sprintf buf s ≡ some r → length r ≡ length buf
unfolding sprintf
length-sprintf buf s h =
    ground
      (arith, length-append s (0 ∷ drop (suc (length s)) buf), length-drop (suc (length s)) buf)

pub c_str-sprintf : (buf s : Bytes) {r : Bytes} → IsText s → sprintf buf s ≡ some r → c_str r ≡ s
unfolding sprintf
c_str-sprintf buf s t h = ground (arith, c_str_text s (drop (suc (length s)) buf) t)

pub length-pad : (n : ℕ) (s : Bytes) → length (pad n s) ≡ n
unfolding pad
length-pad zero s = refl
length-pad (suc n) [] = ap suc (length-pad n [])
length-pad (suc n) (c ∷ s) = ap suc (length-pad n s)

pub c_str-pad : (n : ℕ) (s rest : Bytes) → IsText s → length s < n → c_str (pad n s ++ rest) ≡ s
unfolding c_str pad
c_str-pad zero s rest t h = elim h [ ]
c_str-pad (suc n) [] rest t h = refl
c_str-pad (suc n) (c ∷ s) rest t h = ground (arith, c_str-pad n s rest t.1 (omega arith), t.0)

pub strncpy_fits :
    (buf src : Bytes) (n : ℕ)
    → n ≤ length buf
    → strncpy buf src n ≡ some (pad n (c_str src) ++ drop n buf)
unfolding strncpy
strncpy_fits buf src n h = ground arith

pub length-strncpy :
    (buf src : Bytes) (n : ℕ) {r : Bytes} → strncpy buf src n ≡ some r → length r ≡ length buf
unfolding strncpy
length-strncpy buf src n h = ground (
  arith,
  length-append (pad n (c_str src)) (drop n buf),
  length-drop n buf,
  length-pad n (c_str src),
)

pub c_str-strncpy :
    (buf src : Bytes) (n : ℕ) {r : Bytes}
    → length (c_str src) < n
    → strncpy buf src n ≡ some r
    → c_str r ≡ c_str src
unfolding strncpy
c_str-strncpy buf src n h e =
    ground (arith, c_str-pad n (c_str src) (drop n buf) (c_str-IsText src) h)

-- A copy over the whole array forgets what was there.
pub drop_all : (b : Bytes) (n : ℕ) → length b ≤ n → drop n b ≡ []
drop_all [] zero h = refl
drop_all [] (suc n) h = refl
drop_all (c ∷ b) zero h = elim h [ ]
drop_all (c ∷ b) (suc n) h = drop_all b n (omega arith)

pub bytes_eq→eq : (a b : Bytes) → bytes_eq a b ≡ true → a ≡ b
bytes_eq→eq [] [] h = refl
bytes_eq→eq [] (_ ∷ _) h = cc
bytes_eq→eq (_ ∷ _) [] h = cc
bytes_eq→eq (x ∷ a) (y ∷ b) h = ground (arith, bytes_eq→eq a b)

pub bytes_eq_refl : (a : Bytes) → bytes_eq a a ≡ true
bytes_eq_refl [] = refl
bytes_eq_refl (x ∷ a) = ground (arith, bytes_eq_refl a)

-- `strcmp` finds no difference exactly between equal strings.
pub strcmp→eq : (a b : Bytes) → strcmp_ne a b ≡ false → c_str a ≡ c_str b
unfolding strcmp_ne
strcmp→eq a b h = bytes_eq→eq (c_str a) (c_str b) (ground arith)

pub strncmp→eq :
    (a b : Bytes) (n : ℕ) → strncmp_ne a b n ≡ false → take n (c_str a) ≡ take n (c_str b)
unfolding strncmp_ne
strncmp→eq a b n h = bytes_eq→eq (take n (c_str a)) (take n (c_str b)) (ground arith)

pub strcmp_same : (a b : Bytes) → c_str a ≡ c_str b → strcmp_ne a b ≡ false
unfolding strcmp_ne
strcmp_same a b h = rw h (ap not (bytes_eq_refl (c_str b)))

pub strncmp_same : (a b : Bytes) (n : ℕ) → c_str a ≡ c_str b → strncmp_ne a b n ≡ false
unfolding strncmp_ne
strncmp_same a b n h = rw h (ap not (bytes_eq_refl (take n (c_str b))))
