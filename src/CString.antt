-- ===== src/CString.antt =====
-- The C string functions that driver/src uses, over char arrays as lists of bytes. An array keeps
-- its declared size; a write that would leave it is `none`. A string runs up to the first NUL of its
-- array, or to the end of the array where there is none.
pub mod Laws
pub mod Hex
pub mod Number
use Prim.Native.Char.{code}
use fanuc_driver.Prelude.{
  ℕ, zero, suc, ◌+◌, ◌-◌, String, List, [], ◌∷◌, ◌++◌, Bool, not, true, false, ◌&&◌, Option, none,
  some, ltb, leb, ◌==◌, if◌then◌else◌, length, take, drop, replicate,
}

abbrev pub Bytes : Type 0
Bytes = List ℕ

-- The bytes of a string literal.
abbrev pub codes : String → Bytes
codes String.[] = []
codes (String.◌∷◌ c s) = code c ∷ codes s

-- The string that an array holds.
unfoldable pub c_str : Bytes → Bytes
c_str [] = []
c_str (c ∷ cs) = if c == 0 then [] else c ∷ c_str cs

-- The string of an array that is read up to its NUL: `none` where there is none in the array.
unfoldable pub c_string : Bytes → Option Bytes
c_string [] = none
c_string (c ∷ cs) =
    if c == 0 then some [] else elim (c_string cs) [ none ↦ none | some r ↦ some (c ∷ r) ]

-- `sprintf(buf, ...)` of the formatted text `s`: its bytes and a NUL, the rest of `buf` as it was.
unfoldable pub sprintf : Bytes → Bytes → Option Bytes
sprintf buf s =
    if ltb (length s) (length buf) then some (s ++ 0 ∷ drop (suc (length s)) buf) else none

-- `snprintf(buf, n, "%s", s)` writes at most n - 1 bytes and a NUL, and nothing where n is 0.
unfoldable pub snprintf : Bytes → ℕ → Bytes → Option Bytes
unfolding sprintf
snprintf buf zero s = some buf
snprintf buf (suc n) s = sprintf buf (take n s)

-- The first `n` bytes of a string, padded with NULs to `n`.
unfoldable pub pad : ℕ → Bytes → Bytes
pad zero s = []
pad (suc n) [] = 0 ∷ pad n []
pad (suc n) (c ∷ s) = c ∷ pad n s

-- `strncpy(buf, src, n)`
unfoldable pub strncpy : Bytes → Bytes → ℕ → Option Bytes
unfolding pad c_str
strncpy buf src n = if leb n (length buf) then some (pad n (c_str src) ++ drop n buf) else none

-- `memset(buf, 0, n)`
unfoldable pub memset_zero : Bytes → ℕ → Option Bytes
memset_zero buf n = if leb n (length buf) then some (replicate n 0 ++ drop n buf) else none

-- `char buf[n] = ""`
abbrev pub zeroed : ℕ → Bytes
zeroed n = replicate n 0

abbrev pub bytes_eq : Bytes → Bytes → Bool
bytes_eq [] [] = true
bytes_eq [] (_ ∷ _) = false
bytes_eq (_ ∷ _) [] = false
bytes_eq (a ∷ r) (b ∷ s) = a == b && bytes_eq r s

-- `strcmp(a, b) != 0`
unfoldable pub strcmp_ne : Bytes → Bytes → Bool
unfolding c_str
strcmp_ne a b = not (bytes_eq (c_str a) (c_str b))

-- `strncmp(a, b, n) != 0`
unfoldable pub strncmp_ne : Bytes → Bytes → ℕ → Bool
unfolding c_str
strncmp_ne a b n = not (bytes_eq (take n (c_str a)) (take n (c_str b)))
