-- ===== src/Readings/Texts/Laws.antt =====
-- Texts in buffers: what a library call wrote over zeros, and a copy into a cleared array.
use mathlib.Core.List.{append-nil}
use fanuc_driver.CString.{Bytes, c_str, pad, strncpy, memset_zero, zeroed}
use fanuc_driver.CString.Laws.{IsText, c_str-IsText, strncpy_fits, drop_all}
use fanuc_driver.Prelude.{
  ℕ, zero, suc, ◌-◌, ◌≤◌, ◌≡◌, refl, ap, ◌∙◌, some, [], ◌∷◌, ◌++◌, arith, le→leb, length, take,
  drop, replicate, length-replicate, ◌>>?◌,
}
use fanuc_driver.Readings.Texts.{overlay, clear_and_copy}

pub overlay_fits :
    (buf w : Bytes) → length w ≤ length buf → overlay buf w ≡ some (w ++ drop (length w) buf)
unfolding overlay
overlay_fits buf w h = ground (arith, le→leb (length w) (length buf) h)

pub c_str-replicate : (n : ℕ) → c_str (replicate n 0) ≡ []
unfolding c_str
c_str-replicate zero = refl
c_str-replicate (suc n) = refl

pub drop-replicate : (k n : ℕ) → drop k (zeroed n) ≡ zeroed (n - k)
drop-replicate zero n = ap (λ m. replicate m 0) (omega arith)
drop-replicate (suc k) zero =
    ap (λ (m : ℕ). zeroed m) (let e : ◌≡◌ {A = ℕ} 0 (0 - suc k) = omega arith in e)
drop-replicate (suc k) (suc n) = drop-replicate k n ∙ ap (λ m. replicate m 0) (omega arith)

-- NULs behind a string change nothing.
pub c_str-append : (w rest : Bytes) → c_str rest ≡ [] → c_str (w ++ rest) ≡ c_str w
unfolding c_str
c_str-append [] rest e = e
c_str-append (c ∷ w) rest e = ground (arith, c_str-append w rest e)

-- A string in an array of `n + 1` characters that were zeroed before is cut after `n`.
pub c_str-pad-take :
    (n : ℕ) (s rest : Bytes) → IsText s → c_str rest ≡ [] → c_str (pad n s ++ rest) ≡ take n s
unfolding pad c_str
c_str-pad-take zero s rest t e = e
c_str-pad-take (suc n) [] rest t e = refl
c_str-pad-take (suc n) (c ∷ s) rest t e = ground (arith, c_str-pad-take n s rest t.1 e, t.0)

pub memset_whole : (n : ℕ) (buf : Bytes) → length buf ≡ n → memset_zero buf n ≡ some (zeroed n)
unfolding memset_zero
memset_whole n buf h =
    rw (le→leb n (length buf) (omega arith), drop_all buf n (omega arith))
      (ap some (append-nil (zeroed n)))

-- memset over the whole array and strncpy of all but the last character.
pub clear_and_copy_lem :
    (n : ℕ) (buf src : Bytes)
    → length buf ≡ suc n
    → (b : Bytes) × (clear_and_copy n buf src ≡ some b) × (c_str b ≡ take n (c_str src))
unfolding clear_and_copy
clear_and_copy_lem n buf src h =
    let end : drop n (zeroed (suc n)) ≡ zeroed 1 =
      drop-replicate n (suc n) ∙ ap (λ (m : ℕ). zeroed m) {y = 1} (omega arith) in
    (
      pad n (c_str src) ++ drop n (zeroed (suc n)),
      ap (λ o. o >>? λ z. strncpy z src n) (memset_whole (suc n) buf h)
          ∙ strncpy_fits (zeroed (suc n)) src n (omega (arith, length-replicate {A = ℕ} n 0)),
      c_str-pad-take n (c_str src) _ (c_str-IsText src) (ap c_str end ∙ c_str-replicate 1),
    )
