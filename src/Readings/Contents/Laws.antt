-- ===== src/Readings/Contents/Laws.antt =====
-- getMachineProgramContents: one chunk is appended to the program, and what the array then holds.
use mathlib.Core.List.{append_assoc}
use fanuc_driver.CString.{Bytes}
use fanuc_driver.Prelude.{
  ℕ, zero, suc, ◌+◌, ◌-◌, ◌≤◌, ◌<◌, ◌≡◌, refl, ap, sym, ◌∙◌, true, Option, none, some, [], ◌∷◌,
  ◌++◌, ltb, set, take, drop, replicate, length, length-replicate, length-append, length-take,
  length-set, arith,
}
use fanuc_driver.Readings.Contents.{resize, memcpy, append_chunk}

-- What `prog` holds after the text `t` was uploaded: nothing yet, or the text and its NUL.
abbrev pub program : Bytes → Option Bytes
program [] = none
program (c ∷ t) = some ((c ∷ t) ++ (0 ∷ []))

take-set_beyond : (xs : Bytes) (k i v : ℕ) → k ≤ i → take k (set xs i v) ≡ take k xs
take-set_beyond xs zero i v h = refl
take-set_beyond [] (suc k) i v h = refl
take-set_beyond (x ∷ xs) (suc k) zero v h = elim h [ ]
take-set_beyond (x ∷ xs) (suc k) (suc i) v h =
    ap (λ l. x ∷ l) (take-set_beyond xs k i v (omega arith))

drop-set_last : (xs : Bytes) (i v : ℕ) → length xs ≡ suc i → drop i (set xs i v) ≡ v ∷ []
drop-set_last [] i v h = absurd (omega arith)
drop-set_last (x ∷ []) zero v h = refl
drop-set_last (x ∷ y ∷ xs) zero v h = absurd (omega arith)
drop-set_last (x ∷ xs) (suc i) v h = drop-set_last xs i v (omega arith)

take-append :
    (xs ys zs : Bytes) (n : ℕ) → length xs ≤ n → take (length xs) (take n (xs ++ ys) ++ zs) ≡ xs
take-append [] ys zs n h = refl
take-append (x ∷ xs) ys zs zero h = elim h [ ]
take-append (x ∷ xs) ys zs (suc n) h = ap (λ l. x ∷ l) (take-append xs ys zs n (omega arith))

pub take-length : (xs ys : Bytes) → take (length xs) (xs ++ ys) ≡ xs
take-length [] ys = refl
take-length (x ∷ xs) ys = ap (λ l. x ∷ l) (take-length xs ys)

take-resize :
    (junk n : ℕ) (t : Bytes) → length t ≤ n → take (length t) (resize junk (program t) n) ≡ t
unfolding resize
take-resize junk n [] h = refl
take-resize junk n (c ∷ t) h = take-append (c ∷ t) (0 ∷ []) _ n h

length-resize : (junk n : ℕ) (t : Bytes) → length (resize junk (program t) n) ≡ n
unfolding resize
length-resize junk n [] = length-replicate n junk
length-resize junk n (c ∷ t) =
    let p : Bytes = (c ∷ t) ++ (0 ∷ []) in
    omega (
      arith,
      length-append (take n p) (replicate (n - length p) junk),
      length-take n p,
      length-replicate (n - length p) junk,
    )

memcpy_at_end :
    (dst t src : Bytes) (n : ℕ)
    → length dst ≡ length t + n + 1
    → n ≤ length src
    → memcpy dst (length t) src n
      ≡ some (take (length t) dst ++ (take n src ++ drop (length t + n) dst))
unfolding memcpy
memcpy_at_end dst t src n h1 h2 = ground arith

program_nonempty : (t w : Bytes) → 0 < length w → some (t ++ (w ++ (0 ∷ []))) ≡ program (t ++ w)
program_nonempty [] [] h = elim h [ ]
program_nonempty [] (c ∷ w) h = refl
program_nonempty (c ∷ t) w h = ap (λ l. some (c ∷ l)) (sym (append_assoc t w (0 ∷ [])))

pub program_some : (t w : Bytes) → 0 < length w → program (t ++ w) ≡ some ((t ++ w) ++ (0 ∷ []))
program_some [] [] h = elim h [ ]
program_some [] (c ∷ w) h = refl
program_some (c ∷ t) w h = refl

-- A chunk goes behind the text that is there.
pub append_chunk_lem :
    (junk n : ℕ) (t buf : Bytes)
    → 0 < n
    → n ≤ length buf
    → append_chunk junk (program t) (length t) buf n ≡ program (t ++ take n buf)
unfolding append_chunk
append_chunk_lem junk n t buf p h =
    let m = length t + n + 1 in
    let l = resize junk (program t) m in
    let sized : length l ≡ m = length-resize junk m t in
    let in_it : ltb (length t + n) (length l) ≡ true = ground arith in
    let l' = set l (length t + n) 0 in
    let sized' : length l' ≡ m = length-set l (length t + n) 0 ∙ sized in
    rw (append_chunk, in_it)
      (memcpy_at_end l' t buf n sized' h
        ∙ (rw
            (
              take-set_beyond l (length t) (length t + n) 0 (omega arith),
              take-resize junk m t (omega arith),
              drop-set_last l (length t + n) 0 (omega arith),
            )
            (program_nonempty t (take n buf) (omega (arith, length-take n buf)))))
