-- ===== src/Readings/Header/Scan.antt =====
-- The loop of getMachineProgramHeader over the characters, against what it keeps of the text's lines.
use mathlib.Core.Path.{subst}
use fanuc_driver.Readings.Header.{scan, starts_header_line, scan_char}
use fanuc_driver.CString.{Bytes, c_str}
use fanuc_driver.Prelude.{
  ℕ, suc, ◌≡◌, refl, ◌≢◌, Bool, true, false, ◌||◌, some, List, [], ◌∷◌, ◌++◌, arith, ◌==◌,
  if◌then◌else◌, ◌+◌, not, ◌&&◌, ltb, sym, ◌∙◌, inl, inr, lt→ltb, Bool-cases, ap, ==_iff, ◌≤◌,
  length,
}
use fanuc_driver.CString.Laws.{IsText}
use fanuc_driver.Report.Latest.{kept}

-- The first line of a text, and the others.
unfoldable pub split_lines : Bytes → Bytes × List Bytes
split_lines [] = ([], [])
split_lines (c ∷ t) = let (l, ls) = split_lines t in if c == 10 then ([], l ∷ ls) else (c ∷ l, ls)

-- The header goes on with a comment, a macro, an indented line, or an empty line that is not the last.
abbrev pub is_header_line : Bytes → List Bytes → Bool
is_header_line [] [] = false
is_header_line [] (_ ∷ _) = true
is_header_line (f ∷ _) ls = f == b'(' || f == b' ' || f == b'#'

abbrev pub header_lines : List Bytes → List Bytes
header_lines [] = []
header_lines (l ∷ ls) = let rest = header_lines ls in if is_header_line l ls then l ∷ rest else []

-- Lines with blanks between them.
abbrev pub join_lines : Bytes → List Bytes → Bytes
join_lines l [] = l
join_lines l (m ∷ ls) = l ++ (32 ∷ join_lines m ls)

-- After the second line, which always belongs to the header, the header's lines.
abbrev pub after_first : List Bytes → List Bytes
after_first [] = []
after_first (l ∷ ls) = l ∷ header_lines ls

-- The header of a program: its first two lines, and those of the lines behind them up to the first that
-- is not a header line, with blanks between them.
abbrev pub header_of : Bytes → Bytes
header_of t = let (l, ls) = split_lines t in join_lines l (after_first ls)

-- The same from within a line that is not the first.
abbrev rest_of : Bytes → Bytes
rest_of t = let (l, ls) = split_lines t in join_lines l (header_lines ls)

join_lines-cons :
    (c : ℕ) (l : Bytes) (ls : List Bytes) → join_lines (c ∷ l) ls ≡ c ∷ join_lines l ls
join_lines-cons c l [] = refl
join_lines-cons c l (m ∷ ls) = refl

-- The steps of the loop.
scan_step :
    (n c : ℕ) (u : Bytes) → scan n (c ∷ u) ≡ scan_char n c u (scan (if c == 10 then n + 1 else n) u)
unfolding scan
scan_step n c u = refl

scan_within :
    (n c f : ℕ) (u b : Bytes)
    → c ≢ 0
    → c ≢ 10
    → scan n (f ∷ u) ≡ some b
    → scan n (c ∷ f ∷ u) ≡ some (c ∷ b)
scan_within n c f u b h0 h10 e =
    let a : (c == 0) ≡ false = ground arith in
    let d : (c == 10) ≡ false = ground arith in scan_step n c (f ∷ u) ∙ rw (a, d, e, d) refl

scan_go :
    (n f : ℕ) (u b : Bytes)
    → (ltb 0 n && not (starts_header_line f)) ≡ false
    → scan (suc n) (f ∷ u) ≡ some b
    → scan n (10 ∷ f ∷ u) ≡ some (32 ∷ b)
scan_go n f u b h e =
    let one : n + 1 ≡ suc n = omega arith in scan_step n 10 (f ∷ u) ∙ rw (h, one, e) refl

scan_stop :
    (n f : ℕ) (u : Bytes)
    → starts_header_line f ≡ false
    → scan (suc n) (10 ∷ f ∷ u) ≡ some (0 ∷ f ∷ u)
scan_stop n f u h =
    let d : ltb 0 (suc n) ≡ true = lt→ltb 0 (suc n) (omega arith) in
    scan_step (suc n) 10 (f ∷ u) ∙ rw (d, h) refl

-- The text has a character or the NUL behind it.
uncons : (t rest : Bytes) → (f : ℕ) × (u : Bytes) × (t ++ 0 ∷ rest ≡ f ∷ u)
uncons [] rest = (0, rest, refl)
uncons (f ∷ t) rest = (f, t ++ 0 ∷ rest, refl)

-- The loop sees from the next character whether the next line is a header line.
next_line :
    (t rest u : Bytes) (f : ℕ)
    → IsText t
    → t ++ 0 ∷ rest ≡ f ∷ u
    → starts_header_line f ≡ is_header_line (split_lines t).0 (split_lines t).1
unfolding split_lines
next_line [] rest u f h e = let e0 : 0 ≡ f = ground arith in rw (sym e0) refl
next_line (c ∷ t) rest u f h e = let e0 : c ≡ f = ground arith in rw (sym e0) (ground (arith, h.0))

c_str-cons : (c : ℕ) (b : Bytes) → c ≢ 0 → c_str (c ∷ b) ≡ c ∷ c_str b
unfolding c_str
c_str-cons c b h = ground arith

c_str-nul : (b : Bytes) → c_str (0 ∷ b) ≡ []
unfolding c_str
c_str-nul b = refl

rest_of-within : (c : ℕ) (t : Bytes) → c ≢ 10 → rest_of (c ∷ t) ≡ c ∷ rest_of t
unfolding split_lines
rest_of-within c t h =
    let d : (c == 10) ≡ false = ground arith in
    rw d (join_lines-cons c (split_lines t).0 (header_lines (split_lines t).1))

header_of-within : (c : ℕ) (t : Bytes) → c ≢ 10 → header_of (c ∷ t) ≡ c ∷ header_of t
unfolding split_lines
header_of-within c t h =
    let d : (c == 10) ≡ false = ground arith in
    rw d (join_lines-cons c (split_lines t).0 (after_first (split_lines t).1))

rest_of-break :
    (t : Bytes)
    → rest_of (10 ∷ t)
      ≡ (if is_header_line (split_lines t).0 (split_lines t).1 then 32 ∷ rest_of t else [])
unfolding split_lines
rest_of-break t = elim (Bool-cases (is_header_line (split_lines t).0 (split_lines t).1)) [
  | inl e ↦ rw e refl
  | inr e ↦ rw e refl
]

header_of-break : (t : Bytes) → header_of (10 ∷ t) ≡ 32 ∷ rest_of t
unfolding split_lines
header_of-break t = refl

-- The array `b` that the loop leaves of the text `t` holds the text `kept`.
abbrev Leaves : ℕ → Bytes → Bytes → Bytes → Type 0
Leaves n t rest kept = (b : Bytes) × (scan n (t ++ 0 ∷ rest) ≡ some b) × (c_str b ≡ kept)

within :
    (n c : ℕ) (t rest kept : Bytes)
    → c ≢ 0
    → c ≢ 10
    → Leaves n t rest kept
    → Leaves n (c ∷ t) rest (c ∷ kept)
within n c t rest kept h0 h10 (b, p, q) =
    let (f, u, e) = uncons t rest in
    (
      c ∷ b,
      ap (λ l. scan n (c ∷ l)) e ∙ scan_within n c f u b h0 h10 (ap (scan n) (sym e) ∙ p),
      c_str-cons c b h0 ∙ ap (λ l. c ∷ l) q,
    )

after_break :
    (n : ℕ) (t rest : Bytes)
    → IsText t
    → Leaves (suc (suc n)) t rest (rest_of t)
    → Leaves (suc n) (10 ∷ t) rest (rest_of (10 ∷ t))
after_break n t rest h (b, p, q) =
    let (f, u, e) = uncons t rest in
    let line = next_line t rest u f h e in
    elim (Bool-cases (starts_header_line f)) [
      | inl goes ↦ (
        32 ∷ b,
        ap (λ l. scan (suc n) (10 ∷ l)) e
            ∙ scan_go (suc n) f u b (ground arith) (ap (scan (suc (suc n))) (sym e) ∙ p),
        c_str-cons 32 b (λ z. ground arith)
            ∙ ap (λ l. 32 ∷ l) q
            ∙ sym (rest_of-break t ∙ rw (sym line, goes) refl),
      )
      | inr stops ↦ (
        0 ∷ f ∷ u,
        ap (λ l. scan (suc n) (10 ∷ l)) e ∙ scan_stop n f u stops,
        sym (rest_of-break t ∙ rw (sym line, stops) (sym (c_str-nul (f ∷ u)))),
      )
    ]

first_break :
    (t rest : Bytes) → Leaves 1 t rest (rest_of t) → Leaves 0 (10 ∷ t) rest (header_of (10 ∷ t))
first_break t rest (b, p, q) =
    let (f, u, e) = uncons t rest in
    (
      32 ∷ b,
      ap (λ l. scan 0 (10 ∷ l)) e ∙ scan_go 0 f u b refl (ap (scan 1) (sym e) ∙ p),
      c_str-cons 32 b (λ z. ground arith) ∙ ap (λ l. 32 ∷ l) q ∙ sym (header_of-break t),
    )

scan_nul : (n : ℕ) (rest : Bytes) → Leaves n [] rest []
unfolding scan c_str
scan_nul n [] = (0 ∷ [], refl, refl)
scan_nul n (f ∷ rest) = (0 ∷ f ∷ rest, refl, refl)

scan_rest : (n : ℕ) (t rest : Bytes) → IsText t → Leaves (suc n) t rest (rest_of t)
unfolding split_lines
scan_rest n [] rest h = scan_nul (suc n) rest
scan_rest n (c ∷ t) rest h = elim (Bool-cases (c == 10)) [
  | inl at_break ↦
      let e : 10 ≡ c = ground (arith, ==_iff c 10) in
      subst (λ d. Leaves (suc n) (d ∷ t) rest (rest_of (d ∷ t))) e
        (after_break n t rest h.1 (scan_rest (suc n) t rest h.1))
  | inr in_line ↦
      let ne : c ≢ 10 = λ z. ground (arith, ==_iff c 10) in
      subst (Leaves (suc n) (c ∷ t) rest) (sym (rest_of-within c t ne))
        (within (suc n) c t rest (rest_of t) h.0 ne (scan_rest n t rest h.1))
]

-- From a text that a NUL ends, the loop, which never leaves the array, makes the header.
pub scan_lem : (t rest : Bytes) → IsText t → Leaves 0 t rest (header_of t)
unfolding split_lines
scan_lem [] rest h = scan_nul 0 rest
scan_lem (c ∷ t) rest h = elim (Bool-cases (c == 10)) [
  | inl at_break ↦
      let e : 10 ≡ c = ground (arith, ==_iff c 10) in
      subst (λ d. Leaves 0 (d ∷ t) rest (header_of (d ∷ t))) e
        (first_break t rest (scan_rest 0 t rest h.1))
  | inr in_line ↦
      let ne : c ≢ 10 = λ z. ground (arith, ==_iff c 10) in
      subst (Leaves 0 (c ∷ t) rest) (sym (header_of-within c t ne))
        (within 0 c t rest (header_of t) h.0 ne (scan_lem t rest h.1))
]

cut_lem : (b : Bool) (r : Bytes) (n : ℕ) → length r ≤ n → length (if b then 32 ∷ r else []) ≤ suc n
cut_lem true r n h = omega arith
cut_lem false r n h = omega arith

length-rest_of : (t : Bytes) → length (rest_of t) ≤ length t
unfolding split_lines
length-rest_of [] = omega arith
length-rest_of (c ∷ t) = elim (Bool-cases (c == 10)) [
  | inl at_break ↦
      let e : 10 ≡ c = ground (arith, ==_iff c 10) in
      subst (λ d. length (rest_of (d ∷ t)) ≤ length (d ∷ t)) e
        (rw (rest_of-break t) (
          cut_lem (is_header_line (split_lines t).0 (split_lines t).1) (rest_of t) (length t)
            (length-rest_of t)))
  | inr in_line ↦
      let ne : c ≢ 10 = λ z. ground (arith, ==_iff c 10) in
      rw (rest_of-within c t ne) (omega (arith, length-rest_of t))
]

pub length-header_of : (t : Bytes) → length (header_of t) ≤ length t
unfolding split_lines
length-header_of [] = omega arith
length-header_of (c ∷ t) = elim (Bool-cases (c == 10)) [
  | inl at_break ↦
      let e : 10 ≡ c = ground (arith, ==_iff c 10) in
      subst (λ d. length (header_of (d ∷ t)) ≤ length (d ∷ t)) e (omega (arith, length-rest_of t))
  | inr in_line ↦
      let ne : c ≢ 10 = λ z. ground (arith, ==_iff c 10) in
      rw (header_of-within c t ne) (omega (arith, length-header_of t))
]
