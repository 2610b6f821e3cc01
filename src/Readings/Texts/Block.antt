-- ===== src/Readings/Texts/Block.antt =====
-- getMachineBlock: the first line of the text that the control executes.
use fanuc_driver.CString.{Bytes, c_str, snprintf, zeroed, c_string}
use fanuc_driver.CString.Laws.{IsText, c_str_text, take-IsText, sprintf_fits}
use fanuc_driver.Env.{Env}
use fanuc_driver.Env.Reader.{Reader, call}
use fanuc_driver.Env.Reader.Laws.{Any, read-then-Ends}
use fanuc_driver.Focas.{EwCode, ew_ok, ew_busy, ew_data, ew_buffer, ew_mode, ew_other}
use fanuc_driver.Prelude.{
  ℕ, suc, ◌-◌, ◌≤◌, ◌≡◌, refl, ap, ◌∙◌, inl, inr, some, [], ◌∷◌, ◌++◌, arith, ◌==◌, if◌then◌else◌,
  Bool-cases, length, take, drop, length-take, length-replicate, ℤ, ◌>>=◌, Ends, Ends-bind, zero,
  ◌<◌, ◌⊎◌, false, ◌≢◌, All,
}
use fanuc_driver.Readings.Texts.{cut_line, block_numbers, get_machine_block}
use fanuc_driver.Readings.Texts.Laws.{overlay_fits, drop-replicate}
use fanuc_driver.Types.{MachineBlock}

-- The characters before the first line break.
unfoldable pub first_line : Bytes → Bytes
first_line [] = []
first_line (c ∷ w) = if c == 10 then [] else c ∷ first_line w

-- A text with a line break.
abbrev pub HasBreak : Bytes → Type 0
HasBreak [] = ⊥
HasBreak (c ∷ w) = (c ≡ 10) ⊎ HasBreak w

-- A break behind the first character that is none.
later_break : (c : ℕ) (w : Bytes) → (c == 10) ≡ false → HasBreak (c ∷ w) → HasBreak w
later_break c w e (inl h) = absurd (ground arith)
later_break c w e (inr h) = h

-- The loop cuts a text that stands before a NUL, or that has a line break, at the first one.
cut_line_lem :
    (w rest : Bytes)
    → IsText w
    → (c_string rest ≡ some []) ⊎ HasBreak w
    → (b : Bytes) × (cut_line (length w) (w ++ rest) ≡ some b) × (c_string b ≡ some (first_line w))
unfolding cut_line first_line c_string
cut_line_lem [] rest t (inl e) = (rest, refl, e)
cut_line_lem [] rest t (inr h) = absurd h
cut_line_lem (c ∷ w) rest t e = elim (Bool-cases (c == 10)) [
  | inl at_break ↦ (0 ∷ (w ++ rest), ground arith, ground arith)
  | inr within ↦
      let later : (c_string rest ≡ some []) ⊎ HasBreak w = elim e [
        | inl n ↦ inl n
        | inr h ↦ inr (later_break c w within h)
      ] in
      let (b, p, q) = cut_line_lem w rest t.1 later in
      (c ∷ b, ground (arith, p), ground (arith, t.0, q))
]

first_line-IsText : (w : Bytes) → IsText w → IsText (first_line w)
unfolding first_line
first_line-IsText [] t = tt
first_line-IsText (c ∷ w) t = ground (arith, first_line-IsText w t.1)

-- What FOCAS documents of the block that it reads: the length reported is that of the text. The text
-- leaves room for a NUL, or has a line break.
abbrev pub IsBlockReply : ℕ × Bytes → Type 0
IsBlockReply (len, w) =
    (len ≡ length w) × (length w ≤ 2048) × IsText w × ((length w < 2048) ⊎ HasBreak w)

-- What the array of the struct `r` holds after the text `w` was read into the struct `v`.
abbrev pub BlockOf : MachineBlock → Bytes → MachineBlock → Type 0
BlockOf v [] r = r.block ≡ v.block
BlockOf v (c ∷ w) r = c_str r.block ≡ take (length w) (first_line (c ∷ w))

some_nul : (n : ℕ) → 0 < n → c_string (zeroed n) ≡ some []
unfolding c_string
some_nul zero h = absurd (omega arith)
some_nul (suc n) h = refl

-- From the text `w` that was read into the zeroed buffer to the array of the struct.
block_text :
    (v : MachineBlock) (w : Bytes)
    → length w ≤ 2048
    → IsText w
    → (length w < 2048) ⊎ HasBreak w
    → length v.block ≡ 2048
    → (buf : Bytes) × (cut_line (length w) (w ++ drop (length w) (zeroed 2048)) ≡ some buf)
      × (x : Bytes) × (c_string buf ≡ some x)
      × (b : Bytes) × (snprintf v.block (length w) x ≡ some b)
      × ((n : ℕ) (p q : ℤ)
          → BlockOf v w (record { execution_duration = n; block = b; prg_num = p; blk_num = q }))
unfolding snprintf
block_text v w l t ends h =
    let (buf, e, x) = cut_line_lem w (drop (length w) (zeroed 2048)) t (elim ends [
      | inl room ↦
          inl (rw (drop-replicate (length w) 2048) (some_nul (2048 - length w) (omega arith)))
      | inr h ↦ inr h
    ]) in
    let (b, q, y) = go w {x = first_line w} refl l t in (buf, e, first_line w, x, b, q, y)
  where
    go :
        (w : Bytes) {x : Bytes}
        → x ≡ first_line w
        → length w ≤ 2048
        → IsText w
        → (b : Bytes) × (snprintf v.block (length w) x ≡ some b)
          × ((n : ℕ) (p q : ℤ)
              → BlockOf v w
                  (record { execution_duration = n; block = b; prg_num = p; blk_num = q }))
    go [] e l t = (v.block, refl, λ _ _ _. refl)
    go (c ∷ w) {x} e l t =
        let s = take (length w) x in
        let text : IsText s = take-IsText (length w) x (rw e (first_line-IsText (c ∷ w) t)) in
        (
          s ++ 0 ∷ drop (suc (length s)) v.block,
          sprintf_fits v.block s (omega (arith, length-take (length w) x)),
          λ _ _ _. c_str_text s _ text ∙ ap (take (length w)) e,
        )

abbrev pub HasNoBreak : Bytes → Type 0
HasNoBreak = All (λ c. c ≢ 10)

module _ {W D : Type 0} (env : Env W D) where
  block_numbers-Ends :
      (ret : EwCode) (p : ℤ × ℤ) (s : Reader W D) → Ends Any (block_numbers (ret, p) s)
  unfolding block_numbers
  block_numbers-Ends ew_ok p s = tt
  block_numbers-Ends ew_mode p s = tt
  block_numbers-Ends ew_busy p s = tt
  block_numbers-Ends ew_data p s = tt
  block_numbers-Ends ew_buffer p s = tt
  block_numbers-Ends (ew_other z) p s = tt

  -- The text that the control answers to the reading of getMachineBlock.
  abbrev pub block_read : Reader W D → Bytes
  block_read s = (env.focas.cnc_rdexecprog s.libh 2048 (env.clock_gettime s.world).1).1.1

  -- Where the control reports the length of the text that it reads, as FOCAS documents, and the text has
  -- fewer than 2048 characters or a line break, the reading fails or returns. Its array then holds the
  -- first line of the text, without the line's last character where the text ends with that line; of
  -- an empty text it holds what it held before.
  pub block_first_line :
      (v : MachineBlock) (s : Reader W D)
      → length v.block ≡ 2048
      → ((w : W) → IsBlockReply (env.focas.cnc_rdexecprog s.libh 2048 w).1)
      → Ends (λ r _. BlockOf v (block_read s) r) (get_machine_block env v s)
  unfolding get_machine_block
  block_first_line v s b d =
      let (t0, w) = env.clock_gettime s.world in
      let Q = λ (r : MachineBlock) (_ : Reader W D). BlockOf v (block_read s) r in
      read-then-Ends Q (λ h. env.focas.cnc_rdexecprog h 2048) _ (record s { world = w })
        λ _.
          let (_, (len, text), w1) = env.focas.cnc_rdexecprog s.libh 2048 w in
          let (el, fits, plain, ends) = d w in
          let (buf, eb, x, ex, c, ec, out) = block_text v text fits plain ends b in
          rw
            (
              overlay_fits (zeroed 2048) text
                  (omega (arith, fits, length-replicate {A = ℕ} 2048 0)),
              el,
            )
            (Ends-bind Any Q (call env.focas.cnc_rdactpt >>= block_numbers) _
              (record s { world = w1 }) (block_numbers-Ends _ _ _)
              (λ p s2 _. rw (eb, ex, ec) (out _ _ _)))
