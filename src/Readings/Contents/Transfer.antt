-- ===== src/Readings/Contents/Transfer.antt =====
-- getMachineProgramContents: what a whole upload leaves, against the chunks that the control delivers.
use mathlib.Core.List.{append-nil, append_assoc}
use fanuc_driver.CString.{Bytes, zeroed}
use fanuc_driver.Env.Reader.{Reader, is_ok}
use fanuc_driver.Focas.{EwCode, ew_ok, ew_buffer, Call, Upload, ew_busy, ew_data, ew_mode, ew_other}
use fanuc_driver.Prelude.{
  ℕ, suc, ◌≤◌, ◌≡◌, refl, [], ◌∷◌, ◌++◌, arith, length, drop, length-append, length-drop, pos,
  returns, zero, ◌∙◌, some, ap, true, leb, le→leb, ◌+◌, length-replicate, Ends,
}
use fanuc_driver.Readings.Contents.{
  add_chunk, append_chunk, upload_contents, get_machine_program_contents,
}
use fanuc_driver.Readings.Contents.Laws.{program, take-length, append_chunk_lem, program_some}
use fanuc_driver.Env.{Env}
use fanuc_driver.Types.{MachineProgramContents}
use fanuc_driver.Env.Reader.Laws.{or_fail-Ends}

-- The loop goes on after EW_OK and EW_BUFFER.
abbrev pub IsEnd : EwCode → Type 0
IsEnd ew_ok = ⊥
IsEnd ew_buffer = ⊥
IsEnd ew_busy = Unit
IsEnd ew_data = Unit
IsEnd ew_mode = Unit
IsEnd (ew_other z) = Unit

-- From the world `w`, the control delivers the text `t` in `n` calls of the upload function, the last
-- of which neither succeeds nor asks to wait.
pub data Delivers {W : Type 0} (upload : Call W Upload) : ℕ → W → Bytes → W → Type 0 where
  ended :
      {w w' : W} (ret : EwCode) (up : Upload)
      → IsEnd ret
      → upload w ≡ (ret, up, w')
      → Delivers upload 1 w [] w'
  pending :
      {n : ℕ} {w w' w'' : W} {t : Bytes} (up : Upload)
      → upload w ≡ (ew_buffer, up, w')
      → Delivers upload n w' t w''
      → Delivers upload (suc n) w t w''
  chunk :
      {n : ℕ} {w w' w'' : W} {t : Bytes} (up : Upload)
      → upload w ≡ (ew_ok, up, w')
      → Delivers upload n w' t w''
      → Delivers upload (suc n) w (up.written ++ t) w''

-- What FOCAS documents of the upload function: it writes no more than it was asked for, and reports
-- the number of characters that it wrote.
abbrev pub IsUpload : {W : Type 0} → Call W Upload → Type 0
IsUpload {W} upload =
    (w w' : W) (ret : EwCode) (up : Upload)
    → upload w ≡ (ret, up, w')
    → (length up.written ≤ 1280) × (ret ≡ ew_ok → up.len ≡ pos (length up.written))

fits :
    (buf : Bytes) (up : Upload)
    → length buf ≡ 2048
    → length up.written ≤ 1280
    → leb (length up.written) (length buf) ≡ true
fits buf up b h = le→leb _ _ (omega arith)

length-overlay :
    (buf w : Bytes) → length w ≤ length buf → length (w ++ drop (length w) buf) ≡ length buf
length-overlay buf w h =
    omega (arith, length-append w (drop (length w) buf), length-drop (length w) buf)

sized :
    (buf : Bytes) (up : Upload)
    → length buf ≡ 2048
    → length up.written ≤ 1280
    → length (up.written ++ drop (length up.written) buf) ≡ 2048
sized buf up b h = length-overlay buf up.written (omega arith) ∙ b

module _ {W D : Type 0} where
  -- A chunk of the documented form goes behind the text.
  add_chunk_lem :
      (junk : ℕ) (t c rest : Bytes) (s : Reader W D)
      → add_chunk junk (program t) (length t) (c ++ rest) (pos (length c)) s
        ≡ (returns (program (t ++ c), length (t ++ c)), s)
  unfolding add_chunk
  add_chunk_lem junk t [] rest s = rw (append-nil t) refl
  add_chunk_lem junk t (x ∷ c) rest s =
      let w = x ∷ c in
      let grown : append_chunk junk (program t) (length t) (w ++ rest) (length w)
          ≡ some ((t ++ w) ++ (0 ∷ [])) =
        append_chunk_lem junk (length w) t (w ++ rest) (omega arith)
          (omega (arith, length-append w rest))
        ∙ (rw (take-length w rest) (program_some t w (omega arith))) in
      rw (grown, program_some t w (omega arith), length-append t w) refl

  module _ (env : Env W D) (junk : ℕ) where
    -- With fuel for the calls of a delivery, the loop ends, and it leaves the text that was there,
    -- the text that was delivered, and a NUL.
    pub upload_contents_lem :
        (s : Reader W D)
        → IsUpload (env.focas.cnc_upload4 s.libh (pos 1280))
        → {n : ℕ} {w w' : W} {t : Bytes}
        → Delivers (env.focas.cnc_upload4 s.libh (pos 1280)) n w t w'
        → (fuel : ℕ) → n ≤ fuel
        → (t0 buf : Bytes) → length buf ≡ 2048
        → upload_contents env junk fuel buf (program t0) (length t0) (record s { world = w })
          ≡ (returns (program (t0 ++ t), length (t0 ++ t)), record s { world = w' })
    unfolding upload_contents
    upload_contents_lem s u (ended ret up end e) zero h t0 buf b = absurd (omega arith)
    upload_contents_lem s u (pending up e d) zero h t0 buf b = absurd (omega arith)
    upload_contents_lem s u (chunk up e d) zero h t0 buf b = absurd (omega arith)
    upload_contents_lem s u (ended ew_ok up end e) (suc fuel) h t0 buf b = absurd end
    upload_contents_lem s u (ended ew_buffer up end e) (suc fuel) h t0 buf b = absurd end
    upload_contents_lem s u (ended ew_busy up end e) (suc fuel) h t0 buf b =
        rw (e, fits buf up b (u _ _ _ _ e).0, append-nil t0) refl
    upload_contents_lem s u (ended ew_data up end e) (suc fuel) h t0 buf b =
        rw (e, fits buf up b (u _ _ _ _ e).0, append-nil t0) refl
    upload_contents_lem s u (ended ew_mode up end e) (suc fuel) h t0 buf b =
        rw (e, fits buf up b (u _ _ _ _ e).0, append-nil t0) refl
    upload_contents_lem s u (ended (ew_other z) up end e) (suc fuel) h t0 buf b =
        rw (e, fits buf up b (u _ _ _ _ e).0, append-nil t0) refl
    upload_contents_lem s u (pending up e d) (suc fuel) h t0 buf b =
        rw (e, fits buf up b (u _ _ _ _ e).0)
          (upload_contents_lem s u d fuel (omega arith) t0
            (up.written ++ drop (length up.written) buf) (sized buf up b (u _ _ _ _ e).0))
    upload_contents_lem s u (chunk {w'' = z} {t} up e d) (suc fuel) h t0 buf b =
        rw
          (
            e,
            fits buf up b (u _ _ _ _ e).0,
            e,
            (u _ _ _ _ e).1 refl,
            add_chunk_lem junk t0 up.written (drop (length up.written) buf)
                (record s { world = _ }),
          )
          (upload_contents_lem s u d fuel (omega arith) (t0 ++ up.written)
              (up.written ++ drop (length up.written) buf) (sized buf up b (u _ _ _ _ e).0)
            ∙ ap (λ l. (returns (program l, length l), record s { world = z }))
                (append_assoc t0 up.written t))

module _ {W D : Type 0} (env : Env W D) where
  -- The world in which the upload of the program at `path` begins.
  abbrev pub upload_world : Bytes → Reader W D → W
  upload_world path s =
      let (t0, w) = env.clock_gettime s.world in
      let (ret, out, w') = env.focas.cnc_upstart4 s.libh 0 path w in w'

  -- Where the upload function does what FOCAS documents and delivers the text `t` in no more calls than
  -- there is fuel for, the reading fails or returns: it never hangs or leaves its arrays. What it
  -- returns are the characters of `t` in order with a NUL behind them, or no array where `t` is
  -- empty, and a size of one more than their number, whatever the struct held before.
  pub contents_delivered :
      (v : MachineProgramContents) (path : Bytes) (s : Reader W D)
      → IsUpload (env.focas.cnc_upload4 s.libh (pos 1280))
      → {n : ℕ} {w' : W} {t : Bytes}
      → Delivers (env.focas.cnc_upload4 s.libh (pos 1280)) n (upload_world path s) t w'
      → (fuel : ℕ) → n ≤ fuel
      → Ends
          (λ r _. (r.contents ≡ program t) × (r.size ≡ pos (length t + 1)))
          (get_machine_program_contents env fuel v path s)
  unfolding get_machine_program_contents
  contents_delivered v path s u {w'} {t} d fuel h =
      rw
        (upload_contents_lem env (env.uninit s.world).heap_byte s u d fuel h [] (zeroed 2048)
          (length-replicate {A = ℕ} 2048 0))
        (or_fail-Ends _ (is_ok (env.focas.cnc_upend4 s.libh w').0) _ _ (refl, refl))
