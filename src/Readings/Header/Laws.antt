-- ===== src/Readings/Header/Laws.antt =====
-- getMachineProgramHeader: what it reads from a control that delivers the program's text.
use fanuc_driver.CString.{Bytes, c_str, codes, sprintf}
use fanuc_driver.CString.Laws.{IsText, c_str_text, c_str-IsText, sprintf_fits, append-IsText}
use fanuc_driver.Env.{Env}
use fanuc_driver.Env.Reader.{Reader, set_at, is_ok}
use fanuc_driver.Focas.{ew_ok, ew_buffer, Call, Upload, EwCode}
use fanuc_driver.Prelude.{
  ℕ, zero, suc, ◌≤◌, ◌<◌, ◌≡◌, refl, ap, true, some, [], ◌∷◌, ◌++◌, arith, ltb, lt→ltb, length, set,
  drop, length-append, length-drop, ℤ, pos, returns, Bool, false, Returns, ◌∙◌, if◌then◌else◌, Exec,
}
use fanuc_driver.Readings.Header.{
  upload_header, cannot_be_read, close_header, get_machine_program_header,
}
use fanuc_driver.Readings.Header.Scan.{header_of, scan_lem, length-header_of}
use fanuc_driver.CString.Hex.{dec_short, length-dec_short, dec_short-IsText}
use fanuc_driver.Types.{MachineProgram}
use fanuc_driver.Readings.Texts.Laws.{overlay_fits}

-- The upload function, asked for `len` characters in the world `w`, answers EW_BUFFER for some calls
-- and then delivers the text `t`, in `n` calls in all.
pub data Ready {W : Type 0} (upload : ℤ → Call W Upload) : ℕ → ℤ → W → Bytes → W → Type 0 where
  at_once :
      {len : ℤ} {w w' : W} (t : Bytes)
      → upload len w ≡ (ew_ok, record { len = pos (length t); written = t }, w')
      → Ready upload 1 len w t w'
  waits :
      {n : ℕ} {len : ℤ} {w w' w'' : W} {t : Bytes} (up : Upload)
      → upload len w ≡ (ew_buffer, up, w')
      → length up.written ≤ 2048
      → Ready upload n up.len w' t w''
      → Ready upload (suc n) len w t w''

set_append : (t : Bytes) (x v : ℕ) (r : Bytes) → set (t ++ x ∷ r) (length t) v ≡ t ++ v ∷ r
set_append [] x v r = refl
set_append (c ∷ t) x v r = ap (λ l. c ∷ l) (set_append t x v r)

-- A text in the array is terminated.
terminate :
    (t d : Bytes)
    → 0 < length d
    → (r : Bytes) × (set_at (t ++ d) (pos (length t)) 0 ≡ some (t ++ 0 ∷ r))
terminate t [] h = elim h [ ]
terminate t (x ∷ r) h =
    let within : ltb (length t) (length (t ++ x ∷ r)) ≡ true =
      lt→ltb _ _ (omega (arith, length-append t (x ∷ r))) in
    (r, rw (within, set_append t x 0 r) refl)

module _ {W D : Type 0} (env : Env W D) where
  -- The loop that waits for the program ends with the header in the array.
  upload_header_lem :
      (s : Reader W D)
      → {n : ℕ} {len : ℤ} {w w' : W} {t : Bytes} → Ready (env.focas.cnc_upload3 s.libh) n len w t w'
      → IsText t
      → length t ≤ 2047
      → (fuel : ℕ) → n ≤ fuel
      → (buf : Bytes) → length buf ≡ 2048
      → (b : Bytes) × (upload_header env fuel len buf (record s { world = w })
          ≡ (returns (ew_ok, b), record s { world = w' }))
        × (c_str b ≡ header_of t)
  unfolding upload_header
  upload_header_lem s (at_once t e) p l zero h buf b = absurd (omega arith)
  upload_header_lem s (waits up e k d) p l zero h buf b = absurd (omega arith)
  upload_header_lem s (at_once t e) p l (suc fuel) h buf b =
      let (r, nul) =
        terminate t (drop (length t) buf) (omega (arith, length-drop (length t) buf)) in
      let (a, scanned, holds) = scan_lem t r p in
      (a, rw (e, overlay_fits buf t (omega arith), nul, scanned) refl, holds)
  upload_header_lem s (waits up e k d) p l (suc fuel) h buf b =
      let (a, q, holds) =
        upload_header_lem s d p l fuel (omega arith) (up.written ++ drop (length up.written) buf) (
          omega (
            arith,
            length-append up.written (drop (length up.written) buf),
            length-drop (length up.written) buf,
          )) in
      (a, rw (e, overlay_fits buf up.written (omega arith), e) q, holds)

-- What the struct `r` holds after the upload was closed (`true`) or could not be closed: the header of `t`
-- and the number, or an error text and the number that `v` held.
abbrev pub IsHeader : ℤ → MachineProgram → Bytes → Bool → MachineProgram → Type 0
IsHeader num v t true r = (c_str r.header ≡ header_of t) × (r.number ≡ num)
IsHeader num v t false r = (c_str r.header ≡ cannot_be_read num) × (r.number ≡ v.number)

branch :
    {S A : Type 0} (P : Bool → A → S → Type 0) (b : Bool) (m k : Exec S A) (s : S)
    → Returns (P true) (m s)
    → Returns (P false) (k s)
    → Returns (P b) ((if b then m else k) s)
branch P true m k s h g = h
branch P false m k s h g = g

-- A text written by `sprintf` into an array that has room for it.
written :
    (buf t : Bytes)
    → IsText t
    → length t < length buf
    → (b : Bytes) × (sprintf buf t ≡ some b) × (c_str b ≡ t)
written buf t h l = (t ++ 0 ∷ drop (suc (length t)) buf, sprintf_fits buf t l, c_str_text t _ h)

length-cannot_be_read : (n : ℤ) → length (cannot_be_read n) < 2048
unfolding cannot_be_read
length-cannot_be_read n =
    omega
      (arith, length-append (dec_short n) (codes " cannot be read from cnc)"), length-dec_short n)

cannot_be_read-IsText : (n : ℤ) → IsText (cannot_be_read n)
unfolding cannot_be_read
cannot_be_read-IsText n = append-IsText (codes "(ERR: program ") _ (ground arith) (
    append-IsText (dec_short n) (codes " cannot be read from cnc)") (dec_short-IsText n)
      (ground arith))

module _ {W D : Type 0} (env : Env W D) where
  close_header_lem :
      (num : ℤ) (tt_us : ℕ) (v : MachineProgram) (t buf : Bytes) (ret : EwCode) (s : Reader W D)
      → length v.header ≡ 2048
      → length t ≤ 2047
      → c_str buf ≡ header_of t
      → Returns (λ r _. IsHeader num v t (is_ok ret) r) (close_header env num tt_us v buf ret s)
  unfolding close_header
  close_header_lem num tt_us v t buf ret s b l e =
      let (g, eg, hg) =
        written v.header (c_str buf) (c_str-IsText buf)
          (rw e (omega (arith, length-header_of t))) in
      let (x, ex, hx) =
        written v.header (cannot_be_read num) (cannot_be_read-IsText num)
          (omega (arith, length-cannot_be_read num)) in
      branch (λ b r _. IsHeader num v t b r) (is_ok ret) _ _ s (rw eg (hg ∙ e, refl))
        (rw ex (hx, refl))

  -- The control's state when the upload of the program `num` begins.
  abbrev pub header_start : ℤ → Reader W D → EwCode × W
  header_start num s =
      let (t0, w) = env.clock_gettime s.world in
      let (ret, out, w') = env.focas.cnc_upstart s.libh num w in (ret, w')

  -- Where the upload starts and the control delivers the program's text `t`, of at most 2047
  -- characters, in no more calls than there is fuel for, the reading returns. Where the upload is then
  -- closed with EW_OK, the array holds the header of `t` and the number is that of the program;
  -- where it is closed with another code, they are an error text and the number that the struct
  -- held before.
  pub header_delivered :
      (v : MachineProgram) (num : ℤ) (s : Reader W D)
      → length v.header ≡ 2048
      → (header_start num s).0 ≡ ew_ok
      → {n : ℕ} {w' : W} {t : Bytes}
      → Ready (env.focas.cnc_upload3 s.libh) n (pos 2047) (header_start num s).1 t w'
      → IsText t
      → length t ≤ 2047
      → length (env.uninit s.world).header ≡ 2048
      → (fuel : ℕ) → n ≤ fuel
      → Returns
          (λ r _.
            IsHeader num v t (is_ok (env.focas.cnc_upend3 s.libh (env.clock_gettime w').1).0) r)
          (get_machine_program_header env fuel v num s)
  unfolding get_machine_program_header
  header_delivered v num s b ok {w' = w'} {t = t} d p l u fuel h =
      let (a, q, holds) = upload_header_lem env s d p l fuel h (env.uninit s.world).header u in
      rw (ok, q) (close_header_lem num _ v t a _ _ b l holds)
