-- ===== src/Readings/Contents.antt =====
-- getMachineProgramContents of driver/src/data.c.
pub mod Laws
pub mod Transfer
use fanuc_driver.Prelude.{
  ℕ, zero, suc, ◌+◌, ◌-◌, ℤ, pos, negsuc, Bool, List, [], ◌++◌, Option, none, some, if◌then◌else◌,
  leb, length, take, drop, replicate, Outcome, returns, fails, continue, ◌>>=◌, ◌>>◌, pure, fail,
  hang, in_bounds,
}
use fanuc_driver.CString.{Bytes, zeroed}
use fanuc_driver.Clock.{elapsed}
use fanuc_driver.Focas.{
  Focas, EwCode, ew_ok, ew_busy, ew_data, ew_buffer, ew_mode, ew_other, Upload,
}
use fanuc_driver.Types.{MachineProgramContents}
use fanuc_driver.Env.{Env, Uninit}
use fanuc_driver.Env.Reader.{Reader, Get, call, now, is_ok, set_at}
use fanuc_driver.Readings.Texts.{overlay}

-- malloc(n), where there is no program yet, or realloc(prog, n); `junk` fills what is new.
unfoldable pub resize : ℕ → Option Bytes → ℕ → Bytes
resize junk none n = replicate n junk
resize junk (some prog) n = take n prog ++ replicate (n - length prog) junk

-- memcpy(&dst[offset], &src[0], n)
unfoldable pub memcpy : Bytes → ℕ → Bytes → ℕ → Option Bytes
memcpy dst offset src n =
    if leb n (length src)
    then (if leb (offset + n) (length dst)
        then some (take offset dst ++ (take n src ++ drop (offset + n) dst))
        else none)
    else none

-- The program is grown for `n` more characters, terminated, and the characters are copied in.
unfoldable pub append_chunk : ℕ → Option Bytes → ℕ → Bytes → ℕ → Option Bytes
unfolding resize memcpy
append_chunk junk prog offset buf n =
    elim (set_at (resize junk prog (offset + n + 1)) (pos (offset + n)) 0) [
      | none ↦ none
      | some p ↦ memcpy p offset buf n
    ]

module _ {W D : Type 0} where
  -- `if (len > 0)`: the program and the offset after a chunk of `len` characters.
  unfoldable pub add_chunk : ℕ → Option Bytes → ℕ → Bytes → ℤ → Get W D (Option Bytes × ℕ)
  unfolding append_chunk
  add_chunk junk prog offset buf (negsuc n) = pure (prog, offset)
  add_chunk junk prog offset buf (pos zero) = pure (prog, offset)
  add_chunk junk prog offset buf (pos (suc n)) = do
    p ← in_bounds (append_chunk junk prog offset buf (suc n))
    pure (some p, offset + suc n)

module _ {W D : Type 0} (env : Env W D) (junk : ℕ) where
  -- do { ... } while (ret == EW_OK || ret == EW_BUFFER)
  unfoldable pub upload_contents : ℕ → Bytes → Option Bytes → ℕ → Get W D (Option Bytes × ℕ)
  unfolding add_chunk overlay
  upload_contents zero buf prog offset = hang
  upload_contents (suc fuel) buf prog offset = do
    (ret, up) ← call (λ h. env.focas.cnc_upload4 h (pos 1280))
    buf' ← in_bounds (overlay buf up.written)
    elim ret [
      | ew_buffer ↦ upload_contents fuel buf' prog offset
      | ew_ok ↦ (do
        (prog', offset') ← add_chunk junk prog offset buf' up.len
        upload_contents fuel buf' prog' offset')
      | ew_busy ↦ pure (prog, offset)
      | ew_data ↦ pure (prog, offset)
      | ew_mode ↦ pure (prog, offset)
      | ew_other z ↦ pure (prog, offset)
    ]

module _ {W D : Type 0} (env : Env W D) where
  -- An upload that cannot be started is only reported; one that cannot be closed fails.
  unfoldable pub get_machine_program_contents :
      ℕ → MachineProgramContents → Bytes → Get W D MachineProgramContents
  unfolding upload_contents
  get_machine_program_contents fuel v program_path s =
      (do
        t0 ← now env.clock_gettime
        call (λ h. env.focas.cnc_upstart4 h 0 program_path)
        (prog, offset) ←
            upload_contents env (env.uninit s.world).heap_byte fuel (zeroed 2048) none 0
        (ret, _) ← call env.focas.cnc_upend4
        if is_ok ret then pure tt else fail
        t1 ← now env.clock_gettime
        pure (record {
          execution_duration = elapsed t0 t1;
          size = pos (offset + 1);
          contents = prog;
        }))
        s
