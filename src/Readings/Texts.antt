-- ===== src/Readings/Texts.antt =====
-- getMachineProgramName, getMachineMessage and getMachineBlock of driver/src/data.c.
pub mod Laws
pub mod Block
pub mod Names
use fanuc_driver.Prelude.{
  ℕ, zero, suc, ℤ, pos, negsuc, List, [], ◌∷◌, ◌++◌, Option, none, some, Bool, true, false,
  if◌then◌else◌, ◌==◌, leb, length, drop, Outcome, returns, fails, continue, ◌>>=◌, ◌>>◌, pure,
  fail, in_bounds, modify, ◌>>?◌,
}
use fanuc_driver.CString.{Bytes, c_str, sprintf, snprintf, strncpy, memset_zero, zeroed, c_string}
use fanuc_driver.Clock.{elapsed}
use fanuc_driver.Focas.{Focas, EwCode, ew_ok, ew_busy, ew_data, ew_buffer, ew_mode, ew_other}
use fanuc_driver.Types.{MachineProgramName, MachineMessage, MachineBlock}
use fanuc_driver.Env.{Env}
use fanuc_driver.Env.Reader.{Get, call, read, now}
use fanuc_driver.Report.{number}

-- The bytes that a library call wrote into a buffer, over what the buffer held.
unfoldable pub overlay : Bytes → Bytes → Option Bytes
overlay buf written =
    if leb (length written) (length buf) then some (written ++ drop (length written) buf) else none

-- for (int i = 0; i < n; i++) if (buf[i] == '\n') { buf[i] = '\0'; break; }
unfoldable pub cut_line : ℕ → Bytes → Option Bytes
cut_line zero buf = some buf
cut_line (suc n) [] = none
cut_line (suc n) (c ∷ buf) = elim (c == 10) [
  | true ↦ some (0 ∷ buf)
  | false ↦ elim (cut_line n buf) [ none ↦ none | some r ↦ some (c ∷ r) ]
]

-- memset(dst, 0, sizeof(dst)); strncpy(dst, src, sizeof(dst) - 1), with n = sizeof(dst) - 1
unfoldable pub clear_and_copy : ℕ → Bytes → Bytes → Option Bytes
unfolding memset_zero strncpy
clear_and_copy n dst src = memset_zero dst (suc n) >>? λ z. strncpy z src n

module _ {W D : Type 0} where
  unfoldable pub get_machine_program_name :
      Env W D → MachineProgramName → Get W D MachineProgramName
  unfolding clear_and_copy overlay
  get_machine_program_name env v = do
    t0 ← now env.clock_gettime
    exeprg ← read env.focas.cnc_exeprgname
    written ← read env.focas.cnc_exeprgname2
    path ← in_bounds (overlay (zeroed 256) written)
    t1 ← now env.clock_gettime
    name ← in_bounds (clear_and_copy 35 v.name exeprg.name)
    vpath ← in_bounds (clear_and_copy 255 v.path path)
    pure (record {
      execution_duration = elapsed t0 t1;
      number = exeprg.o_num;
      name = name;
      path = vpath;
    })

  unfoldable pub get_machine_message : Env W D → MachineMessage → Get W D MachineMessage
  unfolding sprintf c_str
  get_machine_message env v = do
    t0 ← now env.clock_gettime
    message ← read (λ h. env.focas.cnc_rdopmsg h 0 262)
    t1 ← now env.clock_gettime
    text ← in_bounds (sprintf v.text (c_str message.message))
    pure (record { execution_duration = elapsed t0 t1; number = message.datano; text = text })

  -- The numbers of the program and of the block, by the return code of `cnc_rdactpt`.
  unfoldable pub block_numbers : EwCode × (ℤ × ℤ) → Get W D (ℤ × ℤ)
  block_numbers (ew_mode, p) = pure (negsuc 0, negsuc 0)
  block_numbers (ew_ok, p) = pure p
  block_numbers (ew_busy, p) = fail
  block_numbers (ew_data, p) = fail
  block_numbers (ew_buffer, p) = fail
  block_numbers (ew_other z, p) = fail

  unfoldable pub get_machine_block : Env W D → MachineBlock → Get W D MachineBlock
  unfolding overlay cut_line snprintf c_string block_numbers
  get_machine_block env v = do
    t0 ← now env.clock_gettime
    (len, written) ← read (λ h. env.focas.cnc_rdexecprog h 2048)
    buf ← in_bounds (overlay (zeroed 2048) written)
    (prg, blk) ← (call env.focas.cnc_rdactpt >>= block_numbers)
    t1 ← now env.clock_gettime
    buf' ← in_bounds (cut_line len buf)
    text ← in_bounds (c_string buf')
    block ← in_bounds (snprintf v.block len text)
    pure
        (record { execution_duration = elapsed t0 t1; block = block; prg_num = prg; blk_num = blk })
