-- ===== src/Env.antt =====
-- What surrounds the driver, the parameter `env` of every component: the FOCAS library, the clock,
-- the doubles, and the bytes that memory holds before the program writes it.
pub mod Reader
use fanuc_driver.Prelude.{ℕ, ℤ, List, Bool}
use fanuc_driver.CString.{Bytes}
use fanuc_driver.Clock.{Timespec}
use fanuc_driver.Focas.{Focas}
use fanuc_driver.Types.{
  MachineInfo, MachineMessage, MachineStatus, MachinePartCount, MachineCycleTime, MachineDynamic,
  MachineToolInfo, MachineProgram, MachineProgramContents, MachineProgramName, MachineBlock,
}

-- The operations on doubles that the driver uses. `pow10 n` is `pow(10.0, n)`, `ne` is `!=`.
pub record Floats (D : Type 0) : Type 0 where
  pub of_ℤ : ℤ → D
  pub div : D → D → D
  pub pow10 : ℤ → D
  pub ne : D → D → Bool

-- What `malloc` hands out, and what the local arrays that have no initialiser hold.
pub record Uninit (D : Type 0) : Type 0 where
  pub info : MachineInfo D
  pub message : MachineMessage
  pub status : MachineStatus
  pub part_count : MachinePartCount
  pub cycle_time : MachineCycleTime
  pub dynamic : MachineDynamic D
  pub tool_info : MachineToolInfo
  pub program : MachineProgram
  pub contents : MachineProgramContents
  pub program_name : MachineProgramName
  pub block : MachineBlock
  pub header : Bytes  -- `char program[2048]`
  pub heap_byte : ℕ  -- any byte of a block that `realloc` has grown

pub record Env (W D : Type 0) : Type 0 where
  pub focas : Focas W
  pub clock_gettime : W → Timespec × W
  pub floats : Floats D
  pub uninit : W → Uninit D
  pub max_axis : ℕ  -- MAX_AXIS of fwlib32.h
