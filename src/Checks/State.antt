-- ===== src/Checks/State.antt =====
-- The state of the driver: that of data.c, the variables that check.c, main.c and debug.c share, and
-- the `static` variables of the checks, the last value of each reading.
use fanuc_driver.CString.{Bytes}
use fanuc_driver.Env.{Uninit, Env}
use fanuc_driver.Env.Reader.{Reader, Get}
use fanuc_driver.Prelude.{
  ℕ, ◌+◌, ◌-◌, String, Option, none, some, ℤ, pos, Outcome, returns, fails, hangs, faults, Exec,
}
use fanuc_driver.Report.{Object, add, create_number}
use fanuc_driver.Types.{
  MachineInfo, MachineMessage, MachineStatus, MachinePartCount, MachineCycleTime, MachineDynamic,
  MachineToolInfo, MachineBlock,
}

pub record Driver (W D : Type 0) : Type 0 where
  pub reader : Reader W D
  pub updates : Object D
  pub meta : Object D
  pub blocks : ℕ  -- the structs that are allocated and not freed
  pub device_id : Bytes  -- char[128]
  pub c_program_num : ℤ
  pub m_program_num : ℤ
  pub m_program_path : Bytes  -- char[256]
  pub part_count : ℤ
  pub last_info : Option (MachineInfo D)
  pub last_part_count : Option MachinePartCount
  pub last_cycle_time : Option MachineCycleTime
  pub cycle_part_count : ℤ  -- lastPartCount of checkMachineCycleTime
  pub name_program_num : ℤ  -- lastCProgramNum of checkMachineProgramName
  pub last_message : Option MachineMessage
  pub last_status : Option MachineStatus
  pub last_dynamic : Option (MachineDynamic D)
  pub last_tool_info : Option MachineToolInfo
  pub header_program_num : ℤ  -- lastCProgramNum of checkMachineProgramHeader
  pub contents_program_num : ℤ  -- lastProgramNum of checkMachineProgramContents
  pub last_block : Option MachineBlock

abbrev pub Check : Type 0 → Type 0 → Type 0 → Type 0
Check W D A = Exec (Driver W D) A

-- `if (lv != NULL) free(lv)`: the number of structs that are then allocated.
abbrev pub freed_last : {A : Type 0} → Option A → ℕ → ℕ
freed_last none blocks = blocks
freed_last (some _) blocks = blocks - 1

module _ {W D : Type 0} where
  -- A reading inside a check.
  abbrev pub lift : {A : Type 0} → Get W D A → Check W D A
  lift m d = let (r, s) = m d.reader in (r, record d { reader = s })

  abbrev pub malloc : Driver W D → Driver W D
  malloc d = record d { blocks = d.blocks + 1 }

  abbrev pub free : Driver W D → Driver W D
  free d = record d { blocks = d.blocks - 1 }

  abbrev pub freed_if_failed : {A : Type 0} → Outcome A × Driver W D → Outcome A × Driver W D
  freed_if_failed (fails, d) = (fails, free d)
  freed_if_failed (returns a, d) = (returns a, d)
  freed_if_failed (hangs, d) = (hangs, d)
  freed_if_failed (faults, d) = (faults, d)

  -- `v = malloc(sizeof *v)`, the reading into `*v`; a reading that fails leaves `v` allocated.
  unfoldable pub take_reading :
      {A : Type 0} → (Uninit D → A) → Env W D → (A → Get W D A) → Check W D A
  take_reading new env reading d = lift (reading (new (env.uninit d.reader.world))) (malloc d)

  -- The same with `free(v)` before `return 1`.
  unfoldable pub take_reading_or_free :
      {A : Type 0} → (Uninit D → A) → Env W D → (A → Get W D A) → Check W D A
  unfolding take_reading
  take_reading_or_free new env reading d = freed_if_failed (take_reading new env reading d)

  -- cJSON_AddItemToObject(meta, k, cJSON_CreateNumber(executionDuration))
  abbrev pub add_duration : String → ℕ → Driver W D → Driver W D
  add_duration k n d = record d { meta = add k (create_number (pos n)) d.meta }
