-- ===== src/Checks/Sync.antt =====
-- What a consumer of the messages sees of the driver's last values: the items of `updates`, behind
-- those of earlier rounds, show each value that a check of driver/src/check.c keeps.
pub mod Own
pub mod Frames
pub mod Steps
pub mod Programs
pub mod Round
use fanuc_driver.CString.{c_str}
use fanuc_driver.Checks.State.{Driver}
use fanuc_driver.Prelude.{String, ◌≡◌, Option, none, some, List, [], ◌∷◌, ◌++◌, ℤ}
use fanuc_driver.Report.{number, Object, create_number, create_string}
use fanuc_driver.Report.Frame.{Fields, Shows}
use fanuc_driver.Types.{
  MachineMessage, MachineStatus, MachinePartCount, MachineCycleTime, MachineDynamic,
  MachineToolInfo, MachineBlock,
}

module _ {D : Type 0} where
  abbrev pub part_fields : Fields MachinePartCount D
  part_fields = ("part_count", λ v. create_number v.count) ∷ []

  abbrev pub cycle_fields : Fields MachineCycleTime D
  cycle_fields = ("cycle_time", λ v. create_number v.time) ∷ []

  -- All of the status but `estop`, which follows another test, and `alarm`, a key that the dynamic
  -- values have too.
  abbrev pub status_fields : Fields MachineStatus D
  status_fields =
      ("execution", λ v. create_string (c_str v.execution))
      ∷ ("mode", λ v. create_string (c_str v.mode))
      ∷ ("aut", λ v. create_number v.raw.aut)
      ∷ ("edit", λ v. create_number v.raw.edit)
      ∷ ("emergency", λ v. create_number v.raw.emergency)
      ∷ ("hdck", λ v. create_number v.raw.hdck)
      ∷ ("motion", λ v. create_number v.raw.motion)
      ∷ ("mstb", λ v. create_number v.raw.mstb)
      ∷ ("run", λ v. create_number v.raw.run)
      ∷ []

  abbrev pub tool_fields : Fields MachineToolInfo D
  tool_fields =
      ("tool_id", λ v. create_number v.id) ∷ ("tool_group", λ v. create_number v.group) ∷ []

  abbrev pub dynamic_fields : Fields (MachineDynamic D) D
  dynamic_fields =
      ("cprogram", λ v. create_number v.cprogram)
      ∷ ("mprogram", λ v. create_number v.mprogram)
      ∷ ("sequence", λ v. create_number v.sequence)
      ∷ ("actf", λ v. create_number v.actf)
      ∷ ("acts", λ v. create_number v.acts)
      ∷ []

  abbrev pub message_fields : Fields MachineMessage D
  message_fields = ("message_number", λ v. create_number v.number) ∷ []

  abbrev pub block_fields : Fields MachineBlock D
  block_fields =
      ("block", λ v. create_string (c_str v.block))
      ∷ ("block_num", λ v. create_number v.blk_num)
      ∷ []

-- The variables that the checks share hold the last values.
abbrev pub CountShared : ℤ → Option MachinePartCount → Type 0
CountShared z none = Unit
CountShared z (some v) = z ≡ v.count

abbrev pub ProgramsShared : {D : Type 0} → ℤ → ℤ → Option (MachineDynamic D) → Type 0
ProgramsShared c m none = Unit
ProgramsShared c m (some v) = (c ≡ v.cprogram) × (m ≡ v.mprogram)

-- A consumer with the items `h` of the earlier rounds and those of this one is up to date.
pub record Synced {W D : Type 0} (h : Object D) (d : Driver W D) : Type 0 where
  pub part : Shows part_fields d.last_part_count (h ++ d.updates)
  pub cycle : Shows cycle_fields d.last_cycle_time (h ++ d.updates)
  pub status : Shows status_fields d.last_status (h ++ d.updates)
  pub tool : Shows tool_fields d.last_tool_info (h ++ d.updates)
  pub dynamic : Shows dynamic_fields d.last_dynamic (h ++ d.updates)
  pub message : Shows message_fields d.last_message (h ++ d.updates)
  pub block : Shows block_fields d.last_block (h ++ d.updates)
  pub count_shared : CountShared d.part_count d.last_part_count
  pub programs_shared : ProgramsShared d.c_program_num d.m_program_num d.last_dynamic

-- The keys of each check.
abbrev pub part_keys : List String
part_keys = "part_count" ∷ []

abbrev pub cycle_keys : List String
cycle_keys = "cycle_time" ∷ []

abbrev pub tool_keys : List String
tool_keys = "tool_id" ∷ "tool_group" ∷ []

abbrev pub message_keys : List String
message_keys = "message_number" ∷ "message_text" ∷ []

abbrev pub block_keys : List String
block_keys = "block" ∷ "block_num" ∷ []

abbrev pub status_keys : List String
status_keys =
    "execution" ∷ "mode" ∷ "estop" ∷ "alarm" ∷ "aut" ∷ "edit" ∷ "emergency" ∷ "hdck" ∷ "motion"
    ∷ "mstb" ∷ "run" ∷ []

abbrev pub array_keys : List String
array_keys = "absolute" ∷ "relative" ∷ "actual" ∷ "load" ∷ []

abbrev pub number_keys : List String
number_keys = "cprogram" ∷ "mprogram" ∷ "sequence" ∷ "actf" ∷ "acts" ∷ "alarm" ∷ []

abbrev pub program_keys : List String
program_keys = "program_name" ∷ "program_path" ∷ "program_header" ∷ "program_size" ∷ "program" ∷ []
