-- ===== src/Checks/Sync/Programs.antt =====
-- The checks of the programs, whose items no view of `Synced` looks at.
use fanuc_driver.Checks.Sync.{
  Synced, part_fields, cycle_fields, status_fields, tool_fields, dynamic_fields, message_fields,
  block_fields, program_keys,
}
use fanuc_driver.CString.{Bytes, strncpy}
use fanuc_driver.Checks.Programs.{
  store_program_name, report_program_name, report_program_header, report_program_contents,
}
use fanuc_driver.Checks.State.{Driver}
use fanuc_driver.Checks.Sync.Frames.{header-Frame, contents-Frame, name-Frame}
use fanuc_driver.Prelude.{ℕ, refl, ℤ, modify, OnReturn, in_bounds-OnReturn}
use fanuc_driver.Report.{Object}
use fanuc_driver.Report.Frame.{Frame, Frame-append, Shows-Frame}
use fanuc_driver.Types.{MachineProgram, MachineProgramContents, MachineProgramName}

module _ {W D : Type 0} (h : Object D) where
  -- What no view looks at may change, and the items under the keys of the programs.
  untouched :
      (d : Driver W D) (o m : Object D) (b : ℕ) (path : Bytes) (n1 n2 n3 : ℤ)
      → Frame program_keys d.updates o
      → Synced h d
      → Synced h (record d {
        updates = o;
        meta = m;
        blocks = b;
        m_program_path = path;
        name_program_num = n1;
        header_program_num = n2;
        contents_program_num = n3;
      })
  untouched d o m b path n1 n2 n3 g s =
      let f = Frame-append program_keys h d.updates o g in
      record {
        part = Shows-Frame part_fields program_keys d.last_part_count _ _ refl f s.part;
        cycle = Shows-Frame cycle_fields program_keys d.last_cycle_time _ _ refl f s.cycle;
        status = Shows-Frame status_fields program_keys d.last_status _ _ refl f s.status;
        tool = Shows-Frame tool_fields program_keys d.last_tool_info _ _ refl f s.tool;
        dynamic = Shows-Frame dynamic_fields program_keys d.last_dynamic _ _ refl f s.dynamic;
        message = Shows-Frame message_fields program_keys d.last_message _ _ refl f s.message;
        block = Shows-Frame block_fields program_keys d.last_block _ _ refl f s.block;
        count_shared = s.count_shared;
        programs_shared = s.programs_shared;
      }

  pub header-step :
      (v : MachineProgram) (d : Driver W D) → Synced h d → Synced h (report_program_header v d)
  unfolding report_program_header
  header-step v d s = untouched d _ _ _ _ _ _ _ (header-Frame v d) s

  pub contents-step :
      (v : MachineProgramContents) (d : Driver W D)
      → Synced h d
      → Synced h (report_program_contents v d)
  unfolding report_program_contents
  contents-step v d s = untouched d _ _ _ _ _ _ _ (contents-Frame v d) s

  stored-step :
      (v : MachineProgramName) (path : Bytes) (d : Driver W D)
      → Synced h d
      → Synced h (store_program_name v path d)
  unfolding store_program_name
  stored-step v path d s = untouched d _ _ _ _ _ _ _ (name-Frame v path d) s

  pub name-step :
      (v : MachineProgramName) (d : Driver W D)
      → Synced h d
      → OnReturn (λ _. Synced h) (report_program_name v d)
  unfolding report_program_name
  name-step v d s =
      in_bounds-OnReturn (λ _. Synced h) (strncpy d.m_program_path v.path 256)
        (λ path. modify (store_program_name v path)) d (λ path. stored-step v path d s)
