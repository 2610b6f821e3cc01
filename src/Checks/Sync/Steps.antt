-- ===== src/Checks/Sync/Steps.antt =====
-- A consumer who is up to date before a check has reported is up to date after it.
use fanuc_driver.Checks.Block.{report_block}
use fanuc_driver.Checks.Counters.{report_part_count, report_cycle_time}
use fanuc_driver.Checks.State.{Driver, malloc}
use fanuc_driver.Checks.Status.{report_status, report_message}
use fanuc_driver.Checks.Sync.{
  part_fields, cycle_fields, status_fields, tool_fields, dynamic_fields, message_fields,
  block_fields, CountShared, Synced, status_keys, ProgramsShared, array_keys, number_keys,
  part_keys, cycle_keys, tool_keys, message_keys, block_keys,
}
use fanuc_driver.Checks.Sync.Frames.{
  part-Frame, tool-Frame, message-Frame, block-Frame, cycle-Frame, status-Frame, numbers-Frame,
  arrays-Frame,
}
use fanuc_driver.Checks.Sync.Own.{
  part-Shows, tool-Shows, message-Shows, block-Shows, cycle-Shows, status-Shows, dynamic-Shows,
}
use fanuc_driver.Checks.Tool.{report_tool_info}
use fanuc_driver.Env.Reader.{Reader}
use fanuc_driver.Prelude.{
  ◌≡◌, refl, not, Option, none, some, arith, if◌then◌else◌, ℤ, ◌==ℤ◌, ==ℤ_iff, OnReturn,
  in_bounds-OnReturn-eq, modify,
}
use fanuc_driver.Report.{Object, is_new}
use fanuc_driver.Report.Frame.{Frame-append, Shows-Frame, Frame}
use fanuc_driver.Types.{
  MachineMessage, MachineStatus, MachinePartCount, MachineCycleTime, MachineToolInfo, MachineBlock,
  MachineDynamic,
}
use fanuc_driver.Checks.Dynamic.{
  array_updates, report_dynamic_numbers, report_dynamic, short_differs,
}
use fanuc_driver.Env.{Floats}

count_kept :
    (v : MachinePartCount) (z : ℤ) (lv : Option MachinePartCount)
    → CountShared z lv
    → (if is_new lv (λ l. not (l.count ==ℤ v.count)) then v.count else z) ≡ v.count
count_kept v z none s = refl
count_kept v z (some l) s = ground (arith, ==ℤ_iff l.count v.count)

programs_kept :
    {D : Type 0} (v : MachineDynamic D) (c m : ℤ) (lv : Option (MachineDynamic D))
    → ProgramsShared c m lv
    → ((if short_differs lv (λ l. l.cprogram) v then v.cprogram else c) ≡ v.cprogram)
      × ((if short_differs lv (λ l. l.mprogram) v then v.mprogram else m) ≡ v.mprogram)
programs_kept v c m none s = (refl, refl)
programs_kept v c m (some l) s =
    (ground (arith, ==ℤ_iff l.cprogram v.cprogram), ground (arith, ==ℤ_iff l.mprogram v.mprogram))

module _ {W D : Type 0} (h : Object D) where
  -- A new struct and another state of the control change nothing of it.
  pub Synced-malloc :
      (d : Driver W D) (r : Reader W D) → Synced h d → Synced h (record (malloc d) { reader = r })
  Synced-malloc d r s = record {
    part = s.part;
    cycle = s.cycle;
    status = s.status;
    tool = s.tool;
    dynamic = s.dynamic;
    message = s.message;
    block = s.block;
    count_shared = s.count_shared;
    programs_shared = s.programs_shared;
  }

  pub part-step :
      (v : MachinePartCount) (d : Driver W D) → Synced h d → Synced h (report_part_count v d)
  unfolding report_part_count
  part-step v d s =
      let f = Frame-append part_keys h d.updates _ (part-Frame v d) in
      record {
        part = part-Shows d.last_part_count v h d s.part;
        cycle = Shows-Frame cycle_fields part_keys d.last_cycle_time _ _ refl f s.cycle;
        status = Shows-Frame status_fields part_keys d.last_status _ _ refl f s.status;
        tool = Shows-Frame tool_fields part_keys d.last_tool_info _ _ refl f s.tool;
        dynamic = Shows-Frame dynamic_fields part_keys d.last_dynamic _ _ refl f s.dynamic;
        message = Shows-Frame message_fields part_keys d.last_message _ _ refl f s.message;
        block = Shows-Frame block_fields part_keys d.last_block _ _ refl f s.block;
        count_shared = count_kept v d.part_count d.last_part_count s.count_shared;
        programs_shared = s.programs_shared;
      }

  pub cycle-step :
      (v : MachineCycleTime) (d : Driver W D) → Synced h d → Synced h (report_cycle_time v d)
  unfolding report_cycle_time
  cycle-step v d s =
      let f = Frame-append cycle_keys h d.updates _ (cycle-Frame v d) in
      record {
        part = Shows-Frame part_fields cycle_keys d.last_part_count _ _ refl f s.part;
        cycle = cycle-Shows v h d;
        status = Shows-Frame status_fields cycle_keys d.last_status _ _ refl f s.status;
        tool = Shows-Frame tool_fields cycle_keys d.last_tool_info _ _ refl f s.tool;
        dynamic = Shows-Frame dynamic_fields cycle_keys d.last_dynamic _ _ refl f s.dynamic;
        message = Shows-Frame message_fields cycle_keys d.last_message _ _ refl f s.message;
        block = Shows-Frame block_fields cycle_keys d.last_block _ _ refl f s.block;
        count_shared = s.count_shared;
        programs_shared = s.programs_shared;
      }

  pub status-step : (v : MachineStatus) (d : Driver W D) → Synced h d → Synced h (report_status v d)
  unfolding report_status
  status-step v d s =
      let f = Frame-append status_keys h d.updates _ (status-Frame d.last_status v d.updates) in
      record {
        part = Shows-Frame part_fields status_keys d.last_part_count _ _ refl f s.part;
        cycle = Shows-Frame cycle_fields status_keys d.last_cycle_time _ _ refl f s.cycle;
        status = status-Shows d.last_status v h d.updates s.status;
        tool = Shows-Frame tool_fields status_keys d.last_tool_info _ _ refl f s.tool;
        dynamic = Shows-Frame dynamic_fields status_keys d.last_dynamic _ _ refl f s.dynamic;
        message = Shows-Frame message_fields status_keys d.last_message _ _ refl f s.message;
        block = Shows-Frame block_fields status_keys d.last_block _ _ refl f s.block;
        count_shared = s.count_shared;
        programs_shared = s.programs_shared;
      }

  pub tool-step :
      (v : MachineToolInfo) (d : Driver W D) → Synced h d → Synced h (report_tool_info v d)
  unfolding report_tool_info
  tool-step v d s =
      let f = Frame-append tool_keys h d.updates _ (tool-Frame v d) in
      record {
        part = Shows-Frame part_fields tool_keys d.last_part_count _ _ refl f s.part;
        cycle = Shows-Frame cycle_fields tool_keys d.last_cycle_time _ _ refl f s.cycle;
        status = Shows-Frame status_fields tool_keys d.last_status _ _ refl f s.status;
        tool = tool-Shows d.last_tool_info v h d s.tool;
        dynamic = Shows-Frame dynamic_fields tool_keys d.last_dynamic _ _ refl f s.dynamic;
        message = Shows-Frame message_fields tool_keys d.last_message _ _ refl f s.message;
        block = Shows-Frame block_fields tool_keys d.last_block _ _ refl f s.block;
        count_shared = s.count_shared;
        programs_shared = s.programs_shared;
      }

  pub message-step :
      (v : MachineMessage) (d : Driver W D) → Synced h d → Synced h (report_message v d)
  unfolding report_message
  message-step v d s =
      let f = Frame-append message_keys h d.updates _ (message-Frame v d) in
      record {
        part = Shows-Frame part_fields message_keys d.last_part_count _ _ refl f s.part;
        cycle = Shows-Frame cycle_fields message_keys d.last_cycle_time _ _ refl f s.cycle;
        status = Shows-Frame status_fields message_keys d.last_status _ _ refl f s.status;
        tool = Shows-Frame tool_fields message_keys d.last_tool_info _ _ refl f s.tool;
        dynamic = Shows-Frame dynamic_fields message_keys d.last_dynamic _ _ refl f s.dynamic;
        message = message-Shows d.last_message v h d s.message;
        block = Shows-Frame block_fields message_keys d.last_block _ _ refl f s.block;
        count_shared = s.count_shared;
        programs_shared = s.programs_shared;
      }

  pub block-step : (v : MachineBlock) (d : Driver W D) → Synced h d → Synced h (report_block v d)
  unfolding report_block
  block-step v d s =
      let f = Frame-append block_keys h d.updates _ (block-Frame v d) in
      record {
        part = Shows-Frame part_fields block_keys d.last_part_count _ _ refl f s.part;
        cycle = Shows-Frame cycle_fields block_keys d.last_cycle_time _ _ refl f s.cycle;
        status = Shows-Frame status_fields block_keys d.last_status _ _ refl f s.status;
        tool = Shows-Frame tool_fields block_keys d.last_tool_info _ _ refl f s.tool;
        dynamic = Shows-Frame dynamic_fields block_keys d.last_dynamic _ _ refl f s.dynamic;
        message = Shows-Frame message_fields block_keys d.last_message _ _ refl f s.message;
        block = block-Shows d.last_block v h d s.block;
        count_shared = s.count_shared;
        programs_shared = s.programs_shared;
      }

  numbers-step :
      (v : MachineDynamic D) (o : Object D) (d : Driver W D)
      → Frame array_keys d.updates o
      → Synced h d
      → Synced h (report_dynamic_numbers v o d)
  unfolding report_dynamic_numbers
  numbers-step v o d g s =
      let f1 = Frame-append array_keys h d.updates o g in
      let f2 = Frame-append number_keys h o _ (numbers-Frame d.last_dynamic v o) in
      record {
        part =
            Shows-Frame part_fields number_keys d.last_part_count _ _ refl f2
              (Shows-Frame part_fields array_keys d.last_part_count _ _ refl f1 s.part);
        cycle =
            Shows-Frame cycle_fields number_keys d.last_cycle_time _ _ refl f2
              (Shows-Frame cycle_fields array_keys d.last_cycle_time _ _ refl f1 s.cycle);
        status =
            Shows-Frame status_fields number_keys d.last_status _ _ refl f2
              (Shows-Frame status_fields array_keys d.last_status _ _ refl f1 s.status);
        tool =
            Shows-Frame tool_fields number_keys d.last_tool_info _ _ refl f2
              (Shows-Frame tool_fields array_keys d.last_tool_info _ _ refl f1 s.tool);
        dynamic =
            dynamic-Shows d.last_dynamic v h o
              (Shows-Frame dynamic_fields array_keys d.last_dynamic _ _ refl f1 s.dynamic);
        message =
            Shows-Frame message_fields number_keys d.last_message _ _ refl f2
              (Shows-Frame message_fields array_keys d.last_message _ _ refl f1 s.message);
        block =
            Shows-Frame block_fields number_keys d.last_block _ _ refl f2
              (Shows-Frame block_fields array_keys d.last_block _ _ refl f1 s.block);
        count_shared = s.count_shared;
        programs_shared =
            programs_kept v d.c_program_num d.m_program_num d.last_dynamic s.programs_shared;
      }

  pub dynamic-step :
      (floats : Floats D) (v : MachineDynamic D) (d : Driver W D)
      → Synced h d
      → OnReturn (λ _. Synced h) (report_dynamic floats v d)
  unfolding report_dynamic
  dynamic-step floats v d s =
      in_bounds-OnReturn-eq (λ _. Synced h) (array_updates floats d.last_dynamic v d.updates)
        (λ o. modify (report_dynamic_numbers v o)) d
        (λ o e. numbers-step v o d (arrays-Frame floats d.last_dynamic v d.updates o e) s)
