-- ===== src/Readings/Tool.antt =====
-- getMachineToolInfo of driver/src/data.c.
pub mod Laws
use fanuc_driver.Prelude.{
  ℕ, ℤ, pos, Bool, true, false, not, ◌&&◌, if◌then◌else◌, ◌==ℤ◌, Outcome, returns, continue, ◌>>=◌,
  ◌>>◌, pure, gets, modify,
}
use fanuc_driver.Clock.{elapsed}
use fanuc_driver.Focas.{Focas, EwCode, Odbtlife3}
use fanuc_driver.Types.{MachineToolInfo}
use fanuc_driver.Env.{Env}
use fanuc_driver.Env.Reader.{Reader, Get, call, now, is_ok}

module _ {W D : Type 0} (env : Env W D) where
  -- The branch of the tool management method, `if (toolManagementEnabled)`.
  unfoldable pub managed_tool : MachineToolInfo → Get W D MachineToolInfo
  managed_tool v = do
    (ret, tool_id) ← call (λ h. env.focas.cnc_rdntool h 0)
    if is_ok ret && not (tool_id.tool ==ℤ pos 0)
        then pure (record v { id = tool_id.tool; group = tool_id.datano })
        else (do
          modify (λ s. record s { tool_management_enabled = false; use_modal_tool_data = true })
          pure v)

  -- The branch of the modal method, `if (useModalToolData)`; 108 reads the T command.
  unfoldable pub modal_tool : MachineToolInfo → Get W D MachineToolInfo
  modal_tool v = do
    (ret, aux_data) ← call (λ h. env.focas.cnc_modal h 108 1)
    if is_ok ret
        then pure (record v { id = aux_data; group = pos 0 })
        else (do modify (λ s. record s { use_modal_tool_data = false }); pure v)

  unfoldable pub get_machine_tool_info : MachineToolInfo → Get W D MachineToolInfo
  get_machine_tool_info v = do
    t0 ← now env.clock_gettime
    enabled ← gets (λ s. s.tool_management_enabled)
    v' ← (if enabled then managed_tool v else pure v)
    modal ← gets (λ s. s.use_modal_tool_data)
    v'' ← (if modal then modal_tool v' else pure v')
    t1 ← now env.clock_gettime
    pure (record v'' { execution_duration = elapsed t0 t1 })
