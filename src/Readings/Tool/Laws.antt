-- ===== src/Readings/Tool/Laws.antt =====
-- getMachineToolInfo: the fallback from tool management to the modal method, and from that to
-- nothing.
use fanuc_driver.Prelude.{
  pos, ◌≡◌, ◌≢◌, true, false, ◌&&◌, arith, ==ℤ_iff, Returns, Returns-bind, ℕ, refl, if◌then◌else◌,
  pure, Bool,
}
use fanuc_driver.Readings.Tool.{get_machine_tool_info, managed_tool, modal_tool}
use fanuc_driver.Env.{Env}
use fanuc_driver.Env.Reader.{Reader}
use fanuc_driver.Types.{MachineToolInfo}
use fanuc_driver.Clock.{elapsed}

-- The methods that a state may be in: managed, modal or none. Never both.
abbrev pub IsToolState : {W D : Type 0} → Reader W D → Type 0
IsToolState s = (s.tool_management_enabled && s.use_modal_tool_data) ≡ false

-- What one call has done, from the state `s` and the struct `v` to the state `s'` and the struct `r`.
pub record ToolStep {W D : Type 0} (s : Reader W D) (v r : MachineToolInfo) (s' : Reader W D)
    : Type 0 where
  pub one_method : IsToolState s'
  pub no_return : s'.tool_management_enabled ≡ true → s.tool_management_enabled ≡ true
  pub managed_number : s'.tool_management_enabled ≡ true → r.id ≢ pos 0
  pub modal_group : s'.use_modal_tool_data ≡ true → r.group ≡ pos 0
  pub given_up :
      s'.tool_management_enabled ≡ false
      → s'.use_modal_tool_data ≡ false
      → (r.id ≡ v.id) × (r.group ≡ v.group)
  pub absorbing :
      s.tool_management_enabled ≡ false
      → s.use_modal_tool_data ≡ false
      → (s'.tool_management_enabled ≡ false) × (s'.use_modal_tool_data ≡ false)

-- What holds between the two methods: the struct is as it was unless tool management filled it.
record ToolMid {W D : Type 0} (s : Reader W D) (v r : MachineToolInfo) (s' : Reader W D)
    : Type 0 where
  one_method : IsToolState s'
  no_return : s'.tool_management_enabled ≡ true → s.tool_management_enabled ≡ true
  managed_number : s'.tool_management_enabled ≡ true → r.id ≢ pos 0
  unchanged : s'.tool_management_enabled ≡ false → (r.id ≡ v.id) × (r.group ≡ v.group)
  absorbing :
      s.tool_management_enabled ≡ false
      → s.use_modal_tool_data ≡ false
      → (s'.tool_management_enabled ≡ false) × (s'.use_modal_tool_data ≡ false)

module _ {W D : Type 0} (env : Env W D) where
  managed_tool-Mid :
      (v : MachineToolInfo) (s : Reader W D) (w : W)
      → s.tool_management_enabled ≡ true
      → IsToolState s
      → Returns (ToolMid s v) (managed_tool env v (record s { world = w }))
  unfolding managed_tool
  managed_tool-Mid v s w e h =
      ground (arith, ==ℤ_iff (env.focas.cnc_rdntool s.libh 0 w).1.tool (pos 0))

  first_method :
      (v : MachineToolInfo) (s : Reader W D) (w : W) (b : Bool)
      → s.tool_management_enabled ≡ b
      → IsToolState s
      → Returns (ToolMid s v) ((if b then managed_tool env v else pure v) (record s { world = w }))
  first_method v s w true e h = managed_tool-Mid v s w e h
  first_method v s w false e h = record {
    one_method = h;
    no_return = λ t. t;
    managed_number = λ t. absurd (cc);
    unchanged = λ _. (refl, refl);
    absorbing = λ a b. (a, b);
  }

  second_method :
      (v r : MachineToolInfo) (s t : Reader W D)
      → ToolMid t v r s
      → Returns (ToolStep t v) ((if s.use_modal_tool_data then modal_tool env r else pure r) s)
  unfolding modal_tool
  second_method v r s t h = ground arith

  timed :
      (v r : MachineToolInfo) (s t : Reader W D) (w : W) (n : ℕ)
      → ToolStep t v r s
      → ToolStep t v (record r { execution_duration = n }) (record s { world = w })
  timed v r s t w n h = record {
    one_method = h.one_method;
    no_return = h.no_return;
    managed_number = h.managed_number;
    modal_group = h.modal_group;
    given_up = h.given_up;
    absorbing = h.absorbing;
  }

  -- From a state with one method at most, a reading of the tool always returns, in such a state. It
  -- never goes back to tool management; while that is on it reports a tool number other than 0,
  -- and by the modal method the group 0. Once neither method is on, neither comes back, and the
  -- number and the group are what the struct's memory held.
  pub tool_fallback :
      (v : MachineToolInfo) (s : Reader W D)
      → IsToolState s
      → Returns (ToolStep s v) (get_machine_tool_info env v s)
  unfolding get_machine_tool_info
  tool_fallback v s h =
      let (t0, w) = env.clock_gettime s.world in
      Returns-bind (ToolMid s v) (ToolStep s v)
        (if s.tool_management_enabled then managed_tool env v else pure v) _
        (record s { world = w }) (first_method v s w s.tool_management_enabled refl h)
        λ v' s' m.
          Returns-bind (ToolStep s v) (ToolStep s v)
            (if s'.use_modal_tool_data then modal_tool env v' else pure v') _ s'
            (second_method v v' s' s m)
            λ v'' s'' st.
              let (t1, w') = env.clock_gettime s''.world in timed v v'' s'' s w' (elapsed t0 t1) st
