-- ===== src/Checks/Accounts.antt =====
-- The structs that the checks allocate and free, and the `static` pointers that hold them.
use fanuc_driver.CString.{Bytes}
use fanuc_driver.Checks.Dynamic.{array_updates, report_dynamic_numbers, report_dynamic}
use fanuc_driver.Checks.Info.{axes_objects, new_device_id, store_info, report_info}
use fanuc_driver.Checks.Programs.{report_program_name}
use fanuc_driver.Checks.State.{
  Driver, Check, malloc, freed_if_failed, take_reading, take_reading_or_free,
}
use fanuc_driver.Env.{Floats, Uninit, Env}
use fanuc_driver.Env.Reader.{Reader, Get}
use fanuc_driver.Prelude.{
  ℕ, ◌+◌, ◌-◌, ◌≤◌, ◌<◌, String, ◌≡◌, Bool, true, false, Option, none, some, List, arith,
  if◌then◌else◌, pos_part, Outcome, returns, fails, hangs, faults, pure, continue, ◌>>=◌, modify,
  OnReturn, in_bounds-OnReturn, OnReturn-any,
}
use fanuc_driver.Report.{Scalar, Object}
use fanuc_driver.Types.{MachineInfo, MachineDynamic, MachineProgramName}

abbrev pub held : {A : Type 0} → Option A → ℕ
held none = 0
held (some _) = 1

module _ {W D : Type 0} where
  -- The structs that some `static` pointer holds.
  abbrev pub live : Driver W D → ℕ
  live d =
      held d.last_info
      + held d.last_part_count
      + held d.last_cycle_time
      + held d.last_message
      + held d.last_status
      + held d.last_dynamic
      + held d.last_tool_info
      + held d.last_block

  -- `leaked` structs are allocated and held by nothing.
  abbrev pub Accounts : ℕ → Driver W D → Type 0
  Accounts leaked d = d.blocks ≡ live d + leaked

module _ {W D A : Type 0} (Q : Driver W D → Type 0) where
  -- What a reading leaves to a check: the driver with one more struct and another reader state.
  pub took :
      (new : Uninit D → A) (env : Env W D) (rd : A → Get W D A) (k : A → Check W D (Unit {0}))
      (d : Driver W D)
      → ((v : A) (s : Reader W D) → OnReturn (λ _. Q) (k v (record (malloc d) { reader = s })))
      → OnReturn (λ _. Q) ((take_reading new env rd >>= k) d)
  unfolding take_reading
  took new env rd k d h = go (rd (new (env.uninit d.reader.world)) d.reader)
    where
      go :
          (r : Outcome A × Reader W D)
          → OnReturn (λ _. Q) (continue r.0 k (record (malloc d) { reader = r.1 }))
      go (returns v, s) = h v s
      go (fails, s) = tt
      go (hangs, s) = tt
      go (faults, s) = tt

  -- The same where the struct is freed on failure, and where something is known of the reading.
  pub took_or_freed_with :
      (P : A → Reader W D → Type 0) (new : Uninit D → A) (env : Env W D) (rd : A → Get W D A)
      (k : A → Check W D (Unit {0})) (d : Driver W D)
      → OnReturn P (rd (new (env.uninit d.reader.world)) d.reader)
      → ((v : A) (s : Reader W D)
          → P v s
          → OnReturn (λ _. Q) (k v (record (malloc d) { reader = s })))
      → OnReturn (λ _. Q) ((take_reading_or_free new env rd >>= k) d)
  unfolding take_reading_or_free
  took_or_freed_with P new env rd k d p h = go (rd (new (env.uninit d.reader.world)) d.reader) p
    where
      go :
          (r : Outcome A × Reader W D)
          → OnReturn P r
          → OnReturn
              (λ _. Q)
              (continue
                (freed_if_failed (r.0, record (malloc d) { reader = r.1 })).0
                k
                (freed_if_failed (r.0, record (malloc d) { reader = r.1 })).1)
      go (returns v, s) p = h v s p
      go (fails, s) p = tt
      go (hangs, s) p = tt
      go (faults, s) p = tt

  pub took_or_freed :
      (new : Uninit D → A) (env : Env W D) (rd : A → Get W D A) (k : A → Check W D (Unit {0}))
      (d : Driver W D)
      → ((v : A) (s : Reader W D) → OnReturn (λ _. Q) (k v (record (malloc d) { reader = s })))
      → OnReturn (λ _. Q) ((take_reading_or_free new env rd >>= k) d)
  took_or_freed new env rd k d h =
      took_or_freed_with (λ _ _. Unit {0}) new env rd k d
        (OnReturn-any (rd (new (env.uninit d.reader.world)) d.reader)) (λ v s _. h v s)

module _ {W D : Type 0} (Q : Driver W D → Type 0) where
  -- A check that reads only when a number has changed.
  pub gated :
      (same : Bool) (m : Check W D (Unit {0})) (d : Driver W D)
      → Q d
      → OnReturn (λ _. Q) (m d)
      → OnReturn (λ _. Q) ((if same then pure tt else m) d)
  gated true m d h r = h
  gated false m d h r = r

abbrev pub AtMostOneMore : {W D : Type 0} → ℕ → Driver W D → Type 0
AtMostOneMore n d = (m : ℕ) × Accounts m d × (n ≤ m) × (m ≤ n + 1)

module _ {W D : Type 0} (n : ℕ) where
  pub report_program_name-Accounts :
      (v : MachineProgramName) (d : Driver W D) (s : Reader W D)
      → Accounts n d
      → OnReturn (λ _. Accounts n) (report_program_name v (record (malloc d) { reader = s }))
  unfolding report_program_name
  report_program_name-Accounts v d s h = ground arith

  pub report_dynamic-Accounts :
      (floats : Floats D) (v : MachineDynamic D) (d : Driver W D)
      → Accounts n (record d { blocks = d.blocks - 1 })
      → 0 < d.blocks
      → OnReturn (λ _. Accounts n) (report_dynamic floats v d)
  unfolding report_dynamic
  report_dynamic-Accounts floats v d h p =
      in_bounds-OnReturn (λ _. Accounts n) (array_updates floats d.last_dynamic v d.updates)
        (λ o. modify (report_dynamic_numbers v o)) d (λ o. numbers o)
    where
      numbers : (o : Object D) → Accounts n (report_dynamic_numbers v o d)
      numbers o = unfold report_dynamic_numbers in ground arith

  pub store_info-Accounts :
      (v : MachineInfo D) (id : Bytes) (axes : List (List (String × Scalar D))) (d : Driver W D)
      → Accounts n (record d { blocks = d.blocks - 1 })
      → 0 < d.blocks
      → Accounts n (store_info v id axes d)
  unfolding store_info
  store_info-Accounts v id axes d h p = ground arith

  pub report_info-Accounts :
      (floats : Floats D) (v : MachineInfo D) (d : Driver W D)
      → Accounts n (record d { blocks = d.blocks - 1 })
      → 0 < d.blocks
      → OnReturn (λ _. Accounts n) (report_info floats v d)
  unfolding report_info
  report_info-Accounts floats v d h p =
      in_bounds-OnReturn (λ _. Accounts n) (new_device_id v d) _ d
        λ id.
          in_bounds-OnReturn (λ _. Accounts n)
            (axes_objects floats d.last_info v.axes (pos_part v.axes_count) 0)
            (λ axes. modify (store_info v id axes)) d (λ axes. store_info-Accounts v id axes d h p)
