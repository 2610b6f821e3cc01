-- ===== src/Readings/Status/Laws.antt =====
-- getMachineStatus: the whole outcome of a reading.
use fanuc_driver.Clock.{elapsed}
use fanuc_driver.Env.{Env}
use fanuc_driver.Env.Reader.{Reader, read, now}
use fanuc_driver.Env.Reader.Laws.{read-bind-Ends}
use fanuc_driver.Prelude.{◌≡◌, sym, ◌∙◌, Ends, bind_cong}
use fanuc_driver.Readings.Status.{get_machine_status}
use fanuc_driver.Readings.Status.Filled.{IsSized, fill_status_lem}
use fanuc_driver.Readings.Status.Meaning.{Describes, status_of-Describes}
use fanuc_driver.Types.{MachineStatus}

module _ {W D : Type 0} (env : Env W D) where
  -- Whatever the struct held before, a reading of the status into arrays of their declared sizes
  -- has the same outcome.
  pub status_initialised :
      (v v' : MachineStatus) (s : Reader W D)
      → IsSized v
      → IsSized v'
      → get_machine_status env v s ≡ get_machine_status env v' s
  unfolding get_machine_status
  status_initialised v v' s h h' = bind_cong (now env.clock_gettime) _ _ s λ t0 s1.
      bind_cong (read env.focas.cnc_statinfo) _ _ s1 λ st s2.
        bind_cong (now env.clock_gettime) _ _ s2 λ t1 s3.
          fill_status_lem v (elapsed t0 t1) st s3 h
          ∙ sym (fill_status_lem v' (elapsed t0 t1) st s3 h')

  -- A reading of the status into arrays of their declared sizes returns or fails, and never leaves
  -- an array. Each of the nine texts is returned exactly where its raw codes say so.
  pub status-Describes :
      (v : MachineStatus) (s : Reader W D)
      → IsSized v
      → Ends (λ r _. Describes r) (get_machine_status env v s)
  unfolding get_machine_status
  status-Describes v s h =
      let (t0, w) = env.clock_gettime s.world in
      read-bind-Ends (λ r _. Describes r) env.focas.cnc_statinfo _ (record s { world = w })
        λ st s'.
          let (t1, w') = env.clock_gettime s'.world in
          rw (fill_status_lem v (elapsed t0 t1) st (record s' { world = w' }) h)
            (status_of-Describes (elapsed t0 t1) st)
