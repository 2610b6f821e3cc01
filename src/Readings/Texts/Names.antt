-- ===== src/Readings/Texts/Names.antt =====
-- getMachineProgramName and getMachineMessage: what fits into their arrays.
use fanuc_driver.CString.{Bytes, c_str, zeroed}
use fanuc_driver.CString.Laws.{c_str_text, c_str-IsText, sprintf_fits, sprintf_overflow}
use fanuc_driver.Env.{Env}
use fanuc_driver.Env.Reader.{Reader}
use fanuc_driver.Env.Reader.Laws.{read-then-Ends}
use fanuc_driver.Focas.{ew_ok, Odbexeprg, Opmsg}
use fanuc_driver.Prelude.{
  ℕ, ◌-◌, ◌≤◌, ◌<◌, ◌≡◌, refl, ap, ◌∙◌, ◌++◌, arith, length, take, drop, length-replicate, faults,
  Ends,
}
use fanuc_driver.Readings.Texts.{get_machine_program_name, get_machine_message}
use fanuc_driver.Readings.Texts.Laws.{
  overlay_fits, c_str-replicate, drop-replicate, c_str-append, clear_and_copy_lem,
}
use fanuc_driver.Types.{MachineMessage, MachineProgramName}

module _ {W D : Type 0} (env : Env W D) where
  -- The program and the path, of which the first 35 and 255 characters fit.
  abbrev pub NameOf : Odbexeprg → Bytes → MachineProgramName → Type 0
  NameOf e path r =
      (c_str r.name ≡ take 35 (c_str e.name))
      × (c_str r.path ≡ take 255 (c_str path))
      × (r.number ≡ e.o_num)

  -- What the control answers to the two readings of getMachineProgramName.
  abbrev pub name_read : Reader W D → Odbexeprg × W
  name_read s =
      let (t0, w) = env.clock_gettime s.world in
      let (_, e, w1) = env.focas.cnc_exeprgname s.libh w in (e, w1)

  abbrev pub path_read : Reader W D → Bytes
  path_read s = (env.focas.cnc_exeprgname2 s.libh (name_read s).1).1

  -- Where the control writes no path of more than 256 bytes, the size of the buffer: the reading fails
  -- or returns. The struct then holds the number that the control answered, the first 35 characters
  -- of the name and the first 255 of the path, whatever its arrays, of their declared sizes, held
  -- before.
  pub program_name_read :
      (v : MachineProgramName) (s : Reader W D)
      → length v.name ≡ 36
      → length v.path ≡ 256
      → ((w : W) → length (env.focas.cnc_exeprgname2 s.libh w).1 ≤ 256)
      → Ends (λ r _. NameOf (name_read s).0 (path_read s) r) (get_machine_program_name env v s)
  unfolding get_machine_program_name
  program_name_read v s a b d =
      let (t0, w) = env.clock_gettime s.world in
      let Q = λ (r : MachineProgramName) (_ : Reader W D). NameOf (name_read s).0 (path_read s) r in
      read-then-Ends Q env.focas.cnc_exeprgname _ (record s { world = w })
        λ _.
          let (_, e, w1) = env.focas.cnc_exeprgname s.libh w in
          read-then-Ends Q env.focas.cnc_exeprgname2 _ (record s { world = w1 })
            λ _.
              let path = (env.focas.cnc_exeprgname2 s.libh w1).1 in
              let full = path ++ drop (length path) (zeroed 256) in
              let (n, cn, tn) = clear_and_copy_lem 35 v.name e.name a in
              let (q, cq, tq) = clear_and_copy_lem 255 v.path full b in
              let fit =
                overlay_fits (zeroed 256) path
                  (omega (arith, d w1, length-replicate {A = ℕ} 256 0)) in
              let ending : c_str full ≡ c_str path =
                c_str-append path (drop (length path) (zeroed 256))
                  (rw (drop-replicate (length path) 256) (c_str-replicate (256 - length path))) in
              rw (fit, cn, cq) (tn, tq ∙ ap (take 255) ending, refl)

  -- The text that the control answers to the reading of getMachineMessage.
  abbrev pub message_read : Reader W D → Opmsg
  message_read s = (env.focas.cnc_rdopmsg s.libh 0 262 (env.clock_gettime s.world).1).1

  -- The reading of a message of at most 255 characters fails or returns; the struct then holds the
  -- message's text and number.
  pub message_fits :
      (v : MachineMessage) (s : Reader W D)
      → length v.text ≡ 256
      → length (c_str (message_read s).message) ≤ 255
      → Ends
          (λ r _.
            (c_str r.text ≡ c_str (message_read s).message) × (r.number ≡ (message_read s).datano))
          (get_machine_message env v s)
  unfolding get_machine_message
  message_fits v s b l =
      let (t0, w) = env.clock_gettime s.world in
      let Q = λ (r : MachineMessage) (_ : Reader W D).
        (c_str r.text ≡ c_str (message_read s).message) × (r.number ≡ (message_read s).datano) in
      let text = c_str (message_read s).message in
      read-then-Ends Q (λ h. env.focas.cnc_rdopmsg h 0 262) _ (record s { world = w })
        λ _.
          rw (sprintf_fits v.text text (omega arith))
            (c_str_text text _ (c_str-IsText (message_read s).message), refl)

  -- A message of 256 characters or more is written beyond the array: the program has no guard for it.
  pub message_overflows :
      (v : MachineMessage) (s : Reader W D)
      → length v.text ≡ 256
      → 255 < length (c_str (message_read s).message)
      → (env.focas.cnc_rdopmsg s.libh 0 262 (env.clock_gettime s.world).1).0 ≡ ew_ok
      → (get_machine_message env v s).0 ≡ faults
  unfolding get_machine_message
  message_overflows v s b l ok =
      rw (ok, sprintf_overflow v.text (c_str (message_read s).message) (omega arith)) refl
