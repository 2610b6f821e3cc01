-- ===== src/Readings/Info/Kept.antt =====
-- getMachineInfo: the id that it returns is printed from the words of the control's id, and stays
-- while the axes are read.
use mathlib.Core.Path.{subst}
use fanuc_driver.Readings.Info.{
  machine_id, axis_step, axis_loop, fill_axes, fill_axis, fill_axis_data, fill_system,
  get_machine_info,
}
use fanuc_driver.CString.{Bytes, c_str, sprintf}
use fanuc_driver.Env.{Env}
use fanuc_driver.Env.Reader.{Reader, is_ok, call, ok_or_fail, read, set_at}
use fanuc_driver.Focas.{Odbaxdt, Odbaxisname, Odbsys, ew_ok}
use fanuc_driver.Prelude.{
  ℕ, ◌≡◌, Bool, some, List, get_elem?, ℤ, OnReturn, zero, suc, ◌+◌, [], ◌∷◌, if◌then◌else◌, pos,
  pos_part, pure, in_bounds, ◌>>=◌, OnReturn-bind, OnReturn-skip, refl, sym, take,
  in_bounds-OnReturn, in_bounds-OnReturn-eq,
}
use fanuc_driver.Types.{MachineInfo}
use fanuc_driver.CString.Laws.{c_str-sprintf}
use fanuc_driver.Readings.Info.Identity.{machine_id-IsText}
use fanuc_driver.Env.Reader.Laws.{read-OnReturn}

-- Words that the control answers for its id, with the code EW_OK, and the text of them.
abbrev pub IsIdOf : {W D : Type 0} → Env W D → Bytes → Type 0
IsIdOf {W = W} env k =
    (h : ℕ) × (w : W) × ((env.focas.cnc_rdcncid h w).0 ≡ ew_ok)
    × (a : ℕ) × (b : ℕ) × (c : ℕ) × (d : ℕ) × (get_elem? (env.focas.cnc_rdcncid h w).1 0 ≡ some a)
    × (get_elem? (env.focas.cnc_rdcncid h w).1 1 ≡ some b)
    × (get_elem? (env.focas.cnc_rdcncid h w).1 2 ≡ some c)
    × (get_elem? (env.focas.cnc_rdcncid h w).1 3 ≡ some d)
    × (k ≡ machine_id a b c d)

module _ {W D : Type 0} (env : Env W D) (id : Bytes) where
  abbrev SameId : MachineInfo D → Reader W D → Type 0
  SameId r s = r.id ≡ id

  axis_step-SameId :
      (b : Bool) (inprec : List ℤ) (axes : List Odbaxisname) (axis_data : List Odbaxdt) (i : ℕ)
      (v : MachineInfo D) (s : Reader W D)
      → v.id ≡ id
      → OnReturn SameId (axis_step env b inprec axes axis_data i v s)
  unfolding axis_step
  axis_step-SameId b inprec axes axis_data i v s e =
      OnReturn-skip SameId (in_bounds (get_elem? inprec i)) _ s λ places s.
        OnReturn-skip SameId (in_bounds (set_at s.divisors (pos i) (env.floats.pow10 places))) _ s
          λ divisors s.
            let s1 = record s { divisors = divisors } in
            OnReturn-skip SameId (in_bounds (get_elem? axes i)) _ s1 λ axis s.
              OnReturn-skip SameId (in_bounds (get_elem? v.axes i)) _ s λ old s.
                OnReturn-skip SameId (fill_axis i (env.floats.pow10 places) axis old) _ s λ a s.
                  OnReturn-skip SameId
                    (if b
                      then (in_bounds (get_elem? axis_data i) >>= λ axdt. fill_axis_data axdt a)
                      else pure a)
                    _ s λ a' s. e

  axis_loop-SameId :
      (b : Bool) (inprec : List ℤ) (axes : List Odbaxisname) (axis_data : List Odbaxdt) (n i : ℕ)
      (v : MachineInfo D) (s : Reader W D)
      → v.id ≡ id
      → OnReturn SameId (axis_loop env b inprec axes axis_data n i v s)
  unfolding axis_loop
  axis_loop-SameId b inprec axes axis_data zero i v s e = e
  axis_loop-SameId b inprec axes axis_data (suc n) i v s e =
      OnReturn-bind SameId SameId (axis_step env b inprec axes axis_data i v) _ s
        (axis_step-SameId b inprec axes axis_data i v s e)
        (λ v' s' e'. axis_loop-SameId b inprec axes axis_data n (i + 1) v' s' e')

  fill_axes-SameId :
      (v : MachineInfo D) (s : Reader W D) → v.id ≡ id → OnReturn SameId (fill_axes env v s)
  unfolding fill_axes
  fill_axes-SameId v s e =
      OnReturn-skip SameId (call (λ h. env.focas.cnc_rdaxisdata h 1 (pos 1 ∷ []) 1 env.max_axis)) _
        s
        λ axdata s. OnReturn-skip SameId (read (λ h. env.focas.cnc_getfigure h 0)) _ s λ inprec s.
          OnReturn-skip SameId (call (λ h. env.focas.cnc_rdaxisname h s.axis_count)) _ s λ names s.
            let s1 = record s { axis_count = names.1.0 } in
            OnReturn-skip SameId (ok_or_fail (names.0, names.1.1)) _ s1 λ axes s.
              axis_loop-SameId (is_ok axdata.0) inprec axes axdata.1 (pos_part names.1.0) 0
                (record v { axes_count = names.1.0 }) s e

module _ {W D : Type 0} (env : Env W D) where
  fill_system-IsIdOf :
      (h : ℕ) (w : W) (sysinfo : Odbsys) (ether : ℤ × ℤ) (v : MachineInfo D) (s : Reader W D)
      → (env.focas.cnc_rdcncid h w).0 ≡ ew_ok
      → OnReturn
          (λ r _. IsIdOf env (c_str r.id))
          (fill_system sysinfo (env.focas.cnc_rdcncid h w).1 ether v s)
  unfolding fill_system
  fill_system-IsIdOf h w sysinfo ether v s ok =
      let ids = (env.focas.cnc_rdcncid h w).1 in
      let Q = λ (r : MachineInfo D) (_ : Reader W D). IsIdOf env (c_str r.id) in
      in_bounds-OnReturn-eq Q (get_elem? ids 0) _ s λ a ea.
        in_bounds-OnReturn-eq Q (get_elem? ids 1) _ s λ b eb.
          in_bounds-OnReturn-eq Q (get_elem? ids 2) _ s λ c ec.
            in_bounds-OnReturn-eq Q (get_elem? ids 3) _ s λ d ed.
              in_bounds-OnReturn-eq Q (sprintf v.id (machine_id a b c d)) _ s λ id e.
                let text = c_str-sprintf v.id (machine_id a b c d) (machine_id-IsText a b c d) e in
                in_bounds-OnReturn Q (sprintf v.cnc_type (take 2 (c_str sysinfo.cnc_type))) _ s λ _.
                  in_bounds-OnReturn Q (sprintf v.mt_type (take 2 (c_str sysinfo.mt_type))) _ s λ _.
                    in_bounds-OnReturn Q (sprintf v.series (take 4 (c_str sysinfo.series))) _ s λ _.
                      in_bounds-OnReturn Q (sprintf v.version (take 4 (c_str sysinfo.version))) _ s
                        λ _.
                          in_bounds-OnReturn Q
                            (sprintf v.axes_count_chk (take 2 (c_str sysinfo.axes))) _ s
                            λ _. (h, w, ok, a, b, c, d, ea, eb, ec, ed, text)

  -- Where the reading of the machine's information returns, the id is the text of four words that the
  -- control has answered with the code EW_OK.
  pub info-IsIdOf :
      (v : MachineInfo D) (s : Reader W D)
      → OnReturn (λ r _. IsIdOf env (c_str r.id)) (get_machine_info env v s)
  unfolding get_machine_info
  info-IsIdOf v s =
      let Q = λ (r : MachineInfo D) (_ : Reader W D). IsIdOf env (c_str r.id) in
      OnReturn-skip Q (read env.focas.cnc_sysinfo) _ _ λ sysinfo s.
        read-OnReturn Q env.focas.cnc_rdcncid _ s λ s' ok.
          OnReturn-skip Q (read env.focas.cnc_rdetherinfo) _ s' λ ether s''.
            OnReturn-bind Q Q (fill_system sysinfo (env.focas.cnc_rdcncid s.libh s.world).1 ether v)
              _ s'' (fill_system-IsIdOf s.libh s.world sysinfo ether v s'' ok)
              λ v' t k.
                OnReturn-bind (SameId env v'.id) Q (fill_axes env v') _ t
                  (fill_axes-SameId env v'.id v' t refl)
                  (λ v'' t' e. subst (λ x. IsIdOf env (c_str x)) (sym e) k)
