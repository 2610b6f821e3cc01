-- ===== src/Readings/Info/Total.antt =====
-- getMachineInfo as a whole: with arrays of their declared sizes it never leaves one, and the axes and
-- the divisors are read.
use fanuc_driver.Readings.Info.Axes.{AxisFits, AxesRead}
use fanuc_driver.Env.Reader.{Reader, is_ok}
use fanuc_driver.Focas.{Odbaxdt, Odbaxisname}
use fanuc_driver.Prelude.{ℕ, ◌≡◌, List, length, ℤ, ◌<◌, Bool, [], ◌∷◌, pos, pos_part}
use fanuc_driver.Types.{MachineInfo}
use fanuc_driver.Env.{Env}

-- The char arrays of the struct have the sizes of data.h.
pub record IsSized {D : Type 0} (v : MachineInfo D) : Type 0 where
  pub id : length v.id ≡ 36
  pub cnc_type : length v.cnc_type ≡ 3
  pub mt_type : length v.mt_type ≡ 3
  pub series : length v.series ≡ 5
  pub version : length v.version ≡ 5
  pub axes_count_chk : length v.axes_count_chk ≡ 3

module _ {W D : Type 0} (env : Env W D) where
  -- The control's replies, whenever they are asked for, have room for all axes that it counts.
  abbrev pub AxesFit : MachineInfo D → List D → Type 0
  AxesFit v divisors =
      (h : ℕ) (count : ℤ) (w1 w2 w3 : W) (j : ℕ)
      → (let (ret, axis_data, _) = env.focas.cnc_rdaxisdata h 1 (pos 1 ∷ []) 1 env.max_axis w1 in
          let inprec = (env.focas.cnc_getfigure h 0 w2).1 in
          let (n, names) = (env.focas.cnc_rdaxisname h count w3).1 in
          j < pos_part n → AxisFits env (is_ok ret) inprec names axis_data v divisors j)

  -- The replies about the axes that a reading gets which asks in the world `w`, `count` being the
  -- count of axes that the driver keeps: the control's own count, whether there are axis data, the
  -- decimal places, the names and the axis data.
  abbrev pub axis_replies : ℕ → ℤ → W → ℤ × Bool × List ℤ × List Odbaxisname × List Odbaxdt
  axis_replies h count w =
      let (ret, axis_data, w1) = env.focas.cnc_rdaxisdata h 1 (pos 1 ∷ []) 1 env.max_axis w in
      let (_, inprec, w2) = env.focas.cnc_getfigure h 0 w1 in
      let (_, (n, names), _) = env.focas.cnc_rdaxisname h count w2 in
      (n, is_ok ret, inprec, names, axis_data)

  -- The axes of the struct and the table of divisors hold what the replies say.
  abbrev pub AxesDescribed :
      ℕ → ℤ → W → MachineInfo D → List D → MachineInfo D → Reader W D → Type 0
  AxesDescribed h count w v old r t =
      let (n, has_axis_data, inprec, names, axis_data) = axis_replies h count w in
      (v0 : MachineInfo D) × (v0.axes ≡ v.axes)
      × AxesRead env has_axis_data inprec names axis_data (pos_part n) v0 r old t.divisors
      × (r.axes_count ≡ n)
      × (t.axis_count ≡ n)

  -- The world in which the reading of the machine's information asks for the axes.
  abbrev pub axes_world : Reader W D → W
  axes_world s =
      let (_, _, w1) = env.focas.cnc_sysinfo s.libh (env.clock_gettime s.world).1 in
      let (_, _, w2) = env.focas.cnc_rdcncid s.libh w1 in (env.focas.cnc_rdetherinfo s.libh w2).2
