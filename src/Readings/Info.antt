-- ===== src/Readings/Info.antt =====
-- getMachineInfo of driver/src/data.c.
pub mod Identity
pub mod Kept
pub mod Axes
pub mod Total
use fanuc_driver.Prelude.{
  ℕ, zero, suc, ◌+◌, ℤ, pos, pos_part, Bool, List, [], ◌∷◌, ◌++◌, if◌then◌else◌, get_elem?, set,
  take, ◌>>=◌, ◌>>◌, pure, gets, in_bounds, modify,
}
use fanuc_driver.CString.{Bytes, codes, c_str, sprintf, strncpy}
use fanuc_driver.CString.Hex.{hex8}
use fanuc_driver.Clock.{elapsed}
use fanuc_driver.Focas.{Odbsys, Odbaxdt, Odbaxisname}
use fanuc_driver.Types.{MachineInfo, MachineAxisInfo}
use fanuc_driver.Env.{Env}
use fanuc_driver.Env.Reader.{Get, call, read, ok_or_fail, now, is_ok, at, set_at}

abbrev pub axis_unith : List Bytes
axis_unith =
    codes "mm"
    ∷ codes "inch"
    ∷ codes "degree"
    ∷ codes "mm/minute"
    ∷ codes "inch/minute"
    ∷ codes "rpm"
    ∷ codes "mm/round"
    ∷ codes "inch/round"
    ∷ codes "%"
    ∷ codes "Ampere"
    ∷ codes "Second"
    ∷ []

-- "%08lx-%08lx-%08lx-%08lx"
unfoldable pub machine_id : ℕ → ℕ → ℕ → ℕ → Bytes
unfolding hex8
machine_id a b c d =
    hex8 a ++ (codes "-" ++ (hex8 b ++ (codes "-" ++ (hex8 c ++ (codes "-" ++ hex8 d)))))

module _ {W D : Type 0} where
  -- The fields that come from the axis data, `if (hasAxisData)`.
  unfoldable pub fill_axis_data : Odbaxdt → MachineAxisInfo D → Get W D (MachineAxisInfo D)
  unfolding sprintf strncpy c_str
  fill_axis_data axdt a = do
    name ← in_bounds (sprintf a.name (c_str axdt.name))
    unith ← in_bounds (at axis_unith axdt.unit)
    unith' ← in_bounds (strncpy a.unith unith 20)
    pure (record a {
      name = name;
      flag = axdt.flag;
      unit = axdt.unit;
      unith = unith';
      decimal = axdt.dec;
    })

  -- The fields that every axis has.
  unfoldable pub fill_axis : ℕ → D → Odbaxisname → MachineAxisInfo D → Get W D (MachineAxisInfo D)
  unfolding sprintf
  fill_axis i divisor axis a = do
    id ← in_bounds (sprintf a.id (axis.name ∷ []))
    suffix ← in_bounds (sprintf a.suffix (axis.suff ∷ []))
    pure (record a { id = id; index = pos i; suffix = suffix; divisor = divisor })

module _ {W D : Type 0} (env : Env W D) (has_axis_data : Bool) where
  -- What the loop reads: the decimal places, the names and the axis data.
  unfoldable pub axis_step :
      List ℤ → List Odbaxisname → List Odbaxdt → ℕ → MachineInfo D → Get W D (MachineInfo D)
  unfolding fill_axis fill_axis_data
  axis_step inprec axes axis_data i v = do
    places ← in_bounds (get_elem? inprec i)
    let divisor = env.floats.pow10 places
    divisors ← gets (λ s. s.divisors)
    divisors' ← in_bounds (set_at divisors (pos i) divisor)
    modify (λ s. record s { divisors = divisors' })
    axis ← in_bounds (get_elem? axes i)
    old ← in_bounds (get_elem? v.axes i)
    a ← fill_axis i divisor axis old
    a' ←
        (if has_axis_data
          then (do axdt ← in_bounds (get_elem? axis_data i); fill_axis_data axdt a)
          else pure a)
    pure (record v { axes = set v.axes i a' })

  -- for (int i = ...; i < axisCount; i++), with `n` rounds left.
  unfoldable pub axis_loop :
      List ℤ → List Odbaxisname → List Odbaxdt → ℕ → ℕ → MachineInfo D → Get W D (MachineInfo D)
  axis_loop inprec axes axis_data zero i v = pure v
  axis_loop inprec axes axis_data (suc n) i v = do
    v' ← axis_step inprec axes axis_data i v
    axis_loop inprec axes axis_data n (i + 1) v'

module _ {W D : Type 0} where
  -- The id and the texts of the system information.
  unfoldable pub fill_system : Odbsys → List ℕ → ℤ × ℤ → MachineInfo D → Get W D (MachineInfo D)
  unfolding machine_id sprintf c_str
  fill_system sysinfo cnc_ids ether v = do
    a ← in_bounds (get_elem? cnc_ids 0)
    b ← in_bounds (get_elem? cnc_ids 1)
    c ← in_bounds (get_elem? cnc_ids 2)
    d ← in_bounds (get_elem? cnc_ids 3)
    id ← in_bounds (sprintf v.id (machine_id a b c d))
    cnc_type ← in_bounds (sprintf v.cnc_type (take 2 (c_str sysinfo.cnc_type)))
    mt_type ← in_bounds (sprintf v.mt_type (take 2 (c_str sysinfo.mt_type)))
    series ← in_bounds (sprintf v.series (take 4 (c_str sysinfo.series)))
    version ← in_bounds (sprintf v.version (take 4 (c_str sysinfo.version)))
    axes_count_chk ← in_bounds (sprintf v.axes_count_chk (take 2 (c_str sysinfo.axes)))
    pure (record v {
      id = id;
      max_axis = sysinfo.max_axis;
      addinfo = sysinfo.addinfo;
      cnc_type = cnc_type;
      mt_type = mt_type;
      series = series;
      version = version;
      axes_count_chk = axes_count_chk;
      ether_type = ether.0;
      ether_device = ether.1;
    })

  -- The axis data may fail; the figures and the names may not. The count of axes is written by the
  -- call that reads the names.
  unfoldable pub fill_axes : Env W D → MachineInfo D → Get W D (MachineInfo D)
  unfolding axis_loop
  fill_axes env v = do
    (ret, axis_data) ← call (λ h. env.focas.cnc_rdaxisdata h 1 (pos 1 ∷ []) 1 env.max_axis)
    inprec ← read (λ h. env.focas.cnc_getfigure h 0)
    count ← gets (λ s. s.axis_count)
    (ret', (count', axes)) ← call (λ h. env.focas.cnc_rdaxisname h count)
    modify (λ s. record s { axis_count = count' })
    names ← ok_or_fail (ret', axes)
    axis_loop env (is_ok ret) inprec names axis_data (pos_part count') 0
        (record v { axes_count = count' })

  unfoldable pub get_machine_info : Env W D → MachineInfo D → Get W D (MachineInfo D)
  unfolding fill_system fill_axes
  get_machine_info env v = do
    t0 ← now env.clock_gettime
    sysinfo ← read env.focas.cnc_sysinfo
    cnc_ids ← read env.focas.cnc_rdcncid
    ether ← read env.focas.cnc_rdetherinfo
    v' ← fill_system sysinfo cnc_ids ether v
    v'' ← fill_axes env v'
    t1 ← now env.clock_gettime
    pure (record v'' { execution_duration = elapsed t0 t1 })
