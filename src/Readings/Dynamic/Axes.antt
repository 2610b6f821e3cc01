-- ===== src/Readings/Dynamic/Axes.antt =====
-- getMachineDynamic: what the loop over the axes writes into the four arrays, element by element.
use fanuc_driver.Env.{Env}
use fanuc_driver.Focas.{Odbdy2, Odbsvload}
use fanuc_driver.Prelude.{ℕ, ◌≤◌, ◌≡◌, Option, none, some, List, length, get_elem?, ℤ, to_short}
use fanuc_driver.Readings.Dynamic.{scaled, load_percent}
use fanuc_driver.Types.{MachineDynamic}
use fanuc_driver.Env.Reader.{Reader}
use fanuc_driver.Readings.Filled.{Filled}

module _ {W D : Type 0} (env : Env W D) (dyn : Odbdy2) (ax_load : List Odbsvload)
    (divisors : List D) where
  -- The scaled position of an axis in one of the library's arrays, and its load.
  abbrev pub position : List ℤ → ℕ → Option D
  position xs j = elim (get_elem? xs j) [
    | none ↦ none
    | some a ↦ elim (get_elem? divisors j) [ none ↦ none | some q ↦ some (scaled env a q) ]
  ]

  abbrev pub load_of : ℕ → Option D
  load_of j = elim (get_elem? ax_load j) [ none ↦ none | some l ↦ some (load_percent env l) ]

  -- The first `n` axes of the four arrays, and nothing else, are filled from the readings.
  pub record AxesFilled (n : ℕ) (v r : MachineDynamic D) : Type 0 where
    pub absolute : Filled n (position dyn.absolute) v.absolute r.absolute
    pub relative : Filled n (position dyn.relative) v.relative r.relative
    pub actual : Filled n (position dyn.machine) v.actual r.actual
    pub load : Filled n load_of v.load r.load

  -- What was read, and the arrays of the struct, have `n` elements at least.
  abbrev pub HasAxes : ℕ → MachineDynamic D → Type 0
  HasAxes n v =
      (n ≤ length divisors)
      × (n ≤ length dyn.absolute)
      × (n ≤ length dyn.relative)
      × (n ≤ length dyn.machine)
      × (n ≤ length ax_load)
      × (n ≤ length v.absolute)
      × (n ≤ length v.relative)
      × (n ≤ length v.actual)
      × (n ≤ length v.load)

module _ {W D : Type 0} (env : Env W D) where
  -- The numbers of the reply, each cut to a short.
  abbrev pub HasNumbers : Odbdy2 → MachineDynamic D → Type 0
  HasNumbers dyn r =
      (r.cprogram ≡ to_short dyn.prgnum)
      × (r.mprogram ≡ to_short dyn.prgmnum)
      × (r.sequence ≡ to_short dyn.seqnum)
      × (r.actf ≡ to_short dyn.actf)
      × (r.acts ≡ to_short dyn.acts)
      × (r.alarm ≡ to_short dyn.alarm)

  -- What the control answers to the two readings.
  abbrev pub dynamic_read : Reader W D → Odbdy2 × W
  dynamic_read s =
      let (_, dyn, w) = env.focas.cnc_rddynamic2 s.libh (env.clock_gettime s.world).1 in (dyn, w)

  abbrev pub meter_read : Reader W D → ℤ × List Odbsvload
  meter_read s = (env.focas.cnc_rdsvmeter s.libh env.max_axis (dynamic_read s).1).1
