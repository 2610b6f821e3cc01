-- ===== src/Debug/Arguments.antt =====
-- The arguments of debug.c.
use fanuc_driver.Debug.{port_argument, default_port}
use fanuc_driver.CString.{Bytes}
use fanuc_driver.Prelude.{
  ℕ, ◌<◌, ◌≡◌, refl, List, [], ◌∷◌, arith, pos, ◌&&◌, ltb, if◌then◌else◌, ℤ, negsuc, ltb_ℤ,
}
use fanuc_driver.CString.Number.{atoi}

abbrev accepted : ℤ → ℕ
accepted (negsuc k) = 8193
accepted (pos k) = if ltb 0 k && ltb k 65535 then k else 8193

in_range :
    (z : ℤ)
    → (n : ℕ) × ((if ltb_ℤ (pos 0) z && ltb_ℤ z (pos 65535) then z else default_port) ≡ pos n)
      × (0 < n)
      × (n < 65535)
in_range (negsuc k) = (8193, ground arith, omega arith, omega arith)
in_range (pos k) = (accepted (pos k), ground arith, ground arith, ground arith)

-- The port is one from 1 to 65534, whatever the arguments.
pub port_argument_range :
    (args : List Bytes) → (n : ℕ) × (port_argument args ≡ pos n) × (0 < n) × (n < 65535)
unfolding port_argument
port_argument_range [] = (8193, refl, omega arith, omega arith)
port_argument_range (ip ∷ []) = (8193, refl, omega arith, omega arith)
port_argument_range (ip ∷ port ∷ rest) = in_range (atoi port)
