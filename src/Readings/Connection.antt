-- ===== src/Readings/Connection.antt =====
-- setupConnection of driver/src/data.c.
use fanuc_driver.Prelude.{ℤ, ◌>>=◌, ◌>>◌, modify}
use fanuc_driver.CString.{Bytes, codes}
use fanuc_driver.Env.{Env}
use fanuc_driver.Env.Reader.{Get, read}

module _ {W D : Type 0} (env : Env W D) where
  -- The log file, the handle with a timeout of ten seconds, and the first path.
  unfoldable pub setup_connection : Bytes → ℤ → Get W D (Unit {0})
  setup_connection device_ip device_port = do
    read (λ _. env.focas.cnc_startupprocess 0 (codes "focas.log"))
    handle ← read (λ _. env.focas.cnc_allclibhndl3 device_ip device_port 10)
    modify (λ s. record s { libh = handle })
    read (λ h. env.focas.cnc_setpath h 0)
