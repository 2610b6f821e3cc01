-- ===== src/Config/Precedence.antt =====
-- Which source of a setting wins in read_config.
use fanuc_driver.Config.{
  read_config, Sources, Settings, ConfigRet, read_port, read_required, read_ip,
}
use fanuc_driver.Prelude.{
  ◌≡◌, ◌↔◌, ◌⊎◌, none, some, arith, ℤ, returns, ◌≤◌, ◌<◌, length, faults, suc, refl, ap, ◌∙◌, false,
  ◌∷◌, ◌++◌, ltb, drop,
}
use fanuc_driver.CString.{Bytes, c_str}
use fanuc_driver.CString.Laws.{IsText, c_str_text}

module _ {D : Type 0} (src : Sources D) where
  -- Where the file has `machine_host` and `machine_port`, the port is `machine_port`, whatever the
  -- variable DEVICE_PORT and the key `port` say.
  pub machine_port_wins :
      (c : Settings D) (host p : ℤ)
      → src.machine_host ≡ some host
      → src.machine_port ≡ some p
      → (ret : ConfigRet) (c' : Settings D) → read_config src c ≡ returns (ret, c')
      → c'.device_port ≡ p
  unfolding read_config
  machine_port_wins c host p eh ep ret c' e = ground arith

  -- `read_config` returns 1 exactly where one of the three required keys is missing. Where all are
  -- there, it returns a variable that was never assigned.
  pub read_config_ret :
      (c : Settings D) (ret : ConfigRet) (c' : Settings D)
      → read_config src c ≡ returns (ret, c')
      → (ret ≡ ConfigRet.one) ↔ (
          (src.machine_host ≡ none)
          ⊎ (src.machine_port ≡ none)
          ⊎ (src.minimum_polling_interval ≡ none))
  unfolding read_config
  read_config_ret c ret c' e = ground arith

  read_ip_fits :
      (c : Settings D) (text : Bytes)
      → src.device_ip_variable ≡ some text
      → length text < length c.device_ip
      → read_ip src c
        ≡ returns (record c { device_ip = text ++ 0 ∷ drop (suc (length text)) c.device_ip })
  unfolding read_ip
  read_ip_fits c text e h = ground arith

  -- What is read behind the address leaves it.
  device_ip-read_required :
      (c : Settings D) → (read_required src (read_port src c)).1.device_ip ≡ c.device_ip
  unfolding read_required read_port
  device_ip-read_required c = ground arith

  -- The array of the address has the text of DEVICE_IP, where it fits with its NUL.
  pub device_ip_variable_wins :
      (c : Settings D) (text : Bytes)
      → src.device_ip_variable ≡ some text
      → IsText text
      → length text < length c.device_ip
      → (ret : ConfigRet) × (c' : Settings D) × (read_config src c ≡ returns (ret, c'))
        × (c_str c'.device_ip ≡ text)
  unfolding read_config
  device_ip_variable_wins c text e t h =
      let ip = text ++ 0 ∷ drop (suc (length text)) c.device_ip in
      let c1 = record c { device_ip = ip } in
      let (ret, c2) = read_required src (read_port src c1) in
      (
        ret,
        c2,
        rw (read_ip_fits c text e h, read_config) refl,
        ap c_str (device_ip-read_required c1)
            ∙ c_str_text text (drop (suc (length text)) c.device_ip) t,
      )

  -- A longer text of DEVICE_IP is written beyond the array.
  pub device_ip_variable_overflows :
      (c : Settings D) (text : Bytes)
      → src.device_ip_variable ≡ some text
      → length c.device_ip ≤ length text
      → read_config src c ≡ faults
  unfolding read_config
  device_ip_variable_overflows c text e h =
      let over : ltb (length text) (length c.device_ip) ≡ false = ground arith in ground arith
