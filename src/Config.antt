-- ===== src/Config.antt =====
-- read_config of driver/src/config.c. The file parser, libconfig, is a parameter: what it answers.
pub mod Precedence
use fanuc_driver.CString.{Bytes, sprintf}
use fanuc_driver.CString.Number.{atoi}
use fanuc_driver.Prelude.{
  Bool, Option, none, some, if◌then◌else◌, ℤ, pos, ltb_ℤ, Outcome, returns, fails, hangs, faults,
}
use fanuc_driver.Readings.Texts.{overlay}

-- What the environment and libconfig answer to the calls that `read_config` makes.
pub record Sources (D : Type 0) : Type 0 where
  pub file_read : Bool  -- config_read_file
  pub device_ip_variable : Option Bytes  -- getenv("DEVICE_IP")
  pub device_port_variable : Option Bytes  -- getenv("DEVICE_PORT")
  pub ip : Option Bytes  -- the bytes of the pointer that config_lookup_string(cfg, "ip", ...) stores
  pub port : Option ℤ
  pub machine_host : Option ℤ
  pub machine_port : Option ℤ
  pub minimum_polling_interval : Option D

-- The variables that `read_config` sets.
pub record Settings (D : Type 0) : Type 0 where
  pub device_ip : Bytes  -- char[1024]
  pub device_port : ℤ
  pub device_host : Option ℤ
  pub minimum_interval : Option D

-- What it returns: 1, or the variable `ret` with no value assigned.
pub data ConfigRet : Type 0 where
  one unassigned : ConfigRet

module _ {D : Type 0} (src : Sources D) where
  -- The address: DEVICE_IP, or `ip` of the file, whose pointer goes into the array, or as it was.
  unfoldable pub read_ip : Settings D → Outcome (Settings D)
  unfolding sprintf overlay
  read_ip c = elim src.device_ip_variable [
    | some text ↦ elim (sprintf c.device_ip text) [
      | some ip ↦ returns (record c { device_ip = ip })
      | none ↦ faults
    ]
    | none ↦ elim src.ip [
      | none ↦ returns c
      | some pointer ↦
          if src.file_read
          then (elim (overlay c.device_ip pointer) [
            | some ip ↦ returns (record c { device_ip = ip })
            | none ↦ faults
          ])
          else returns c
    ]
  ]

  abbrev positive : ℤ → Bool
  positive z = ltb_ℤ (pos 0) z

  -- A lookup of `port` where DEVICE_PORT does not serve.
  abbrev port_of_file : Settings D → Settings D
  port_of_file c = elim src.port [
    | none ↦ c
    | some p ↦ if src.file_read then record c { device_port = p } else c
  ]

  -- The port: DEVICE_PORT, if it is a positive number, or `port` of the file, or as it was.
  unfoldable pub read_port : Settings D → Settings D
  unfolding atoi
  read_port c = elim src.device_port_variable [
    | none ↦ port_of_file c
    | some text ↦
        if positive (atoi text) then record c { device_port = atoi text } else port_of_file c
  ]

  -- The three keys that must be there; the first that is not ends the function.
  unfoldable pub read_required : Settings D → ConfigRet × Settings D
  read_required c = elim src.machine_host [
    | none ↦ (ConfigRet.one, c)
    | some host ↦
        let c1 = record c { device_host = some host } in
        elim src.machine_port [
          | none ↦ (ConfigRet.one, c1)
          | some p ↦
              let c2 = record c1 { device_port = p } in
              elim src.minimum_polling_interval [
                | none ↦ (ConfigRet.one, c2)
                | some x ↦ (ConfigRet.unassigned, record c2 { minimum_interval = some x })
              ]
        ]
  ]

  unfoldable pub read_config : Settings D → Outcome (ConfigRet × Settings D)
  unfolding read_ip read_port read_required
  read_config c = elim (read_ip c) [
    | returns c1 ↦ returns (read_required (read_port c1))
    | fails ↦ fails
    | hangs ↦ hangs
    | faults ↦ faults
  ]
