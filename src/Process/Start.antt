-- ===== src/Process/Start.antt =====
-- The state in which the two programs start: the initial values of the variables of
-- driver/src/main.c, driver/src/data.c and driver/src/check.c. Variables with no initialiser are 0.
use fanuc_driver.Process.{Process}
use fanuc_driver.CString.{zeroed}
use fanuc_driver.Checks.State.{Driver}
use fanuc_driver.Env.{Env}
use fanuc_driver.Env.Reader.{Reader}
use fanuc_driver.Prelude.{true, false, none, [], replicate, pos, negsuc}

module _ {W D : Type 0} (env : Env W D) where
  -- The variables of data.c.
  abbrev pub initial_reader : W → Reader W D
  initial_reader w = record {
    world = w;
    axis_count = pos env.max_axis;
    libh = 0;
    divisors = replicate env.max_axis (env.floats.of_ℤ (pos 0));
    tool_management_enabled = true;
    use_modal_tool_data = false;
  }

  -- The shared variables, and the static ones of the checks.
  abbrev pub initial_driver : W → Driver W D
  initial_driver w = record {
    reader = initial_reader w;
    updates = [];
    meta = [];
    blocks = 0;
    device_id = zeroed 128;
    c_program_num = negsuc 0;
    m_program_num = negsuc 0;
    m_program_path = zeroed 256;
    part_count = negsuc 0;
    last_info = none;
    last_part_count = none;
    last_cycle_time = none;
    cycle_part_count = negsuc 0;
    name_program_num = negsuc 0;
    last_message = none;
    last_status = none;
    last_dynamic = none;
    last_tool_info = none;
    header_program_num = pos 0;
    contents_program_num = negsuc 0;
    last_block = none;
  }

  abbrev pub initial_process : W → Process W D
  initial_process w = record {
    driver = initial_driver w;
    produced = [];
    refused = [];
    printed = [];
    slept = [];
    log = [];
    cleanup_at_exit = false;
  }
