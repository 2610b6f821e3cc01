-- ===== src/Examples/Bench.antt =====
-- A control with three axes, and memory that holds 7 wherever nothing was written. The world counts
-- the readings of the clock and the calls of the two uploads.
use fanuc_driver.Env.{Env, Floats, Uninit}
use fanuc_driver.CString.{Bytes, codes, zeroed}
use fanuc_driver.Checks.State.{Driver}
use fanuc_driver.Env.Reader.{Reader}
use fanuc_driver.Focas.{ew_ok, ew_buffer, ew_other, Focas}
use fanuc_driver.Config.{Sources}
use fanuc_driver.Process.{Outside, Process}
use fanuc_driver.Prelude.{
  ℕ, ◌+◌, true, false, not, none, some, [], ◌∷◌, ◌++◌, ◌==◌, if◌then◌else◌, replicate, ℤ, pos,
  negsuc, ◌==ℤ◌,
}
use fanuc_driver.Types.{MachineAxisInfo, MachineRawStatus}
use fanuc_driver.Report.{Object}

abbrev pub junk : ℕ → Bytes
junk n = replicate n 7

-- "%", "O2094(PART)", "(X)", "G0" and "M", with line breaks between them.
abbrev pub header_text : Bytes
header_text =
    codes "%"
    ++ (10 ∷ codes "O2094(PART)" ++ (10 ∷ codes "(X)" ++ (10 ∷ codes "G0" ++ (10 ∷ codes "M"))))

abbrev pub bench_focas : Focas ℕ
bench_focas = record {
  cnc_startupprocess = λ a b w. (ew_ok, tt, w);
  cnc_allclibhndl3 = λ a b c w. (ew_ok, 5, w);
  cnc_setpath = λ h a w. (ew_ok, tt, w);
  cnc_freelibhndl = λ h w. (ew_ok, tt, w);
  cnc_sysinfo = λ h w. (
    ew_ok,
    record {
      addinfo = pos 2;
      max_axis = pos 3;
      cnc_type = codes "31";
      mt_type = codes " M";
      series = codes "G421";
      version = codes "22.0";
      axes = codes "03";
    },
    w,
  );
  cnc_rdcncid = λ h w. (ew_ok, 0x12ab ∷ 0xffffffff ∷ 0 ∷ 16 ∷ [], w);
  cnc_rdetherinfo = λ h w. (ew_ok, (pos 1, pos 1), w);
  cnc_rdaxisdata = λ h a b c d w. (
    ew_ok,
    record { name = codes "X"; dec = pos 4; unit = pos 1; flag = pos 0 }
        ∷ record { name = codes "Y"; dec = pos 4; unit = pos 1; flag = pos 0 }
        ∷ record { name = codes "A"; dec = pos 3; unit = pos 2; flag = pos 0 }
        ∷ [],
    w,
  );
  cnc_getfigure = λ h a w. (ew_ok, pos 4 ∷ pos 4 ∷ pos 3 ∷ [], w);
  cnc_rdaxisname = λ h c w. (
    ew_ok,
    (
      pos 3,
      record { name = b'X'; suff = 0 }
          ∷ record { name = b'Y'; suff = 0 }
          ∷ record { name = b'A'; suff = 0 }
          ∷ [],
    ),
    w,
  );
  cnc_exeprgname = λ h w. (ew_ok, record { name = codes "O2094"; o_num = pos 2094 }, w);
  cnc_exeprgname2 = λ h w. (ew_ok, codes "//CNC_MEM/USER/PATH1/O2094", w);
  cnc_rdopmsg = λ h a b w. (ew_ok, record { datano = negsuc 0; message = [] }, w);
  cnc_statinfo = λ h w. (
    ew_ok,
    record {
      aut = pos 1;
      run = pos 3;
      motion = pos 1;
      mstb = pos 0;
      emergency = pos 0;
      alarm = pos 0;
      edit = pos 0;
      hdck = pos 0;
    },
    w,
  );
  cnc_rdparam = λ h a b w. (ew_ok, pos 17, w);
  cnc_rdtimer = λ h a w. (ew_ok, record { minute = pos 2; msec = pos 500 }, w);
  cnc_rddynamic2 = λ h w. (
    ew_ok,
    record {
      alarm = pos 0;
      prgnum = pos 2094;
      prgmnum = pos 2094;
      seqnum = pos 10;
      actf = pos 42;
      acts = pos 900;
      absolute = pos 10 ∷ pos 20 ∷ pos 30 ∷ [];
      relative = pos 1 ∷ pos 2 ∷ pos 3 ∷ [];
      machine = pos 4 ∷ pos 5 ∷ pos 6 ∷ [];
    },
    w,
  );
  cnc_rdsvmeter = λ h a w. (
    ew_ok,
    (
      pos 3,
      record { load = pos 7; dec = pos 0 }
          ∷ record { load = pos 8; dec = pos 0 }
          ∷ record { load = pos 9; dec = pos 0 }
          ∷ [],
    ),
    w,
  );
  cnc_rdntool = λ h a w. (ew_other (pos 6), record { datano = pos 0; tool = pos 0 }, w);
  cnc_modal = λ h a b w. (ew_ok, pos 12, w);
  cnc_upstart = λ h n w. (ew_ok, tt, w);
  cnc_upload3 = λ h len w.
      if w == 0
      then (ew_buffer, record { len = len; written = [] }, w + 1)
      else (ew_ok, record { len = pos 22; written = header_text }, w + 1);
  cnc_upend3 = λ h w. (ew_ok, tt, w);
  cnc_upstart4 = λ h a p w. (ew_ok, tt, w);
  cnc_upload4 = λ h len w.
      if w == 0
      then (ew_buffer, record { len = len; written = [] }, w + 1)
      else if w == 1
      then (ew_ok, record { len = pos 3; written = codes "G0X" }, w + 1)
      else if w == 2
      then (ew_ok, record { len = pos 2; written = codes "1M" }, w + 1)
      else (ew_other (negsuc 1), record { len = pos 0; written = [] }, w + 1);
  cnc_upend4 = λ h w. (ew_ok, tt, w);
  cnc_rdexecprog = λ h n w. (ew_ok, (3, codes "G0X"), w);
  cnc_rdactpt = λ h w. (ew_ok, (pos 2094, pos 3), w);
}

abbrev pub bench_floats : Floats ℤ
bench_floats = record { of_ℤ = λ z. z; div = λ a b. a; pow10 = λ z. z; ne = λ a b. not (a ==ℤ b) }

abbrev pub bench_axis : MachineAxisInfo ℤ
bench_axis = record {
  id = junk 2;
  index = pos 7;
  suffix = junk 2;
  divisor = pos 7;
  name = junk 5;
  flag = pos 7;
  unit = pos 7;
  unith = junk 20;
  decimal = pos 7;
}

abbrev pub bench_raw : MachineRawStatus
bench_raw = record {
  alarm = pos 7;
  aut = pos 7;
  edit = pos 7;
  emergency = pos 7;
  hdck = pos 7;
  motion = pos 7;
  mstb = pos 7;
  run = pos 7;
}

abbrev pub bench_uninit : Uninit ℤ
bench_uninit = record {
  info = record {
    execution_duration = 7;
    id = junk 36;
    max_axis = pos 7;
    addinfo = pos 7;
    cnc_type = junk 3;
    mt_type = junk 3;
    series = junk 5;
    version = junk 5;
    axes_count_chk = junk 3;
    axes_count = pos 7;
    ether_type = pos 7;
    ether_device = pos 7;
    axes = bench_axis ∷ bench_axis ∷ bench_axis ∷ [];
  };
  message = record { execution_duration = 7; number = pos 7; text = junk 256 };
  status = record {
    execution_duration = 7;
    execution = junk 20;
    mode = junk 20;
    estop = junk 20;
    raw = bench_raw;
  };
  part_count = record { execution_duration = 7; count = pos 7 };
  cycle_time = record {
    execution_duration = 7;
    time = pos 7;
    raw = record { minutes = pos 7; milliseconds = pos 7 };
  };
  dynamic = record {
    execution_duration = 7;
    cprogram = pos 7;
    mprogram = pos 7;
    sequence = pos 7;
    actf = pos 7;
    acts = pos 7;
    alarm = pos 7;
    dim = pos 7;
    absolute = pos 7 ∷ pos 7 ∷ pos 7 ∷ [];
    relative = pos 7 ∷ pos 7 ∷ pos 7 ∷ [];
    actual = pos 7 ∷ pos 7 ∷ pos 7 ∷ [];
    load = pos 7 ∷ pos 7 ∷ pos 7 ∷ [];
  };
  tool_info = record { execution_duration = 7; id = pos 7; group = pos 7 };
  program = record { execution_duration = 7; number = pos 7; header = junk 2048 };
  contents = record { execution_duration = 7; size = pos 7; contents = none };
  program_name = record { execution_duration = 7; number = pos 7; name = junk 36; path = junk 256 };
  block = record { execution_duration = 7; block = junk 2048; prg_num = pos 7; blk_num = pos 7 };
  header = junk 2048;
  heap_byte = 7;
}

abbrev pub bench : Env ℕ ℤ
bench = record {
  focas = bench_focas;
  clock_gettime = λ w. (record { tv_sec = 1; tv_nsec = 0 }, w);
  floats = bench_floats;
  uninit = λ w. bench_uninit;
  max_axis = 3;
}

abbrev pub bench_reader : Reader ℕ ℤ
bench_reader = record {
  world = 0;
  axis_count = pos 3;
  libh = 5;
  divisors = pos 1 ∷ pos 1 ∷ pos 1 ∷ [];
  tool_management_enabled = true;
  use_modal_tool_data = false;
}

abbrev pub bench_driver : Driver ℕ ℤ
bench_driver = record {
  reader = bench_reader;
  updates = [];
  meta = [];
  blocks = 0;
  device_id = zeroed 128;
  c_program_num = negsuc 0;
  m_program_num = negsuc 0;
  m_program_path = zeroed 256;
  part_count = negsuc 0;
  last_info = none;
  last_part_count = none;
  last_cycle_time = none;
  cycle_part_count = negsuc 0;
  name_program_num = negsuc 0;
  last_message = none;
  last_status = none;
  last_dynamic = none;
  last_tool_info = none;
  header_program_num = pos 0;
  contents_program_num = negsuc 0;
  last_block = none;
}

abbrev pub bench_print : Object ℤ → Object ℤ → Bytes
bench_print updates meta = codes "{}"

abbrev pub bench_outside : Outside ℕ ℤ
bench_outside = record {
  print_unformatted = λ updates meta w. some (bench_print updates meta);
  conf_set = λ name value w. (false, w);
  producer_new = λ w. (true, w);
  producev = λ m w. (pos 0, w);
  queue_full = negsuc 183;
  poll = λ timeout w. ([], w);
  flush = λ timeout w. (pos 0 ∷ [], w);
  outq_len = λ w. pos 0;
  destroy = λ w. w;
  running_condition = λ w. true;
}

abbrev pub bench_process : Process ℕ ℤ
bench_process = record {
  driver = bench_driver;
  produced = [];
  refused = [];
  printed = [];
  slept = [];
  log = [];
  cleanup_at_exit = false;
}

-- A file with all that `read_config` asks for.
abbrev pub bench_sources : Bytes → Sources ℤ
bench_sources cfg_file = record {
  file_read = true;
  device_ip_variable = none;
  device_port_variable = none;
  ip = none;
  port = none;
  machine_host = some (pos 1);
  machine_port = some (pos 8193);
  minimum_polling_interval = some (pos 1);
}
