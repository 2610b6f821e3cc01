-- ===== src/Types.antt =====
-- The structs of driver/src/data.h, over the type `D` of doubles. `short` and `long` are integers,
-- `unsigned long` is a number, and a char array is a list of bytes.
use fanuc_driver.Prelude.{ℕ, ℤ, List, Option}
use fanuc_driver.CString.{Bytes}

pub record MachineAxisInfo (D : Type 0) : Type 0 where
  pub id : Bytes  -- char[2]
  pub index : ℤ
  pub suffix : Bytes  -- char[2]
  pub divisor : D
  pub name : Bytes  -- char[5]
  pub flag : ℤ
  pub unit : ℤ
  pub unith : Bytes  -- char[20]
  pub decimal : ℤ

pub record MachineInfo (D : Type 0) : Type 0 where
  pub execution_duration : ℕ
  pub id : Bytes  -- char[36]
  pub max_axis : ℤ
  pub addinfo : ℤ
  pub cnc_type : Bytes  -- char[3]
  pub mt_type : Bytes  -- char[3]
  pub series : Bytes  -- char[5]
  pub version : Bytes  -- char[5]
  pub axes_count_chk : Bytes  -- char[3]
  pub axes_count : ℤ
  pub ether_type : ℤ
  pub ether_device : ℤ
  pub axes : List (MachineAxisInfo D)  -- [MAX_AXIS]

pub record MachineMessage : Type 0 where
  pub execution_duration : ℕ
  pub number : ℤ
  pub text : Bytes  -- char[256]

pub record MachineRawStatus : Type 0 where
  pub alarm : ℤ
  pub aut : ℤ
  pub edit : ℤ
  pub emergency : ℤ
  pub hdck : ℤ
  pub motion : ℤ
  pub mstb : ℤ
  pub run : ℤ

pub record MachineStatus : Type 0 where
  pub execution_duration : ℕ
  pub execution : Bytes  -- char[20]
  pub mode : Bytes  -- char[20]
  pub estop : Bytes  -- char[20]
  pub raw : MachineRawStatus

pub record MachinePartCount : Type 0 where
  pub execution_duration : ℕ
  pub count : ℤ

pub record MachineRawCycleTime : Type 0 where
  pub minutes : ℤ
  pub milliseconds : ℤ

pub record MachineCycleTime : Type 0 where
  pub execution_duration : ℕ
  pub time : ℤ
  pub raw : MachineRawCycleTime

pub record MachineDynamic (D : Type 0) : Type 0 where
  pub execution_duration : ℕ
  pub cprogram : ℤ
  pub mprogram : ℤ
  pub sequence : ℤ
  pub actf : ℤ
  pub acts : ℤ
  pub alarm : ℤ
  pub dim : ℤ
  pub absolute : List D  -- [MAX_AXIS], and so the three below
  pub relative : List D
  pub actual : List D
  pub load : List D

pub record MachineToolInfo : Type 0 where
  pub execution_duration : ℕ
  pub id : ℤ
  pub group : ℤ

pub record MachineProgram : Type 0 where
  pub execution_duration : ℕ
  pub number : ℤ
  pub header : Bytes  -- char[2048]

-- `contents` is NULL where nothing was read.
pub record MachineProgramContents : Type 0 where
  pub execution_duration : ℕ
  pub size : ℤ
  pub contents : Option Bytes

pub record MachineProgramName : Type 0 where
  pub execution_duration : ℕ
  pub number : ℤ
  pub name : Bytes  -- char[36]
  pub path : Bytes  -- char[256]

pub record MachineBlock : Type 0 where
  pub execution_duration : ℕ
  pub block : Bytes  -- char[2048]
  pub prg_num : ℤ
  pub blk_num : ℤ
