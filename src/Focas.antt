-- ===== src/Focas.antt =====
-- The FOCAS library (external/fwlib, which is not in the repository's tree), as the driver calls it:
-- a parameter. A call takes the world, the control and the network behind it, and gives a return
-- code, what it wrote through its pointers, and the world after it.
use fanuc_driver.Prelude.{ℕ, ℤ, List}
use fanuc_driver.CString.{Bytes}

-- The return codes that the driver names, and any other.
pub data EwCode : Type 0 where
  ew_ok ew_busy ew_data ew_buffer ew_mode : EwCode
  ew_other : ℤ → EwCode

abbrev pub Call : Type 0 → Type 0 → Type 0
Call W A = W → EwCode × A × W

-- The library's structs, with the fields that the driver reads.
pub record Odbsys : Type 0 where
  pub addinfo : ℤ
  pub max_axis : ℤ
  pub cnc_type : Bytes
  pub mt_type : Bytes
  pub series : Bytes
  pub version : Bytes
  pub axes : Bytes

pub record Odbaxdt : Type 0 where
  pub name : Bytes
  pub dec : ℤ
  pub unit : ℤ
  pub flag : ℤ

pub record Odbaxisname : Type 0 where
  pub name : ℕ
  pub suff : ℕ

pub record Odbexeprg : Type 0 where
  pub name : Bytes
  pub o_num : ℤ

pub record Opmsg : Type 0 where
  pub datano : ℤ
  pub message : Bytes  -- `data`

pub record Odbst : Type 0 where
  pub aut : ℤ
  pub run : ℤ
  pub motion : ℤ
  pub mstb : ℤ
  pub emergency : ℤ
  pub alarm : ℤ
  pub edit : ℤ
  pub hdck : ℤ

pub record Iodbtime : Type 0 where
  pub minute : ℤ
  pub msec : ℤ

pub record Odbdy2 : Type 0 where
  pub alarm : ℤ
  pub prgnum : ℤ
  pub prgmnum : ℤ
  pub seqnum : ℤ
  pub actf : ℤ
  pub acts : ℤ
  pub absolute : List ℤ  -- `pos.faxis.absolute`, and so the two below
  pub relative : List ℤ
  pub machine : List ℤ

pub record Odbsvload : Type 0 where
  pub load : ℤ  -- `svload.data`
  pub dec : ℤ  -- `svload.dec`

pub record Odbtlife3 : Type 0 where
  pub datano : ℤ
  pub tool : ℤ  -- `data`

-- What a read into a buffer gave: the length it reports and the bytes it wrote.
pub record Upload : Type 0 where
  pub len : ℤ
  pub written : Bytes

pub record Focas (W : Type 0) : Type 0 where
  pub cnc_startupprocess : ℕ → Bytes → Call W (Unit {0})
  pub cnc_allclibhndl3 : Bytes → ℤ → ℕ → Call W ℕ
  pub cnc_setpath : ℕ → ℕ → Call W (Unit {0})
  pub cnc_freelibhndl : ℕ → Call W (Unit {0})
  pub cnc_sysinfo : ℕ → Call W Odbsys
  pub cnc_rdcncid : ℕ → Call W (List ℕ)
  pub cnc_rdetherinfo : ℕ → Call W (ℤ × ℤ)
  pub cnc_rdaxisdata : ℕ → ℕ → List ℤ → ℕ → ℕ → Call W (List Odbaxdt)
  pub cnc_getfigure : ℕ → ℕ → Call W (List ℤ)
  pub cnc_rdaxisname : ℕ → ℤ → Call W (ℤ × List Odbaxisname)
  pub cnc_exeprgname : ℕ → Call W Odbexeprg
  pub cnc_exeprgname2 : ℕ → Call W Bytes
  pub cnc_rdopmsg : ℕ → ℕ → ℕ → Call W Opmsg
  pub cnc_statinfo : ℕ → Call W Odbst
  pub cnc_rdparam : ℕ → ℕ → ℕ → Call W ℤ
  pub cnc_rdtimer : ℕ → ℕ → Call W Iodbtime
  pub cnc_rddynamic2 : ℕ → Call W Odbdy2
  pub cnc_rdsvmeter : ℕ → ℕ → Call W (ℤ × List Odbsvload)
  pub cnc_rdntool : ℕ → ℕ → Call W Odbtlife3
  pub cnc_modal : ℕ → ℕ → ℕ → Call W ℤ
  pub cnc_upstart : ℕ → ℤ → Call W (Unit {0})
  pub cnc_upload3 : ℕ → ℤ → Call W Upload
  pub cnc_upend3 : ℕ → Call W (Unit {0})
  pub cnc_upstart4 : ℕ → ℕ → Bytes → Call W (Unit {0})
  pub cnc_upload4 : ℕ → ℤ → Call W Upload
  pub cnc_upend4 : ℕ → Call W (Unit {0})
  pub cnc_rdexecprog : ℕ → ℕ → Call W (ℕ × Bytes)
  pub cnc_rdactpt : ℕ → Call W (ℤ × ℤ)
