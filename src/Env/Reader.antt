-- ===== src/Env/Reader.antt =====
-- The state of driver/src/data.c, its file-level variables and the two flags of
-- `getMachineToolInfo`, and the steps that the readings share.
pub mod Laws
use fanuc_driver.Prelude.{
  ℕ, ℤ, List, Bool, Option, none, some, pos, negsuc, true, false, ltb, if◌then◌else◌, length, set,
  returns, fails, Exec, ◌>>=◌, get_elem?,
}
use fanuc_driver.Focas.{EwCode, ew_ok, ew_busy, ew_data, ew_buffer, ew_mode, ew_other, Call}
use fanuc_driver.Clock.{Timespec}

pub record Reader (W D : Type 0) : Type 0 where
  pub world : W
  pub axis_count : ℤ  -- short axisCount
  pub libh : ℕ
  pub divisors : List D  -- double divisors[MAX_AXIS]
  pub tool_management_enabled : Bool
  pub use_modal_tool_data : Bool

abbrev pub Get : Type 0 → Type 0 → Type 0 → Type 0
Get W D A = Exec (Reader W D) A

abbrev pub is_ok : EwCode → Bool
is_ok ew_ok = true
is_ok _ = false

module _ {W D : Type 0} where
  -- A library call on the handle.
  abbrev pub call : {A : Type 0} → (ℕ → Call W A) → Get W D (EwCode × A)
  call f s = let (ret, out, w) = f s.libh s.world in (returns (ret, out), record s { world = w })

  -- `if (... != EW_OK) return 1`
  abbrev pub ok_or_fail : {A : Type 0} → EwCode × A → Get W D A
  ok_or_fail (ew_ok, out) s = (returns out, s)
  ok_or_fail (ew_busy, out) s = (fails, s)
  ok_or_fail (ew_data, out) s = (fails, s)
  ok_or_fail (ew_buffer, out) s = (fails, s)
  ok_or_fail (ew_mode, out) s = (fails, s)
  ok_or_fail (ew_other z, out) s = (fails, s)

  abbrev pub read : {A : Type 0} → (ℕ → Call W A) → Get W D A
  read f = call f >>= ok_or_fail

  abbrev pub now : (W → Timespec × W) → Get W D Timespec
  now clock s = let (t, w) = clock s.world in (returns t, record s { world = w })

-- The element of an array at a signed index, and the write of one.
abbrev pub at {ℓ} : {A : Type ℓ} → List A → ℤ → Option A
at xs (pos n) = get_elem? xs n
at xs (negsuc n) = none

abbrev pub set_at {ℓ} : {A : Type ℓ} → List A → ℤ → A → Option (List A)
set_at xs (pos n) v = if ltb n (length xs) then some (set xs n v) else none
set_at xs (negsuc n) v = none
