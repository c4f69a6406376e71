-- ===== src/Public/Report.antt =====
-- `echo_error_prompt`, `write_log` and `get_ipc_key` of public.c.
pub mod Codes
use Prim.Native.String.{String}
use handle_wifi_camera_itop.Common.{
  ℕ, suc, ◌+◌, ◌≤◌, ◌<◌, ◌≡◌, refl, ◌⊎◌, Option, some, none, arith, ltb, if◌then◌else◌, length,
  get_elem?,
}
use handle_wifi_camera_itop.Public.ErrorCode.{ok, ftok_ipc_key_fail, enum_error_code_list_end}
use handle_wifi_camera_itop.Public.Messages.{error_mesg}

-- One report: the place, the message and the code; the fixed text for a code outside the
-- enumeration; or a read of `error_mesg[]` past its end, which C leaves undefined.
pub data Report : Type 0 where
  message : String → String → ℕ → String → ℕ → Report
  fatal : Report
  out_of_bounds : Report

lookup_message : ℕ → String → String → ℕ → Report
lookup_message i_error_code file function line = elim (get_elem? error_mesg i_error_code) [
  | none ↦ out_of_bounds
  | some m ↦ message file function line m i_error_code
]

pub echo_error_prompt : ℕ → String → String → ℕ → Report
echo_error_prompt i_error_code file function line =
    if ltb i_error_code enum_error_code_list_end
    then lookup_message i_error_code file function line
    else fatal

pub write_log : ℕ → String → String → ℕ → Report
write_log i_error_code file function line = lookup_message i_error_code file function line

-- `ftok` answers -1 (`none`) or a key; the C stores the answer in `*key` in both cases.
unfoldable pub get_ipc_key : (ℕ → Option ℕ) → ℕ → ℕ × Option ℕ
get_ipc_key ftok seed = elim (ftok seed) [
  | none ↦ (ftok_ipc_key_fail, none)
  | some key ↦ (ok, some key)
]
