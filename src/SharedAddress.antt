-- ===== src/SharedAddress.antt =====
-- The shared memory with the client's address, as `cmd_server` and `photo_trans` map it.
use handle_wifi_camera_itop.Common.{ℕ, ◌==◌, if◌then◌else◌, Option, some, none}
use handle_wifi_camera_itop.Public.ErrorCode.{
  ok, get_ipc_key_fail, get_addr_shm_id_fail, map_addr_share_mem_fail,
}
use handle_wifi_camera_itop.Public.Report.{get_ipc_key}

abbrev pub ipc_key_seek_for_client_addr_shm : ℕ
ipc_key_seek_for_client_addr_shm = 0x01

-- What `shmat` returns. The callers take NULL for the failure, but the kernel returns (void *)-1, at
-- which nothing can be read or written.
pub data Mapping : Type 0 where
  mapped null invalid : Mapping

-- What the kernel answers: `none` is -1.
pub record Shm : Type 0 where
  pub ftok : ℕ → Option ℕ
  pub shmget : Option ℕ
  pub shmat : Mapping

-- The beginning of both functions ends with a `return`, or with global_addr.
pub data Attached : Type 0 where
  refused : ℕ → Attached
  attached : Mapping → Attached

unfoldable pub attach : Shm → Attached
attach k =
    let (ret, key) = get_ipc_key k.ftok ipc_key_seek_for_client_addr_shm in
    if ret == ok
    then elim k.shmget [
      | none ↦ refused get_addr_shm_id_fail
      | some shm_id ↦ elim k.shmat [
        | null ↦ refused map_addr_share_mem_fail
        | mapped ↦ attached mapped
        | invalid ↦ attached invalid
      ]
    ]
    else refused get_ipc_key_fail
