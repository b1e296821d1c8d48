-- ===== src/Services/Identity.antt =====
-- c/src/identity.c: the Identity objects of the module and of devices, and the table of active nodes.
pub mod Fills
use cmee1y1_clients.Base.{ℕ, ◌+◌, Option, List, codes}
use cmee1y1_clients.Memory.{Buffer, bp_st_u16, bp_ld_u16, bp_ld_u32, slice}
use cmee1y1_clients.State.{Env, M}
use cmee1y1_clients.Call.{CallSpec, bp_client_call}
use cmee1y1_clients.Services.{path_fill, with_path, no_fill}

-- A `bp_id_object_t`.
pub record IdObject : Type 0 where
  pub vendor_id : ℕ
  pub device_type : ℕ
  pub product_code : ℕ
  pub major_rev : ℕ
  pub minor_rev : ℕ
  pub status : ℕ
  pub serial_number : ℕ
  pub product_name : List ℕ

-- The object at offset `o`.
unfoldable pub decode_id : Buffer → ℕ → IdObject
decode_id p o = record {
  vendor_id = bp_ld_u16 p o;
  device_type = bp_ld_u16 p (o + 0x02);
  product_code = bp_ld_u16 p (o + 0x04);
  major_rev = p (o + 0x06);
  minor_rev = p (o + 0x07);
  status = bp_ld_u16 p (o + 0x08);
  serial_number = bp_ld_u32 p (o + 0x0A);
  product_name = slice p (o + 0x0E) 32;
}

unfoldable pub gid_dev_fill : List ℕ → ℕ → Buffer → Buffer
gid_dev_fill path instance_id p = bp_st_u16 (path_fill path p) 0x178 instance_id

-- The place of the answer is cleared, the instance stands behind it.
unfoldable pub gids_fill : List ℕ → ℕ → Buffer → Buffer
gids_fill path instance_id p = bp_st_u16 (bp_st_u16 (path_fill path p) 0x178 0) 0x17A instance_id

unfoldable pub exd_fill : List ℕ → ℕ → Buffer → Buffer
exd_fill path instance_id p = bp_st_u16 (path_fill path p) 0x25A instance_id

unfoldable pub icp_fill : List ℕ → ℕ → Buffer → Buffer
icp_fill path instance_id p = bp_st_u16 (path_fill path p) 0x18C instance_id

abbrev pub id_local_spec : CallSpec IdObject
id_local_spec = record {
  fn_name = codes "OCXcip_GetIdObject";
  payload_size = 0xA8;
  fill_payload = no_fill;
  read_reply = λ p. decode_id p 0x78;
  timeout_ms = 5000;
}

abbrev pub device_id_spec : ℕ → List ℕ → CallSpec IdObject
device_id_spec instance_id path = record {
  fn_name = codes "OCXcip_GetDeviceIdObject";
  payload_size = 0x1B0;
  fill_payload = gid_dev_fill path instance_id;
  read_reply = λ p. decode_id p 0x178;
  timeout_ms = 5000;
}

abbrev pub device_status_spec : ℕ → List ℕ → CallSpec ℕ
device_status_spec instance_id path = record {
  fn_name = codes "OCXcip_GetDeviceIdStatus";
  payload_size = 0x180;
  fill_payload = gids_fill path instance_id;
  read_reply = λ p. bp_ld_u16 p 0x178;
  timeout_ms = 5000;
}

-- `BP_EX_DEV_OBJECT_BYTES` is 226.
abbrev pub ex_dev_spec : ℕ → List ℕ → CallSpec (List ℕ)
ex_dev_spec instance_id path = record {
  fn_name = codes "OCXcip_GetExDevObject";
  payload_size = 0x260;
  fill_payload = exd_fill path instance_id;
  read_reply = λ p. slice p 0x178 226;
  timeout_ms = 5000;
}

-- `BP_DEVICE_ICP_OBJECT_BYTES` is 20.
abbrev pub icp_spec : ℕ → List ℕ → CallSpec (List ℕ)
icp_spec instance_id path = record {
  fn_name = codes "OCXcip_GetDeviceICPObject";
  payload_size = 0x190;
  fill_payload = icp_fill path instance_id;
  read_reply = λ p. slice p 0x178 20;
  timeout_ms = 5000;
}

-- The two words of the bitmap.
abbrev pub active_nodes_spec : CallSpec (ℕ × ℕ)
active_nodes_spec = record {
  fn_name = codes "OCXcip_GetActiveNodeTable";
  payload_size = 0x80;
  fill_payload = no_fill;
  read_reply = λ p. (bp_ld_u32 p 0x78, bp_ld_u32 p 0x7C);
  timeout_ms = 5000;
}

module _ {W : Type 0} (env : Env W) where
  unfoldable pub bp_client_get_id_local : M W IdObject
  bp_client_get_id_local = bp_client_call env id_local_spec

  unfoldable pub bp_client_get_device_id : Option (List ℕ) → ℕ → M W IdObject
  bp_client_get_device_id path instance_id =
      with_path (λ name. bp_client_call env (device_id_spec instance_id name)) path

  unfoldable pub bp_client_get_device_id_status : Option (List ℕ) → ℕ → M W ℕ
  bp_client_get_device_id_status path instance_id =
      with_path (λ name. bp_client_call env (device_status_spec instance_id name)) path

  unfoldable pub bp_client_get_ex_dev_object : Option (List ℕ) → ℕ → M W (List ℕ)
  bp_client_get_ex_dev_object path instance_id =
      with_path (λ name. bp_client_call env (ex_dev_spec instance_id name)) path

  unfoldable pub bp_client_get_device_icp_object : Option (List ℕ) → ℕ → M W (List ℕ)
  bp_client_get_device_icp_object path instance_id =
      with_path (λ name. bp_client_call env (icp_spec instance_id name)) path

  unfoldable pub bp_client_get_active_nodes : M W (ℕ × ℕ)
  bp_client_get_active_nodes = bp_client_call env active_nodes_spec
