-- ===== src/Error/Codes.antt =====
-- `CBError` and `CBATTError` of the third-party crate objc2-core-bluetooth: newtypes over a code,
-- with the named constants that corebluetooth/src/error.rs matches on. A code without a name
-- there is `unlisted`. How a number is read as one of them is the parameter `ErrorCodes`.
use corebluetooth_rs.Prelude.{ℕ}

pub data CbError : Type 0 where
  unknown invalid_parameters invalid_handle not_connected out_of_space : CbError
  operation_cancelled connection_timeout peripheral_disconnected uuid_not_allowed : CbError
  already_advertising connection_failed connection_limit_reached unknown_device : CbError
  operation_not_supported peer_removed_pairing_information encryption_timed_out : CbError
  too_many_le_paired_devices le_gatt_exceeded_background_notification_limit : CbError
  le_gatt_near_background_notification_limit : CbError
  unlisted : ℕ → CbError

pub data CbAttError : Type 0 where
  success invalid_handle read_not_permitted write_not_permitted invalid_pdu : CbAttError
  insufficient_authentication request_not_supported invalid_offset : CbAttError
  insufficient_authorization prepare_queue_full attribute_not_found attribute_not_long : CbAttError
  insufficient_encryption_key_size invalid_attribute_value_length unlikely_error : CbAttError
  insufficient_encryption unsupported_group_type insufficient_resources : CbAttError
  unlisted : ℕ → CbAttError

-- The error domains that the code compares with, and any other.
pub data Domain : Type 0 where
  cb_error_domain cb_att_error_domain : Domain
  foreign_domain : ℕ → Domain

-- An `NSError` as the code reads it.
pub record NsError : Type 0 where
  pub domain : Domain
  pub code : ℕ

-- `CBError(code)` and `CBATTError(code)`.
pub record ErrorCodes : Type 0 where
  pub cb_error : ℕ → CbError
  pub cb_att_error : ℕ → CbAttError
