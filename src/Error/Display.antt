-- ===== src/Error/Display.antt =====
-- `impl Display for ErrorKind` and `impl Display for Error` of corebluetooth/src/error.rs: the
-- message of each kind. How a number and an `NSError` are printed is a parameter, as is the
-- text of the two formats with a number in them, built by `format!`.
use Prim.Native.String.{String}
use corebluetooth_rs.Prelude.{ℕ}
use corebluetooth_rs.Error.Codes.{CbError, CbAttError, NsError}
use corebluetooth_rs.Error.Sync.{ErrorKind, Error, ErrorData}

-- What the standard library and Foundation print: `{prefix} ({code})`, and an `NSError`.
pub record Printer : Type 0 where
  pub with_code : String → ℕ → String
  pub nserror : NsError → String

module _ (printer : Printer) where
  unfoldable pub fmt_bluetooth : CbError → String
  fmt_bluetooth CbError.unknown = "unknown"
  fmt_bluetooth CbError.invalid_parameters = "invalid parameters"
  fmt_bluetooth CbError.invalid_handle = "invalid handle"
  fmt_bluetooth CbError.not_connected = "not connected"
  fmt_bluetooth CbError.out_of_space = "out of space"
  fmt_bluetooth CbError.operation_cancelled = "operation cancelled"
  fmt_bluetooth CbError.connection_timeout = "connection timeout"
  fmt_bluetooth CbError.peripheral_disconnected = "peripheral disconnected"
  fmt_bluetooth CbError.uuid_not_allowed = "UUID not allowed"
  fmt_bluetooth CbError.already_advertising = "already advertising"
  fmt_bluetooth CbError.connection_failed = "connection failed"
  fmt_bluetooth CbError.connection_limit_reached = "connection limit reached"
  fmt_bluetooth CbError.unknown_device = "unknown device"
  fmt_bluetooth CbError.operation_not_supported = "operation not supported"
  fmt_bluetooth CbError.peer_removed_pairing_information = "peer removed pairing information"
  fmt_bluetooth CbError.encryption_timed_out = "encryption timed out"
  fmt_bluetooth CbError.too_many_le_paired_devices = "too many LE paired devices"
  fmt_bluetooth CbError.le_gatt_exceeded_background_notification_limit =
      "LE GATT exceeded background notification limit"
  fmt_bluetooth CbError.le_gatt_near_background_notification_limit =
      "LE GATT near background notification limit"
  fmt_bluetooth (CbError.unlisted code) = printer.with_code "unknown bluetooth error" code

  unfoldable pub fmt_att : CbAttError → String
  fmt_att CbAttError.success = "success"
  fmt_att CbAttError.invalid_handle = "invalid handle"
  fmt_att CbAttError.read_not_permitted = "read not permitted"
  fmt_att CbAttError.write_not_permitted = "write not permitted"
  fmt_att CbAttError.invalid_pdu = "invalid PDU"
  fmt_att CbAttError.insufficient_authentication = "insufficient authentication"
  fmt_att CbAttError.request_not_supported = "request not supported"
  fmt_att CbAttError.invalid_offset = "invalid offset"
  fmt_att CbAttError.insufficient_authorization = "insufficient authorization"
  fmt_att CbAttError.prepare_queue_full = "prepare queue full"
  fmt_att CbAttError.attribute_not_found = "attribute not found"
  fmt_att CbAttError.attribute_not_long = "attribute not long"
  fmt_att CbAttError.insufficient_encryption_key_size = "insufficient encryption key size"
  fmt_att CbAttError.invalid_attribute_value_length = "invalid attribute value length"
  fmt_att CbAttError.unlikely_error = "unlikely error"
  fmt_att CbAttError.insufficient_encryption = "insufficient encryption"
  fmt_att CbAttError.unsupported_group_type = "unsupported group type"
  fmt_att CbAttError.insufficient_resources = "insufficient resources"
  fmt_att (CbAttError.unlisted code) = printer.with_code "unknown bluetooth ATT error" code

  unfoldable pub fmt_kind : ErrorKind → String
  unfolding fmt_bluetooth fmt_att
  fmt_kind (ErrorKind.bluetooth cb_error) = fmt_bluetooth cb_error
  fmt_kind (ErrorKind.att cb_att_error) = fmt_att cb_att_error
  fmt_kind ErrorKind.other = "other error"

  unfoldable pub fmt_error : Error → String
  fmt_error e = elim (e.payload) [
    | ErrorData.os error ↦ printer.nserror error
    | ErrorData.simple kind ↦ fmt_kind kind
  ]
