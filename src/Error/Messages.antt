-- ===== src/Error/Messages.antt =====
-- The messages of corebluetooth/src/error.rs tell the named errors of one domain apart.
use text.Mathlib.Text.{◌==◌ as str_eq}
use Prim.Native.String.{String}
use corebluetooth_rs.Prelude.{
  Option, none, some, ◌≡◌, refl, arith, if◌then◌else◌, Bool, true, false,
}
use corebluetooth_rs.Error.Codes.{CbError, CbAttError}
use corebluetooth_rs.Error.Display.{Printer, fmt_bluetooth, fmt_att}

abbrev is_named_bluetooth : CbError → Bool
is_named_bluetooth (CbError.unlisted code) = false
is_named_bluetooth _ = true

-- Reads a message back.
read_bluetooth : String → Option CbError
read_bluetooth s =
    if str_eq s "unknown"
    then some CbError.unknown
    else if str_eq s "invalid parameters"
    then some CbError.invalid_parameters
    else if str_eq s "invalid handle"
    then some CbError.invalid_handle
    else if str_eq s "not connected"
    then some CbError.not_connected
    else if str_eq s "out of space"
    then some CbError.out_of_space
    else if str_eq s "operation cancelled"
    then some CbError.operation_cancelled
    else if str_eq s "connection timeout"
    then some CbError.connection_timeout
    else if str_eq s "peripheral disconnected"
    then some CbError.peripheral_disconnected
    else if str_eq s "UUID not allowed"
    then some CbError.uuid_not_allowed
    else if str_eq s "already advertising"
    then some CbError.already_advertising
    else if str_eq s "connection failed"
    then some CbError.connection_failed
    else if str_eq s "connection limit reached"
    then some CbError.connection_limit_reached
    else if str_eq s "unknown device"
    then some CbError.unknown_device
    else if str_eq s "operation not supported"
    then some CbError.operation_not_supported
    else if str_eq s "peer removed pairing information"
    then some CbError.peer_removed_pairing_information
    else if str_eq s "encryption timed out"
    then some CbError.encryption_timed_out
    else if str_eq s "too many LE paired devices"
    then some CbError.too_many_le_paired_devices
    else if str_eq s "LE GATT exceeded background notification limit"
    then some CbError.le_gatt_exceeded_background_notification_limit
    else if str_eq s "LE GATT near background notification limit"
    then some CbError.le_gatt_near_background_notification_limit
    else none

read_bluetooth-fmt_bluetooth :
    (printer : Printer) (e : CbError)
    → is_named_bluetooth e ≡ true
    → read_bluetooth (fmt_bluetooth printer e) ≡ some e
unfolding read_bluetooth fmt_bluetooth
read_bluetooth-fmt_bluetooth printer CbError.unknown h = refl
read_bluetooth-fmt_bluetooth printer CbError.invalid_parameters h = refl
read_bluetooth-fmt_bluetooth printer CbError.invalid_handle h = refl
read_bluetooth-fmt_bluetooth printer CbError.not_connected h = refl
read_bluetooth-fmt_bluetooth printer CbError.out_of_space h = refl
read_bluetooth-fmt_bluetooth printer CbError.operation_cancelled h = refl
read_bluetooth-fmt_bluetooth printer CbError.connection_timeout h = refl
read_bluetooth-fmt_bluetooth printer CbError.peripheral_disconnected h = refl
read_bluetooth-fmt_bluetooth printer CbError.uuid_not_allowed h = refl
read_bluetooth-fmt_bluetooth printer CbError.already_advertising h = refl
read_bluetooth-fmt_bluetooth printer CbError.connection_failed h = refl
read_bluetooth-fmt_bluetooth printer CbError.connection_limit_reached h = refl
read_bluetooth-fmt_bluetooth printer CbError.unknown_device h = refl
read_bluetooth-fmt_bluetooth printer CbError.operation_not_supported h = refl
read_bluetooth-fmt_bluetooth printer CbError.peer_removed_pairing_information h = refl
read_bluetooth-fmt_bluetooth printer CbError.encryption_timed_out h = refl
read_bluetooth-fmt_bluetooth printer CbError.too_many_le_paired_devices h = refl
read_bluetooth-fmt_bluetooth printer CbError.le_gatt_exceeded_background_notification_limit h = refl
read_bluetooth-fmt_bluetooth printer CbError.le_gatt_near_background_notification_limit h = refl
read_bluetooth-fmt_bluetooth printer (CbError.unlisted code) h = absurd (ground arith)

-- Two errors that have names in the source and print alike are the same error.
fmt_bluetooth-injective :
    (printer : Printer) (a b : CbError)
    → is_named_bluetooth a ≡ true
    → is_named_bluetooth b ≡ true
    → fmt_bluetooth printer a ≡ fmt_bluetooth printer b
    → a ≡ b
fmt_bluetooth-injective printer a b p q e =
    cc (read_bluetooth-fmt_bluetooth printer a p, read_bluetooth-fmt_bluetooth printer b q)

abbrev is_named_att : CbAttError → Bool
is_named_att (CbAttError.unlisted code) = false
is_named_att _ = true

-- Reads a message back.
read_att : String → Option CbAttError
read_att s =
    if str_eq s "success"
    then some CbAttError.success
    else if str_eq s "invalid handle"
    then some CbAttError.invalid_handle
    else if str_eq s "read not permitted"
    then some CbAttError.read_not_permitted
    else if str_eq s "write not permitted"
    then some CbAttError.write_not_permitted
    else if str_eq s "invalid PDU"
    then some CbAttError.invalid_pdu
    else if str_eq s "insufficient authentication"
    then some CbAttError.insufficient_authentication
    else if str_eq s "request not supported"
    then some CbAttError.request_not_supported
    else if str_eq s "invalid offset"
    then some CbAttError.invalid_offset
    else if str_eq s "insufficient authorization"
    then some CbAttError.insufficient_authorization
    else if str_eq s "prepare queue full"
    then some CbAttError.prepare_queue_full
    else if str_eq s "attribute not found"
    then some CbAttError.attribute_not_found
    else if str_eq s "attribute not long"
    then some CbAttError.attribute_not_long
    else if str_eq s "insufficient encryption key size"
    then some CbAttError.insufficient_encryption_key_size
    else if str_eq s "invalid attribute value length"
    then some CbAttError.invalid_attribute_value_length
    else if str_eq s "unlikely error"
    then some CbAttError.unlikely_error
    else if str_eq s "insufficient encryption"
    then some CbAttError.insufficient_encryption
    else if str_eq s "unsupported group type"
    then some CbAttError.unsupported_group_type
    else if str_eq s "insufficient resources"
    then some CbAttError.insufficient_resources
    else none

read_att-fmt_att :
    (printer : Printer) (e : CbAttError)
    → is_named_att e ≡ true
    → read_att (fmt_att printer e) ≡ some e
unfolding read_att fmt_att
read_att-fmt_att printer CbAttError.success h = refl
read_att-fmt_att printer CbAttError.invalid_handle h = refl
read_att-fmt_att printer CbAttError.read_not_permitted h = refl
read_att-fmt_att printer CbAttError.write_not_permitted h = refl
read_att-fmt_att printer CbAttError.invalid_pdu h = refl
read_att-fmt_att printer CbAttError.insufficient_authentication h = refl
read_att-fmt_att printer CbAttError.request_not_supported h = refl
read_att-fmt_att printer CbAttError.invalid_offset h = refl
read_att-fmt_att printer CbAttError.insufficient_authorization h = refl
read_att-fmt_att printer CbAttError.prepare_queue_full h = refl
read_att-fmt_att printer CbAttError.attribute_not_found h = refl
read_att-fmt_att printer CbAttError.attribute_not_long h = refl
read_att-fmt_att printer CbAttError.insufficient_encryption_key_size h = refl
read_att-fmt_att printer CbAttError.invalid_attribute_value_length h = refl
read_att-fmt_att printer CbAttError.unlikely_error h = refl
read_att-fmt_att printer CbAttError.insufficient_encryption h = refl
read_att-fmt_att printer CbAttError.unsupported_group_type h = refl
read_att-fmt_att printer CbAttError.insufficient_resources h = refl
read_att-fmt_att printer (CbAttError.unlisted code) h = absurd (ground arith)

-- Two errors that have names in the source and print alike are the same error.
fmt_att-injective :
    (printer : Printer) (a b : CbAttError)
    → is_named_att a ≡ true
    → is_named_att b ≡ true
    → fmt_att printer a ≡ fmt_att printer b
    → a ≡ b
fmt_att-injective printer a b p q e =
    cc (read_att-fmt_att printer a p, read_att-fmt_att printer b q)
