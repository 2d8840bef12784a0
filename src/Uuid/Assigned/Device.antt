-- ===== src/Uuid/Assigned/Device.antt =====
-- corebluetooth/src/btuuid.rs, module `characteristics`: the name and the assigned number of each constant
-- `pub const NAME: Uuid = bluetooth_uuid_from_u16(0x…)`, in the order of the source.
use Prim.Native.String.{String}
use corebluetooth_rs.Prelude.{ℕ, List, [], ◌∷◌}

abbrev pub characteristics_device : List (String × ℕ)
characteristics_device =
    ("DEVICE_NAME", 0x2A00)
    ∷ ("APPEARANCE", 0x2A01)
    ∷ ("PERIPHERAL_PRIVACY_FLAG", 0x2A02)
    ∷ ("RECONNECTION_ADDRESS", 0x2A03)
    ∷ ("PERIPHERAL_PREFERRED_CONNECTION_PARAMETERS", 0x2A04)
    ∷ ("SERVICE_CHANGED", 0x2A05)
    ∷ ("ALERT_LEVEL", 0x2A06)
    ∷ ("TX_POWER_LEVEL", 0x2A07)
    ∷ ("DATE_TIME", 0x2A08)
    ∷ ("DAY_OF_WEEK", 0x2A09)
    ∷ ("DAY_DATE_TIME", 0x2A0A)
    ∷ ("EXACT_TIME_256", 0x2A0C)
    ∷ ("DST_OFFSET", 0x2A0D)
    ∷ ("TIME_ZONE", 0x2A0E)
    ∷ ("LOCAL_TIME_INFORMATION", 0x2A0F)
    ∷ ("TIME_WITH_DST", 0x2A11)
    ∷ ("TIME_ACCURACY", 0x2A12)
    ∷ ("TIME_SOURCE", 0x2A13)
    ∷ ("REFERENCE_TIME_INFORMATION", 0x2A14)
    ∷ ("TIME_UPDATE_CONTROL_POINT", 0x2A16)
    ∷ ("TIME_UPDATE_STATE", 0x2A17)
    ∷ ("GLUCOSE_MEASUREMENT", 0x2A18)
    ∷ ("BATTERY_LEVEL", 0x2A19)
    ∷ ("TEMPERATURE_MEASUREMENT", 0x2A1C)
    ∷ ("TEMPERATURE_TYPE", 0x2A1D)
    ∷ ("INTERMEDIATE_TEMPERATURE", 0x2A1E)
    ∷ ("MEASUREMENT_INTERVAL", 0x2A21)
    ∷ ("BOOT_KEYBOARD_INPUT_REPORT", 0x2A22)
    ∷ ("SYSTEM_ID", 0x2A23)
    ∷ ("MODEL_NUMBER_STRING", 0x2A24)
    ∷ ("SERIAL_NUMBER_STRING", 0x2A25)
    ∷ ("FIRMWARE_REVISION_STRING", 0x2A26)
    ∷ ("HARDWARE_REVISION_STRING", 0x2A27)
    ∷ ("SOFTWARE_REVISION_STRING", 0x2A28)
    ∷ ("MANUFACTURER_NAME_STRING", 0x2A29)
    ∷ ("IEEE_11073_20601_REGULATORY_CERTIFICATION_DATA_LIST", 0x2A2A)
    ∷ ("CURRENT_TIME", 0x2A2B)
    ∷ ("SCAN_REFRESH", 0x2A31)
    ∷ ("BOOT_KEYBOARD_OUTPUT_REPORT", 0x2A32)
    ∷ ("BOOT_MOUSE_INPUT_REPORT", 0x2A33)
    ∷ ("GLUCOSE_MEASUREMENT_CONTEXT", 0x2A34)
    ∷ ("BLOOD_PRESSURE_MEASUREMENT", 0x2A35)
    ∷ ("INTERMEDIATE_CUFF_PRESSURE", 0x2A36)
    ∷ ("HEART_RATE_MEASUREMENT", 0x2A37)
    ∷ ("BODY_SENSOR_LOCATION", 0x2A38)
    ∷ ("HEART_RATE_CONTROL_POINT", 0x2A39)
    ∷ ("ALERT_STATUS", 0x2A3F)
    ∷ ("RINGER_CONTROL_POINT", 0x2A40)
    ∷ ("RINGER_SETTING", 0x2A41)
    ∷ ("ALERT_CATEGORY_ID_BIT_MASK", 0x2A42)
    ∷ ("ALERT_CATEGORY_ID", 0x2A43)
    ∷ ("ALERT_NOTIFICATION_CONTROL_POINT", 0x2A44)
    ∷ ("UNREAD_ALERT_STATUS", 0x2A45)
    ∷ ("NEW_ALERT", 0x2A46)
    ∷ ("SUPPORTED_NEW_ALERT_CATEGORY", 0x2A47)
    ∷ ("SUPPORTED_UNREAD_ALERT_CATEGORY", 0x2A48)
    ∷ ("BLOOD_PRESSURE_FEATURE", 0x2A49)
    ∷ ("HID_INFORMATION", 0x2A4A)
    ∷ ("REPORT_MAP", 0x2A4B)
    ∷ ("HID_CONTROL_POINT", 0x2A4C)
    ∷ ("REPORT", 0x2A4D)
    ∷ ("PROTOCOL_MODE", 0x2A4E)
    ∷ ("SCAN_INTERVAL_WINDOW", 0x2A4F)
    ∷ ("PNP_ID", 0x2A50)
    ∷ ("GLUCOSE_FEATURE", 0x2A51)
    ∷ ("RECORD_ACCESS_CONTROL_POINT", 0x2A52)
    ∷ ("RSC_MEASUREMENT", 0x2A53)
    ∷ ("RSC_FEATURE", 0x2A54)
    ∷ ("SC_CONTROL_POINT", 0x2A55)
    ∷ ("AGGREGATE", 0x2A5A)
    ∷ ("CSC_MEASUREMENT", 0x2A5B)
    ∷ ("CSC_FEATURE", 0x2A5C)
    ∷ ("SENSOR_LOCATION", 0x2A5D)
    ∷ ("PLX_SPOT_CHECK_MEASUREMENT", 0x2A5E)
    ∷ ("PLX_CONTINUOUS_MEASUREMENT", 0x2A5F)
    ∷ ("PLX_FEATURES", 0x2A60)
    ∷ ("CYCLING_POWER_MEASUREMENT", 0x2A63)
    ∷ ("CYCLING_POWER_VECTOR", 0x2A64)
    ∷ ("CYCLING_POWER_FEATURE", 0x2A65)
    ∷ ("CYCLING_POWER_CONTROL_POINT", 0x2A66)
    ∷ ("LOCATION_AND_SPEED", 0x2A67)
    ∷ ("NAVIGATION", 0x2A68)
    ∷ ("POSITION_QUALITY", 0x2A69)
    ∷ ("LN_FEATURE", 0x2A6A)
    ∷ ("LN_CONTROL_POINT", 0x2A6B)
    ∷ ("ELEVATION", 0x2A6C)
    ∷ ("PRESSURE", 0x2A6D)
    ∷ ("TEMPERATURE", 0x2A6E)
    ∷ ("HUMIDITY", 0x2A6F)
    ∷ ("TRUE_WIND_SPEED", 0x2A70)
    ∷ ("TRUE_WIND_DIRECTION", 0x2A71)
    ∷ ("APPARENT_WIND_SPEED", 0x2A72)
    ∷ ("APPARENT_WIND_DIRECTION", 0x2A73)
    ∷ ("GUST_FACTOR", 0x2A74)
    ∷ ("POLLEN_CONCENTRATION", 0x2A75)
    ∷ ("UV_INDEX", 0x2A76)
    ∷ ("IRRADIANCE", 0x2A77)
    ∷ ("RAINFALL", 0x2A78)
    ∷ ("WIND_CHILL", 0x2A79)
    ∷ ("HEAT_INDEX", 0x2A7A)
    ∷ ("DEW_POINT", 0x2A7B)
    ∷ ("DESCRIPTOR_VALUE_CHANGED", 0x2A7D)
    ∷ ("AEROBIC_HEART_RATE_LOWER_LIMIT", 0x2A7E)
    ∷ ("AEROBIC_THRESHOLD", 0x2A7F)
    ∷ []
