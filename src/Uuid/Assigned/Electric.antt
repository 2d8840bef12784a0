-- ===== src/Uuid/Assigned/Electric.antt =====
-- corebluetooth/src/btuuid.rs, module `characteristics`: the name and the assigned number of each constant
-- `pub const NAME: Uuid = bluetooth_uuid_from_u16(0x…)`, in the order of the source.
use Prim.Native.String.{String}
use corebluetooth_rs.Prelude.{ℕ, List, [], ◌∷◌}

abbrev pub characteristics_electric : List (String × ℕ)
characteristics_electric =
    ("CORRELATED_COLOR_TEMPERATURE", 0x2AE9)
    ∷ ("COUNT_16", 0x2AEA)
    ∷ ("COUNT_24", 0x2AEB)
    ∷ ("COUNTRY_CODE", 0x2AEC)
    ∷ ("DATE_UTC", 0x2AED)
    ∷ ("ELECTRIC_CURRENT", 0x2AEE)
    ∷ ("ELECTRIC_CURRENT_RANGE", 0x2AEF)
    ∷ ("ELECTRIC_CURRENT_SPECIFICATION", 0x2AF0)
    ∷ ("ELECTRIC_CURRENT_STATISTICS", 0x2AF1)
    ∷ ("ENERGY", 0x2AF2)
    ∷ ("ENERGY_IN_A_PERIOD_OF_DAY", 0x2AF3)
    ∷ ("EVENT_STATISTICS", 0x2AF4)
    ∷ ("FIXED_STRING_16", 0x2AF5)
    ∷ ("FIXED_STRING_24", 0x2AF6)
    ∷ ("FIXED_STRING_36", 0x2AF7)
    ∷ ("FIXED_STRING_8", 0x2AF8)
    ∷ ("GENERIC_LEVEL", 0x2AF9)
    ∷ ("GLOBAL_TRADE_ITEM_NUMBER", 0x2AFA)
    ∷ ("ILLUMINANCE", 0x2AFB)
    ∷ ("LUMINOUS_EFFICACY", 0x2AFC)
    ∷ ("LUMINOUS_ENERGY", 0x2AFD)
    ∷ ("LUMINOUS_EXPOSURE", 0x2AFE)
    ∷ ("LUMINOUS_FLUX", 0x2AFF)
    ∷ ("LUMINOUS_FLUX_RANGE", 0x2B00)
    ∷ ("LUMINOUS_INTENSITY", 0x2B01)
    ∷ ("MASS_FLOW", 0x2B02)
    ∷ ("PERCEIVED_LIGHTNESS", 0x2B03)
    ∷ ("PERCENTAGE_8", 0x2B04)
    ∷ ("POWER", 0x2B05)
    ∷ ("POWER_SPECIFICATION", 0x2B06)
    ∷ ("RELATIVE_RUNTIME_IN_A_CURRENT_RANGE", 0x2B07)
    ∷ ("RELATIVE_RUNTIME_IN_A_GENERIC_LEVEL_RANGE", 0x2B08)
    ∷ ("RELATIVE_VALUE_IN_A_VOLTAGE_RANGE", 0x2B09)
    ∷ ("RELATIVE_VALUE_IN_AN_ILLUMINANCE_RANGE", 0x2B0A)
    ∷ ("RELATIVE_VALUE_IN_A_PERIOD_OF_DAY", 0x2B0B)
    ∷ ("RELATIVE_VALUE_IN_A_TEMPERATURE_RANGE", 0x2B0C)
    ∷ ("TEMPERATURE_8", 0x2B0D)
    ∷ ("TEMPERATURE_8_IN_A_PERIOD_OF_DAY", 0x2B0E)
    ∷ ("TEMPERATURE_8_STATISTICS", 0x2B0F)
    ∷ ("TEMPERATURE_RANGE", 0x2B10)
    ∷ ("TEMPERATURE_STATISTICS", 0x2B11)
    ∷ ("TIME_DECIHOUR_8", 0x2B12)
    ∷ ("TIME_EXPONENTIAL_8", 0x2B13)
    ∷ ("TIME_HOUR_24", 0x2B14)
    ∷ ("TIME_MILLISECOND_24", 0x2B15)
    ∷ ("TIME_SECOND_16", 0x2B16)
    ∷ ("TIME_SECOND_8", 0x2B17)
    ∷ ("VOLTAGE", 0x2B18)
    ∷ ("VOLTAGE_SPECIFICATION", 0x2B19)
    ∷ ("VOLTAGE_STATISTICS", 0x2B1A)
    ∷ ("VOLUME_FLOW", 0x2B1B)
    ∷ ("CHROMATICITY_COORDINATE", 0x2B1C)
    ∷ ("RC_FEATURE", 0x2B1D)
    ∷ ("RC_SETTINGS", 0x2B1E)
    ∷ ("RECONNECTION_CONFIGURATION_CONTROL_POINT", 0x2B1F)
    ∷ ("IDD_STATUS_CHANGED", 0x2B20)
    ∷ ("IDD_STATUS", 0x2B21)
    ∷ ("IDD_ANNUNCIATION_STATUS", 0x2B22)
    ∷ ("IDD_FEATURES", 0x2B23)
    ∷ ("IDD_STATUS_READER_CONTROL_POINT", 0x2B24)
    ∷ ("IDD_COMMAND_CONTROL_POINT", 0x2B25)
    ∷ ("IDD_COMMAND_DATA", 0x2B26)
    ∷ ("IDD_RECORD_ACCESS_CONTROL_POINT", 0x2B27)
    ∷ ("IDD_HISTORY_DATA", 0x2B28)
    ∷ ("CLIENT_SUPPORTED_FEATURES", 0x2B29)
    ∷ ("DATABASE_HASH", 0x2B2A)
    ∷ ("BSS_CONTROL_POINT", 0x2B2B)
    ∷ ("BSS_RESPONSE", 0x2B2C)
    ∷ ("EMERGENCY_ID", 0x2B2D)
    ∷ ("EMERGENCY_TEXT", 0x2B2E)
    ∷ ("ENHANCED_BLOOD_PRESSURE_MEASUREMENT", 0x2B34)
    ∷ ("ENHANCED_INTERMEDIATE_CUFF_PRESSURE", 0x2B35)
    ∷ ("BLOOD_PRESSURE_RECORD", 0x2B36)
    ∷ ("BR_EDR_HANDOVER_DATA", 0x2B38)
    ∷ ("BLUETOOTH_SIG_DATA", 0x2B39)
    ∷ ("SERVER_SUPPORTED_FEATURES", 0x2B3A)
    ∷ ("PHYSICAL_ACTIVITY_MONITOR_FEATURES", 0x2B3B)
    ∷ ("GENERAL_ACTIVITY_INSTANTANEOUS_DATA", 0x2B3C)
    ∷ ("GENERAL_ACTIVITY_SUMMARY_DATA", 0x2B3D)
    ∷ ("CARDIORESPIRATORY_ACTIVITY_INSTANTANEOUS_DATA", 0x2B3E)
    ∷ ("CARDIORESPIRATORY_ACTIVITY_SUMMARY_DATA", 0x2B3F)
    ∷ ("STEP_COUNTER_ACTIVITY_SUMMARY_DATA", 0x2B40)
    ∷ ("SLEEP_ACTIVITY_INSTANTANEOUS_DATA", 0x2B41)
    ∷ ("SLEEP_ACTIVITY_SUMMARY_DATA", 0x2B42)
    ∷ ("PHYSICAL_ACTIVITY_MONITOR_CONTROL_POINT", 0x2B43)
    ∷ ("ACTIVITY_CURRENT_SESSION", 0x2B44)
    ∷ ("PHYSICAL_ACTIVITY_SESSION_DESCRIPTOR", 0x2B45)
    ∷ ("PREFERRED_UNITS", 0x2B46)
    ∷ ("HIGH_RESOLUTION_HEIGHT", 0x2B47)
    ∷ ("MIDDLE_NAME", 0x2B48)
    ∷ ("STRIDE_LENGTH", 0x2B49)
    ∷ ("HANDEDNESS", 0x2B4A)
    ∷ ("DEVICE_WEARING_POSITION", 0x2B4B)
    ∷ ("FOUR_ZONE_HEART_RATE_LIMITS", 0x2B4C)
    ∷ ("HIGH_INTENSITY_EXERCISE_THRESHOLD", 0x2B4D)
    ∷ ("ACTIVITY_GOAL", 0x2B4E)
    ∷ ("SEDENTARY_INTERVAL_NOTIFICATION", 0x2B4F)
    ∷ ("CALORIC_INTAKE", 0x2B50)
    ∷ ("TMAP_ROLE", 0x2B51)
    ∷ ("AUDIO_INPUT_STATE", 0x2B77)
    ∷ ("GAIN_SETTINGS_ATTRIBUTE", 0x2B78)
    ∷ ("AUDIO_INPUT_TYPE", 0x2B79)
    ∷ ("AUDIO_INPUT_STATUS", 0x2B7A)
    ∷ ("AUDIO_INPUT_CONTROL_POINT", 0x2B7B)
    ∷ []
