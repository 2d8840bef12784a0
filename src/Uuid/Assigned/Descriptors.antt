-- ===== src/Uuid/Assigned/Descriptors.antt =====
-- corebluetooth/src/btuuid.rs, module `descriptors`: the name and the assigned number of each constant
-- `pub const NAME: Uuid = bluetooth_uuid_from_u16(0x…)`, in the order of the source.
use Prim.Native.String.{String}
use corebluetooth_rs.Prelude.{ℕ, List, [], ◌∷◌}

abbrev pub descriptors : List (String × ℕ)
descriptors =
    ("CHARACTERISTIC_EXTENDED_PROPERTIES", 0x2900)
    ∷ ("CHARACTERISTIC_USER_DESCRIPTION", 0x2901)
    ∷ ("CLIENT_CHARACTERISTIC_CONFIGURATION", 0x2902)
    ∷ ("SERVER_CHARACTERISTIC_CONFIGURATION", 0x2903)
    ∷ ("CHARACTERISTIC_PRESENTATION_FORMAT", 0x2904)
    ∷ ("CHARACTERISTIC_AGGREGATE_FORMAT", 0x2905)
    ∷ ("VALID_RANGE", 0x2906)
    ∷ ("EXTERNAL_REPORT_REFERENCE", 0x2907)
    ∷ ("REPORT_REFERENCE", 0x2908)
    ∷ ("NUMBER_OF_DIGITALS", 0x2909)
    ∷ ("VALUE_TRIGGER_SETTING", 0x290A)
    ∷ ("ENVIRONMENTAL_SENSING_CONFIGURATION", 0x290B)
    ∷ ("ENVIRONMENTAL_SENSING_MEASUREMENT", 0x290C)
    ∷ ("ENVIRONMENTAL_SENSING_TRIGGER_SETTING", 0x290D)
    ∷ ("TIME_TRIGGER_SETTING", 0x290E)
    ∷ ("COMPLETE_BR_EDR_TRANSPORT_BLOCK_DATA", 0x290F)
    ∷ []
