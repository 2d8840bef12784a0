-- ===== src/Uuid/Assigned/Fitness.antt =====
-- corebluetooth/src/btuuid.rs, module `characteristics`: the name and the assigned number of each constant
-- `pub const NAME: Uuid = bluetooth_uuid_from_u16(0x…)`, in the order of the source.
use Prim.Native.String.{String}
use corebluetooth_rs.Prelude.{ℕ, List, [], ◌∷◌}

abbrev pub characteristics_fitness : List (String × ℕ)
characteristics_fitness =
    ("AGE", 0x2A80)
    ∷ ("ANAEROBIC_HEART_RATE_LOWER_LIMIT", 0x2A81)
    ∷ ("ANAEROBIC_HEART_RATE_UPPER_LIMIT", 0x2A82)
    ∷ ("ANAEROBIC_THRESHOLD", 0x2A83)
    ∷ ("AEROBIC_HEART_RATE_UPPER_LIMIT", 0x2A84)
    ∷ ("DATE_OF_BIRTH", 0x2A85)
    ∷ ("DATE_OF_THRESHOLD_ASSESSMENT", 0x2A86)
    ∷ ("EMAIL_ADDRESS", 0x2A87)
    ∷ ("FAT_BURN_HEART_RATE_LOWER_LIMIT", 0x2A88)
    ∷ ("FAT_BURN_HEART_RATE_UPPER_LIMIT", 0x2A89)
    ∷ ("FIRST_NAME", 0x2A8A)
    ∷ ("FIVE_ZONE_HEART_RATE_LIMITS", 0x2A8B)
    ∷ ("GENDER", 0x2A8C)
    ∷ ("HEART_RATE_MAX", 0x2A8D)
    ∷ ("HEIGHT", 0x2A8E)
    ∷ ("HIP_CIRCUMFERENCE", 0x2A8F)
    ∷ ("LAST_NAME", 0x2A90)
    ∷ ("MAXIMUM_RECOMMENDED_HEART_RATE", 0x2A91)
    ∷ ("RESTING_HEART_RATE", 0x2A92)
    ∷ ("SPORT_TYPE_FOR_AEROBIC_AND_ANAEROBIC_THRESHOLDS", 0x2A93)
    ∷ ("THREE_ZONE_HEART_RATE_LIMITS", 0x2A94)
    ∷ ("TWO_ZONE_HEART_RATE_LIMITS", 0x2A95)
    ∷ ("VO2_MAX", 0x2A96)
    ∷ ("WAIST_CIRCUMFERENCE", 0x2A97)
    ∷ ("WEIGHT", 0x2A98)
    ∷ ("DATABASE_CHANGE_INCREMENT", 0x2A99)
    ∷ ("USER_INDEX", 0x2A9A)
    ∷ ("BODY_COMPOSITION_FEATURE", 0x2A9B)
    ∷ ("BODY_COMPOSITION_MEASUREMENT", 0x2A9C)
    ∷ ("WEIGHT_MEASUREMENT", 0x2A9D)
    ∷ ("WEIGHT_SCALE_FEATURE", 0x2A9E)
    ∷ ("USER_CONTROL_POINT", 0x2A9F)
    ∷ ("MAGNETIC_FLUX_DENSITY_2D", 0x2AA0)
    ∷ ("MAGNETIC_FLUX_DENSITY_3D", 0x2AA1)
    ∷ ("LANGUAGE", 0x2AA2)
    ∷ ("BAROMETRIC_PRESSURE_TREND", 0x2AA3)
    ∷ ("BOND_MANAGEMENT_CONTROL_POINT", 0x2AA4)
    ∷ ("BOND_MANAGEMENT_FEATURE", 0x2AA5)
    ∷ ("CENTRAL_ADDRESS_RESOLUTION", 0x2AA6)
    ∷ ("CGM_MEASUREMENT", 0x2AA7)
    ∷ ("CGM_FEATURE", 0x2AA8)
    ∷ ("CGM_STATUS", 0x2AA9)
    ∷ ("CGM_SESSION_START_TIME", 0x2AAA)
    ∷ ("CGM_SESSION_RUN_TIME", 0x2AAB)
    ∷ ("CGM_SPECIFIC_OPS_CONTROL_POINT", 0x2AAC)
    ∷ ("INDOOR_POSITIONING_CONFIGURATION", 0x2AAD)
    ∷ ("LATITUDE", 0x2AAE)
    ∷ ("LONGITUDE", 0x2AAF)
    ∷ ("LOCAL_NORTH_COORDINATE", 0x2AB0)
    ∷ ("LOCAL_EAST_COORDINATE", 0x2AB1)
    ∷ ("FLOOR_NUMBER", 0x2AB2)
    ∷ ("ALTITUDE", 0x2AB3)
    ∷ ("UNCERTAINTY", 0x2AB4)
    ∷ ("LOCATION_NAME", 0x2AB5)
    ∷ ("URI", 0x2AB6)
    ∷ ("HTTP_HEADERS", 0x2AB7)
    ∷ ("HTTP_STATUS_CODE", 0x2AB8)
    ∷ ("HTTP_ENTITY_BODY", 0x2AB9)
    ∷ ("HTTP_CONTROL_POINT", 0x2ABA)
    ∷ ("HTTPS_SECURITY", 0x2ABB)
    ∷ ("TDS_CONTROL_POINT", 0x2ABC)
    ∷ ("OTS_FEATURE", 0x2ABD)
    ∷ ("OBJECT_NAME", 0x2ABE)
    ∷ ("OBJECT_TYPE", 0x2ABF)
    ∷ ("OBJECT_SIZE", 0x2AC0)
    ∷ ("OBJECT_FIRST_CREATED", 0x2AC1)
    ∷ ("OBJECT_LAST_MODIFIED", 0x2AC2)
    ∷ ("OBJECT_ID", 0x2AC3)
    ∷ ("OBJECT_PROPERTIES", 0x2AC4)
    ∷ ("OBJECT_ACTION_CONTROL_POINT", 0x2AC5)
    ∷ ("OBJECT_LIST_CONTROL_POINT", 0x2AC6)
    ∷ ("OBJECT_LIST_FILTER", 0x2AC7)
    ∷ ("OBJECT_CHANGED", 0x2AC8)
    ∷ ("RESOLVABLE_PRIVATE_ADDRESS_ONLY", 0x2AC9)
    ∷ ("UNSPECIFIED", 0x2ACA)
    ∷ ("DIRECTORY_LISTING", 0x2ACB)
    ∷ ("FITNESS_MACHINE_FEATURE", 0x2ACC)
    ∷ ("TREADMILL_DATA", 0x2ACD)
    ∷ ("CROSS_TRAINER_DATA", 0x2ACE)
    ∷ ("STEP_CLIMBER_DATA", 0x2ACF)
    ∷ ("STAIR_CLIMBER_DATA", 0x2AD0)
    ∷ ("ROWER_DATA", 0x2AD1)
    ∷ ("INDOOR_BIKE_DATA", 0x2AD2)
    ∷ ("TRAINING_STATUS", 0x2AD3)
    ∷ ("SUPPORTED_SPEED_RANGE", 0x2AD4)
    ∷ ("SUPPORTED_INCLINATION_RANGE", 0x2AD5)
    ∷ ("SUPPORTED_RESISTANCE_LEVEL_RANGE", 0x2AD6)
    ∷ ("SUPPORTED_HEART_RATE_RANGE", 0x2AD7)
    ∷ ("SUPPORTED_POWER_RANGE", 0x2AD8)
    ∷ ("FITNESS_MACHINE_CONTROL_POINT", 0x2AD9)
    ∷ ("FITNESS_MACHINE_STATUS", 0x2ADA)
    ∷ ("MESH_PROVISIONING_DATA_IN", 0x2ADB)
    ∷ ("MESH_PROVISIONING_DATA_OUT", 0x2ADC)
    ∷ ("MESH_PROXY_DATA_IN", 0x2ADD)
    ∷ ("MESH_PROXY_DATA_OUT", 0x2ADE)
    ∷ ("AVERAGE_CURRENT", 0x2AE0)
    ∷ ("AVERAGE_VOLTAGE", 0x2AE1)
    ∷ ("BOOLEAN", 0x2AE2)
    ∷ ("CHROMATIC_DISTANCE_FROM_PLANCKIAN", 0x2AE3)
    ∷ ("CHROMATICITY_COORDINATES", 0x2AE4)
    ∷ ("CHROMATICITY_IN_CCT_AND_DUV_VALUES", 0x2AE5)
    ∷ ("CHROMATICITY_TOLERANCE", 0x2AE6)
    ∷ ("CIE_13_3_1995_COLOR_RENDERING_INDEX", 0x2AE7)
    ∷ ("COEFFICIENT", 0x2AE8)
    ∷ []
