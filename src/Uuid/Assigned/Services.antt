-- ===== src/Uuid/Assigned/Services.antt =====
-- corebluetooth/src/btuuid.rs, module `services`: the name and the assigned number of each constant
-- `pub const NAME: Uuid = bluetooth_uuid_from_u16(0x…)`, in the order of the source.
use Prim.Native.String.{String}
use corebluetooth_rs.Prelude.{ℕ, List, [], ◌∷◌}

abbrev pub services : List (String × ℕ)
services =
    ("GENERIC_ACCESS", 0x1800)
    ∷ ("GENERIC_ATTRIBUTE", 0x1801)
    ∷ ("IMMEDIATE_ALERT", 0x1802)
    ∷ ("LINK_LOSS", 0x1803)
    ∷ ("TX_POWER", 0x1804)
    ∷ ("CURRENT_TIME", 0x1805)
    ∷ ("REFERENCE_TIME_UPDATE", 0x1806)
    ∷ ("NEXT_DST_CHANGE", 0x1807)
    ∷ ("GLUCOSE", 0x1808)
    ∷ ("HEALTH_THERMOMETER", 0x1809)
    ∷ ("DEVICE_INFORMATION", 0x180A)
    ∷ ("HEART_RATE", 0x180D)
    ∷ ("PHONE_ALERT_STATUS", 0x180E)
    ∷ ("BATTERY", 0x180F)
    ∷ ("BLOOD_PRESSURE", 0x1810)
    ∷ ("ALERT_NOTIFICATION", 0x1811)
    ∷ ("HUMAN_INTERFACE_DEVICE", 0x1812)
    ∷ ("SCAN_PARAMETERS", 0x1813)
    ∷ ("RUNNING_SPEED_AND_CADENCE", 0x1814)
    ∷ ("AUTOMATION_IO", 0x1815)
    ∷ ("CYCLING_SPEED_AND_CADENCE", 0x1816)
    ∷ ("CYCLING_POWER", 0x1818)
    ∷ ("LOCATION_AND_NAVIGATION", 0x1819)
    ∷ ("ENVIRONMENTAL_SENSING", 0x181A)
    ∷ ("BODY_COMPOSITION", 0x181B)
    ∷ ("USER_DATA", 0x181C)
    ∷ ("WEIGHT_SCALE", 0x181D)
    ∷ ("BOND_MANAGEMENT", 0x181E)
    ∷ ("CONTINUOUS_GLUCOSE_MONITORING", 0x181F)
    ∷ ("INTERNET_PROTOCOL_SUPPORT", 0x1820)
    ∷ ("INDOOR_POSITIONING", 0x1821)
    ∷ ("PULSE_OXIMETER", 0x1822)
    ∷ ("HTTP_PROXY", 0x1823)
    ∷ ("TRANSPORT_DISCOVERY", 0x1824)
    ∷ ("OBJECT_TRANSFER", 0x1825)
    ∷ ("FITNESS_MACHINE", 0x1826)
    ∷ ("MESH_PROVISIONING", 0x1827)
    ∷ ("MESH_PROXY", 0x1828)
    ∷ ("RECONNECTION_CONFIGURATION", 0x1829)
    ∷ ("INSULIN_DELIVERY", 0x183A)
    ∷ ("BINARY_SENSOR", 0x183B)
    ∷ ("EMERGENCY_CONFIGURATION", 0x183C)
    ∷ ("PHYSICAL_ACTIVITY_MONITOR", 0x183E)
    ∷ ("AUDIO_INPUT_CONTROL", 0x1843)
    ∷ ("VOLUME_CONTROL", 0x1844)
    ∷ ("VOLUME_OFFSET_CONTROL", 0x1845)
    ∷ ("COORDINATED_SET_IDENTIFICATION", 0x1846)
    ∷ ("DEVICE_TIME", 0x1847)
    ∷ ("MEDIA_CONTROL", 0x1848)
    ∷ ("GENERIC_MEDIA_CONTROL", 0x1849)
    ∷ ("CONSTANT_TONE_EXTENSION", 0x184A)
    ∷ ("TELEPHONE_BEARER", 0x184B)
    ∷ ("GENERIC_TELEPHONE_BEARER", 0x184C)
    ∷ ("MICROPHONE_CONTROL", 0x184D)
    ∷ ("AUDIO_STREAM_CONTROL", 0x184E)
    ∷ ("BROADCAST_AUDIO_SCAN", 0x184F)
    ∷ ("PUBLISHED_AUDIO_CAPABILITIES", 0x1850)
    ∷ ("BASIC_AUDIO_ANNOUNCEMENT", 0x1851)
    ∷ ("BROADCAST_AUDIO_ANNOUNCEMENT", 0x1852)
    ∷ ("COMMON_AUDIO", 0x1853)
    ∷ ("HEARING_ACCESS", 0x1854)
    ∷ ("TMAS", 0x1855)
    ∷ ("PUBLIC_BROADCAST_ANNOUNCEMENT", 0x1856)
    ∷ []
