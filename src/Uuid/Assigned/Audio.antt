-- ===== src/Uuid/Assigned/Audio.antt =====
-- corebluetooth/src/btuuid.rs, module `characteristics`: the name and the assigned number of each constant
-- `pub const NAME: Uuid = bluetooth_uuid_from_u16(0x…)`, in the order of the source.
use Prim.Native.String.{String}
use corebluetooth_rs.Prelude.{ℕ, List, [], ◌∷◌}

abbrev pub characteristics_audio : List (String × ℕ)
characteristics_audio =
    ("AUDIO_INPUT_DESCRIPTION", 0x2B7C)
    ∷ ("VOLUME_STATE", 0x2B7D)
    ∷ ("VOLUME_CONTROL_POINT", 0x2B7E)
    ∷ ("VOLUME_FLAGS", 0x2B7F)
    ∷ ("VOLUME_OFFSET_STATE", 0x2B80)
    ∷ ("AUDIO_LOCATION", 0x2B81)
    ∷ ("VOLUME_OFFSET_CONTROL_POINT", 0x2B82)
    ∷ ("AUDIO_OUTPUT_DESCRIPTION", 0x2B83)
    ∷ ("SET_IDENTITY_RESOLVING_KEY", 0x2B84)
    ∷ ("COORDINATED_SET_SIZE", 0x2B85)
    ∷ ("SET_MEMBER_LOCK", 0x2B86)
    ∷ ("SET_MEMBER_RANK", 0x2B87)
    ∷ ("DEVICE_TIME_FEATURE", 0x2B8E)
    ∷ ("DEVICE_TIME_PARAMETERS", 0x2B8F)
    ∷ ("DEVICE_TIME", 0x2B90)
    ∷ ("DEVICE_TIME_CONTROL_POINT", 0x2B91)
    ∷ ("TIME_CHANGE_LOG_DATA", 0x2B92)
    ∷ ("MEDIA_PLAYER_NAME", 0x2B93)
    ∷ ("MEDIA_PLAYER_ICON_OBJECT_ID", 0x2B94)
    ∷ ("MEDIA_PLAYER_ICON_URL", 0x2B95)
    ∷ ("TRACK_CHANGED", 0x2B96)
    ∷ ("TRACK_TITLE", 0x2B97)
    ∷ ("TRACK_DURATION", 0x2B98)
    ∷ ("TRACK_POSITION", 0x2B99)
    ∷ ("PLAYBACK_SPEED", 0x2B9A)
    ∷ ("SEEKING_SPEED", 0x2B9B)
    ∷ ("CURRENT_TRACK_SEGMENTS_OBJECT_ID", 0x2B9C)
    ∷ ("CURRENT_TRACK_OBJECT_ID", 0x2B9D)
    ∷ ("NEXT_TRACK_OBJECT_ID", 0x2B9E)
    ∷ ("PARENT_GROUP_OBJECT_ID", 0x2B9F)
    ∷ ("CURRENT_GROUP_OBJECT_ID", 0x2BA0)
    ∷ ("PLAYING_ORDER", 0x2BA1)
    ∷ ("PLAYING_ORDERS_SUPPORTED", 0x2BA2)
    ∷ ("MEDIA_STATE", 0x2BA3)
    ∷ ("MEDIA_CONTROL_POINT", 0x2BA4)
    ∷ ("MEDIA_CONTROL_POINT_OPCODES_SUPPORTED", 0x2BA5)
    ∷ ("SEARCH_RESULTS_OBJECT_ID", 0x2BA6)
    ∷ ("SEARCH_CONTROL_POINT", 0x2BA7)
    ∷ ("MEDIA_PLAYER_ICON_OBJECT_TYPE", 0x2BA9)
    ∷ ("TRACK_SEGMENTS_OBJECT_TYPE", 0x2BAA)
    ∷ ("TRACK_OBJECT_TYPE", 0x2BAB)
    ∷ ("GROUP_OBJECT_TYPE", 0x2BAC)
    ∷ ("CONSTANT_TONE_EXTENSION_ENABLE", 0x2BAD)
    ∷ ("ADVERTISING_CONSTANT_TONE_EXTENSION_MINIMUM_LENGTH", 0x2BAE)
    ∷ ("ADVERTISING_CONSTANT_TONE_EXTENSION_MINIMUM_TRANSMIT_COUNT", 0x2BAF)
    ∷ ("ADVERTISING_CONSTANT_TONE_EXTENSION_TRANSMIT_DURATION", 0x2BB0)
    ∷ ("ADVERTISING_CONSTANT_TONE_EXTENSION_INTERVAL", 0x2BB1)
    ∷ ("ADVERTISING_CONSTANT_TONE_EXTENSION_PHY", 0x2BB2)
    ∷ ("BEARER_PROVIDER_NAME", 0x2BB3)
    ∷ ("BEARER_UCI", 0x2BB4)
    ∷ ("BEARER_TECHNOLOGY", 0x2BB5)
    ∷ ("BEARER_URI_SCHEMES_SUPPORTED_LIST", 0x2BB6)
    ∷ ("BEARER_SIGNAL_STRENGTH", 0x2BB7)
    ∷ ("BEARER_SIGNAL_STRENGTH_REPORTING_INTERVAL", 0x2BB8)
    ∷ ("BEARER_LIST_CURRENT_CALLS", 0x2BB9)
    ∷ ("CONTENT_CONTROL_ID", 0x2BBA)
    ∷ ("STATUS_FLAGS", 0x2BBB)
    ∷ ("INCOMING_CALL_TARGET_BEARER_URI", 0x2BBC)
    ∷ ("CALL_STATE", 0x2BBD)
    ∷ ("CALL_CONTROL_POINT", 0x2BBE)
    ∷ ("CALL_CONTROL_POINT_OPTIONAL_OPCODES", 0x2BBF)
    ∷ ("TERMINATION_REASON", 0x2BC0)
    ∷ ("INCOMING_CALL", 0x2BC1)
    ∷ ("CALL_FRIENDLY_NAME", 0x2BC2)
    ∷ ("MUTE", 0x2BC3)
    ∷ ("SINK_ASE", 0x2BC4)
    ∷ ("SOURCE_ASE", 0x2BC5)
    ∷ ("ASE_CONTROL_POINT", 0x2BC6)
    ∷ ("BROADCAST_AUDIO_SCAN_CONTROL_POINT", 0x2BC7)
    ∷ ("BROADCAST_RECEIVE_STATE", 0x2BC8)
    ∷ ("SINK_PAC", 0x2BC9)
    ∷ ("SINK_AUDIO_LOCATIONS", 0x2BCA)
    ∷ ("SOURCE_PAC", 0x2BCB)
    ∷ ("SOURCE_AUDIO_LOCATIONS", 0x2BCC)
    ∷ ("AVAILABLE_AUDIO_CONTEXTS", 0x2BCD)
    ∷ ("SUPPORTED_AUDIO_CONTEXTS", 0x2BCE)
    ∷ ("AMMONIA_CONCENTRATION", 0x2BCF)
    ∷ ("CARBON_MONOXIDE_CONCENTRATION", 0x2BD0)
    ∷ ("METHANE_CONCENTRATION", 0x2BD1)
    ∷ ("NITROGEN_DIOXIDE_CONCENTRATION", 0x2BD2)
    ∷ ("NON_METHANE_VOLATILE_ORGANIC_COMPOUNDS_CONCENTRATION", 0x2BD3)
    ∷ ("OZONE_CONCENTRATION", 0x2BD4)
    ∷ ("PARTICULATE_MATTER_PM1_CONCENTRATION", 0x2BD5)
    ∷ ("PARTICULATE_MATTER_PM2_5_CONCENTRATION", 0x2BD6)
    ∷ ("PARTICULATE_MATTER_PM10_CONCENTRATION", 0x2BD7)
    ∷ ("SULFUR_DIOXIDE_CONCENTRATION", 0x2BD8)
    ∷ ("SULFUR_HEXAFLUORIDE_CONCENTRATION", 0x2BD9)
    ∷ ("HEARING_AID_FEATURES", 0x2BDA)
    ∷ ("HEARING_AID_PRESET_CONTROL_POINT", 0x2BDB)
    ∷ ("ACTIVE_PRESET_INDEX", 0x2BDC)
    ∷ []
