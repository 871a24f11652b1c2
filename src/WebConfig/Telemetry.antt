-- ===== src/WebConfig/Telemetry.antt =====
-- The telemetry report: m61_web_telemetry_encode of m61_web_config.c, and a reader of its bytes.
use ds5dongle.Prelude.{
  ℕ, ◌-◌, ◌%◌, ◌^◌, Bool, List, [], ◌∷◌, ◌++◌, Option, none, some, ltb, if◌then◌else◌, Result, ok,
  err, replicate,
}
use ds5dongle.Prelude.Int.{ℤ, pos, negsuc, to_u8}
use ds5dongle.WebConfig.{put_u16_le, put_u32_le, set_flag}

-- `m61_web_telemetry_t`
pub record Telemetry : Type 0 where
  pub rssi_valid : Bool
  pub rssi : ℤ
  pub speaker_active : Bool
  pub microphone_active : Bool
  pub bluetooth_connected : Bool
  pub usb_configured : Bool
  pub headphones_connected : Bool
  pub speaker_stereo : Bool
  pub current_cpu_mhz : ℕ
  pub requested_cpu_mhz : ℕ
  pub pairing_active : Bool
  pub discovery_active : Bool
  pub saved_controller : Bool
  pub config_loaded : Bool
  pub usb_suspended : Bool
  pub last_management_command : ℕ
  pub last_management_error : ℤ
  pub management_sequence : ℕ
  pub usb_input_dropped : ℕ
  pub host_report_dropped : ℕ
  pub audio_ingress_dropped : ℕ
  pub haptics_queue_dropped : ℕ
  pub speaker_errors : ℕ
  pub microphone_errors : ℕ
  pub feature_get_queue_depth : ℕ
  pub feature_set_queue_depth : ℕ
  pub haptics_queue_depth : ℕ
  pub speaker_queue_depth : ℕ

-- `(uint16_t)` of an int16_t.
abbrev pub to_u16 : ℤ → ℕ
to_u16 (pos n) = n % 2 ^ 16
to_u16 (negsuc n) = 2 ^ 16 - 1 - n % 2 ^ 16

-- The bits of `output[1]`.
abbrev pub activity : Bool → Bool → ℕ
activity speaker microphone = set_flag microphone 1 (set_flag speaker 2 0x80)

-- The bits of `state`, in the order of the code.
abbrev pub state_bits : Bool → Bool → Bool → Bool → Bool → Bool → Bool → Bool → ℕ
state_bits bt usb headphones stereo pairing discovery saved loaded = set_flag loaded 0x80 (
    set_flag saved 0x40 (
      set_flag discovery 0x20 (
        set_flag pairing 0x10
          (set_flag stereo 8 (set_flag headphones 4 (set_flag usb 2 (set_flag bt 1 0)))))))

-- The 44 bytes of the report.
unfoldable pub report : Telemetry → List ℕ
report t =
    (if t.rssi_valid then to_u8 t.rssi else 0x7f)
    ∷ activity t.speaker_active t.microphone_active
    ∷ 2
    ∷ state_bits t.bluetooth_connected t.usb_configured t.headphones_connected t.speaker_stereo
        t.pairing_active t.discovery_active t.saved_controller t.config_loaded
    ∷ put_u16_le t.current_cpu_mhz (
        put_u16_le t.requested_cpu_mhz (
          (if t.usb_suspended then 1 else 0)
          ∷ t.last_management_command
          ∷ put_u16_le (to_u16 t.last_management_error) (
              put_u32_le t.management_sequence (
                put_u32_le t.usb_input_dropped (
                  put_u32_le t.host_report_dropped (
                    put_u32_le t.audio_ingress_dropped (
                      put_u32_le t.haptics_queue_dropped (
                        put_u32_le t.speaker_errors (
                          put_u32_le t.microphone_errors (
                            t.feature_get_queue_depth ∷ t.feature_set_queue_depth
                            ∷ t.haptics_queue_depth ∷ t.speaker_queue_depth ∷ []))))))))))

-- `m61_web_telemetry_encode`: the answer, and all the bytes of `output` that were written, its end
-- with zeros. A telemetry that is NULL is `none`, and so is the size of an output that is NULL.
unfoldable pub telemetry_encode : Option Telemetry → Option ℕ → Result (List ℕ)
unfolding report
telemetry_encode none size = err 1
telemetry_encode (some t) none = err 1
telemetry_encode (some t) (some size) =
    if ltb size 44 then err 1 else ok (report t ++ replicate (size - 44) 0)
