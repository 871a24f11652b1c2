-- ===== src/WebConfig/Report.antt =====
-- What a client reads out of the telemetry report is what was put in.
use ds5dongle.Prelude.{
  ℕ, ◌-◌, ◌^◌, ◌≤◌, ◌<◌, ◌≡◌, Bool, true, false, ◌&&◌, not, List, ◌++◌, Option, none, some, get_or,
  has_bits, ok, length, replicate, arith, refl, subst, uint32_max, ap, ◌∙◌, zero, suc,
}
use ds5dongle.Prelude.Int.{ℤ, pos, negsuc, signed16}
use ds5dongle.WebConfig.{get_u16_le, get_u32_le}
use ds5dongle.WebConfig.Stored.{u32_bytes}
use ds5dongle.WebConfig.RoundTrip.{word_bytes}
use ds5dongle.WebConfig.Telemetry.{Telemetry, to_u16, state_bits, report, telemetry_encode}

-- Reads the flags back, at the offsets that a client uses.
abbrev pub FlagsRead : List ℕ → Telemetry → Type 0
FlagsRead out t =
    (has_bits (get_or out 1 0) 0x80 ≡ true)
    × (has_bits (get_or out 1 0) 2 ≡ t.speaker_active)
    × (has_bits (get_or out 1 0) 1 ≡ t.microphone_active)
    × (has_bits (get_or out 3 0) 1 ≡ t.bluetooth_connected)
    × (has_bits (get_or out 3 0) 2 ≡ t.usb_configured)
    × (has_bits (get_or out 3 0) 4 ≡ t.headphones_connected)
    × (has_bits (get_or out 3 0) 8 ≡ t.speaker_stereo)
    × (has_bits (get_or out 3 0) 16 ≡ t.pairing_active)
    × (has_bits (get_or out 3 0) 32 ≡ t.discovery_active)
    × (has_bits (get_or out 3 0) 64 ≡ t.saved_controller)
    × (has_bits (get_or out 3 0) 128 ≡ t.config_loaded)
    × (has_bits (get_or out 8 0) 1 ≡ t.usb_suspended)

-- A test that holds of both Booleans holds of each.
every : (Bool → Bool) → Bool
every p = p true && p false

every-true : (p : Bool → Bool) → every p ≡ true → (b : Bool) → p b ≡ true
unfolding every
every-true p h true = ground (arith, h)
every-true p h false = ground (arith, h)

abbrev eq_bool : Bool → Bool → Bool
eq_bool true b = b
eq_bool false b = not b

abbrev states_match : Bool → Bool → Bool → Bool → Bool → Bool → Bool → Bool → Bool
states_match a b c d e f g h =
    let w = state_bits a b c d e f g h in
    eq_bool a (has_bits w 1)
    && eq_bool b (has_bits w 2)
    && eq_bool c (has_bits w 4)
    && eq_bool d (has_bits w 8)
    && eq_bool e (has_bits w 16)
    && eq_bool f (has_bits w 32)
    && eq_bool g (has_bits w 64)
    && eq_bool h (has_bits w 128)

states_back : (a b c d e f g h : Bool) → states_match a b c d e f g h ≡ true
unfolding every
states_back a b c d e f g h =
    every-true (λ h. states_match a b c d e f g h)
      (every-true (λ g. every (λ h. states_match a b c d e f g h))
        (every-true (λ f. every (λ g. every (λ h. states_match a b c d e f g h)))
          (every-true (λ e. every (λ f. every (λ g. every (λ h. states_match a b c d e f g h))))
            (every-true
              (λ d.
                every (λ e. every (λ f. every (λ g. every (λ h. states_match a b c d e f g h)))))
              (every-true
                (λ c. every (λ d.
                  every (λ e. every (λ f. every (λ g. every (λ h. states_match a b c d e f g h))))))
                (every-true
                  (λ b. every (λ c. every (λ d.
                    every
                      (λ e. every (λ f. every (λ g. every (λ h. states_match a b c d e f g h)))))))
                  (every-true
                    (λ a. every (λ b. every (λ c. every (λ d.
                      every (λ e.
                        every (λ f. every (λ g. every (λ h. states_match a b c d e f g h))))))))
                    refl a)
                  b)
                c)
              d)
            e)
          f)
        g)
      h

flags_back : (t : Telemetry) (rest : List ℕ) → FlagsRead (report t ++ rest) t
unfolding report
flags_back t rest = ground (
  arith,
  states_back t.bluetooth_connected t.usb_configured t.headphones_connected t.speaker_stereo
      t.pairing_active t.discovery_active t.saved_controller t.config_loaded,
)

abbrev pub IsInt16 : ℤ → Type 0
IsInt16 (pos n) = n < 2 ^ 15
IsInt16 (negsuc n) = n < 2 ^ 15

-- The values that the C types of the fields hold.
pub record InRange (t : Telemetry) : Type 0 where
  pub current_cpu_mhz : t.current_cpu_mhz < 2 ^ 16
  pub requested_cpu_mhz : t.requested_cpu_mhz < 2 ^ 16
  pub last_management_error : IsInt16 t.last_management_error
  pub management_sequence : t.management_sequence ≤ uint32_max
  pub usb_input_dropped : t.usb_input_dropped ≤ uint32_max
  pub host_report_dropped : t.host_report_dropped ≤ uint32_max
  pub audio_ingress_dropped : t.audio_ingress_dropped ≤ uint32_max
  pub haptics_queue_dropped : t.haptics_queue_dropped ≤ uint32_max
  pub speaker_errors : t.speaker_errors ≤ uint32_max
  pub microphone_errors : t.microphone_errors ≤ uint32_max

abbrev pub WordsRead : List ℕ → Telemetry → Type 0
WordsRead out t =
    (get_u16_le out 4 ≡ t.current_cpu_mhz)
    × (get_u16_le out 6 ≡ t.requested_cpu_mhz)
    × (get_or out 9 0 ≡ t.last_management_command)
    × (signed16 (get_u16_le out 10) ≡ t.last_management_error)
    × (get_u32_le out 12 ≡ t.management_sequence)
    × (get_u32_le out 16 ≡ t.usb_input_dropped)
    × (get_u32_le out 20 ≡ t.host_report_dropped)
    × (get_u32_le out 24 ≡ t.audio_ingress_dropped)
    × (get_u32_le out 28 ≡ t.haptics_queue_dropped)
    × (get_u32_le out 32 ≡ t.speaker_errors)
    × (get_u32_le out 36 ≡ t.microphone_errors)
    × (get_or out 40 0 ≡ t.feature_get_queue_depth)
    × (get_or out 41 0 ≡ t.feature_set_queue_depth)
    × (get_or out 42 0 ≡ t.haptics_queue_depth)
    × (get_or out 43 0 ≡ t.speaker_queue_depth)

signed16-to_u16 : (x : ℤ) → IsInt16 x → signed16 (to_u16 x) ≡ x
signed16-to_u16 (pos n) h = ground arith
signed16-to_u16 (negsuc n) h = ground arith

to_u16-lt : (x : ℤ) → to_u16 x < 2 ^ 16
to_u16-lt (pos n) = omega arith
to_u16-lt (negsuc n) = omega arith

words_back : (t : Telemetry) → InRange t → (rest : List ℕ) → WordsRead (report t ++ rest) t
unfolding report
words_back t r rest = (
  word_bytes t.current_cpu_mhz r.current_cpu_mhz,
  word_bytes t.requested_cpu_mhz r.requested_cpu_mhz,
  refl,
  ap signed16 (word_bytes (to_u16 t.last_management_error) (to_u16-lt t.last_management_error))
      ∙ signed16-to_u16 t.last_management_error r.last_management_error,
  u32_bytes t.management_sequence r.management_sequence,
  u32_bytes t.usb_input_dropped r.usb_input_dropped,
  u32_bytes t.host_report_dropped r.host_report_dropped,
  u32_bytes t.audio_ingress_dropped r.audio_ingress_dropped,
  u32_bytes t.haptics_queue_dropped r.haptics_queue_dropped,
  u32_bytes t.speaker_errors r.speaker_errors,
  u32_bytes t.microphone_errors r.microphone_errors,
  refl,
  refl,
  refl,
  refl,
)

length-replicate : (n : ℕ) (x : ℕ) → length (replicate n x) ≡ n
length-replicate zero x = refl
length-replicate (suc n) x = ap suc (length-replicate n x)

length-report :
    (t : Telemetry) (size : ℕ) → 44 ≤ size → size ≡ length (report t ++ replicate (size - 44) 0)
unfolding report
length-report t size h = omega (arith, length-replicate (size - 44) 0)

-- The report fills the whole output of its caller, which has room for 44 bytes; every flag, word and
-- depth is read back at its offset.
pub telemetry_encode-read :
    (t : Telemetry) (size : Option ℕ) (out : List ℕ)
    → InRange t
    → telemetry_encode (some t) size ≡ ok out
    → (size ≡ some (length out)) × FlagsRead out t × WordsRead out t
unfolding telemetry_encode
telemetry_encode-read t none out r e = ground arith
telemetry_encode-read t (some size) out r e =
    let rest : List ℕ = replicate (size - 44) 0 in
    let made : (report t ++ rest ≡ out) × (44 ≤ size) = ground (arith, e) in
    subst (λ (o : List ℕ). (some size ≡ some (length o)) × FlagsRead o t × WordsRead o t) made.0
      (ap some (length-report t size made.1), flags_back t rest, words_back t r rest)
