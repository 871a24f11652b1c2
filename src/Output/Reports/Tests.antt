-- ===== src/Output/Reports/Tests.antt =====
-- Runs of the output reports at concrete inputs.
use ds5dongle.Prelude.{
  ℕ, ◌∷◌, ◌++◌, [], List, Option, none, some, get_or, replicate, if◌then◌else◌, ◌≡◌, refl, arith,
}
use ds5dongle.WebConfig.{crc32_ieee}
use ds5dongle.Output.{
  Context, init, ensure_set_state, output_crc32, feature_crc32, output_crc_seed, feature_crc_seed,
}
use ds5dongle.Output.Table.{crc32_tables_agree}
use ds5dongle.Output.UsbState.{merge_payload, apply_usb_set_state}
use ds5dongle.Output.UsbState.Frame.{allows, fields}
use ds5dongle.Output.Reports.{fill_report31, make_report31_from_usb}
use ds5dongle.Output.Reports.Carried.{make_report31_from_usb-allows}

abbrev fresh : Context
unfolding init
fresh = init (record { sequence = 3; audio_packet_counter = 0; set_state = replicate 63 0 })

abbrev buffer : List ℕ
buffer = replicate 600 0xee

-- A host that sets the colour of the lights.
abbrev colour_payload : List ℕ
colour_payload = 0 ∷ 4 ∷ replicate 42 0 ++ (1 ∷ 2 ∷ 3 ∷ [])

abbrev blocks : Option (List ℕ) × Option (List ℕ)
blocks = (some (replicate 64 5), none)

abbrev no_blocks : Option (List ℕ) × Option (List ℕ)
no_blocks = (none, none)

crc32_tables_agree_example :
    (output_crc32 (0x31 ∷ 0x10 ∷ []) 2 ≡ crc32_ieee (output_crc_seed ∷ 0x31 ∷ 0x10 ∷ []) 3)
    × (feature_crc32 (0x31 ∷ 0x10 ∷ []) 2 ≡ crc32_ieee (feature_crc_seed ∷ 0x31 ∷ 0x10 ∷ []) 3)
crc32_tables_agree_example = crc32_tables_agree (0x31 ∷ 0x10 ∷ []) 2

-- Both ways to compute the CRC agree on a report of two bytes behind the seed of output reports.
output_crc32_run : output_crc32 (0x31 ∷ 0x10 ∷ []) 2 ≡ crc32_ieee (0xa2 ∷ 0x31 ∷ 0x10 ∷ []) 3
unfolding output_crc32 crc32_ieee
output_crc32_run = refl

made : Context × List ℕ
made = fill_report31 (merge_payload fresh colour_payload) buffer

colour_made : make_report31_from_usb fresh (some colour_payload) (some buffer) ≡ some made
unfolding make_report31_from_usb apply_usb_set_state made
colour_made = refl

make_report31_from_usb-allows_example :
    (get_or made.1 48 0 ≡ (
      if allows fields colour_payload 45
      then get_or colour_payload 45 0
      else get_or (ensure_set_state fresh).set_state 45 0))
    × (get_or made.0.set_state 45 0 ≡ get_or made.1 48 0)
unfolding fresh
make_report31_from_usb-allows_example =
    make_report31_from_usb-allows fresh made colour_payload buffer 45 refl colour_made (omega arith)
      (omega arith) (omega arith) (omega arith) (omega arith)
