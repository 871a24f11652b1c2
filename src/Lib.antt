-- ===== src/Lib.antt =====
-- The core logic of the M61 firmware of DS5Dongle, which joins a DualSense controller on Bluetooth
-- to a USB host: m61/dualsense_hidp_probe. C functions are functions on explicit state. A pointer
-- that may be NULL is an Option; an answer -n of a C function is the error n; words wrap where the
-- C types do. The state is passed by a pointer that is never NULL.
--
-- How the parts interact. USB audio packets fill the audio epoch store; a codec task takes encode
-- jobs from it and gives packets back; a Bluetooth task takes pairs of adjacent epochs into the
-- transmit scheduler, beside the state reports of the host, and selects what is sent next. A
-- report of the controller is parsed, and sent to the host behind the dead zones of the sticks;
-- what the host sends waits in the queues of the gamepad, and is made into output reports, as are
-- the pairs of epochs. The realtime scheduler decides which work of the main loop runs; the
-- frequency control raises the CPU clock for it; the configuration sets what all of them do, and
-- travels to the host and the flash store as bytes.
--
-- Prelude (Tests, Lists, Writes, Words, Bits, Answers, Int): shared names, Boolean tests on
--   numbers, C arrays as lists and writes to them, unsigned words, their bits, answers with
--   errors, and signed integers.
-- AudioEpoch: m61_audio_epoch.h and the slots of m61_audio_epoch.c. Allocate has
--   m61_audio_epoch_init, _reset, _get_stats and allocate_slot_locked; Ingest has
--   m61_audio_epoch_ingest_usb; Encode has _take_encode_job and _complete_encode; Pairs has
--   _take_adjacent_pair; Haptics has the conversion of samples. The proofs stand in Slots, Chunks,
--   Filling (the end of the loop) with Others (what the other operations do to a slot being
--   filled), Ownership, Reading, Encoding and Cancel. The code drops its lock while it copies, and
--   between two rounds of its loop: `between` is the change that the other tasks make to the store
--   in the one time, `others` in the other.
-- BtTx: m61_bt_tx_scheduler.h and its helpers. Publish, Select, Finishing and Ingest have the
--   operations of m61_bt_tx_scheduler.c. The proofs stand in Accounts, Sequenced and Run (the
--   counters), Waiting and Turns (the alternation of realtime and state reports) and Current
--   (which selections may still be sent).
-- Dvfs: m61_dvfs.h and the floors of m61_dvfs.c. Clock has dvfs_apply_hardware_frequency, Worker
--   the loop of dvfs_worker, Requests the setters, requests and the status, Saved m61_dvfs_init
--   and the stored settings. The proofs stand in Floors, Valid, Calls, Run, Shifts and Switching.
-- Firmware: Text has the functions of main.c that read and print bytes as hexadecimal digits, and
--   Printed its proofs.
-- Gamepad: m61_usb_gamepad.c in parts. Input has make_payload_from_state, with its proof in Echo;
--   Ring the arrays that are used as queues, with their contents as lists; Features the cache and
--   the requests of feature reports, whose proofs stand in Removed, Queued, Refine (the list that
--   the queue stands for), Distinct and Cache; HostReports queue_host_report and
--   m61_usb_gamepad_take_host_report, with Refine; Ingress the ring of audio packets as steps of
--   the interrupt, the USB calls and the ingress task, with proofs in Tracked, Steps and Run; Mic
--   the ring of microphone packets, with proofs in Steps, Kept and Run.
-- Output: the context and the checksums of dualsense_output.c, with the proof about the table in
--   Table. UsbState has apply_usb_set_state, and in Frame the fields that a flag allows; Reports
--   has the functions that make reports, with proofs in Sealed, Made and Carried, and in Kept and
--   Within what a write leaves as it was.
-- Parser: dualsense_parse_report and dualsense_user_input_active of dualsense_parser.c. A report
--   is a function from addresses, so that a read behind its end would be seen. The proofs stand in
--   Buttons, Bounds and Framing.
-- Realtime: m61_realtime_scheduler.h and .c; Deadlines has its proofs.
-- StickDeadzone: m61_stick_deadzone.c; Root has the proof of the square root, Centre that of the
--   zone.
-- WebConfig: the record of m61_web_config.h and its helpers in m61_web_config.c. Codec has
--   m61_web_config_encode, _decode and m61_web_command_encode, Persistent the stored record with
--   its CRC, Telemetry m61_web_telemetry_encode, Runtime the steps of m61_web_runtime_set and
--   m61_web_runtime_get between which the other may run. The proofs stand in RoundTrip, Migration,
--   Stored, Report, Guarded and Untorn.
-- The Tests module of a part, and WebConfig/RuntimeTests, have runs at concrete inputs.
--
-- Bounds and fuel. The store has eight slots in the initial state, and no operation changes their
-- number. The two realtime slots of the transmit scheduler are two fields. The queues of the
-- gamepad hold 16 requests and 8 reports, its cache 32 reports, and its rings 8 audio and 32
-- microphone packets, as in the source; their proofs begin at the state that initialization makes.
-- The loop of m61_audio_epoch_ingest_usb runs on fuel for two rounds a frame and two more, enough
-- because each round copies a frame or puts the filled slot away, and the other tasks begin to
-- fill none; the two loops of isqrt_u32 make at most sixteen rounds each. The sequences of the
-- transmit scheduler are shorter than 2^64 - 1 where versions and sequence numbers must not wrap,
-- and the interleavings of the shared configuration shorter than 2^32, so that its sequence does
-- not.
--
-- Parameters. pdMS_TO_TICKS, the time, the answers of the SDK to requests for the clock, EasyFlash
-- and the creation of tasks are arguments of the definitions that use them, as is
-- HID_REPORT_FEATURE of the USB stack. Whether a transfer starts is a step of its own, and so are
-- the suspension and the restart of USB for the ring of microphone packets. In sequences of calls
-- of the frequency control, the error that dvfs_apply_hardware_frequency answers is a parameter
-- too, of which Clock has the definition.
--
-- Not modelled. The build is the default one, without CONFIG_M61_PIPELINE_PROFILE, so the profile
-- fields of the store are left out, and with them two counters that nothing writes. Calls of the
-- frequency control and rounds of its worker are taken as atomic. What an encoder leaves in its
-- output buffer where it answers an error is left out. The shared configuration has one writer,
-- and its first initialization is left out. The names of profiles and m61_dvfs_measure_cpu_mhz are
-- left out, as are the rest of main.c, the profiling code and the functions of dualsense_parser.c
-- that compare states or format them as text. Of m61_usb_gamepad.c, the descriptors, the registers
-- of the controller, the HID endpoints, the queues of Opus packets and of speaker frames, the
-- setters, the Opus calls and the diagnostics that the queues do not write are left out. Of an
-- audio or microphone packet the samples are left out, not its slot. Of a text that is refused,
-- what was written of its bytes is left out.
pub mod Prelude
pub mod AudioEpoch
pub mod BtTx
pub mod Dvfs
pub mod Firmware
pub mod Gamepad
pub mod Output
pub mod Parser
pub mod Realtime
pub mod StickDeadzone
pub mod WebConfig
