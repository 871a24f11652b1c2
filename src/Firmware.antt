-- ===== src/Firmware.antt =====
-- Parts of main.c that do not call the SDK.
pub mod Text
