-- ===== src/Gamepad.antt =====
-- The USB side of m61/dualsense_hidp_probe/m61_usb_gamepad.{h,c}, part by part.
pub mod Input
pub mod Ring
pub mod Features
pub mod HostReports
pub mod Ingress
pub mod Mic
