-- ===== src/Output/Reports/Made.antt =====
-- The functions of dualsense_output.c that make a report: their refusals, ids and checksums.
use ds5dongle.Output.Within.{Within}
