-- ===== src/BtTx.antt =====
-- The Bluetooth transmit scheduler of m61/dualsense_hidp_probe/m61_bt_tx_scheduler.{h,c}: two
-- realtime slots and one slot for each kind of state report. This file has its state and the
-- static helpers that its operations share.
pub mod Publish
pub mod Select
pub mod Finishing
pub mod Accounts
pub mod Current
pub mod Waiting
pub mod Turns
pub mod Ingest
pub mod Sequenced
pub mod Run
mod Tests
use ds5dongle.Prelude.{
  ℕ, ◌+◌, ◌-◌, Bool, true, false, ◌&&◌, ◌||◌, not, Option, none, some, List, ltb, ◌==◌,
  if◌then◌else◌, u32, inc32, has_bits, uint64_max,
}
use ds5dongle.AudioEpoch.{EpochPair}

abbrev pub rt_max_age_us : ℕ
rt_max_age_us = 64000

abbrev pub max_rt_burst : ℕ
max_rt_burst = 3

abbrev pub state31_report_max : ℕ
state31_report_max = 64

-- `m61_bt_tx_class_t`, without the count that ends the enum.
pub data TxClass : Type 0 where
  no_class realtime state31 state32 : TxClass

-- `M61_BT_TX_CLASS_MASK`
abbrev pub class_mask : TxClass → ℕ
class_mask no_class = 1
class_mask realtime = 2
class_mask state31 = 4
class_mask state32 = 8

abbrev pub is_state32 : TxClass → Bool
is_state32 state32 = true
is_state32 _ = false

abbrev pub is_no_class : TxClass → Bool
is_no_class no_class = true
is_no_class _ = false

-- `m61_bt_tx_finish_t`
pub data Finish : Type 0 where
  success retry drop : Finish

-- `m61_bt_tx_class_metrics_t`
pub record ClassMetrics : Type 0 where
  pub accepted : ℕ
  pub transmitted : ℕ
  pub replaced : ℕ
  pub stale : ℕ
  pub retried : ℕ
  pub dropped : ℕ
  pub rejected : ℕ
  pub pending : ℕ

-- `m61_bt_tx_metrics_t`: the entry of `classes` for no class is never touched, and is left out.
pub record Metrics : Type 0 where
  pub realtime : ClassMetrics
  pub state31 : ClassMetrics
  pub state32 : ClassMetrics

-- `m61_bt_tx_state31_payload_t`
pub record State31Payload : Type 0 where
  pub len : ℕ
  pub includes_id : Bool
  pub report : List ℕ

-- `m61_bt_tx_rt_slot_t`
pub record RtSlot : Type 0 where
  pub pending : Bool
  pub version : ℕ
  pub sequence : ℕ
  pub created_us : ℕ
  pub payload : EpochPair

-- `m61_bt_tx_state31_slot_t`
pub record State31Slot : Type 0 where
  pub pending : Bool
  pub generation : ℕ
  pub version : ℕ
  pub created_us : ℕ
  pub payload : State31Payload

-- `m61_bt_tx_state32_slot_t`: the payload is the one `mic_active`.
pub record State32Slot : Type 0 where
  pub pending : Bool
  pub generation : ℕ
  pub version : ℕ
  pub created_us : ℕ
  pub mic_active : Bool

-- `m61_bt_tx_scheduler_t`: the array `realtime` of depth 2 is the fields `rt0` and `rt1`.
pub record Scheduler : Type 0 where
  pub generation : ℕ
  pub next_version : ℕ
  pub next_sequence : ℕ
  pub rt_burst : ℕ
  pub next_state_class : TxClass
  pub rt0 : RtSlot
  pub rt1 : RtSlot
  pub st31 : State31Slot
  pub st32 : State32Slot
  pub metrics : Metrics

-- What `payload` of a selection points at.
pub data Payload : Type 0 where
  pair : EpochPair → Payload
  report31 : State31Payload → Payload
  report32 : Bool → Payload

-- `m61_bt_tx_selection_t`
pub record Selection : Type 0 where
  pub tx_class : TxClass
  pub slot : ℕ
  pub generation : ℕ
  pub version : ℕ
  pub created_us : ℕ
  pub payload : Payload

-- A write through the pointer that `class_metrics` returns; it is NULL for no class.
abbrev pub on_class : TxClass → (ClassMetrics → ClassMetrics) → Metrics → Metrics
on_class no_class f m = m
on_class realtime f m = record m { realtime = f m.realtime }
on_class state31 f m = record m { state31 = f m.state31 }
on_class state32 f m = record m { state32 = f m.state32 }

-- `next_version`: the value returned is the new `next_version`, and 0 is skipped.
abbrev pub next_version : Scheduler → ℕ
next_version s = let v = u32 (s.next_version + 1) in if v == 0 then u32 (v + 1) else v

abbrev pub retired : Bool → ClassMetrics → ClassMetrics
retired was_stale m = record m {
  stale = if was_stale then inc32 m.stale else m.stale;
  pending = if ltb 0 m.pending then m.pending - 1 else m.pending;
}

-- `retire_metric`
unfoldable pub retire_metric : TxClass → Bool → Scheduler → Scheduler
retire_metric c was_stale s = record s { metrics = on_class c (retired was_stale) s.metrics }

-- A slot's `pending` is cleared and its class retired, as each loop and test below does.
unfoldable pub clear_rt0 : Bool → Scheduler → Scheduler
unfolding retire_metric
clear_rt0 was_stale s =
    retire_metric realtime was_stale (record s { rt0 = record (s.rt0) { pending = false } })

unfoldable pub clear_rt1 : Bool → Scheduler → Scheduler
unfolding retire_metric
clear_rt1 was_stale s =
    retire_metric realtime was_stale (record s { rt1 = record (s.rt1) { pending = false } })

unfoldable pub clear_st31 : Bool → Scheduler → Scheduler
unfolding retire_metric
clear_st31 was_stale s =
    retire_metric state31 was_stale (record s { st31 = record (s.st31) { pending = false } })

unfoldable pub clear_st32 : Bool → Scheduler → Scheduler
unfolding retire_metric
clear_st32 was_stale s =
    retire_metric state32 was_stale (record s { st32 = record (s.st32) { pending = false } })

-- `oldest_realtime`: the index of the pending slot with the least sequence, below UINT64_MAX.
unfoldable pub oldest_realtime : Scheduler → Option ℕ
oldest_realtime s =
    let first = s.rt0.pending && ltb s.rt0.sequence uint64_max in
    let oldest = if first then s.rt0.sequence else uint64_max in
    if s.rt1.pending && ltb s.rt1.sequence oldest then some 1 else if first then some 0 else none
