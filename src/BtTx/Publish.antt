-- ===== src/BtTx/Publish.antt =====
-- Starting, resetting and filling the scheduler: m61_bt_tx_scheduler_init, reset_generation,
-- publish_realtime, publish_state31 and publish_state32 of m61_bt_tx_scheduler.c.
use mathlib.Core.Option
use ds5dongle.Prelude.{
  ℕ, ◌+◌, Bool, true, false, not, Option, none, some, List, [], ◌++◌, ltb, ◌==◌, if◌then◌else◌, u64,
  inc32, replicate, take, drop,
}
use ds5dongle.AudioEpoch.{EpochPair}
use ds5dongle.BtTx.{
  Scheduler, ClassMetrics, RtSlot, realtime, state31, state32, TxClass, on_class, next_version,
  clear_rt0, clear_rt1, clear_st31, clear_st32, oldest_realtime, state31_report_max,
}

abbrev pub zero_metrics : ClassMetrics
zero_metrics = record {
  accepted = 0;
  transmitted = 0;
  replaced = 0;
  stale = 0;
  retried = 0;
  dropped = 0;
  rejected = 0;
  pending = 0;
}

abbrev pub zero_pair : EpochPair
zero_pair = record {
  generation = 0;
  first_epoch = 0;
  first_captured_us = 0;
  second_captured_us = 0;
  speaker_enabled = false;
  first_haptics = replicate 64 0;
  second_haptics = replicate 64 0;
  first_opus = replicate 200 0;
  second_opus = replicate 200 0;
}

abbrev pub zero_slot : RtSlot
zero_slot = record {
  pending = false;
  version = 0;
  sequence = 0;
  created_us = 0;
  payload = zero_pair;
}

-- `m61_bt_tx_scheduler_init`
unfoldable pub init : ℕ → Scheduler
init generation = record {
  generation = generation;
  next_version = 0;
  next_sequence = 0;
  rt_burst = 0;
  next_state_class = state31;
  rt0 = zero_slot;
  rt1 = zero_slot;
  st31 = record {
    pending = false;
    generation = 0;
    version = 0;
    created_us = 0;
    payload = record { len = 0; includes_id = false; report = replicate 64 0 };
  };
  st32 = record {
    pending = false;
    generation = 0;
    version = 0;
    created_us = 0;
    mic_active = false;
  };
  metrics = record { realtime = zero_metrics; state31 = zero_metrics; state32 = zero_metrics };
}

-- `clear_pending`, one function for each slot in the order of the code.
unfoldable pub clear_pending_rt0 : Bool → Scheduler → Scheduler
clear_pending_rt0 was_stale s = if s.rt0.pending then clear_rt0 was_stale s else s

unfoldable pub clear_pending_rt1 : Bool → Scheduler → Scheduler
clear_pending_rt1 was_stale s = if s.rt1.pending then clear_rt1 was_stale s else s

unfoldable pub clear_pending_st31 : Bool → Scheduler → Scheduler
clear_pending_st31 was_stale s = if s.st31.pending then clear_st31 was_stale s else s

unfoldable pub clear_pending_st32 : Bool → Scheduler → Scheduler
clear_pending_st32 was_stale s = if s.st32.pending then clear_st32 was_stale s else s

unfoldable pub clear_pending : Bool → Scheduler → Scheduler
clear_pending was_stale s =
    let t = clear_pending_st32 was_stale (
      clear_pending_st31 was_stale (clear_pending_rt1 was_stale (clear_pending_rt0 was_stale s))) in
    record t { rt_burst = 0; next_state_class = state31 }

-- `m61_bt_tx_scheduler_reset_generation`
unfoldable pub reset_generation : ℕ → Scheduler → Scheduler
reset_generation generation s = record (clear_pending true s) { generation = generation }

abbrev count_rejected : TxClass → Scheduler → Scheduler
count_rejected c s = record s {
  metrics = on_class c (λ m. record m { rejected = inc32 m.rejected }) s.metrics;
}

-- The entry of the class: `fresh` when nothing pending is overwritten.
abbrev count_accepted : Bool → ClassMetrics → ClassMetrics
count_accepted fresh m = record m {
  accepted = inc32 m.accepted;
  replaced = if fresh then m.replaced else inc32 m.replaced;
  pending = if fresh then inc32 m.pending else m.pending;
}

-- The free slot that the search of `publish_realtime` finds first.
abbrev pub free_realtime : Scheduler → Option ℕ
free_realtime s = if not s.rt0.pending then some 0 else if not s.rt1.pending then some 1 else none

abbrev filled : Scheduler → EpochPair → RtSlot
filled s p = record {
  pending = true;
  version = next_version s;
  sequence = s.next_sequence;
  created_us = p.first_captured_us;
  payload = p;
}

-- The write of a pair into slot `i`; an index outside the array is a fault.
unfoldable pub write_realtime : Option ℕ → Bool → EpochPair → Scheduler → Option Scheduler
write_realtime none fresh p s = none
write_realtime (some i) fresh p s =
    let t = record s {
      next_version = next_version s;
      next_sequence = u64 (s.next_sequence + 1);
      metrics = on_class realtime (count_accepted fresh) s.metrics;
    } in
    if i == 0
    then some (record t { rt0 = filled s p })
    else if i == 1
    then some (record t { rt1 = filled s p })
    else none

-- `m61_bt_tx_scheduler_publish_realtime`: `none` is a write outside the array `realtime`.
unfoldable pub publish_realtime : Option EpochPair → Scheduler → Option (Bool × Scheduler)
publish_realtime none s = some (false, s)
publish_realtime (some p) s =
    if not (p.generation == s.generation)
    then some (false, count_rejected realtime s)
    else elim (free_realtime s) [
      | some i ↦ Option.map (λ t. (true, t)) (write_realtime (some i) true p s)
      | none ↦ Option.map (λ t. (true, t)) (write_realtime (oldest_realtime s) false p s)
    ]

-- `memcpy(payload.report, report, len)`: the bytes behind `len` stay.
abbrev copied : List ℕ → ℕ → List ℕ → List ℕ
copied old len new = take len new ++ drop len old

-- `publish_state31` from the test of the length on, with the bytes of the report.
unfoldable pub store_state31 : List ℕ → ℕ → Bool → ℕ → ℕ → Scheduler → Bool × Scheduler
store_state31 bytes len includes_id generation created_us s =
    if ltb state31_report_max len
    then (false, s)
    else if not (generation == s.generation)
    then (false, count_rejected state31 s)
    else (
      true,
      record s {
        metrics = on_class state31 (count_accepted (not s.st31.pending)) s.metrics;
        next_version = next_version s;
        st31 = record {
          pending = true;
          generation = generation;
          version = next_version s;
          created_us = created_us;
          payload = record {
            len = len;
            includes_id = includes_id;
            report =
                if len == 0 then s.st31.payload.report else copied s.st31.payload.report len bytes;
          };
        };
      },
    )

-- `m61_bt_tx_scheduler_publish_state31`: `report` is NULL where it is `none`.
unfoldable pub publish_state31 : Option (List ℕ) → ℕ → Bool → ℕ → ℕ → Scheduler → Bool × Scheduler
unfolding store_state31
publish_state31 none len includes_id generation created_us s =
    if len == 0 then store_state31 [] len includes_id generation created_us s else (false, s)
publish_state31 (some bytes) len includes_id generation created_us s =
    store_state31 bytes len includes_id generation created_us s

-- `m61_bt_tx_scheduler_publish_state32`
unfoldable pub publish_state32 : Bool → ℕ → ℕ → Scheduler → Bool × Scheduler
publish_state32 mic_active generation created_us s =
    if not (generation == s.generation) then (false, count_rejected state32 s) else (
      true,
      record s {
        metrics = on_class state32 (count_accepted (not s.st32.pending)) s.metrics;
        next_version = next_version s;
        st32 = record {
          pending = true;
          generation = generation;
          version = next_version s;
          created_us = created_us;
          mic_active = mic_active;
        };
      },
    )
