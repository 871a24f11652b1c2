-- ===== src/BtTx/Select.antt =====
-- The choice of what to send next: drop_stale_realtime, drop_wrong_generation_state,
-- select_state_class, m61_bt_tx_scheduler_select and m61_bt_tx_scheduler_selection_is_current.
use ds5dongle.Prelude.{
  ℕ, ◌-◌, Bool, true, false, ◌&&◌, ◌||◌, not, Option, none, some, ltb, leb, ◌==◌, if◌then◌else◌,
  has_bits,
}
use ds5dongle.BtTx.{
  Scheduler, RtSlot, Selection, pair, report31, report32, no_class, realtime, state31, state32,
  TxClass, clear_rt0, clear_rt1, clear_st31, clear_st32, oldest_realtime, class_mask, is_state32,
  is_no_class, rt_max_age_us, max_rt_burst,
}

-- `age_us`, 0 for a slot of the future.
abbrev pub age_us : ℕ → RtSlot → ℕ
age_us now_us slot = if leb slot.created_us now_us then now_us - slot.created_us else 0

abbrev pub is_stale : ℕ → Scheduler → RtSlot → Bool
is_stale now_us s slot =
    slot.pending
    && (not (slot.payload.generation == s.generation) || ltb rt_max_age_us (age_us now_us slot))

-- `drop_stale_realtime`, one function for each round of its loop.
unfoldable pub drop_stale_rt0 : ℕ → Scheduler → Scheduler
drop_stale_rt0 now_us s = if is_stale now_us s s.rt0 then clear_rt0 true s else s

unfoldable pub drop_stale_rt1 : ℕ → Scheduler → Scheduler
drop_stale_rt1 now_us s = if is_stale now_us s s.rt1 then clear_rt1 true s else s

unfoldable pub drop_stale_realtime : ℕ → Scheduler → Scheduler
drop_stale_realtime now_us s = drop_stale_rt1 now_us (drop_stale_rt0 now_us s)

-- `drop_wrong_generation_state`, one function for each of its two tests.
unfoldable pub drop_wrong_st31 : Scheduler → Scheduler
drop_wrong_st31 s =
    if s.st31.pending && not (s.st31.generation == s.generation) then clear_st31 true s else s

unfoldable pub drop_wrong_st32 : Scheduler → Scheduler
drop_wrong_st32 s =
    if s.st32.pending && not (s.st32.generation == s.generation) then clear_st32 true s else s

unfoldable pub drop_wrong_generation_state : Scheduler → Scheduler
drop_wrong_generation_state s = drop_wrong_st32 (drop_wrong_st31 s)

abbrev pub ready31 : Scheduler → ℕ → Bool
ready31 s eligible = s.st31.pending && has_bits eligible (class_mask state31)

abbrev pub ready32 : Scheduler → ℕ → Bool
ready32 s eligible = s.st32.pending && has_bits eligible (class_mask state32)

-- `select_state_class`
unfoldable pub select_state_class : Scheduler → ℕ → TxClass
select_state_class s eligible =
    if is_state32 s.next_state_class
    then (if ready32 s eligible then state32 else if ready31 s eligible then state31 else no_class)
    else if ready31 s eligible
    then state31
    else if ready32 s eligible
    then state32
    else no_class

abbrev select_slot : ℕ → RtSlot → Selection
select_slot i slot = record {
  tx_class = realtime;
  slot = i;
  generation = slot.payload.generation;
  version = slot.version;
  created_us = slot.created_us;
  payload = pair slot.payload;
}

abbrev select_rt : Scheduler → ℕ → Selection
select_rt s i = if i == 0 then select_slot 0 s.rt0 else select_slot 1 s.rt1

abbrev select_state : Scheduler → TxClass → Option Selection
select_state s state31 = some (record {
  tx_class = state31;
  slot = 0;
  generation = s.st31.generation;
  version = s.st31.version;
  created_us = s.st31.created_us;
  payload = report31 s.st31.payload;
})
select_state s state32 = some (record {
  tx_class = state32;
  slot = 0;
  generation = s.st32.generation;
  version = s.st32.version;
  created_us = s.st32.created_us;
  payload = report32 s.st32.mic_active;
})
select_state s _ = none

-- `select` behind the two drops. A realtime slot that is passed over for its burst while no state
-- class is taken is selected at the end.
unfoldable pub choose : ℕ → Scheduler → Option ℕ → TxClass → Option Selection
choose eligible s none state_class = select_state s state_class
choose eligible s (some i) state_class =
    let rt_eligible = has_bits eligible (class_mask realtime) in
    if rt_eligible && (ltb s.rt_burst max_rt_burst || is_no_class state_class)
    then some (select_rt s i)
    else elim (select_state s state_class) [
      | some selection ↦ some selection
      | none ↦ if rt_eligible then some (select_rt s i) else none
    ]

abbrev pub swept : ℕ → Scheduler → Scheduler
swept now_us s = drop_wrong_generation_state (drop_stale_realtime now_us s)

-- `m61_bt_tx_scheduler_select`: `none` is the result false, with the class of `selection` NONE.
unfoldable pub select : ℕ → ℕ → Scheduler → Option Selection × Scheduler
select now_us eligible s =
    let t = swept now_us s in
    (choose eligible t (oldest_realtime t) (select_state_class t eligible), t)

-- `m61_bt_tx_scheduler_selection_is_current`
abbrev is_current_class : Scheduler → Selection → TxClass → Bool
is_current_class s sel realtime =
    if sel.slot == 0
    then s.rt0.pending && (s.rt0.version == sel.version)
    else if sel.slot == 1
    then s.rt1.pending && (s.rt1.version == sel.version)
    else false
is_current_class s sel state31 = s.st31.pending && (s.st31.version == sel.version)
is_current_class s sel state32 = s.st32.pending && (s.st32.version == sel.version)
is_current_class s sel no_class = false

unfoldable pub selection_is_current : Scheduler → Option Selection → Bool
selection_is_current s none = false
selection_is_current s (some sel) =
    if sel.generation == s.generation then is_current_class s sel sel.tx_class else false
