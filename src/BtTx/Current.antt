-- ===== src/BtTx/Current.antt =====
-- Which selections are current: those that `select` has just returned, and no selection that was
-- finished, replaced or left behind by a change of generation.
use ds5dongle.Prelude.{
  ℕ, ◌≤◌, ◌<◌, ◌≡◌, Bool, true, false, Option, none, some, List, arith, has_bits, ◌⊎◌, ◌↔◌,
  uint32_max, refl,
}
use ds5dongle.BtTx.{
  Scheduler, Selection, RtSlot, Finish, success, retry, drop, realtime, state31, clear_rt0,
  clear_rt1, clear_st31, clear_st32, oldest_realtime, class_mask, rt_max_age_us, pair,
}
use ds5dongle.BtTx.Publish.{
  clear_pending_rt0, clear_pending_rt1, clear_pending_st31, clear_pending_st32, clear_pending,
  reset_generation, publish_state31,
}
use ds5dongle.BtTx.Select.{
  select, choose, swept, drop_stale_rt0, drop_stale_rt1, drop_stale_realtime, drop_wrong_st31,
  drop_wrong_st32, drop_wrong_generation_state, selection_is_current, select_state_class, age_us,
}
use ds5dongle.BtTx.Finishing.{finish}

-- A pending realtime slot is of the scheduler's generation and not too old.
abbrev Fresh : ℕ → Scheduler → RtSlot → Type 0
Fresh now s slot =
    slot.pending ≡ true
    → (slot.payload.generation ≡ s.generation) × (age_us now slot ≤ rt_max_age_us)

-- What holds of a scheduler that was swept at a time.
pub record Swept (now : ℕ) (s : Scheduler) : Type 0 where
  pub rt0_fresh : Fresh now s s.rt0
  pub rt1_fresh : Fresh now s s.rt1
  pub st31_fresh : s.st31.pending ≡ true → s.st31.generation ≡ s.generation
  pub st32_fresh : s.st32.pending ≡ true → s.st32.generation ≡ s.generation

module _ (now : ℕ) (s : Scheduler) where
  after_rt0 : Fresh now (drop_stale_rt0 now s) (drop_stale_rt0 now s).rt0
  unfolding drop_stale_rt0 clear_rt0
  after_rt0 = ground arith

  after_rt1 :
      Fresh now s s.rt0 → let t = drop_stale_rt1 now s in Fresh now t t.rt0 × Fresh now t t.rt1
  unfolding drop_stale_rt1 clear_rt1
  after_rt1 h = ground arith

  after_st31 :
      Fresh now s s.rt0 × Fresh now s s.rt1
      → let t = drop_wrong_st31 s in
        Fresh now t t.rt0
        × Fresh now t t.rt1
        × (t.st31.pending ≡ true → t.st31.generation ≡ t.generation)
  unfolding drop_wrong_st31 clear_st31
  after_st31 h = ground arith

  after_st32 :
      Fresh now s s.rt0
        × Fresh now s s.rt1
        × (s.st31.pending ≡ true → s.st31.generation ≡ s.generation)
      → Swept now (drop_wrong_st32 s)
  unfolding drop_wrong_st32 clear_st32
  after_st32 h = ground arith

swept-Swept : (now : ℕ) (s : Scheduler) → Swept now (swept now s)
unfolding drop_stale_realtime drop_wrong_generation_state
swept-Swept now s = after_st32 now _ (after_st31 now _ (after_rt1 now _ (after_rt0 now s)))

choose-is_current :
    (now eligible : ℕ) (s : Scheduler) {sel : Selection}
    → Swept now s
    → choose eligible s (oldest_realtime s) (select_state_class s eligible) ≡ some sel
    → selection_is_current s (some sel) ≡ true
unfolding choose oldest_realtime select_state_class selection_is_current
choose-is_current now eligible s w e = ground arith

-- Whatever `select` returns is current in the state that it leaves.
pub select-is_current :
    (now eligible : ℕ) (s : Scheduler) {sel : Selection}
    → (select now eligible s).0 ≡ some sel
    → selection_is_current (select now eligible s).1 (some sel) ≡ true
unfolding select
select-is_current now eligible s e =
    choose-is_current now eligible (swept now s) (swept-Swept now s) e

-- A realtime selection is eligible, of the scheduler's generation, at most 64 ms old, holds the
-- pair of its slot, and its sequence is the least of the slots that are pending.
pub record RtChosen (now eligible : ℕ) (s : Scheduler) (sel : Selection) (slot other : RtSlot)
    : Type 0 where
  pub is_eligible : has_bits eligible (class_mask realtime) ≡ true
  pub is_pending : slot.pending ≡ true
  pub right_generation : slot.payload.generation ≡ s.generation
  pub is_young : age_us now slot ≤ rt_max_age_us
  pub same_pair : sel.payload ≡ pair slot.payload
  pub same_version : sel.version ≡ slot.version
  pub is_oldest : other.pending ≡ true → slot.sequence ≤ other.sequence

choose-RtChosen :
    (now eligible : ℕ) (s : Scheduler) {sel : Selection}
    → Swept now s
    → choose eligible s (oldest_realtime s) (select_state_class s eligible) ≡ some sel
    → sel.tx_class ≡ realtime
    → ((sel.slot ≡ 0) × RtChosen now eligible s sel s.rt0 s.rt1)
      ⊎ ((sel.slot ≡ 1) × RtChosen now eligible s sel s.rt1 s.rt0)
unfolding choose oldest_realtime select_state_class
choose-RtChosen now eligible s w e r = ground arith

-- What a realtime selection promises, in the state that `select` leaves.
pub select-RtChosen :
    (now eligible : ℕ) (s : Scheduler) {sel : Selection}
    → (select now eligible s).0 ≡ some sel
    → sel.tx_class ≡ realtime
    → let t = (select now eligible s).1 in
      ((sel.slot ≡ 0) × RtChosen now eligible t sel t.rt0 t.rt1)
      ⊎ ((sel.slot ≡ 1) × RtChosen now eligible t sel t.rt1 t.rt0)
unfolding select
select-RtChosen now eligible s e r =
    choose-RtChosen now eligible (swept now s) (swept-Swept now s) e r

-- A current selection finishes, with any result, and only a retry leaves it current.
pub finish-selection_is_current :
    (sel : Selection) (result : Finish) (s : Scheduler)
    → selection_is_current s (some sel) ≡ true
    → let (done, t) = finish (some sel) result s in
      (done ≡ true) × ((selection_is_current t (some sel) ≡ true) ↔ (result ≡ retry))
unfolding finish selection_is_current clear_rt0 clear_rt1 clear_st31 clear_st32
finish-selection_is_current sel success s h = ground arith
finish-selection_is_current sel drop s h = ground arith
finish-selection_is_current sel retry s h = ground arith

-- A selection that is not current changes nothing when it finishes.
pub finish_stale :
    (sel : Option Selection) (result : Finish) (s : Scheduler)
    → selection_is_current s sel ≡ false
    → finish sel result s ≡ (false, s)
unfolding finish
finish_stale none result s h = refl
finish_stale (some sel) result s h = ground arith

-- The versions given so far, while the counter has not wrapped.
pub record Versioned (s : Scheduler) : Type 0 where
  pub unwrapped : s.next_version < uint32_max
  pub rt0_given : s.rt0.version ≤ s.next_version
  pub rt1_given : s.rt1.version ≤ s.next_version
  pub st31_given : s.st31.version ≤ s.next_version
  pub st32_given : s.st32.version ≤ s.next_version

-- A state report that is published over one in flight leaves the selection of the old one stale:
-- its end cannot clear the new report.
pub publish_state31-not_current :
    (report : Option (List ℕ)) (len : ℕ) (includes_id : Bool) (generation created_us : ℕ)
    (s : Scheduler) (sel : Selection)
    → Versioned s
    → sel.tx_class ≡ state31
    → selection_is_current s (some sel) ≡ true
    → (publish_state31 report len includes_id generation created_us s).0 ≡ true
    → selection_is_current
        (publish_state31 report len includes_id generation created_us s).1
        (some sel)
      ≡ false
unfolding publish_state31 selection_is_current
publish_state31-not_current none l i g c s sel v k h a = ground arith
publish_state31-not_current (some b) l i g c s sel v k h a = ground arith

reset_generation-not_current :
    (generation : ℕ) (s : Scheduler) (sel : Option Selection)
    → selection_is_current (reset_generation generation s) sel ≡ false
unfolding reset_generation clear_pending clear_pending_rt0 clear_pending_rt1 clear_pending_st31
    clear_pending_st32 clear_rt0 clear_rt1 clear_st31 clear_st32 selection_is_current
reset_generation-not_current g s none = refl
reset_generation-not_current g s (some sel) = ground arith

-- What is pending.
abbrev IsIdle : Scheduler → Type 0
IsIdle s =
    (s.rt0.pending ≡ false)
    × (s.rt1.pending ≡ false)
    × (s.st31.pending ≡ false)
    × (s.st32.pending ≡ false)

reset_generation-IsIdle : (generation : ℕ) (s : Scheduler) → IsIdle (reset_generation generation s)
unfolding reset_generation clear_pending clear_pending_rt0 clear_pending_rt1 clear_pending_st31
    clear_pending_st32 clear_rt0 clear_rt1 clear_st31 clear_st32
reset_generation-IsIdle g s = ground arith

select-IsIdle : (now eligible : ℕ) (s : Scheduler) → IsIdle s → select now eligible s ≡ (none, s)
unfolding select drop_stale_realtime drop_wrong_generation_state drop_stale_rt0 drop_stale_rt1
    drop_wrong_st31 drop_wrong_st32 choose select_state_class oldest_realtime
select-IsIdle now eligible s h = ground arith

-- Behind a change of generation nothing is left: nothing is selected, whatever the time and the
-- eligible classes, and no earlier selection is current.
pub reset_generation-cleared :
    (generation now eligible : ℕ) (s : Scheduler) (sel : Option Selection)
    → (select now eligible (reset_generation generation s) ≡ (none, reset_generation generation s))
      × (selection_is_current (reset_generation generation s) sel ≡ false)
reset_generation-cleared g now eligible s sel = (
  select-IsIdle now eligible _ (reset_generation-IsIdle g s),
  reset_generation-not_current g s sel,
)
