-- ===== src/BtTx/Accounts.antt =====
-- The books of the scheduler: every report that was accepted is sent, replaced, stale, dropped or
-- pending, and `pending` counts the slots that are.
use ds5dongle.Prelude.{ℕ, ◌+◌, ◌≡◌, Bool, true, Option, none, some, List, [], arith, u32, from_bool}
use ds5dongle.AudioEpoch.{EpochPair}
use ds5dongle.BtTx.{
  Scheduler, ClassMetrics, Selection, Finish, success, retry, drop, clear_rt0, clear_rt1,
  clear_st31, clear_st32, oldest_realtime,
}
use ds5dongle.BtTx.Publish.{
  init, clear_pending_rt0, clear_pending_rt1, clear_pending_st31, clear_pending_st32, clear_pending,
  reset_generation, publish_realtime, write_realtime, publish_state31, store_state31,
  publish_state32,
}
use ds5dongle.BtTx.Select.{
  select, drop_stale_rt0, drop_stale_rt1, drop_stale_realtime, drop_wrong_st31, drop_wrong_st32,
  drop_wrong_generation_state, selection_is_current,
}
use ds5dongle.BtTx.Finishing.{finish}

-- Modulo 2 ^ 32, as the counters wrap.
abbrev pub Balanced : ClassMetrics → Type 0
Balanced m = m.accepted ≡ u32 (m.transmitted + m.replaced + m.stale + m.dropped + m.pending)

pub record Accounts (s : Scheduler) : Type 0 where
  pub rt_balanced : Balanced s.metrics.realtime
  pub st31_balanced : Balanced s.metrics.state31
  pub st32_balanced : Balanced s.metrics.state32
  pub rt_counted : s.metrics.realtime.pending ≡ from_bool s.rt0.pending + from_bool s.rt1.pending
  pub st31_counted : s.metrics.state31.pending ≡ from_bool s.st31.pending
  pub st32_counted : s.metrics.state32.pending ≡ from_bool s.st32.pending

pub init-Accounts : (generation : ℕ) → Accounts (init generation)
unfolding init
init-Accounts g = omega arith

-- One slot at a time.
clear_pending_rt0-Accounts : {s : Scheduler} → Accounts s → Accounts (clear_pending_rt0 true s)
unfolding clear_pending_rt0 clear_rt0
clear_pending_rt0-Accounts a = ground arith

clear_pending_rt1-Accounts : {s : Scheduler} → Accounts s → Accounts (clear_pending_rt1 true s)
unfolding clear_pending_rt1 clear_rt1
clear_pending_rt1-Accounts a = ground arith

clear_pending_st31-Accounts : {s : Scheduler} → Accounts s → Accounts (clear_pending_st31 true s)
unfolding clear_pending_st31 clear_st31
clear_pending_st31-Accounts a = ground arith

clear_pending_st32-Accounts : {s : Scheduler} → Accounts s → Accounts (clear_pending_st32 true s)
unfolding clear_pending_st32 clear_st32
clear_pending_st32-Accounts a = ground arith

-- A change of generation keeps the books: what was pending is counted as stale.
pub reset_generation-Accounts :
    (generation : ℕ) {s : Scheduler} → Accounts s → Accounts (reset_generation generation s)
unfolding reset_generation clear_pending
reset_generation-Accounts g a =
    let b =
      clear_pending_st32-Accounts
        (clear_pending_st31-Accounts (clear_pending_rt1-Accounts (clear_pending_rt0-Accounts a))) in
    record {
      rt_balanced = b.rt_balanced;
      st31_balanced = b.st31_balanced;
      st32_balanced = b.st32_balanced;
      rt_counted = b.rt_counted;
      st31_counted = b.st31_counted;
      st32_counted = b.st32_counted;
    }

drop_stale_rt0-Accounts : (now : ℕ) {s : Scheduler} → Accounts s → Accounts (drop_stale_rt0 now s)
unfolding drop_stale_rt0 clear_rt0
drop_stale_rt0-Accounts now a = ground arith

drop_stale_rt1-Accounts : (now : ℕ) {s : Scheduler} → Accounts s → Accounts (drop_stale_rt1 now s)
unfolding drop_stale_rt1 clear_rt1
drop_stale_rt1-Accounts now a = ground arith

drop_wrong_st31-Accounts : {s : Scheduler} → Accounts s → Accounts (drop_wrong_st31 s)
unfolding drop_wrong_st31 clear_st31
drop_wrong_st31-Accounts a = ground arith

drop_wrong_st32-Accounts : {s : Scheduler} → Accounts s → Accounts (drop_wrong_st32 s)
unfolding drop_wrong_st32 clear_st32
drop_wrong_st32-Accounts a = ground arith

-- A selection keeps the books: what it sweeps away is counted as stale.
pub select-Accounts :
    (now eligible : ℕ) {s : Scheduler} → Accounts s → Accounts (select now eligible s).1
unfolding select drop_stale_realtime drop_wrong_generation_state
select-Accounts now eligible a =
    drop_wrong_st32-Accounts
      (drop_wrong_st31-Accounts (drop_stale_rt1-Accounts now (drop_stale_rt0-Accounts now a)))

-- A publication keeps the books, accepted or not.
pub publish_realtime-Accounts :
    (p : Option EpochPair) {s t : Scheduler} {accepted : Bool}
    → Accounts s
    → publish_realtime p s ≡ some (accepted, t)
    → Accounts t
unfolding publish_realtime write_realtime oldest_realtime
publish_realtime-Accounts none a e = ground arith
publish_realtime-Accounts (some p) a e = ground arith

store_state31-Accounts :
    (bytes : List ℕ) (len : ℕ) (includes_id : Bool) (generation created_us : ℕ) {s : Scheduler}
    → Accounts s
    → Accounts (store_state31 bytes len includes_id generation created_us s).1
unfolding store_state31
store_state31-Accounts b l i g c a = ground arith

pub publish_state31-Accounts :
    (report : Option (List ℕ)) (len : ℕ) (includes_id : Bool) (generation created_us : ℕ)
    {s : Scheduler}
    → Accounts s
    → Accounts (publish_state31 report len includes_id generation created_us s).1
unfolding publish_state31
publish_state31-Accounts none l i g c {s = s} a =
    ground (arith, store_state31-Accounts [] l i g c a)
publish_state31-Accounts (some b) l i g c a = store_state31-Accounts b l i g c a

pub publish_state32-Accounts :
    (mic_active : Bool) (generation created_us : ℕ) {s : Scheduler}
    → Accounts s
    → Accounts (publish_state32 mic_active generation created_us s).1
unfolding publish_state32
publish_state32-Accounts m g c a = ground arith

-- The end of a transmission keeps the books, whatever its result.
pub finish-Accounts :
    (sel : Option Selection) (result : Finish) {s : Scheduler}
    → Accounts s
    → Accounts (finish sel result s).1
unfolding finish selection_is_current clear_rt0 clear_rt1 clear_st31 clear_st32
finish-Accounts none r a = a
finish-Accounts (some sel) success a = ground arith
finish-Accounts (some sel) retry a = ground arith
finish-Accounts (some sel) drop a = ground arith
