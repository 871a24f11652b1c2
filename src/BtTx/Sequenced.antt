-- ===== src/BtTx/Sequenced.antt =====
-- The sequences that the scheduler has given lie below a bound, whatever it is asked to do.
use ds5dongle.Prelude.{
  ℕ, suc, ◌≤◌, ◌<◌, ◌≡◌, ◌≢◌, Bool, true, Option, none, some, List, arith, uint64_max,
}
use ds5dongle.AudioEpoch.{EpochPair}
use ds5dongle.BtTx.{
  Scheduler, Selection, Finish, success, retry, drop, clear_rt0, clear_rt1, clear_st31, clear_st32,
  oldest_realtime,
}
use ds5dongle.BtTx.Publish.{
  clear_pending_rt0, clear_pending_rt1, clear_pending_st31, clear_pending_st32, clear_pending,
  reset_generation, publish_realtime, write_realtime, publish_state31, publish_state32,
}
use ds5dongle.BtTx.Select.{
  drop_stale_rt0, drop_stale_rt1, drop_wrong_st31, drop_wrong_st32, drop_wrong_generation_state,
}
use ds5dongle.BtTx.Finishing.{finish}
use ds5dongle.BtTx.Ingest.{ingest_taken}

-- The sequences given so far lie below a bound.
pub record Sequenced (n : ℕ) (s : Scheduler) : Type 0 where
  pub next_in : s.next_sequence ≤ n
  pub rt0_in : s.rt0.pending ≡ true → s.rt0.sequence < n
  pub rt1_in : s.rt1.pending ≡ true → s.rt1.sequence < n

module _ (n : ℕ) (s : Scheduler) (q : Sequenced n s) where
  pub reset_generation-Sequenced : (generation : ℕ) → Sequenced n (reset_generation generation s)
  unfolding reset_generation clear_pending clear_pending_rt0 clear_pending_rt1 clear_pending_st31
      clear_pending_st32 clear_rt0 clear_rt1 clear_st31 clear_st32
  reset_generation-Sequenced g = ground arith

  pub stale_rt0-Sequenced : (now : ℕ) → Sequenced n (drop_stale_rt0 now s)
  unfolding drop_stale_rt0 clear_rt0
  stale_rt0-Sequenced now = ground arith

  pub stale_rt1-Sequenced : (now : ℕ) → Sequenced n (drop_stale_rt1 now s)
  unfolding drop_stale_rt1 clear_rt1
  stale_rt1-Sequenced now = ground arith

  pub wrong_state-Sequenced : Sequenced n (drop_wrong_generation_state s)
  unfolding drop_wrong_generation_state drop_wrong_st31 drop_wrong_st32 clear_st31 clear_st32
  wrong_state-Sequenced = ground arith

  pub finish-Sequenced :
      (sel : Option Selection) (result : Finish) → Sequenced n (finish sel result s).1
  unfolding finish clear_rt0 clear_rt1 clear_st31 clear_st32
  finish-Sequenced none r = q
  finish-Sequenced (some sel) success = ground arith
  finish-Sequenced (some sel) retry = ground arith
  finish-Sequenced (some sel) drop = ground arith

  pub publish_state31-Sequenced :
      (report : Option (List ℕ)) (len : ℕ) (includes_id : Bool) (generation created_us : ℕ)
      → Sequenced n (publish_state31 report len includes_id generation created_us s).1
  unfolding publish_state31
  publish_state31-Sequenced none l i g c = ground arith
  publish_state31-Sequenced (some b) l i g c = ground arith

  pub publish_state32-Sequenced :
      (mic_active : Bool) (generation created_us : ℕ)
      → Sequenced n (publish_state32 mic_active generation created_us s).1
  unfolding publish_state32
  publish_state32-Sequenced m g c = ground arith

  pub ingest_taken-Sequenced :
      (i : ℕ) (taken : Bool) (p : EpochPair) → Sequenced (suc n) (ingest_taken i taken p s).1
  unfolding ingest_taken
  ingest_taken-Sequenced i taken p = ground arith

  pub publish_realtime-ne-none :
      (p : Option EpochPair) → n < uint64_max → publish_realtime p s ≢ none
  unfolding publish_realtime write_realtime oldest_realtime
  publish_realtime-ne-none none h = ground arith
  publish_realtime-ne-none (some p) h = ground arith

  pub publish_realtime-Sequenced :
      (p : Option EpochPair) {accepted : Bool} {t : Scheduler}
      → publish_realtime p s ≡ some (accepted, t)
      → Sequenced (suc n) t
  unfolding publish_realtime write_realtime oldest_realtime
  publish_realtime-Sequenced none e = ground arith
  publish_realtime-Sequenced (some p) e = ground arith

pub Sequenced-suc : {n : ℕ} {s : Scheduler} → Sequenced n s → Sequenced (suc n) s
Sequenced-suc q = ground arith
