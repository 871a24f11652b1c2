-- ===== src/BtTx/Ingest.antt =====
-- m61_bt_tx_scheduler_ingest_epoch_pair: the scheduler takes a finished pair out of the audio epoch
-- store, straight into a free realtime slot. `between` is what the other tasks do to the store while
-- the pair is copied.
use ds5dongle.Prelude.{
  ℕ, ◌+◌, Bool, true, false, Option, none, some, ◌==◌, not, if◌then◌else◌, u64, inc32,
}
use ds5dongle.AudioEpoch.{EpochPair, Store}
use ds5dongle.AudioEpoch.Pairs.{take_adjacent_pair}
use ds5dongle.BtTx.{Scheduler, RtSlot, ClassMetrics, realtime, on_class, next_version}
use ds5dongle.BtTx.Publish.{free_realtime}

abbrev pub set_rt : ℕ → RtSlot → Scheduler → Scheduler
set_rt i slot s = if i == 0 then record s { rt0 = slot } else record s { rt1 = slot }

abbrev pub rt_at : ℕ → Scheduler → RtSlot
rt_at i s = if i == 0 then s.rt0 else s.rt1

abbrev taken_in : ClassMetrics → ClassMetrics
taken_in m = record m { accepted = inc32 m.accepted; pending = inc32 m.pending }

-- The slot `i` after the take, whose pair is in the slot's payload.
unfoldable pub ingest_taken : ℕ → Bool → EpochPair → Scheduler → Bool × Scheduler
ingest_taken i taken p s =
    let slot = record (rt_at i s) { payload = p } in
    if not taken
    then (false, set_rt i slot s)
    else if not (p.generation == s.generation)
    then (
      false,
      set_rt i slot (record s {
        metrics = on_class realtime (λ m. record m { rejected = inc32 m.rejected }) s.metrics;
      }),
    )
    else (
      true,
      set_rt i
          (record slot {
            version = next_version s;
            sequence = s.next_sequence;
            created_us = p.first_captured_us;
            pending = true;
          })
          (record s {
            next_version = next_version s;
            next_sequence = u64 (s.next_sequence + 1);
            metrics = on_class realtime taken_in s.metrics;
          }),
    )

module _ (between : Store → Store) where
  unfoldable pub ingest_into : Option ℕ → Scheduler → Store → Bool × Scheduler × Store
  unfolding ingest_taken
  ingest_into none s store = (false, s, store)
  ingest_into (some i) s store =
      let (taken, p, store') = take_adjacent_pair between (rt_at i s).payload store in
      let (accepted, t) = ingest_taken i taken p s in (accepted, t, store')

  -- `m61_bt_tx_scheduler_ingest_epoch_pair`
  unfoldable pub ingest_epoch_pair : Scheduler → Store → Bool × Scheduler × Store
  unfolding ingest_into
  ingest_epoch_pair s store = ingest_into (free_realtime s) s store
