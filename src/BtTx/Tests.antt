-- ===== src/BtTx/Tests.antt =====
-- Runs of the transmit scheduler at concrete inputs, and the theorems at inputs that meet their
-- hypotheses.
use ds5dongle.Prelude.{
  ℕ, zero, ◌+◌, ◌*◌, from_bool, ◌≤◌, ◌<◌, ◌≡◌, true, false, none, some, List, [], ◌∷◌, arith, refl,
  ◌⊎◌, ◌↔◌, min,
}
use ds5dongle.AudioEpoch.{EpochPair, Store}
use ds5dongle.AudioEpoch.Allocate
use ds5dongle.BtTx.{
  Scheduler, ClassMetrics, Selection, success, retry, realtime, state31, state32, pair, report31,
  max_rt_burst, clear_rt0, oldest_realtime,
}
use ds5dongle.BtTx.Publish.{
  init, zero_pair, zero_slot, zero_metrics, publish_state31, reset_generation,
}
use ds5dongle.BtTx.Select.{
  select, choose, select_state_class, selection_is_current, drop_stale_realtime, drop_stale_rt0,
  drop_stale_rt1, drop_wrong_generation_state, drop_wrong_st31, drop_wrong_st32,
}
use ds5dongle.BtTx.Finishing.{finish}
use ds5dongle.BtTx.Run.{
  Op, resets, publishes_realtime, publishes_state31, selects, finishes, run, Returns, run-Accounts,
}
use ds5dongle.BtTx.Accounts.{Accounts}
use ds5dongle.BtTx.Waiting.{Waits, is_other_turn}
use ds5dongle.BtTx.Turns.{nothing, here, serves, Takes, History-bounded}
use ds5dongle.BtTx.Current.{
  RtChosen, select-is_current, select-RtChosen, finish-selection_is_current,
  publish_state31-not_current, reset_generation-cleared,
}

abbrev sample : EpochPair
sample = record zero_pair { generation = 7; first_epoch = 4; first_captured_us = 1000 }

abbrev report : List ℕ
report = 0x31 ∷ 0x10 ∷ []

abbrev books : ClassMetrics
books = record zero_metrics { accepted = 1; pending = 1 }

-- Generation 7, with one state report and one realtime pair.
abbrev busy : Scheduler
busy = record {
  generation = 7;
  next_version = 2;
  next_sequence = 1;
  rt_burst = 0;
  next_state_class = state31;
  rt0 = record { pending = true; version = 2; sequence = 0; created_us = 1000; payload = sample };
  rt1 = zero_slot;
  st31 = record {
    pending = true;
    generation = 7;
    version = 1;
    created_us = 900;
    payload = record { len = 2; includes_id = true; report = report };
  };
  st32 = record {
    pending = false;
    generation = 0;
    version = 0;
    created_us = 0;
    mic_active = false;
  };
  metrics = record { realtime = books; state31 = books; state32 = zero_metrics };
}

-- The same, behind three realtime reports.
abbrev burst : Scheduler
burst = record busy { rt_burst = 3 }

abbrev store : Store
store = record { slots = []; stats = Allocate.zero_stats; filling_slot = none }

-- The realtime pair, as a selection.
abbrev chosen : Selection
chosen = record {
  tx_class = realtime;
  slot = 0;
  generation = 7;
  version = 2;
  created_us = 1000;
  payload = pair sample;
}

-- The state report, as a selection.
abbrev chosen31 : Selection
chosen31 = record {
  tx_class = state31;
  slot = 0;
  generation = 7;
  version = 1;
  created_us = 900;
  payload = report31 (record { len = 2; includes_id = true; report = report });
}

abbrev script : List Op
script =
    publishes_state31 (some report) 2 true 7 900
    ∷ publishes_realtime (some sample)
    ∷ selects 1500 14
    ∷ finishes (some chosen) success
    ∷ resets 8
    ∷ []

selects_realtime : (select 1500 14 busy).0 ≡ some chosen
unfolding select choose oldest_realtime select_state_class drop_stale_realtime drop_stale_rt0
    drop_stale_rt1 drop_wrong_generation_state drop_wrong_st31 drop_wrong_st32
selects_realtime = refl

-- Behind a burst the state report is next, and an old pair is swept away.
selects_state31 :
    ((select 1500 14 burst).0 ≡ some chosen31) × ((select 90000 14 busy).0 ≡ some chosen31)
unfolding select choose oldest_realtime select_state_class drop_stale_realtime drop_stale_rt0
    drop_stale_rt1 drop_wrong_generation_state drop_wrong_st31 drop_wrong_st32 clear_rt0
selects_state31 = (refl, refl)

run-Accounts_example : Returns Accounts (run script (init 7) store)
run-Accounts_example = run-Accounts 7 script store (omega arith)

selected_current : selection_is_current (select 1500 14 busy).1 (some chosen) ≡ true
selected_current = select-is_current 1500 14 busy selects_realtime

History-bounded_example :
    let t = (finish (some chosen) success (select 1500 14 busy).1).1 in
    Waits true 14 t
    × (0 ≤ from_bool (is_other_turn true busy))
    × (1 + min 0 max_rt_burst ≤ max_rt_burst * (1 + 0))
    × ((t.rt_burst < max_rt_burst)
        ⊎ (Takes state31 (select 1600 14 t).0
            ⊎ ((is_other_turn true t ≡ true) × Takes state32 (select 1600 14 t).0)))
History-bounded_example =
    History-bounded true 14 1600 {s = busy} (refl, refl)
      (serves 1500 chosen success here selects_realtime nothing refl selected_current (λ e. cc))

select-RtChosen_example :
    let t = (select 1500 14 busy).1 in
    ((0 ≡ zero) × RtChosen 1500 14 t chosen t.rt0 t.rt1)
    ⊎ ((chosen.slot ≡ 1) × RtChosen 1500 14 t chosen t.rt1 t.rt0)
select-RtChosen_example = select-RtChosen 1500 14 busy selects_realtime refl

busy_current :
    (selection_is_current busy (some chosen) ≡ true)
    × (selection_is_current busy (some chosen31) ≡ true)
unfolding selection_is_current
busy_current = (refl, refl)

finish-selection_is_current_example :
    let (done, t) = finish (some chosen) success busy in
    (done ≡ true) × ((selection_is_current t (some chosen) ≡ true) ↔ (success ≡ retry))
finish-selection_is_current_example = finish-selection_is_current chosen success busy busy_current.0

publish_state31-not_current_example :
    selection_is_current (publish_state31 (some report) 2 true 7 1200 busy).1 (some chosen31)
    ≡ false
unfolding publish_state31
publish_state31-not_current_example =
    publish_state31-not_current (some report) 2 true 7 1200 busy chosen31 (omega arith) refl
      busy_current.1 refl

reset_generation-cleared_example :
    (select 1500 14 (reset_generation 8 busy) ≡ (none, reset_generation 8 busy))
    × (selection_is_current (reset_generation 8 busy) (some chosen) ≡ false)
reset_generation-cleared_example = reset_generation-cleared 8 1500 14 busy (some chosen)
