-- ===== src/BtTx/Finishing.antt =====
-- m61_bt_tx_scheduler_finish: what a selection that was sent, refused or given up does to the
-- scheduler.
use ds5dongle.Prelude.{
  ◌+◌, Bool, true, false, Option, none, some, ltb, ◌==◌, if◌then◌else◌, inc32, uint8_max,
}
use ds5dongle.BtTx.{
  Scheduler, Selection, Finish, success, retry, drop, no_class, realtime, state31, state32, TxClass,
  clear_rt0, clear_rt1, clear_st31, clear_st32, on_class, Metrics,
}
use ds5dongle.BtTx.Select.{selection_is_current}

-- The slot of the selection is released and its class retired; the burst and the turn of the state
-- classes follow.
unfoldable pub release : Selection → TxClass → Finish → Scheduler → Bool × Scheduler
release sel no_class result s = (false, s)
release sel realtime result s =
    let t = if sel.slot == 0 then clear_rt0 false s else clear_rt1 false s in
    (true, record t { rt_burst = if ltb t.rt_burst uint8_max then t.rt_burst + 1 else t.rt_burst })
release sel state31 success s =
    (true, record (clear_st31 false s) { rt_burst = 0; next_state_class = state32 })
release sel state31 _ s = (true, clear_st31 false s)
release sel state32 success s =
    (true, record (clear_st32 false s) { rt_burst = 0; next_state_class = state31 })
release sel state32 _ s = (true, clear_st32 false s)

abbrev count_retried : TxClass → Metrics → Metrics
count_retried c = on_class c (λ m. record m { retried = inc32 m.retried })

abbrev count_dropped : TxClass → Metrics → Metrics
count_dropped c = on_class c (λ m. record m { dropped = inc32 m.dropped })

abbrev count_transmitted : TxClass → Metrics → Metrics
count_transmitted c = on_class c (λ m. record m { transmitted = inc32 m.transmitted })

-- `finish` for a selection that is current.
unfoldable pub finish_current : Selection → Finish → Scheduler → Bool × Scheduler
unfolding release
finish_current sel retry s = (true, record s { metrics = count_retried sel.tx_class s.metrics })
finish_current sel drop s =
    release sel sel.tx_class drop (record s { metrics = count_dropped sel.tx_class s.metrics })
finish_current sel success s =
    release sel sel.tx_class success
      (record s { metrics = count_transmitted sel.tx_class s.metrics })

-- `m61_bt_tx_scheduler_finish`. A selection of no class, or of another generation, is not current.
unfoldable pub finish : Option Selection → Finish → Scheduler → Bool × Scheduler
unfolding finish_current
finish none result s = (false, s)
finish (some sel) result s =
    if selection_is_current s (some sel) then finish_current sel result s else (false, s)
