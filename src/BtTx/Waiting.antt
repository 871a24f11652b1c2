-- ===== src/BtTx/Waiting.antt =====
-- A state report that waits in the transmit scheduler, and what each operation of the scheduler leaves of
-- its wait: the burst and the turn of the other kind.
use ds5dongle.Prelude.{
  ℕ, ◌+◌, ◌<◌, ◌≡◌, ◌≢◌, Bool, true, false, not, List, Option, none, some, arith, refl, ◌∙◌,
}
use ds5dongle.BtTx.{
  Scheduler, Selection, Finish, TxClass, success, retry, drop, realtime, state31, state32,
  clear_rt0, clear_rt1, clear_st31, clear_st32, max_rt_burst, is_state32,
}
use ds5dongle.AudioEpoch.{EpochPair, Store}
use ds5dongle.BtTx.Publish.{
  publish_realtime, write_realtime, publish_state31, store_state31, publish_state32, free_realtime,
}
use ds5dongle.BtTx.Ingest.{ingest_epoch_pair, ingest_into, ingest_taken}
use ds5dongle.BtTx.Select.{
  select, choose, swept, drop_stale_rt0, drop_stale_rt1, drop_stale_realtime, drop_wrong_st31,
  drop_wrong_st32, drop_wrong_generation_state, selection_is_current, select_state_class, ready31,
  ready32,
}
use ds5dongle.BtTx.Finishing.{finish}

-- The state reports are named by a Bool: true is 0x31, false 0x32. One is pending, of the scheduler's
-- generation and eligible.
abbrev pub Waits : Bool → ℕ → Scheduler → Type 0
Waits true eligible s = (ready31 s eligible ≡ true) × (s.st31.generation ≡ s.generation)
Waits false eligible s = (ready32 s eligible ≡ true) × (s.st32.generation ≡ s.generation)

abbrev pub other_class : Bool → TxClass
other_class true = state32
other_class false = state31

-- Whether it is the other kind's turn.
abbrev pub is_other_turn : Bool → Scheduler → Bool
is_other_turn true s = is_state32 s.next_state_class
is_other_turn false s = not (is_state32 s.next_state_class)

-- A step that serves nothing: the report waits as before.
abbrev pub Keeps : Bool → ℕ → Scheduler → Scheduler → Type 0
Keeps own eligible s t =
    Waits own eligible t × (t.rt_burst ≡ s.rt_burst) × (is_other_turn own t ≡ is_other_turn own s)

module _ (eligible : ℕ) (s : Scheduler) where
  pub choose_bounded :
      (own : Bool) (i : Option ℕ) (sel : Selection)
      → Waits own eligible s
      → choose eligible s i (select_state_class s eligible) ≡ some sel
      → sel.tx_class ≡ realtime
      → s.rt_burst < max_rt_burst
  unfolding choose select_state_class
  choose_bounded true none sel w e r = ground arith
  choose_bounded true (some i) sel w e r = ground arith
  choose_bounded false none sel w e r = ground arith
  choose_bounded false (some i) sel w e r = ground arith

  pub choose_turn :
      (own : Bool) (i : Option ℕ) (sel : Selection)
      → Waits own eligible s
      → choose eligible s i (select_state_class s eligible) ≡ some sel
      → sel.tx_class ≡ other_class own
      → is_other_turn own s ≡ true
  unfolding choose select_state_class
  choose_turn true none sel w e r = ground arith
  choose_turn true (some i) sel w e r = ground arith
  choose_turn false none sel w e r = ground arith
  choose_turn false (some i) sel w e r = ground arith

  pub publish-Keeps :
      (own : Bool) (p : Option EpochPair) {accepted : Bool} {t : Scheduler}
      → Waits own eligible s
      → publish_realtime p s ≡ some (accepted, t)
      → Keeps own eligible s t
  unfolding publish_realtime write_realtime
  publish-Keeps true none w e = ground arith
  publish-Keeps true (some p) w e = ground arith
  publish-Keeps false none w e = ground arith
  publish-Keeps false (some p) w e = ground arith

  taken-Keeps :
      (own : Bool) (i : ℕ) (taken : Bool) (p : EpochPair)
      → Waits own eligible s
      → Keeps own eligible s (ingest_taken i taken p s).1
  unfolding ingest_taken
  taken-Keeps true i taken p w = ground arith
  taken-Keeps false i taken p w = ground arith

  pub ingest-Keeps :
      (own : Bool) (between : Store → Store) (store : Store)
      → Waits own eligible s
      → Keeps own eligible s (ingest_epoch_pair between s store).1
  unfolding ingest_epoch_pair ingest_into
  ingest-Keeps own between store w = by_slot (free_realtime s)
    where
      by_slot : (o : Option ℕ) → Keeps own eligible s (ingest_into between o s store).1
      by_slot none = (w, refl, refl)
      by_slot (some i) = taken-Keeps own i _ _ w

  pub state31-Keeps :
      (own : Bool) (report : Option (List ℕ)) (len : ℕ) (id : Bool) (generation us : ℕ)
      → Waits own eligible s
      → Keeps own eligible s (publish_state31 report len id generation us s).1
  unfolding publish_state31 store_state31
  state31-Keeps true none len id generation us w = ground arith
  state31-Keeps true (some bytes) len id generation us w = ground arith
  state31-Keeps false none len id generation us w = ground arith
  state31-Keeps false (some bytes) len id generation us w = ground arith

  pub state32-Keeps :
      (own mic : Bool) (generation us : ℕ)
      → Waits own eligible s
      → Keeps own eligible s (publish_state32 mic generation us s).1
  unfolding publish_state32
  state32-Keeps true mic generation us w = ground arith
  state32-Keeps false mic generation us w = ground arith

  stale_rt0-Keeps :
      (own : Bool) (now : ℕ) → Waits own eligible s → Keeps own eligible s (drop_stale_rt0 now s)
  unfolding drop_stale_rt0 clear_rt0
  stale_rt0-Keeps true now w = ground arith
  stale_rt0-Keeps false now w = ground arith

  stale_rt1-Keeps :
      (own : Bool) (now : ℕ) → Waits own eligible s → Keeps own eligible s (drop_stale_rt1 now s)
  unfolding drop_stale_rt1 clear_rt1
  stale_rt1-Keeps true now w = ground arith
  stale_rt1-Keeps false now w = ground arith

  wrong_st31-Keeps : (own : Bool) → Waits own eligible s → Keeps own eligible s (drop_wrong_st31 s)
  unfolding drop_wrong_st31 clear_st31
  wrong_st31-Keeps true w = ground arith
  wrong_st31-Keeps false w = ground arith

  wrong_st32-Keeps : (own : Bool) → Waits own eligible s → Keeps own eligible s (drop_wrong_st32 s)
  unfolding drop_wrong_st32 clear_st32
  wrong_st32-Keeps true w = ground arith
  wrong_st32-Keeps false w = ground arith

  pub finish-Keeps :
      (own : Bool) (sel : Selection)
      → Waits own eligible s
      → Keeps own eligible s (finish (some sel) retry s).1
  unfolding finish selection_is_current
  finish-Keeps true sel w = ground arith
  finish-Keeps false sel w = ground arith

  -- A realtime report that is sent or dropped joins the burst.
  pub served-Waits :
      (own : Bool) (sel : Selection) (result : Finish)
      → Waits own eligible s
      → sel.tx_class ≡ realtime
      → selection_is_current s (some sel) ≡ true
      → s.rt_burst < max_rt_burst
      → result ≢ retry
      → let t = (finish (some sel) result s).1 in
        Waits own eligible t
        × (t.rt_burst ≡ s.rt_burst + 1)
        × (is_other_turn own t ≡ is_other_turn own s)
  unfolding finish selection_is_current clear_rt0 clear_rt1
  served-Waits true sel success w r c b n = ground arith
  served-Waits true sel drop w r c b n = ground arith
  served-Waits true sel retry w r c b n = absurd (n refl)
  served-Waits false sel success w r c b n = ground arith
  served-Waits false sel drop w r c b n = ground arith
  served-Waits false sel retry w r c b n = absurd (n refl)

  -- The other kind of state report ends the burst and its turn, if it is sent.
  pub sent_other-Waits :
      (own : Bool) (sel : Selection)
      → Waits own eligible s
      → sel.tx_class ≡ other_class own
      → selection_is_current s (some sel) ≡ true
      → let t = (finish (some sel) success s).1 in
        Waits own eligible t × (t.rt_burst ≡ 0) × (is_other_turn own t ≡ false)
  unfolding finish selection_is_current clear_st31 clear_st32
  sent_other-Waits true sel w r c = ground arith
  sent_other-Waits false sel w r c = ground arith

  pub dropped_other-Keeps :
      (own : Bool) (sel : Selection)
      → Waits own eligible s
      → sel.tx_class ≡ other_class own
      → selection_is_current s (some sel) ≡ true
      → Keeps own eligible s (finish (some sel) drop s).1
  unfolding finish selection_is_current clear_st31 clear_st32
  dropped_other-Keeps true sel w r c = ground arith
  dropped_other-Keeps false sel w r c = ground arith

pub Keeps-trans :
    (own : Bool) (eligible : ℕ) (s t u : Scheduler)
    → Keeps own eligible s t
    → Keeps own eligible t u
    → Keeps own eligible s u
Keeps-trans own eligible s t u (w, b, o) (w', b', o') = (w', b' ∙ b, o' ∙ o)

pub swept-Keeps :
    (own : Bool) (eligible now : ℕ) (s : Scheduler)
    → Waits own eligible s
    → Keeps own eligible s (swept now s)
unfolding drop_stale_realtime drop_wrong_generation_state
swept-Keeps own eligible now s w =
    let (w₀, b₀, o₀) = stale_rt0-Keeps eligible s own now w in
    let (w₁, b₁, o₁) = stale_rt1-Keeps eligible (drop_stale_rt0 now s) own now w₀ in
    let (w₂, b₂, o₂) = wrong_st31-Keeps eligible (drop_stale_realtime now s) own w₁ in
    let (w₃, b₃, o₃) =
      wrong_st32-Keeps eligible (drop_wrong_st31 (drop_stale_realtime now s)) own w₂ in
    (w₃, b₃ ∙ b₂ ∙ b₁ ∙ b₀, o₃ ∙ o₂ ∙ o₁ ∙ o₀)

pub select-Keeps :
    (own : Bool) (eligible now : ℕ) (s : Scheduler)
    → Waits own eligible s
    → Keeps own eligible s (select now eligible s).1
unfolding select
select-Keeps own eligible now s w = swept-Keeps own eligible now s w
