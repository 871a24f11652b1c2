-- ===== src/BtTx/Turns.antt =====
-- Who is served next: how many realtime reports, and how many state reports of the other kind, come before
-- a state report that waits.
use ds5dongle.Prelude.{
  Bool-cases, inl, inr, ltb, ℕ, ◌+◌, ◌*◌, ◌≤◌, ◌<◌, ◌≡◌, ◌≢◌, Bool, true, false, List, Option, none,
  some, arith, ap, refl, ◌⊎◌, suc, min, ◌∙◌, from_bool,
}
use ds5dongle.BtTx.{
  Scheduler, Selection, Finish, TxClass, success, retry, drop, realtime, state31, state32,
  max_rt_burst,
}
use ds5dongle.AudioEpoch.{EpochPair, Store}
use ds5dongle.BtTx.Publish.{publish_realtime, publish_state31, publish_state32}
use ds5dongle.BtTx.Ingest.{ingest_epoch_pair}
use ds5dongle.BtTx.Select.{select, choose, swept, selection_is_current, select_state_class}
use ds5dongle.BtTx.Finishing.{finish}
use ds5dongle.BtTx.Waiting.{
  Waits, other_class, is_other_turn, Keeps, choose_bounded, choose_turn, publish-Keeps,
  ingest-Keeps, state31-Keeps, state32-Keeps, finish-Keeps, served-Waits, sent_other-Waits,
  dropped_other-Keeps, Keeps-trans, swept-Keeps, select-Keeps,
}

-- What the other tasks put into the scheduler: realtime pairs, from a buffer or from the audio epoch store
-- while `between` runs, and state reports.
pub data Arrivals (s : Scheduler) : Scheduler → Type 0 where
  nothing : Arrivals s s
  pair_published :
      {t u : Scheduler} (p : Option EpochPair) (accepted : Bool)
      → Arrivals s t
      → publish_realtime p t ≡ some (accepted, u)
      → Arrivals s u
  pair_ingested :
      {t : Scheduler} (between : Store → Store) (store : Store)
      → Arrivals s t
      → Arrivals s (ingest_epoch_pair between t store).1
  state31_published :
      {t : Scheduler} (report : Option (List ℕ)) (len : ℕ) (id : Bool) (generation us : ℕ)
      → Arrivals s t
      → Arrivals s (publish_state31 report len id generation us t).1
  state32_published :
      {t : Scheduler} (mic : Bool) (generation us : ℕ)
      → Arrivals s t
      → Arrivals s (publish_state32 mic generation us t).1

Arrivals-Keeps :
    (own : Bool) (eligible : ℕ) {s t : Scheduler}
    → Waits own eligible s
    → Arrivals s t
    → Keeps own eligible s t
Arrivals-Keeps own eligible w nothing = (w, refl, refl)
Arrivals-Keeps own eligible {s} {t = u} w (pair_published {t = t} p accepted r e) =
    let k = Arrivals-Keeps own eligible w r in
    Keeps-trans own eligible s t u k (publish-Keeps eligible t own p k.0 e)
Arrivals-Keeps own eligible {s} w (pair_ingested {t = t} between store r) =
    let k = Arrivals-Keeps own eligible w r in
    Keeps-trans own eligible s t _ k (ingest-Keeps eligible t own between store k.0)
Arrivals-Keeps own eligible {s} w (state31_published {t = t} report len id generation us r) =
    let k = Arrivals-Keeps own eligible w r in
    Keeps-trans own eligible s t _ k (state31-Keeps eligible t own report len id generation us k.0)
Arrivals-Keeps own eligible {s} w (state32_published {t = t} mic generation us r) =
    let k = Arrivals-Keeps own eligible w r in
    Keeps-trans own eligible s t _ k (state32-Keeps eligible t own mic generation us k.0)

-- A history of the transmitter from a state, in which anything arrives, also between the selection of a
-- report and its end, and the state report `own` is not served. It counts the realtime reports that were
-- sent or dropped, and the state reports of the other kind that were sent.
pub data History (own : Bool) (eligible : ℕ) (s : Scheduler) : ℕ → ℕ → Scheduler → Type 0 where
  here : History own eligible s 0 0 s
  arrives :
      {n m : ℕ} {t u : Scheduler}
      → History own eligible s n m t
      → Arrivals t u
      → History own eligible s n m u
  selects :
      {n m : ℕ} {t : Scheduler} (now : ℕ)
      → History own eligible s n m t
      → History own eligible s n m (select now eligible t).1
  retries :
      {n m : ℕ} {t : Scheduler} (sel : Selection)
      → History own eligible s n m t
      → History own eligible s n m (finish (some sel) retry t).1
  serves :
      {n m : ℕ} {t u : Scheduler} (now : ℕ) (sel : Selection) (result : Finish)
      → History own eligible s n m t
      → (select now eligible t).0 ≡ some sel
      → Arrivals (select now eligible t).1 u
      → sel.tx_class ≡ realtime
      → selection_is_current u (some sel) ≡ true
      → result ≢ retry
      → History own eligible s (suc n) m (finish (some sel) result u).1
  sends_other :
      {n m : ℕ} {t u : Scheduler} (now : ℕ) (sel : Selection)
      → History own eligible s n m t
      → (select now eligible t).0 ≡ some sel
      → Arrivals (select now eligible t).1 u
      → sel.tx_class ≡ other_class own
      → selection_is_current u (some sel) ≡ true
      → History own eligible s n (suc m) (finish (some sel) success u).1
  drops_other :
      {n m : ℕ} {t : Scheduler} (sel : Selection)
      → History own eligible s n m t
      → sel.tx_class ≡ other_class own
      → selection_is_current t (some sel) ≡ true
      → History own eligible s n m (finish (some sel) drop t).1

-- What each step keeps: the report waits, the other kind has at most its turn, and the burst counts what
-- was served.
Counted : Bool → ℕ → Scheduler → ℕ → ℕ → Scheduler → Type 0
Counted own eligible s n m t =
    Waits own eligible t
    × (m + from_bool (is_other_turn own t) ≡ from_bool (is_other_turn own s))
    × (n + min s.rt_burst 3 ≤ min t.rt_burst 3 + 3 * m)

Counted-Keeps :
    (own : Bool) (eligible : ℕ) (s t u : Scheduler) (n m : ℕ)
    → Counted own eligible s n m t
    → Keeps own eligible t u
    → Counted own eligible s n m u
unfolding Counted
Counted-Keeps own eligible s t u n m (w, turn, bound) (w', b, o) =
    (w', ap (λ (x : Bool). m + from_bool x) o ∙ turn, omega (arith, b, bound))

-- What a selection tells that was made before the last arrivals.
module _ (own : Bool) (eligible now : ℕ) (t u : Scheduler) (sel : Selection)
    (w : Waits own eligible t) (e : (select now eligible t).0 ≡ some sel)
    (a : Arrivals (select now eligible t).1 u) where
  selected-Keeps : Keeps own eligible t (select now eligible t).1
  unfolding select
  selected-Keeps = swept-Keeps own eligible now t w

  arrived-Keeps : Keeps own eligible t u
  arrived-Keeps =
      Keeps-trans own eligible t (select now eligible t).1 u selected-Keeps
        (Arrivals-Keeps own eligible selected-Keeps.0 a)

  selected-below : sel.tx_class ≡ realtime → u.rt_burst < max_rt_burst
  unfolding select
  selected-below r =
      let swept_w = (swept-Keeps own eligible now t w).0 in
      omega (
        arith,
        choose_bounded eligible (swept now t) own _ sel swept_w e r,
        (Arrivals-Keeps own eligible swept_w a).1,
      )

  selected-turn : sel.tx_class ≡ other_class own → is_other_turn own u ≡ true
  unfolding select
  selected-turn r =
      let swept_w = (swept-Keeps own eligible now t w).0 in
      (Arrivals-Keeps own eligible swept_w a).2
      ∙ choose_turn eligible (swept now t) own _ sel swept_w e r

History-Counted :
    (own : Bool) (eligible : ℕ) {s : Scheduler} {n m : ℕ} {t : Scheduler}
    → Waits own eligible s
    → History own eligible s n m t
    → Counted own eligible s n m t
unfolding Counted
History-Counted own eligible w here = (w, omega arith, omega arith)
History-Counted own eligible {s} {n} {m} {t = u} w (arrives {t = t} r a) =
    let c = History-Counted own eligible w r in
    Counted-Keeps own eligible s t u n m c (Arrivals-Keeps own eligible c.0 a)
History-Counted own eligible {s} {n} {m} w (selects {t = t} now r) =
    let c = History-Counted own eligible w r in
    Counted-Keeps own eligible s t _ n m c (select-Keeps own eligible now t c.0)
History-Counted own eligible {s} {n} {m} w (retries {t = t} sel r) =
    let c = History-Counted own eligible w r in
    Counted-Keeps own eligible s t _ n m c (finish-Keeps eligible t own sel c.0)
History-Counted own eligible {s} w
      (serves {n = n} {m = m} {t = t} {u = u} now sel result r e a k cur ne) =
    let c = History-Counted own eligible w r in
    let kept = arrived-Keeps own eligible now t u sel c.0 e a in
    let (w₁, turn, bound) = Counted-Keeps own eligible s t u n m c kept in
    let below = selected-below own eligible now t u sel c.0 e a k in
    let (w₂, b, o) = served-Waits eligible u own sel result w₁ k cur below ne in
    (w₂, ap (λ (x : Bool). m + from_bool x) o ∙ turn, omega (arith, b, bound, below))
History-Counted own eligible {s} w
      (sends_other {n = n} {m = m} {t = t} {u = u} now sel r e a k cur) =
    let c = History-Counted own eligible w r in
    let kept = arrived-Keeps own eligible now t u sel c.0 e a in
    let (w₁, turn, bound) = Counted-Keeps own eligible s t u n m c kept in
    let theirs = selected-turn own eligible now t u sel c.0 e a k in
    let (w₂, b, o) = sent_other-Waits eligible u own sel w₁ k cur in
    (
      w₂,
      omega (arith, turn, ap (λ (x : Bool). from_bool x) theirs, ap (λ (x : Bool). from_bool x) o),
      omega (arith, b, bound),
    )
History-Counted own eligible {s} {n} {m} w (drops_other {t = t} sel r k cur) =
    let c = History-Counted own eligible w r in
    Counted-Keeps own eligible s t _ n m c (dropped_other-Keeps eligible t own sel c.0 k cur)

abbrev pub Takes : TxClass → Option Selection → Type 0
Takes c none = ⊥
Takes c (some sel) = sel.tx_class ≡ c

abbrev pub own_class : Bool → TxClass
own_class true = state31
own_class false = state32

choose-Takes :
    (own : Bool) (eligible : ℕ) (s : Scheduler) (i : Option ℕ)
    → Waits own eligible s
    → max_rt_burst ≤ s.rt_burst
    → let next = choose eligible s i (select_state_class s eligible) in
      (is_other_turn own s ≡ false → Takes (own_class own) next)
      × (Takes (own_class own) next ⊎ Takes (other_class own) next)
unfolding choose select_state_class
choose-Takes true eligible s none w b = (λ o. ground arith, ground arith)
choose-Takes true eligible s (some i) w b = (λ o. ground arith, ground arith)
choose-Takes false eligible s none w b = (λ o. ground arith, ground arith)
choose-Takes false eligible s (some i) w b = (λ o. ground arith, ground arith)

-- Behind a full burst a waiting state report is selected, or the other kind of state report where it is that
-- kind's turn.
select-Takes :
    (own : Bool) (now eligible : ℕ) (s : Scheduler)
    → Waits own eligible s
    → max_rt_burst ≤ s.rt_burst
    → (is_other_turn own s ≡ false → Takes (own_class own) (select now eligible s).0)
      × (Takes (own_class own) (select now eligible s).0
          ⊎ Takes (other_class own) (select now eligible s).0)
unfolding select
select-Takes own now eligible s w b =
    let (w', b', o') = swept-Keeps own eligible now s w in
    let (mine, either) = choose-Takes own eligible (swept now s) _ w' (omega (arith, b', b)) in
    ((λ o. mine (o' ∙ o)), either)

-- A state report of either kind that is pending, eligible and of the right generation stays so in any
-- history in which it is not served itself: pairs and state reports may arrive, from a buffer or from the
-- epoch store, between any two steps, and transmissions may be retried. Before it, at most one state report of
-- the other kind is sent, and none unless it is that kind's turn; and at most three realtime reports are
-- sent or dropped, fewer by those already in the burst, and three more if that state report is sent. At the
-- end either the burst is below three, or the next selection is the state report itself, or it is the other
-- kind of state report in its turn.
pub History-bounded :
    (own : Bool) (eligible now : ℕ) {s : Scheduler} {n m : ℕ} {t : Scheduler}
    → Waits own eligible s
    → History own eligible s n m t
    → Waits own eligible t
      × (m ≤ from_bool (is_other_turn own s))
      × (n + min s.rt_burst max_rt_burst ≤ max_rt_burst * (1 + m))
      × ((t.rt_burst < max_rt_burst)
          ⊎ (Takes (own_class own) (select now eligible t).0
              ⊎ ((is_other_turn own t ≡ true) × Takes (other_class own) (select now eligible t).0)))
unfolding Counted
History-bounded own eligible now {t = t} w r =
    let (w', turn, bound) = History-Counted own eligible w r in
    (
      w',
      omega (arith, turn),
      omega (arith, bound),
      elim (Bool-cases (ltb t.rt_burst 3)) [
        | inl below ↦ inl (ground (arith, below))
        | inr full ↦ inr (by_turn w' (ground (arith, full)))
      ],
    )
  where
    by_turn :
        Waits own eligible t
        → max_rt_burst ≤ t.rt_burst
        → Takes (own_class own) (select now eligible t).0
          ⊎ ((is_other_turn own t ≡ true) × Takes (other_class own) (select now eligible t).0)
    by_turn w' full =
        let (mine, either) = select-Takes own now eligible t w' full in
        elim (Bool-cases (is_other_turn own t)) [
          | inl theirs ↦ elim either [ inl a ↦ inl a | inr b ↦ inr (theirs, b) ]
          | inr ours ↦ inl (mine ours)
        ]
