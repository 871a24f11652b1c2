-- ===== src/BtTx/Run.antt =====
-- Every sequence of calls of the scheduler beside the audio epoch store: the books stay in balance,
-- and no call writes outside the realtime slots.
use ds5dongle.Prelude.{
  ℕ, suc, ◌+◌, ◌<◌, ◌≡◌, Bool, Option, none, some, List, [], ◌∷◌, arith, refl, length, uint64_max,
}
use ds5dongle.AudioEpoch.{EpochPair, Store}
use ds5dongle.BtTx.{Scheduler, Selection, Finish}
use ds5dongle.BtTx.Publish.{
  init, reset_generation, publish_realtime, publish_state31, publish_state32, free_realtime,
}
use ds5dongle.BtTx.Select.{select, drop_stale_realtime}
use ds5dongle.BtTx.Finishing.{finish}
use ds5dongle.BtTx.Ingest.{ingest_epoch_pair, ingest_into, ingest_taken}
use ds5dongle.BtTx.Accounts.{
  Accounts, init-Accounts, reset_generation-Accounts, select-Accounts, publish_realtime-Accounts,
  publish_state31-Accounts, publish_state32-Accounts, finish-Accounts,
}
use ds5dongle.BtTx.Sequenced.{
  Sequenced, reset_generation-Sequenced, stale_rt0-Sequenced, stale_rt1-Sequenced,
  wrong_state-Sequenced, finish-Sequenced, publish_state31-Sequenced, publish_state32-Sequenced,
  ingest_taken-Sequenced, publish_realtime-ne-none, publish_realtime-Sequenced, Sequenced-suc,
}

-- A call, with its arguments.
pub data Op : Type 0 where
  resets : ℕ → Op
  publishes_realtime : Option EpochPair → Op
  publishes_state31 : Option (List ℕ) → ℕ → Bool → ℕ → ℕ → Op
  publishes_state32 : Bool → ℕ → ℕ → Op
  ingests : (Store → Store) → Op
  -- Another task works on the store.
  others : (Store → Store) → Op
  selects : ℕ → ℕ → Op
  finishes : Option Selection → Finish → Op

unfoldable pub after_publish : Store → Option (Bool × Scheduler) → Option (Scheduler × Store)
after_publish store none = none
after_publish store (some (accepted, t)) = some (t, store)

-- `none` is a write outside the realtime slots.
unfoldable pub step : Op → Scheduler → Store → Option (Scheduler × Store)
unfolding after_publish
step (resets generation) s store = some (reset_generation generation s, store)
step (publishes_realtime p) s store = after_publish store (publish_realtime p s)
step (publishes_state31 report len includes_id generation created_us) s store =
    some ((publish_state31 report len includes_id generation created_us s).1, store)
step (publishes_state32 mic_active generation created_us) s store =
    some ((publish_state32 mic_active generation created_us s).1, store)
step (ingests between) s store =
    let (accepted, t, store') = ingest_epoch_pair between s store in some (t, store')
step (others f) s store = some (s, f store)
step (selects now eligible) s store = some ((select now eligible s).1, store)
step (finishes sel result) s store = some ((finish sel result s).1, store)

unfoldable pub run : List Op → Scheduler → Store → Option (Scheduler × Store)
run [] s store = some (s, store)
run (op ∷ ops) s store = elim (step op s store) [
  | none ↦ none
  | some (t, store') ↦ run ops t store'
]

ingest_taken-Accounts :
    (s : Scheduler) (i : ℕ) (taken : Bool) (p : EpochPair)
    → free_realtime s ≡ some i
    → Accounts s
    → Accounts (ingest_taken i taken p s).1
unfolding ingest_taken
ingest_taken-Accounts s i taken p e a = ground arith

ingest_into-Accounts :
    (between : Store → Store) (o : Option ℕ) (s : Scheduler) (store : Store)
    → free_realtime s ≡ o
    → Accounts s
    → Accounts (ingest_into between o s store).1
unfolding ingest_into
ingest_into-Accounts between none s store e a = a
ingest_into-Accounts between (some i) s store e a = ingest_taken-Accounts s i _ _ e a

-- In balance, and with every sequence below a bound.
pub record Good (n : ℕ) (s : Scheduler) : Type 0 where
  pub accounts : Accounts s
  pub sequenced : Sequenced n s

-- A call returns, and the scheduler that it leaves has a property.
abbrev pub Returns : (Scheduler → Type 0) → Option (Scheduler × Store) → Type 0
Returns P none = ⊥
Returns P (some (t, store)) = P t

after_publish-Good :
    (n : ℕ) (s : Scheduler) (store : Store) (p : Option EpochPair)
    → n < uint64_max
    → Good n s
    → (o : Option (Bool × Scheduler)) → publish_realtime p s ≡ o
    → Returns (Good (suc n)) (after_publish store o)
unfolding after_publish
after_publish-Good n s store p h g none e = absurd (publish_realtime-ne-none n s g.sequenced p h e)
after_publish-Good n s store p h g (some (accepted, t)) e = record {
  accounts = publish_realtime-Accounts p g.accounts e;
  sequenced = publish_realtime-Sequenced n s g.sequenced p e;
}

ingest_into-Sequenced :
    (n : ℕ) (s : Scheduler) (between : Store → Store) (o : Option ℕ) (store : Store)
    → Sequenced n s
    → Sequenced (suc n) (ingest_into between o s store).1
unfolding ingest_into
ingest_into-Sequenced n s between none store q = Sequenced-suc q
ingest_into-Sequenced n s between (some i) store q = ingest_taken-Sequenced n s q i _ _

step-Good :
    (op : Op) (n : ℕ) (s : Scheduler) (store : Store)
    → n < uint64_max
    → Good n s
    → Returns (Good (suc n)) (step op s store)
unfolding step ingest_epoch_pair select drop_stale_realtime
step-Good (resets g) n s store h good = record {
  accounts = reset_generation-Accounts g good.accounts;
  sequenced = Sequenced-suc (reset_generation-Sequenced n s good.sequenced g);
}
step-Good (publishes_realtime p) n s store h good =
    after_publish-Good n s store p h good (publish_realtime p s) refl
step-Good (publishes_state31 r l i g c) n s store h good = record {
  accounts = publish_state31-Accounts r l i g c good.accounts;
  sequenced = Sequenced-suc (publish_state31-Sequenced n s good.sequenced r l i g c);
}
step-Good (publishes_state32 m g c) n s store h good = record {
  accounts = publish_state32-Accounts m g c good.accounts;
  sequenced = Sequenced-suc (publish_state32-Sequenced n s good.sequenced m g c);
}
step-Good (ingests between) n s store h good = record {
  accounts = ingest_into-Accounts between (free_realtime s) s store refl good.accounts;
  sequenced = ingest_into-Sequenced n s between (free_realtime s) store good.sequenced;
}
step-Good (others f) n s store h good = record {
  accounts = good.accounts;
  sequenced = Sequenced-suc good.sequenced;
}
step-Good (selects now eligible) n s store h good = record {
  accounts = select-Accounts now eligible good.accounts;
  sequenced = Sequenced-suc (
      wrong_state-Sequenced n _
        (stale_rt1-Sequenced n _ (stale_rt0-Sequenced n s good.sequenced now) now));
}
step-Good (finishes sel result) n s store h good = record {
  accounts = finish-Accounts sel result good.accounts;
  sequenced = Sequenced-suc (finish-Sequenced n s good.sequenced sel result);
}

run-Good :
    (ops : List Op) (n : ℕ) (s : Scheduler) (store : Store)
    → n + length ops < uint64_max
    → Good n s
    → Returns Accounts (run ops s store)
unfolding run
run-Good [] n s store h good = good.accounts
run-Good (op ∷ ops) n s store h good =
    go (step op s store) (step-Good op n s store (omega arith) good) (run-Good ops (suc n))
  where
    go :
        (o : Option (Scheduler × Store))
        → Returns (Good (suc n)) o
        → ((t : Scheduler) (u : Store)
            → suc n + length ops < uint64_max
            → Good (suc n) t
            → Returns Accounts (run ops t u))
        → Returns Accounts (elim o [ none ↦ none | some (t, u) ↦ run ops t u ])
    go none g k = g
    go (some (t, u)) g k = k t u (omega arith) g

-- Fewer than 2 ^ 64 - 1 calls of a new scheduler, in any order and beside any work of other tasks on
-- the store, all return, none writes outside the realtime slots, and the books are in balance behind
-- them: for each class `accepted` is the sum of what was transmitted, replaced, stale, dropped and is
-- pending, modulo 2 ^ 32, and `pending` is the number of its slots that are.
pub run-Accounts :
    (generation : ℕ) (ops : List Op) (store : Store)
    → length ops < uint64_max
    → Returns Accounts (run ops (init generation) store)
unfolding init
run-Accounts generation ops store h =
    run-Good ops 0 (init generation) store (omega arith)
      (record { accounts = init-Accounts generation; sequenced = ground arith })
