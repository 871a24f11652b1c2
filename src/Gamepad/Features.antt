-- ===== src/Gamepad/Features.antt =====
-- The feature reports of m61_usb_gamepad.c: the queue of those that the host asked for, and the cache of
-- those that the controller answered. All is done under the USB lock.
pub mod Queued
pub mod Removed
pub mod Refine
pub mod Cache
pub mod Distinct
mod Tests
use ds5dongle.Prelude.{
  ℕ, ◌+◌, ◌-◌, ◌%◌, zero, suc, Bool, true, false, ◌&&◌, ◌||◌, not, List, [], ◌∷◌, Option, none,
  some, ltb, leb, ◌==◌, if◌then◌else◌, get_or, set, take, drop, replicate, length, min, ◌++◌, inc32,
  u8,
}
use ds5dongle.Gamepad.Ring.{Ring, put, drop_oldest, clear, oldest}

abbrev pub cache_slots : ℕ
cache_slots = 32

abbrev pub get_depth : ℕ
get_depth = 16

abbrev pub feature_max_len : ℕ
feature_max_len = 64

-- `feature_get_request_t`
pub record Request : Type 0 where
  pub report_id : ℕ
  pub requested_len : ℕ

abbrev pub no_request : Request
no_request = record { report_id = 0; requested_len = 0 }

-- `feature_cache_entry_t`
pub record Entry : Type 0 where
  pub valid : Bool
  pub report_id : ℕ
  pub len : ℕ
  pub bytes : List ℕ

abbrev pub no_entry : Entry
no_entry = record { valid = false; report_id = 0; len = 0; bytes = replicate 64 0 }

-- The queue, the cache and what `usb_diag` counts of them.
pub record Features : Type 0 where
  pub queue : Ring Request
  pub high_water : ℕ
  pub cache : List Entry
  pub replace_index : ℕ
  pub coalesced : ℕ
  pub dropped : ℕ
  pub stores : ℕ
  pub invalidations : ℕ
  pub hits : ℕ
  pub misses : ℕ

-- The state before the first call.
abbrev pub initial : Features
initial = record {
  queue = record { slots = replicate 16 no_request; head = 0; tail = 0; count = 0 };
  high_water = 0;
  cache = replicate 32 no_entry;
  replace_index = 0;
  coalesced = 0;
  dropped = 0;
  stores = 0;
  invalidations = 0;
  hits = 0;
  misses = 0;
}

-- A place that was counted from the next one on.
abbrev pub one_more : Option ℕ → Option ℕ
one_more none = none
one_more (some i) = some (i + 1)

-- `find_feature_cache`: the place of the entry.
unfoldable pub find_feature_cache : List Entry → ℕ → Option ℕ
find_feature_cache [] id = none
find_feature_cache (e ∷ cache) id =
    let rest = find_feature_cache cache id in
    if e.valid && e.report_id == id then some 0 else one_more rest

-- The first entry that is not valid.
unfoldable pub find_free : List Entry → Option ℕ
find_free [] = none
find_free (e ∷ cache) = let rest = find_free cache in if e.valid then one_more rest else some 0

-- `invalidate_feature_cache_locked`
unfoldable pub invalidate_feature_cache : ℕ → Features → Features
unfolding find_feature_cache
invalidate_feature_cache id s = elim (find_feature_cache s.cache id) [
  | none ↦ s
  | some i ↦ record s {
    cache = set s.cache i (record (get_or s.cache i no_entry) { valid = false; len = 0 });
    invalidations = inc32 s.invalidations;
  }
]

-- One round of the loop of `remove_queued_feature_request_locked`: the slots, and how many are retained.
unfoldable pub remove_step : ℕ → ℕ → ℕ → List Request × ℕ → List Request × ℕ
remove_step id tail i s =
    let read_index = (tail + i) % get_depth in
    let entry = get_or s.0 read_index no_request in
    let write_index = (tail + s.1) % get_depth in
    if entry.report_id == id
    then s
    else (if write_index == read_index then s.0 else set s.0 write_index entry, s.1 + 1)

unfoldable pub remove_loop : ℕ → ℕ → ℕ → ℕ → List Request × ℕ → List Request × ℕ
unfolding remove_step
remove_loop id tail i zero s = s
remove_loop id tail i (suc n) s = remove_loop id tail (i + 1) n (remove_step id tail i s)

-- `remove_queued_feature_request_locked`
unfoldable pub remove_queued_request : ℕ → Ring Request → Ring Request
unfolding remove_loop
remove_queued_request id q =
    let kept = remove_loop id q.tail 0 q.count (q.slots, 0) in
    record q { slots = kept.0; count = kept.1; head = (q.tail + kept.1) % get_depth }

-- The loop of `queue_feature_request`: how far behind the tail the report is queued already.
unfoldable pub find_queued : List Request → ℕ → ℕ → ℕ → Option ℕ
find_queued slots id at zero = none
find_queued slots id at (suc n) =
    let rest = find_queued slots id (at + 1) n in
    if (get_or slots (at % get_depth) no_request).report_id == id then some 0 else one_more rest

-- The length that is asked for, at least one byte and at most 64.
abbrev pub length_asked : ℕ → ℕ
length_asked n = if n == 0 || ltb feature_max_len n then feature_max_len else n

abbrev pub raised : ℕ → Request → Request
raised n q = if ltb q.requested_len n then record q { requested_len = n } else q

-- `queue_feature_request`
unfoldable pub queue_feature_request : ℕ → ℕ → Features → Bool × Features
unfolding find_queued put
queue_feature_request id requested_len s =
    let n = length_asked requested_len in
    let q = s.queue in
    if id == 0 then (false, s) else elim (find_queued q.slots id q.tail q.count) [
      | some i ↦
          let index = (q.tail + i) % get_depth in
          let queued = get_or q.slots index no_request in
          (
            true,
            record s {
              queue = record q { slots = set q.slots index (raised n queued) };
              coalesced = inc32 s.coalesced;
            },
          )
      | none ↦
          if leb get_depth q.count
          then (false, record s { dropped = inc32 s.dropped })
          else let more = put get_depth (record { report_id = id; requested_len = n }) q in
            (
              true,
              record s {
                queue = more;
                high_water = if ltb s.high_water more.count then more.count else s.high_water;
              },
            )
    ]

-- `m61_usb_gamepad_take_feature_request`: the id and the length of the oldest request.
unfoldable pub take_feature_request : Features → Option Request × Features
unfolding oldest drop_oldest
take_feature_request s =
    if ltb 0 s.queue.count
    then (some (oldest no_request s.queue), record s { queue = drop_oldest get_depth s.queue })
    else (none, s)

-- The place that `m61_usb_gamepad_store_feature_report` writes to, and the index of replacement.
unfoldable pub place_for : ℕ → Features → ℕ × ℕ
unfolding find_feature_cache find_free
place_for id s = elim (find_feature_cache s.cache id) [
  | some i ↦ (i, s.replace_index)
  | none ↦ elim (find_free s.cache) [
    | some i ↦ (i, s.replace_index)
    | none ↦ (s.replace_index % cache_slots, u8 (s.replace_index + 1))
  ]
]

-- `m61_usb_gamepad_store_feature_report`; the length is that of the list, and `none` is NULL.
unfoldable pub store_feature_report : ℕ → Option (List ℕ) → Features → Features
unfolding place_for remove_queued_request
store_feature_report id none s = s
store_feature_report id (some bytes) s =
    let n = min (length bytes) feature_max_len in
    let place = place_for id s in
    let old = get_or s.cache place.0 no_entry in
    let entry : Entry = record {
      valid = true;
      report_id = id;
      len = n;
      bytes = take n bytes ++ drop n old.bytes;
    } in
    if length bytes == 0 then s else record s {
      cache = set s.cache place.0 entry;
      replace_index = place.1;
      queue = remove_queued_request id s.queue;
      stores = inc32 s.stores;
    }

-- The loop of `m61_usb_gamepad_clear_feature_reports`: the entries, and the count of invalidations.
unfoldable pub clear_entries : List Entry → ℕ → List Entry × ℕ
clear_entries [] n = ([], n)
clear_entries (e ∷ cache) n =
    let rest = clear_entries cache (if e.valid then inc32 n else n) in
    (record e { valid = false; len = 0 } ∷ rest.0, rest.1)

-- `m61_usb_gamepad_clear_feature_reports`
unfoldable pub clear_feature_reports : Features → Features
unfolding clear_entries clear
clear_feature_reports s =
    let cleared = clear_entries s.cache s.invalidations in
    record s {
      cache = cleared.0;
      invalidations = cleared.1;
      replace_index = 0;
      queue = clear s.queue;
    }

-- The part of `usbd_hid_get_report` for a feature report of the controller: the bytes that the host gets.
unfoldable pub get_feature_report : ℕ → ℕ → Features → List ℕ × Features
get_feature_report id requested_len s = elim (find_feature_cache s.cache id) [
  | some i ↦
      let entry = get_or s.cache i no_entry in
      let n = min (min entry.len requested_len) 64 in
      (take n entry.bytes, record s { hits = inc32 s.hits })
  | none ↦ ([], (queue_feature_request id requested_len (record s { misses = inc32 s.misses })).1)
]
