-- ===== src/Gamepad/Features/Cache.antt =====
-- Feature reports that are stored in the cache of m61_usb_gamepad.c, and then read by the host.
use ds5dongle.Prelude.{
  ℕ, zero, suc, ◌+◌, ◌%◌, ◌<◌, Bool, true, false, ◌&&◌, List, [], ◌∷◌, ◌++◌, Option, none, some,
  length, get_or, set, take, drop, min, if◌then◌else◌, ◌==◌, ◌≡◌, ◌⊎◌, refl, ap, ◌∙◌, arith, inl,
  inr, get_or-set_self, take-take, inc32, u8,
}
use ds5dongle.Gamepad.Features.{
  Features, Entry, no_entry, find_feature_cache, find_free, place_for, store_feature_report,
  get_feature_report, queue_feature_request, one_more,
}

-- An entry that serves a report.
abbrev serves : ℕ → Entry → Bool
serves id e = e.valid && e.report_id == id

module _ (id : ℕ) where
  find_feature_cache-below :
      (cache : List Entry) (i : ℕ) → find_feature_cache cache id ≡ some i → i < length cache
  unfolding find_feature_cache
  find_feature_cache-below [] i h = cc
  find_feature_cache-below (e ∷ cache) i h =
      by_test (serves id e) (find_feature_cache cache id) h (find_feature_cache-below cache)
    where
      by_test :
          (b : Bool) (o : Option ℕ)
          → (if b then some 0 else one_more o) ≡ some i
          → ((j : ℕ) → o ≡ some j → j < length cache)
          → i < suc (length cache)
      by_test true o h k = ground (arith, h)
      by_test false none h k = cc
      by_test false (some j) h k = ground (arith, h, k j refl)

  -- Where no other entry before the place serves the report, it is found at the place.
  find_feature_cache-set :
      (cache : List Entry) (i : ℕ) (entry : Entry)
      → i < length cache
      → serves id entry ≡ true
      → (find_feature_cache cache id ≡ none) ⊎ (find_feature_cache cache id ≡ some i)
      → find_feature_cache (set cache i entry) id ≡ some i
  unfolding find_feature_cache
  find_feature_cache-set [] i entry low good h = absurd (omega arith)
  find_feature_cache-set (e ∷ cache) zero entry low good h = rw good refl
  find_feature_cache-set (e ∷ cache) (suc i) entry low good h =
      by_test (serves id e) (find_feature_cache cache id) h
        (find_feature_cache-set cache i entry (omega arith) good)
    where
      by_test :
          (b : Bool) (o : Option ℕ)
          → ((if b then some 0 else one_more o) ≡ none)
            ⊎ ((if b then some 0 else one_more o) ≡ some (suc i))
          → ((o ≡ none) ⊎ (o ≡ some i) → find_feature_cache (set cache i entry) id ≡ some i)
          → (if b then some 0 else one_more (find_feature_cache (set cache i entry) id))
            ≡ some (suc i)
      by_test true o (inl h) k = cc
      by_test true o (inr h) k = ground (arith, h)
      by_test false none h k = rw (k (inl refl)) (ap some (omega arith))
      by_test false (some j) (inl h) k = cc
      by_test false (some j) (inr h) k = rw (k (inr (ground (arith, h)))) (ap some (omega arith))

find_free-below : (cache : List Entry) (i : ℕ) → find_free cache ≡ some i → i < length cache
unfolding find_free
find_free-below [] i h = cc
find_free-below (e ∷ cache) i h = by_test e.valid (find_free cache) h (find_free-below cache)
  where
    by_test :
        (b : Bool) (o : Option ℕ)
        → (if b then one_more o else some 0) ≡ some i
        → ((j : ℕ) → o ≡ some j → j < length cache)
        → i < suc (length cache)
    by_test false o h k = ground (arith, h)
    by_test true none h k = cc
    by_test true (some j) h k = ground (arith, h, k j refl)

-- The place is in the cache, and is the first that serves the report, if there is one.
place_for-facts :
    (id : ℕ) (s : Features)
    → length s.cache ≡ 32
    → ((place_for id s).0 < 32)
      × ((find_feature_cache s.cache id ≡ none)
          ⊎ (find_feature_cache s.cache id ≡ some (place_for id s).0))
unfolding place_for
place_for-facts id s size =
    by_places (find_feature_cache s.cache id) (find_free s.cache)
      (find_feature_cache-below id s.cache) (find_free-below s.cache)
  where
    by_places :
        (held free : Option ℕ)
        → ((i : ℕ) → held ≡ some i → i < length s.cache)
        → ((i : ℕ) → free ≡ some i → i < length s.cache)
        → (let place : ℕ × ℕ = elim held [
          | some i ↦ (i, s.replace_index)
          | none ↦ elim free [
            | some i ↦ (i, s.replace_index)
            | none ↦ (s.replace_index % 32, u8 (s.replace_index + 1))
          ]
        ] in
            (place.0 < 32) × ((held ≡ none) ⊎ (held ≡ some place.0)))
    by_places (some i) free p q = (omega (arith, p i refl, size), inr refl)
    by_places none (some i) p q = (omega (arith, q i refl, size), inl refl)
    by_places none none p q = (omega arith, inl refl)

get-found :
    (id n i : ℕ) (s : Features) (e : Entry)
    → find_feature_cache s.cache id ≡ some i
    → get_or s.cache i no_entry ≡ e
    → (get_feature_report id n s).0 ≡ take (min (min e.len n) 64) e.bytes
unfolding get_feature_report
get-found id n i s e h g =
    ap (λ (o : Option ℕ). (answer o).0) h
    ∙ ap (λ (x : Entry). take (min (min x.len n) 64) x.bytes) g
  where
    answer : Option ℕ → List ℕ × Features
    answer none = ([], (queue_feature_request id n (record s { misses = inc32 s.misses })).1)
    answer (some j) = (
      take (min (min (get_or s.cache j no_entry).len n) 64) (get_or s.cache j no_entry).bytes,
      record s { hits = inc32 s.hits },
    )

nonzero : (n : ℕ) → 0 < n → (n == 0) ≡ false
nonzero n h = ground arith

-- Where the cache has its 32 places, a host that reads the feature report that was stored last gets the
-- first bytes of what was stored, as many as it asked for, and 64 at most.
pub store-get :
    (id n : ℕ) (bytes : List ℕ) (s : Features)
    → length s.cache ≡ 32
    → 0 < length bytes
    → (get_feature_report id n (store_feature_report id (some bytes) s)).0
      ≡ take (min (min (min (length bytes) 64) n) 64) bytes
unfolding store_feature_report
store-get id n bytes s size some_bytes =
    let k = min (length bytes) 64 in
    let place = place_for-facts id s size in
    let entry : Entry = record {
      valid = true;
      report_id = id;
      len = k;
      bytes = take k bytes ++ drop k (get_or s.cache (place_for id s).0 no_entry).bytes;
    } in
    rw (nonzero (length bytes) some_bytes) (
      get-found id n (place_for id s).0 _ entry
        (find_feature_cache-set id s.cache (place_for id s).0 entry (omega (arith, place.0, size))
          (same id) place.1)
        (get_or-set_self s.cache (place_for id s).0 entry no_entry (omega (arith, place.0, size)))
      ∙ take-take (min (min k n) 64) k bytes _ (omega arith) (omega arith))
  where
    same : (i : ℕ) → (true && i == i) ≡ true
    same i = ground arith
