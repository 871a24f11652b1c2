-- ===== src/Output/UsbState/Frame.antt =====
-- The bytes of the state that the flags of a host allow it to change.
use ds5dongle.Prelude.{
  ℕ, zero, suc, ◌+◌, ◌-◌, ◌≤◌, ◌<◌, Bool, true, false, ◌&&◌, ◌||◌, List, [], ◌∷◌, length, get_or,
  set, drop, ltb, leb, if◌then◌else◌, has_bits, ◌≡◌, ◌≢◌, refl, length-set, get_or-set_ne, bit_or,
  bit_and, sym, ap, ◌∙◌, arith,
}
use ds5dongle.Output.{Context, ensure_set_state, copy}
use ds5dongle.Output.UsbState.{
  copy_byte_if, copy_bytes_if, merge_flags, merge_rumble, merge_allowed, merge_payload,
}
use ds5dongle.Output.Kept.{length-copy, get_or-copy, length-drop, get_or-drop}

-- A field of the state: where it begins, its length, and the flag of the payload that allows it.
pub record Field : Type 0 where
  pub first : ℕ
  pub count : ℕ
  pub flags : ℕ
  pub mask : ℕ

abbrev pub field : ℕ → ℕ → ℕ → ℕ → Field
field first count flags mask = record { first = first; count = count; flags = flags; mask = mask }

pub fields : List Field
fields =
    field 4 1 0 0x10
    ∷ field 5 1 0 0x20
    ∷ field 6 1 0 0x40
    ∷ field 7 1 0 0x80
    ∷ field 8 1 1 0x01
    ∷ field 9 1 1 0x02
    ∷ field 10 11 0 0x04
    ∷ field 21 11 0 0x08
    ∷ field 36 1 1 0x40
    ∷ field 37 1 1 0x80
    ∷ field 39 1 1 0x20
    ∷ field 41 1 38 0x02
    ∷ field 42 1 38 0x01
    ∷ field 43 1 1 0x10
    ∷ field 44 3 1 0x04
    ∷ []

abbrev pub is_allowed : List ℕ → Field → Bool
is_allowed payload f = has_bits (get_or payload f.flags 0) f.mask

-- Whether one of the fields that holds the byte `i` is allowed.
abbrev pub allows : List Field → List ℕ → ℕ → Bool
allows [] payload i = false
allows (f ∷ fs) payload i =
    is_allowed payload f && (leb f.first i && ltb i (f.first + f.count)) || allows fs payload i

merge_fields : List Field → List ℕ → List ℕ → List ℕ
merge_fields [] payload state = state
merge_fields (f ∷ fs) payload state =
    merge_fields fs payload (copy_bytes_if (is_allowed payload f) payload f.first f.count state)

copy-one :
    (payload : List ℕ) (at to : ℕ) (state : List ℕ)
    → at < length payload
    → copy state to (drop at payload) 1 ≡ set state to (get_or payload at 0)
unfolding copy
copy-one [] at to state h = absurd (omega arith)
copy-one (x ∷ payload) zero to state h = refl
copy-one (x ∷ payload) (suc at) to state h = copy-one payload at to state (omega arith)

copy_byte-copy :
    (payload : List ℕ) (at : ℕ) (allowed : Bool) (state : List ℕ)
    → at < length payload
    → copy_byte_if allowed payload at state ≡ copy_bytes_if allowed payload at 1 state
unfolding copy_byte_if copy_bytes_if
copy_byte-copy payload at true state h = sym (copy-one payload at at state h)
copy_byte-copy payload at false state h = refl

length-copy_bytes_if :
    (b : Bool) (payload : List ℕ) (at n : ℕ) (state : List ℕ)
    → length (copy_bytes_if b payload at n state) ≡ length state
unfolding copy_bytes_if
length-copy_bytes_if true payload at n state = length-copy state at (drop at payload) n
length-copy_bytes_if false payload at n state = refl

get_or-copy_bytes_if :
    (b : Bool) (payload : List ℕ) (at n : ℕ) (state : List ℕ) (i : ℕ)
    → at + n ≤ length payload
    → at + n ≤ length state
    → get_or (copy_bytes_if b payload at n state) i 0
      ≡ (if b && (leb at i && ltb i (at + n)) then get_or payload i 0 else get_or state i 0)
unfolding copy_bytes_if
get_or-copy_bytes_if true payload at n state i p q = ground (
  arith,
  get_or-copy state at (drop at payload) n i (omega (arith, length-drop at payload)) q,
  get_or-drop at payload (i - at) 0,
  λ (h : at ≤ i). ap (λ j. get_or payload j 0) {x = at + (i - at)} {y = i} (omega arith),
)
get_or-copy_bytes_if false payload at n state i p q = refl

-- Every field ends where the payload of a host does, or before.
abbrev AllFit : List Field → Type 0
AllFit [] = Unit
AllFit (f ∷ fs) = (f.first + f.count ≤ 47) × AllFit fs

get_or-merge_fields :
    (fs : List Field) (payload state : List ℕ) (i : ℕ)
    → AllFit fs
    → 47 ≤ length payload
    → 47 ≤ length state
    → get_or (merge_fields fs payload state) i 0
      ≡ (if allows fs payload i then get_or payload i 0 else get_or state i 0)
unfolding merge_fields
get_or-merge_fields [] payload state i fit p q = refl
get_or-merge_fields (f ∷ fs) payload state i fit p q = ground (
  arith,
  get_or-merge_fields fs payload
      (copy_bytes_if (is_allowed payload f) payload f.first f.count state) i fit.1 p
      (omega (arith, length-copy_bytes_if (is_allowed payload f) payload f.first f.count state)),
  get_or-copy_bytes_if (is_allowed payload f) payload f.first f.count state i (omega (arith, fit.0))
      (omega (arith, fit.0)),
)

merge_allowed-fields :
    (payload state : List ℕ)
    → 47 ≤ length payload
    → merge_allowed payload state ≡ merge_fields fields payload state
unfolding merge_allowed merge_fields fields
merge_allowed-fields payload state h =
    rw
      (
        at 4 (omega arith),
        at 5 (omega arith),
        at 6 (omega arith),
        at 7 (omega arith),
        at 8 (omega arith),
        at 9 (omega arith),
        at 36 (omega arith),
        at 37 (omega arith),
        at 39 (omega arith),
        at 41 (omega arith),
        at 42 (omega arith),
        at 43 (omega arith),
      )
      refl
  where
    at :
        (i : ℕ)
        → i < 47
        → (b : Bool) (s : List ℕ) → copy_byte_if b payload i s ≡ copy_bytes_if b payload i 1 s
    at i g b s = copy_byte-copy payload i b s (omega arith)

ensure_set_state-length :
    (ctx : Context) → length ctx.set_state ≡ 63 → length (ensure_set_state ctx).set_state ≡ 63
unfolding ensure_set_state
ensure_set_state-length ctx h = ground arith

length-merge_flags : (payload state : List ℕ) → length (merge_flags payload state) ≡ length state
unfolding merge_flags
length-merge_flags payload state =
    length-set (set state 0 (flags state 0 0xfc 0x03)) 38
      (flags (set state 0 (flags state 0 0xfc 0x03)) 38 0xf3 0x0c)
    ∙ length-set state 0 (flags state 0 0xfc 0x03)
  where
    flags : List ℕ → ℕ → ℕ → ℕ → ℕ
    flags s i keep take = bit_or (bit_and (get_or s i 0) keep) (bit_and (get_or payload i 0) take)

length-merge_rumble : (payload state : List ℕ) → length (merge_rumble payload state) ≡ length state
unfolding merge_rumble
length-merge_rumble payload state = pick _
  where
    pick :
        (b : Bool)
        → length (
            if b
            then set (set state 2 (get_or payload 2 0)) 3 (get_or payload 3 0)
            else set (set state 2 0) 3 0)
          ≡ length state
    pick true = simp length-set refl
    pick false = simp length-set refl

get_or-merge_flags :
    (payload state : List ℕ) (i : ℕ)
    → i ≢ 0
    → i ≢ 38
    → get_or (merge_flags payload state) i 0 ≡ get_or state i 0
unfolding merge_flags
get_or-merge_flags payload state i h k = get_or-set_ne _ 38 i _ 0 k ∙ get_or-set_ne state 0 i _ 0 h

get_or-merge_rumble :
    (payload state : List ℕ) (i : ℕ)
    → i ≢ 2
    → i ≢ 3
    → get_or (merge_rumble payload state) i 0 ≡ get_or state i 0
unfolding merge_rumble
get_or-merge_rumble payload state i h k = pick _
  where
    pick :
        (b : Bool)
        → get_or
            (if b
              then set (set state 2 (get_or payload 2 0)) 3 (get_or payload 3 0)
              else set (set state 2 0) 3 0)
            i
            0
          ≡ get_or state i 0
    pick true = get_or-set_ne (set state 2 _) 3 i _ 0 k ∙ get_or-set_ne state 2 i _ 0 h
    pick false = get_or-set_ne (set state 2 _) 3 i _ 0 k ∙ get_or-set_ne state 2 i _ 0 h

fields-AllFit : AllFit fields
unfolding fields
fields-AllFit = ground arith

pub merge_payload-allows :
    (ctx : Context) (payload : List ℕ) (i : ℕ)
    → length ctx.set_state ≡ 63
    → 47 ≤ length payload
    → i ≢ 0
    → i ≢ 38
    → i ≢ 2
    → i ≢ 3
    → get_or (merge_payload ctx payload).set_state i 0 ≡ (
        if allows fields payload i
        then get_or payload i 0
        else get_or (ensure_set_state ctx).set_state i 0)
unfolding merge_payload
merge_payload-allows ctx payload i size long h0 h38 h2 h3 =
    ap (λ (s : List ℕ). get_or s i 0) (merge_allowed-fields payload moved long)
    ∙ get_or-merge_fields fields payload moved i fields-AllFit long (
        omega (
          arith,
          ensure_set_state-length ctx size,
          length-merge_flags payload (ensure_set_state ctx).set_state,
          length-merge_rumble payload flagged,
        ))
    ∙ ap (λ (x : ℕ). if allows fields payload i then get_or payload i 0 else x)
        (get_or-merge_rumble payload flagged i h2 h3
          ∙ get_or-merge_flags payload (ensure_set_state ctx).set_state i h0 h38)
  where
    flagged : List ℕ
    flagged = merge_flags payload (ensure_set_state ctx).set_state

    moved : List ℕ
    moved = merge_rumble payload flagged

length-merge_fields :
    (fs : List Field) (payload state : List ℕ)
    → length (merge_fields fs payload state) ≡ length state
unfolding merge_fields
length-merge_fields [] payload state = refl
length-merge_fields (f ∷ fs) payload state =
    length-merge_fields fs payload
      (copy_bytes_if (is_allowed payload f) payload f.first f.count state)
    ∙ length-copy_bytes_if (is_allowed payload f) payload f.first f.count state

pub length-merge_payload :
    (ctx : Context) (payload : List ℕ)
    → length ctx.set_state ≡ 63
    → 47 ≤ length payload
    → length (merge_payload ctx payload).set_state ≡ 63
unfolding merge_payload
length-merge_payload ctx payload size long =
    ap (λ (s : List ℕ). length s) (merge_allowed-fields payload _ long)
    ∙ length-merge_fields fields payload _
    ∙ length-merge_rumble payload (merge_flags payload (ensure_set_state ctx).set_state)
    ∙ length-merge_flags payload (ensure_set_state ctx).set_state
    ∙ ensure_set_state-length ctx size
