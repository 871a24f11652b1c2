-- ===== src/Output/Reports/Carried.antt =====
-- The report 0x31 beside the payload of the host that it is made from.
use ds5dongle.Prelude.{
  ℕ, ◌+◌, ◌-◌, ◌≤◌, ◌<◌, Bool, List, none, some, length, get_or, set, ltb, leb, ◌&&◌, true, false,
  if◌then◌else◌, ◌≡◌, ◌≢◌, inl, refl, sym, ap, ◌∙◌, arith, length-set,
}
use ds5dongle.Output.{Context, ensure_set_state, copy, fill_crc, output_crc32}
use ds5dongle.Output.Kept.{get_or-copy}
use ds5dongle.Output.Within.{Within, nothing-Within, put_crc-Within}
use ds5dongle.Output.UsbState.{apply_usb_set_state, merge_payload}
use ds5dongle.Output.UsbState.Frame.{allows, fields, merge_payload-allows, length-merge_payload}
use ds5dongle.Output.Reports.{start, fill_report31, make_report31_from_usb}
use ds5dongle.Output.Reports.Sealed.{start-Within}

fill_report31-set_state :
    (ctx : Context) (report : List ℕ) (j : ℕ)
    → length ctx.set_state ≡ 63
    → 78 ≤ length report
    → j < 63
    → get_or (fill_report31 ctx report).1 (3 + j) 0 ≡ get_or ctx.set_state j 0
unfolding fill_report31 fill_crc
fill_report31-set_state ctx report j size room low =
    sealed.elsewhere (3 + j) (inl (omega arith))
    ∙ get_or-copy tagged 3 ctx.set_state 63 (3 + j) (omega arith) (
        omega (
          arith,
          length-set begun 2 0x10,
          (start-Within ctx report 78 0x31 (omega arith) room).0.same_length,
        ))
    ∙ inside (leb 3 (3 + j) && ltb (3 + j) 66) (ground arith)
  where
    begun : List ℕ
    begun = start ctx report 78 0x31

    tagged : List ℕ
    tagged = set begun 2 0x10

    body : List ℕ
    body = copy tagged 3 ctx.set_state 63

    sealed : Within 74 78 body (fill_crc body 78)
    sealed =
        put_crc-Within 74 (output_crc32 body 74) (nothing-Within 74 78 body) (omega arith)
          (omega arith)

    inside :
        (b : Bool)
        → b ≡ true
        → (if b then get_or ctx.set_state (3 + j - 3) 0 else get_or tagged (3 + j) 0)
          ≡ get_or ctx.set_state j 0
    inside b e = rw e (ap (λ i. get_or ctx.set_state i 0) (omega arith))

-- Where the function answers a report, both lengths are enough.
made_from_usb :
    (ctx : Context) (made : Context × List ℕ) (payload report : List ℕ)
    → make_report31_from_usb ctx (some payload) (some report) ≡ some made
    → (78 ≤ length report)
      × (47 ≤ length payload)
      × (fill_report31 (merge_payload ctx payload) report ≡ made)
unfolding make_report31_from_usb apply_usb_set_state
made_from_usb ctx made payload report h =
    accepted (ltb (length report) 78) (ltb (length payload) 47) h (enough _ _) (enough _ _)
  where
    enough : (n m : ℕ) → ltb n m ≡ false → m ≤ n
    enough n m e = ground arith

    accepted :
        (short small : Bool)
        → (if short then none else elim (if small then none else some (merge_payload ctx payload)) [
          | none ↦ none
          | some c ↦ some (fill_report31 c report)
        ])
          ≡ some made
        → (short ≡ false → 78 ≤ length report)
        → (small ≡ false → 47 ≤ length payload)
        → (78 ≤ length report)
          × (47 ≤ length payload)
          × (fill_report31 (merge_payload ctx payload) report ≡ made)
    accepted true small e p q = cc
    accepted false true e p q = cc
    accepted false false e p q = (p refl, q refl, cc)

-- Where the report 0x31 is made for a payload of the host, its byte 3 + i, for a byte i of the state
-- that is not of the flags or the motors, is the payload's if a flag of the payload allows a field that
-- holds it, and else the one that the context had, the defaults counting for a state whose first two
-- flags are 0; and the context keeps the byte that was sent.
pub make_report31_from_usb-allows :
    (ctx : Context) (made : Context × List ℕ) (payload report : List ℕ) (i : ℕ)
    → length ctx.set_state ≡ 63
    → make_report31_from_usb ctx (some payload) (some report) ≡ some made
    → i < 63
    → i ≢ 0
    → i ≢ 38
    → i ≢ 2
    → i ≢ 3
    → (get_or made.1 (3 + i) 0 ≡ (
        if allows fields payload i
        then get_or payload i 0
        else get_or (ensure_set_state ctx).set_state i 0))
      × (get_or made.0.set_state i 0 ≡ get_or made.1 (3 + i) 0)
unfolding fill_report31
make_report31_from_usb-allows ctx made payload report i size h low h0 h38 h2 h3 =
    let (room, long, e) = made_from_usb ctx made payload report h in
    let carried =
      fill_report31-set_state (merge_payload ctx payload) report i
        (length-merge_payload ctx payload size long) room low in
    (
      rw (sym e) (carried ∙ merge_payload-allows ctx payload i size long h0 h38 h2 h3),
      rw (sym e) (sym carried),
    )
