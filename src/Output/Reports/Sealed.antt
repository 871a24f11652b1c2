-- ===== src/Output/Reports/Sealed.antt =====
-- The checksum in the last bytes of the reports of dualsense_output.c.
use ds5dongle.Prelude.{
  ℕ, zero, suc, ◌+◌, ◌-◌, ◌≤◌, ◌<◌, Bool, true, false, List, [], ◌++◌, Option, none, some, length,
  get_or, set, byte_of, uint32_max, ◌∷◌, drop, replicate, ◌≡◌, ◌⊎◌, inl, inr, refl, sym, ◌∙◌, ap,
  arith, length-set, get_or-set_self, get_or-set_other,
}
use ds5dongle.Output.{Context, output_crc_seed, put_crc, fill_crc, output_crc32, crc32_le_update}
use ds5dongle.Output.Reports.{clear, start, sequence_byte}
use ds5dongle.Output.Kept.{
  length-append, length-replicate, length-drop, get_or-drop, crc32_le_update-set,
}
use ds5dongle.Output.Within.{Within, set-Within, put_crc-Within, Within-trans, Within-wider}

-- The last four of the `len` bytes are the checksum of those before them.
abbrev pub IsSealed : List ℕ → ℕ → Type 0
IsSealed report len =
    (k : ℕ) → k < 4 → get_or report (len - 4 + k) 0 ≡ byte_of k (output_crc32 report (len - 4))

output_crc32-set :
    (report : List ℕ) (n i v : ℕ) → n ≤ i → output_crc32 (set report i v) n ≡ output_crc32 report n
unfolding output_crc32
output_crc32-set report n i v h =
    ap (λ c. uint32_max - c)
      (crc32_le_update-set report n i v (crc32_le_update uint32_max (output_crc_seed ∷ []) 1) h)

output_crc32-put_crc :
    (report : List ℕ) (at crc : ℕ)
    → output_crc32 (put_crc report at crc) at ≡ output_crc32 report at
unfolding put_crc
output_crc32-put_crc report at crc =
    output_crc32-set _ at (at + 3) _ (omega arith)
    ∙ output_crc32-set _ at (at + 2) _ (omega arith)
    ∙ output_crc32-set _ at (at + 1) _ (omega arith)
    ∙ output_crc32-set report at at _ (omega arith)

module _ (report : List ℕ) (at b0 b1 b2 b3 : ℕ) (fits : at + 4 ≤ length report) where
  abbrev four : List ℕ
  four = set (set (set (set report at b0) (at + 1) b1) (at + 2) b2) (at + 3) b3

  four_bytes :
      (get_or four at 0 ≡ b0)
      × (get_or four (at + 1) 0 ≡ b1)
      × (get_or four (at + 2) 0 ≡ b2)
      × (get_or four (at + 3) 0 ≡ b3)
  four_bytes = (
    get_or-set_other _ (at + 3) at b3 0 (inl (omega arith))
        ∙ get_or-set_other _ (at + 2) at b2 0 (inl (omega arith))
        ∙ get_or-set_other _ (at + 1) at b1 0 (inl (omega arith))
        ∙ get_or-set_self report at b0 0 (omega arith),
    get_or-set_other _ (at + 3) (at + 1) b3 0 (inl (omega arith))
        ∙ get_or-set_other _ (at + 2) (at + 1) b2 0 (inl (omega arith))
        ∙ get_or-set_self _ (at + 1) b1 0 (omega (arith, length-set report at b0)),
    get_or-set_other _ (at + 3) (at + 2) b3 0 (inl (omega arith))
        ∙ get_or-set_self _ (at + 2) b2 0
            (omega (arith, length-set report at b0, length-set (set report at b0) (at + 1) b1)),
    get_or-set_self _ (at + 3) b3 0 (
        omega (
          arith,
          length-set report at b0,
          length-set (set report at b0) (at + 1) b1,
          length-set (set (set report at b0) (at + 1) b1) (at + 2) b2,
        )),
  )

get_or-put_crc :
    (report : List ℕ) (at crc k : ℕ)
    → at + 4 ≤ length report
    → k < 4
    → get_or (put_crc report at crc) (at + k) 0 ≡ byte_of k crc
unfolding put_crc
get_or-put_crc report at crc zero h b =
    ap (λ j. get_or (put_crc report at crc) j 0) {x = at + 0} {y = at} (omega arith)
    ∙ (four_bytes report at _ _ _ _ h).0
get_or-put_crc report at crc (suc zero) h b = (four_bytes report at _ _ _ _ h).1
get_or-put_crc report at crc (suc (suc zero)) h b = (four_bytes report at _ _ _ _ h).2
get_or-put_crc report at crc (suc (suc (suc zero))) h b = (four_bytes report at _ _ _ _ h).3
get_or-put_crc report at crc (suc (suc (suc (suc k)))) h b = absurd (omega arith)

fill_crc-IsSealed :
    (report : List ℕ) (len : ℕ) → 4 ≤ len → len ≤ length report → IsSealed (fill_crc report len) len
unfolding fill_crc
fill_crc-IsSealed report len h g k b =
    get_or-put_crc report (len - 4) (output_crc32 report (len - 4)) k (omega arith) b
    ∙ ap (byte_of k) (sym (output_crc32-put_crc report (len - 4) (output_crc32 report (len - 4))))

-- What a function that makes a report answers: nothing where it must refuse, or else a report with
-- its id and its checksum, in a buffer that is changed in the first `len` bytes only.
abbrev pub IsAnswer : Bool → ℕ → ℕ → List ℕ → Option (Context × List ℕ) → Type 0
IsAnswer refused id len report none = refused ≡ true
IsAnswer refused id len report (some made) =
    (refused ≡ false) × (get_or made.1 0 0 ≡ id) × IsSealed made.1 len × Within 0 len report made.1

get_or-append_behind :
    (xs ys : List ℕ) (j : ℕ) → length xs ≤ j → get_or (xs ++ ys) j 0 ≡ get_or ys (j - length xs) 0
get_or-append_behind [] ys j h = ap (λ i. get_or ys i 0) (omega arith)
get_or-append_behind (x ∷ xs) ys zero h = absurd (omega arith)
get_or-append_behind (x ∷ xs) ys (suc j) h =
    get_or-append_behind xs ys j (omega arith)
    ∙ ap (λ i. get_or ys i 0) {x = j - length xs} {y = suc j - suc (length xs)} (omega arith)

clear-Within :
    (report : List ℕ) (len : ℕ) → len ≤ length report → Within 0 len report (clear report len)
unfolding clear
clear-Within report len h = record {
  same_length = omega (
    arith,
    length-append (replicate len 0) (drop len report),
    length-replicate {A = ℕ} len 0,
    length-drop len report,
  );
  elsewhere = behind;
}
  where
    behind : (j : ℕ) → (j < 0) ⊎ (len ≤ j) → get_or (clear report len) j 0 ≡ get_or report j 0
    behind j (inl o) = absurd (omega arith)
    behind j (inr o) =
        get_or-append_behind (replicate len 0) (drop len report) j
          (omega (arith, length-replicate {A = ℕ} len 0))
        ∙ get_or-drop len report (j - length (replicate len 0)) 0
        ∙ ap (λ i. get_or report i 0) {x = len + (j - length (replicate len 0))} {y = j}
            (omega (arith, length-replicate {A = ℕ} len 0))

pub start-Within :
    (ctx : Context) (report : List ℕ) (len id : ℕ)
    → 2 ≤ len
    → len ≤ length report
    → Within 0 len report (start ctx report len id) × (get_or (start ctx report len id) 0 0 ≡ id)
unfolding start
start-Within ctx report len id h k = (
  set-Within (set-Within (clear-Within report len k) 0 id (omega arith) (omega arith)) 1
      (sequence_byte ctx) (omega arith) (omega arith),
  get_or-set_other (set (clear report len) 0 id) 1 0 (sequence_byte ctx) 0 (inl (omega arith))
      ∙ get_or-set_self (clear report len) 0 id 0
          (omega (arith, (clear-Within report len k).same_length)),
)

-- The bytes behind the id are written between the start and the checksum.
module _ (ctx : Context) (report : List ℕ) (len id : ℕ) (room : 6 ≤ len)
    (fits : len ≤ length report) where
  pub finish :
      (next : Context) (body : List ℕ)
      → Within 1 (len - 4) (start ctx report len id) body
      → IsAnswer false id len report (some (next, fill_crc body len))
  unfolding fill_crc
  finish next body w = (
    refl,
    written.elsewhere 0 (inl (omega arith)) ∙ begun.1,
    fill_crc-IsSealed body len (omega arith) (omega (arith, w.same_length, begun.0.same_length)),
    Within-trans begun.0 (Within-wider written (omega arith) (omega arith)),
  )
    where
      begun :
          Within 0 len report (start ctx report len id)
          × (get_or (start ctx report len id) 0 0 ≡ id)
      begun = start-Within ctx report len id (omega arith) fits

      written : Within 1 len (start ctx report len id) (fill_crc body len)
      written =
          put_crc-Within (len - 4) (output_crc32 body (len - 4))
            (Within-wider w (omega arith) (omega arith)) (omega arith) (omega arith)
