-- ===== src/Gamepad/Ring/Contents.antt =====
-- What a queue holds, from the tail on, and what the operations do to that.
use ds5dongle.Prelude.{
  ℕ, zero, suc, ◌+◌, ◌-◌, ◌%◌, ◌≤◌, ◌<◌, List, [], ◌∷◌, ◌++◌, length, get_or, set, u8, ◌≡◌, ◌≢◌,
  refl, sym, ap, ap₂, ◌∙◌, arith, length-set, get_or-set_self, get_or-set_ne,
}
use ds5dongle.Gamepad.Ring.{Ring, put, drop_oldest, clear, oldest}

-- What the proofs need of the number of slots.
pub record Depth (d : ℕ) : Type 0 where
  pub positive : 0 < d
  pub byte : d ≤ 255
  pub wraps : (a n : ℕ) → (a % d + n) % d ≡ (a + n) % d
  pub apart : (a i j : ℕ) → i < j → j < d → (a + i) % d ≢ (a + j) % d
  pub below : (a : ℕ) → a % d < d
  pub small : (a : ℕ) → a < d → a % d ≡ a

module _ {ℓ} {A : Type ℓ} (d : A) (depth : ℕ) where
  -- `n` elements from the place `at` on.
  unfoldable pub contents_from : List A → ℕ → ℕ → List A
  contents_from slots at zero = []
  contents_from slots at (suc n) = get_or slots (at % depth) d ∷ contents_from slots (at + 1) n

  unfoldable pub contents : Ring A → List A
  unfolding contents_from
  contents r = contents_from r.slots r.tail r.count

  pub length-contents : (r : Ring A) → length (contents r) ≡ r.count
  unfolding contents
  length-contents r = by_count r.tail r.count
    where
      by_count : (at n : ℕ) → length (contents_from r.slots at n) ≡ n
      by_count at zero = refl
      by_count at (suc n) = omega (arith, by_count (at + 1) n)

  pub contents-none : (r : Ring A) → r.count ≡ 0 → contents r ≡ []
  unfolding contents contents_from
  contents-none r h = ap (λ (n : ℕ). contents_from r.slots r.tail n) h

  -- A queue with its array, its places in it, and its head behind its contents.
  pub record IsQueue (r : Ring A) : Type 0 where
    pub size : length r.slots ≡ depth
    pub tail_below : r.tail < depth
    pub count_below : r.count ≤ depth
    pub head_behind : r.head ≡ (r.tail + r.count) % depth

  module _ (D : Depth depth) where
    pub contents_from-snoc :
        (slots : List A) (at n : ℕ)
        → contents_from slots at (suc n)
          ≡ contents_from slots at n ++ get_or slots ((at + n) % depth) d ∷ []
    unfolding contents_from
    contents_from-snoc slots at zero =
        ap (λ (i : ℕ). get_or slots (i % depth) d ∷ []) {x = at} {y = at + 0} (omega arith)
    contents_from-snoc slots at (suc n) =
        ap (λ xs. get_or slots (at % depth) d ∷ xs)
          (contents_from-snoc slots (at + 1) n
            ∙ ap (λ (i : ℕ). contents_from slots (at + 1) n ++ get_or slots (i % depth) d ∷ [])
                {x = at + 1 + n} {y = at + suc n} (omega arith))

    -- A write that meets none of the places changes no element.
    pub contents_from-set :
        (slots : List A) (at n j : ℕ) (x : A)
        → ((i : ℕ) → i < n → (at + i) % depth ≢ j)
        → contents_from (set slots j x) at n ≡ contents_from slots at n
    unfolding contents_from
    contents_from-set slots at zero j x h = refl
    contents_from-set slots at (suc n) j x h =
        ap₂ (λ (y : A) ys. y ∷ ys)
          (get_or-set_ne slots j (at % depth) x d (λ e.
            h 0 (omega arith) (ap (λ (i : ℕ). i % depth) {x = at + 0} {y = at} (omega arith) ∙ e)))
          (contents_from-set slots (at + 1) n j x λ i low e.
            h (suc i) (omega arith)
              (ap (λ (k : ℕ). k % depth) {x = at + suc i} {y = at + 1 + i} (omega arith) ∙ e))

    pub contents_from-wrap :
        (slots : List A) (at n : ℕ) → contents_from slots (at % depth) n ≡ contents_from slots at n
    unfolding contents_from
    contents_from-wrap slots at zero = refl
    contents_from-wrap slots at (suc n) =
        ap₂ (λ (y : A) ys. y ∷ ys)
          (ap (λ (i : ℕ). get_or slots i d) (D.small (at % depth) (D.below at)))
          (sym (contents_from-wrap slots (at % depth + 1) n)
            ∙ ap (λ (i : ℕ). contents_from slots i n) (D.wraps at 1)
            ∙ contents_from-wrap slots (at + 1) n)

    place_byte : (a : ℕ) → u8 (a % depth) ≡ a % depth
    place_byte a = omega (arith, D.below a, D.byte)

    module _ (r : Ring A) (q : IsQueue r) where
      pub drop_oldest-IsQueue : 0 < r.count → IsQueue (drop_oldest depth r)
      unfolding drop_oldest
      drop_oldest-IsQueue h = record {
        size = q.size;
        tail_below = omega (arith, place_byte (r.tail + 1), D.below (r.tail + 1));
        count_below = omega (arith, q.count_below);
        head_behind =
            q.head_behind
            ∙ ap (λ (i : ℕ). i % depth) {x = r.tail + r.count} {y = r.tail + 1 + (r.count - 1)}
                (omega arith)
            ∙ sym (D.wraps (r.tail + 1) (r.count - 1))
            ∙ ap (λ (t : ℕ). (t + (r.count - 1)) % depth) (sym (place_byte (r.tail + 1)));
      }

      pub contents-drop_oldest :
          0 < r.count → contents r ≡ oldest d r ∷ contents (drop_oldest depth r)
      unfolding contents contents_from drop_oldest oldest
      contents-drop_oldest h =
          ap (λ (n : ℕ). contents_from r.slots r.tail n) {x = r.count} {y = suc (r.count - 1)}
            (omega arith)
          ∙ ap₂ (λ (y : A) ys. y ∷ ys)
              (ap (λ (i : ℕ). get_or r.slots i d) (D.small r.tail q.tail_below))
              (sym (contents_from-wrap r.slots (r.tail + 1) (r.count - 1))
                ∙ ap (λ (t : ℕ). contents_from r.slots t (r.count - 1))
                    (sym (place_byte (r.tail + 1))))

      pub put-IsQueue : (x : A) → r.count < depth → IsQueue (put depth x r)
      unfolding put
      put-IsQueue x h = record {
        size = length-set r.slots r.head x ∙ q.size;
        tail_below = q.tail_below;
        count_below = omega (arith, D.byte);
        head_behind =
            place_byte (r.head + 1)
            ∙ ap (λ (i : ℕ). (i + 1) % depth) q.head_behind
            ∙ D.wraps (r.tail + r.count) 1
            ∙ ap (λ (i : ℕ). i % depth) {x = r.tail + r.count + 1} {y = r.tail + u8 (r.count + 1)}
                (omega (arith, D.byte));
      }

      pub contents-put : (x : A) → r.count < depth → contents (put depth x r) ≡ contents r ++ x ∷ []
      unfolding contents put
      contents-put x h =
          ap (λ (n : ℕ). contents_from (set r.slots r.head x) r.tail n) {x = u8 (r.count + 1)}
            {y = suc r.count} (omega (arith, D.byte))
          ∙ contents_from-snoc (set r.slots r.head x) r.tail r.count
          ∙ ap₂ (λ xs (y : A). xs ++ y ∷ [])
              (contents_from-set r.slots r.tail r.count r.head x
                (λ i low e. D.apart r.tail i r.count low h (e ∙ q.head_behind)))
              (ap (λ (i : ℕ). get_or (set r.slots r.head x) i d) (sym q.head_behind)
                ∙ get_or-set_self r.slots r.head x d
                    (omega (arith, q.size, q.head_behind, D.below (r.tail + r.count))))

      pub clear-IsQueue : IsQueue (clear r)
      unfolding clear
      clear-IsQueue = record {
        size = q.size;
        tail_below = D.positive;
        count_below = omega arith;
        head_behind = sym (D.small 0 D.positive);
      }
