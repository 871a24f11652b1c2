-- ===== src/WebConfig/Guarded.antt =====
-- What holds between the writer and the reader of the shared configuration at every step.
use ds5dongle.Prelude.{
  ℕ, ◌+◌, ◌%◌, ◌^◌, ◌≤◌, ◌<◌, ◌≡◌, false, ltb, ◌==◌, arith, Bool-cases, inl, inr, ◌⊎◌, ◌∙◌, ap,
}
use ds5dongle.WebConfig.Runtime.{
  Words, put_word, Writer, idle, writing, Reader, outside, reading, returned, Shared, writer_word,
  writer_end, writer_begin, reader_begin, reader_word, reader_end, must_retry,
}

-- The first words of two structs agree.
abbrev pub Agree : ℕ → Words → Words → Type 0
Agree n a b = (j : ℕ) → j < n → a j ≡ b j

Agree-put : (i : ℕ) (a b : Words) → Agree i a b → Agree (i + 1) (put_word i (b i) a) b
Agree-put i a b h j l = elim (Bool-cases (j == i)) [
  | inl e ↦ rw e (ap b (ground (arith, e)))
  | inr e ↦ rw e (h j (ground (arith, e)))
]

-- A reader whose config changes is behind an older sequence, or behind an odd one.
odd_or_older :
    (before sequence : ℕ)
    → before ≤ sequence
    → sequence % 2 ≡ 1
    → (before % 2 ≡ 1) ⊎ (before < sequence)
odd_or_older before sequence h odd = omega arith

-- `IsGiven` tells which configs the writer is given.
module _ (n : ℕ) (IsGiven : Words → Type 0) where
  -- The words are those of one config that was set.
  abbrev pub Whole : Words → Type 0
  Whole words = (c : Words) × IsGiven c × Agree n words c

  abbrev pub WriterOk : Writer → ℕ → Words → Type 0
  WriterOk idle sequence config = (sequence % 2 ≡ 0) × Whole config
  WriterOk (writing new i) sequence config =
      (sequence % 2 ≡ 1) × IsGiven new × (i ≤ n) × Agree i config new

  -- While the sequence is the even one that the reader saw, what it has read is still there.
  abbrev pub ReaderOk : Reader → ℕ → Words → Type 0
  ReaderOk outside sequence config = Unit
  ReaderOk (reading before i buffer) sequence config =
      (before ≤ sequence)
      × (i ≤ n)
      × ((before % 2 ≡ 1) ⊎ (before < sequence) ⊎ Agree i buffer config)
  ReaderOk (returned buffer) sequence config = Whole buffer

  abbrev pub Ok : Shared → Type 0
  Ok s = WriterOk s.writer s.sequence s.config × ReaderOk s.reader s.sequence s.config

  abbrev pub shared : ℕ → Words → Writer → Reader → Shared
  shared q c w r = record { sequence = q; config = c; writer = w; reader = r }

  reader_later :
      (r : Reader) (sequence : ℕ) (a b : Words)
      → ReaderOk r sequence a
      → ReaderOk r (sequence + 1) b
  reader_later outside sequence a b h = tt
  reader_later (reading before i buffer) sequence a b (h, l, o) =
      (omega arith, l, inr (inl (omega arith)))
  reader_later (returned buffer) sequence a b h = h

  reader_odd :
      (r : Reader) (sequence : ℕ) (a b : Words)
      → sequence % 2 ≡ 1
      → ReaderOk r sequence a
      → ReaderOk r sequence b
  reader_odd outside sequence a b odd h = tt
  reader_odd (reading before i buffer) sequence a b odd (h, l, o) =
      (h, l, elim (odd_or_older before sequence h odd) [ inl x ↦ inl x | inr y ↦ inr (inl y) ])
  reader_odd (returned buffer) sequence a b odd h = h

  pub writer_begin-Ok :
      (new : Words) (q : ℕ) (c : Words) (w : Writer) (r : Reader)
      → IsGiven new
      → Ok (shared q c w r)
      → Ok (writer_begin n new w (shared q c w r))
  unfolding writer_begin
  writer_begin-Ok new q c idle r set (w, o) =
      ((omega (arith, w.0), set, omega arith, λ j l. omega arith), reader_later r q c c o)
  writer_begin-Ok new q c (writing old i) r set ok = ok

  pub writer_word-Ok :
      (q : ℕ) (c : Words) (w : Writer) (r : Reader)
      → Ok (shared q c w r)
      → Ok (writer_word n w (shared q c w r))
  unfolding writer_word
  writer_word-Ok q c idle r ok = ok
  writer_word-Ok q c (writing new i) r ((odd, set, l, agree), o) = elim (Bool-cases (ltb i n)) [
    | inl more ↦ rw more (
      (odd, set, ground (arith, more), Agree-put i c new agree),
      reader_odd r q c (put_word i (new i) c) odd o,
    )
    | inr done ↦ rw done ((odd, set, l, agree), o)
  ]

  pub writer_end-Ok :
      (q : ℕ) (c : Words) (w : Writer) (r : Reader)
      → Ok (shared q c w r)
      → Ok (writer_end n w (shared q c w r))
  unfolding writer_end
  writer_end-Ok q c idle r ok = ok
  writer_end-Ok q c (writing new i) r ((odd, set, l, agree), o) = elim (Bool-cases (ltb i n)) [
    | inl more ↦ rw more ((odd, set, l, agree), o)
    | inr done ↦ rw done (
      (omega (arith, odd), (new, set, λ j h. agree j (ground (arith, h, done)))),
      reader_later r q c c o,
    )
  ]

  pub reader_begin-Ok :
      (q : ℕ) (c : Words) (w : Writer) (r : Reader)
      → Ok (shared q c w r)
      → Ok (reader_begin n r (shared q c w r))
  unfolding reader_begin
  reader_begin-Ok q c w (reading before i buffer) ok = ok
  reader_begin-Ok q c w outside (v, o) =
      (v, (omega arith, omega arith, inr (inr (λ j l. omega arith))))
  reader_begin-Ok q c w (returned buffer) (v, o) =
      (v, (omega arith, omega arith, inr (inr (λ j l. omega arith))))

  pub reader_word-Ok :
      (q : ℕ) (c : Words) (w : Writer) (r : Reader)
      → Ok (shared q c w r)
      → Ok (reader_word n r (shared q c w r))
  unfolding reader_word
  reader_word-Ok q c w outside ok = ok
  reader_word-Ok q c w (returned buffer) ok = ok
  reader_word-Ok q c w (reading before i buffer) (v, (b, l, o)) = elim (Bool-cases (ltb i n)) [
    | inr done ↦ rw done (v, (b, l, o))
    | inl more ↦ rw more (
      v,
      (
        b,
        ground (arith, more),
        elim o [
          | inl odd ↦ inl odd
          | inr (inl older) ↦ inr (inl older)
          | inr (inr agree) ↦ inr (inr (Agree-put i buffer c agree))
        ],
      ),
    )
  ]

  -- Where the sequence is even, the writer is outside and the words are those of one config.
  even_whole : (q : ℕ) (c : Words) (w : Writer) → q % 2 ≡ 0 → WriterOk w q c → Whole c
  even_whole q c idle even v = v.1
  even_whole q c (writing new i) even (odd, set, l, agree) =
      let no : ⊥ = omega (arith, even, odd) in elim no [ ]

  accepted :
      (before q i : ℕ) (buffer c : Words) (w : Writer)
      → q < 2 ^ 32
      → must_retry n before q ≡ false
      → ltb i n ≡ false
      → WriterOk w q c
      → ReaderOk (reading before i buffer) q c
      → Whole buffer
  accepted before q i buffer c w h same done v (b, l, o) =
      let (eq, even) : (before ≡ q) × (q % 2 ≡ 0) = ground (arith, same) in
      elim o [
        | inl odd ↦ let no : ⊥ = omega (arith, odd, eq, even) in elim no [ ]
        | inr (inl older) ↦ let no : ⊥ = omega (arith, older, eq) in elim no [ ]
        | inr (inr agree) ↦
            let (config, set, whole) = even_whole q c w even v in
            (config, set, λ j k. agree j (ground (arith, done)) ∙ whole j k)
      ]

  pub reader_end-Ok :
      (q : ℕ) (c : Words) (w : Writer) (r : Reader)
      → q < 2 ^ 32
      → Ok (shared q c w r)
      → Ok (reader_end n r (shared q c w r))
  unfolding reader_end
  reader_end-Ok q c w outside h ok = ok
  reader_end-Ok q c w (returned buffer) h ok = ok
  reader_end-Ok q c w (reading before i buffer) h (v, o) = elim (Bool-cases (ltb i n)) [
    | inl more ↦ rw more (v, o)
    | inr done ↦ elim (Bool-cases (must_retry n before q)) [
      | inl retry ↦ rw (done, retry) (v, tt)
      | inr same ↦ rw (done, same) (v, accepted before q i buffer c w h same done v o)
    ]
  ]
