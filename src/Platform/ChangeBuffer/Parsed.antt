-- ===== src/Platform/ChangeBuffer/Parsed.antt =====
-- The parser of change records ends, and reads only what Windows returned.
use context_layer.Base.{
  ℕ, zero, suc, ◌+◌, ◌-◌, ◌*◌, ◌%◌, ◌^◌, ◌≤◌, ◌<◌, ◌≡◌, refl, sym, ap, subst, ◌∙◌, ◌⊎◌, inl, inr,
  true, false, Bool-cases, ◌||◌, ◌==◌, ltb, leb, leb→le, ==_iff, List, [], ◌∷◌, length, take, drop,
  Option, none, some, Result, ok, err, Result-cases, ◌>>=◌, ok_inj, bind-ok, ensure, ensure-ok,
  ok_or, arith,
}
use mathlib.Core.Option
use context_layer.Platform.{DirectoryChange, DirectoryBatch}
use context_layer.Platform.ChangeBuffer.{
  Layout, ParseError, truncated_header, odd_filename, filename_overflow, truncated_filename,
  invalid_utf16, code_units, decode_utf16, action_of, read_change, next_offset, Changes, and_then,
  after_change, at_change, read_changes, parse_extended_change_buffer,
}

ok_or-some : {A E : Type 0} (o : Option A) (e : E) (a b : A) → ok_or o e ≡ ok a → a ≡ b → o ≡ some b
ok_or-some none e a b h k = absurd (ground (arith, h))
ok_or-some (some c) e a b h k = ap some (ok_inj h ∙ k)

module _ (layout : Layout) (buffer : List ℕ) (n : ℕ) (volume : List ℕ) where
  -- A change, and the bytes that it was read from, which Windows returned.
  pub record Lies (offset : ℕ) (change : DirectoryChange) : Type 0 where
    pub inside : offset + layout.header_bytes + layout.file_name_length (drop offset buffer) ≤ n
    pub named :
        decode_utf16 none (
          code_units (
            take
              (layout.file_name_length (drop offset buffer))
              (drop (offset + layout.header_bytes) buffer)))
        ≡ some change.relative_path
    pub acted : change.action ≡ action_of (layout.action (drop offset buffer))

  -- Changes that lie one after another, from an offset to the end of the chain.
  pub data Chain : ℕ → List DirectoryChange → Type 0 where
    last :
        (offset : ℕ) (change : DirectoryChange)
        → Lies offset change
        → layout.next_entry_offset (drop offset buffer) ≡ 0
        → Chain offset (change ∷ [])
    link :
        (offset next : ℕ) (change : DirectoryChange) (changes : List DirectoryChange)
        → Lies offset change
        → layout.next_entry_offset (drop offset buffer) ≡ next
        → layout.header_bytes ≤ next
        → offset + next ≤ n
        → Chain (offset + next) changes
        → Chain offset (change ∷ changes)

  read_change-Lies :
      (offset : ℕ) (change : DirectoryChange)
      → read_change layout buffer n volume offset ≡ ok change
      → Lies offset change
  unfolding read_change
  read_change-Lies offset change h =
      let start = offset + layout.header_bytes in
      let size = layout.file_name_length (drop offset buffer) in
      let (u1, c1, h1) = bind-ok (ensure (leb start n) truncated_header) _ change h in
      let (u2, c2, h2) = bind-ok (ensure (size % 2 == 0) odd_filename) _ change h1 in
      let (u3, c3, h3) =
        bind-ok (ensure (ltb (start + size) (2 ^ 64)) filename_overflow) _ change h2 in
      let (u4, c4, h4) = bind-ok (ensure (leb (start + size) n) truncated_filename) _ change h3 in
      let (name, c5, h5) =
        bind-ok
          (ok_or (decode_utf16 none (code_units (take size (drop start buffer)))) invalid_utf16) _
          change h4 in
      record {
        inside = leb→le _ _ (ensure-ok (leb (start + size) n) truncated_filename u4 c4);
        named = ok_or-some _ _ name _ c5 (ap (λ c. c.relative_path) (ok_inj h5));
        acted = ap (λ c. c.action) (sym (ok_inj h5));
      }

  next_offset-cases :
      (offset : ℕ) (o : Option ℕ)
      → next_offset layout buffer n volume offset ≡ ok o
      → ((o ≡ none) × (layout.next_entry_offset (drop offset buffer) ≡ 0))
        ⊎ ((next : ℕ) × (o ≡ some (offset + next))
            × (layout.next_entry_offset (drop offset buffer) ≡ next)
            × (layout.header_bytes ≤ next)
            × (offset + next ≤ n))
  unfolding next_offset
  next_offset-cases offset o h =
      let next = layout.next_entry_offset (drop offset buffer) in
      elim (Bool-cases (next == 0)) [
        | inl t ↦ inl (sym (ok_inj (rw t at h)), (==_iff _ _).0 t)
        | inr t ↦ elim (Bool-cases (ltb next layout.header_bytes || ltb n (offset + next))) [
          | inl u ↦ absurd (ground (arith, rw (t, u) at h))
          | inr u ↦
              inr (next, sym (ok_inj (rw (t, u) at h)), refl, ground (arith, u), ground (arith, u))
        ]
      ]

  -- An end of the loop: an error, or a chain of changes.
  abbrev Ends : ℕ → Changes layout buffer n volume → Type 0
  Ends offset none = ⊥
  Ends offset (some (err e)) = Unit
  Ends offset (some (ok changes)) = Chain offset changes

  and_then-Ends :
      (offset next : ℕ) (change : DirectoryChange) (rest : Changes layout buffer n volume)
      → Lies offset change
      → layout.next_entry_offset (drop offset buffer) ≡ next
      → layout.header_bytes ≤ next
      → offset + next ≤ n
      → Ends (offset + next) rest
      → Ends offset (and_then layout buffer n volume change rest)
  and_then-Ends offset next change none lies at long short h = absurd h
  and_then-Ends offset next change (some (err e)) lies at long short h = tt
  and_then-Ends offset next change (some (ok changes)) lies at long short h =
      link offset next change changes lies at long short h

  after_change-Ends :
      (offset : ℕ) (change : DirectoryChange) (r : Result (Option ℕ) ParseError)
      (loop : ℕ → Changes layout buffer n volume)
      → next_offset layout buffer n volume offset ≡ r
      → Lies offset change
      → ((next : ℕ)
          → layout.header_bytes ≤ next
          → offset + next ≤ n
          → Ends (offset + next) (loop (offset + next)))
      → Ends offset (after_change layout buffer n volume change r loop)
  unfolding after_change
  after_change-Ends offset change (err e) loop at lies next = tt
  after_change-Ends offset change (ok o) loop at lies next = elim (next_offset-cases offset o at) [
    | inl (e, zeroth) ↦ rw e (last offset change lies zeroth)
    | inr (step, e, there, long, short) ↦
        rw e (and_then-Ends offset step change _ lies there long short (next step long short))
  ]

  read_changes-Ends :
      0 < layout.header_bytes
      → (fuel offset : ℕ) → n - offset < fuel
      → Ends offset (read_changes layout buffer n volume fuel offset)
  unfolding read_changes at_change
  read_changes-Ends header zero offset enough = absurd (omega arith)
  read_changes-Ends header (suc fuel) offset enough =
      elim (Result-cases (read_change layout buffer n volume offset)) [
        | inr (e, t) ↦ rw t tt
        | inl (change, t) ↦ rw t (
            after_change-Ends offset change _ (read_changes layout buffer n volume fuel) refl
              (read_change-Lies offset change t)
              (λ next long short.
                read_changes-Ends header fuel (offset + next)
                  (omega (arith, header, enough, long, short))))
      ]

  -- Zero bytes are a gap; otherwise the changes are a chain from the start of the buffer.
  abbrev pub BatchOf : DirectoryBatch → Type 0
  BatchOf batch =
      ((n ≡ 0) × ((batch.changes ≡ []) × (batch.gap_detected ≡ true)))
      ⊎ ((n ≤ length buffer) × ((batch.gap_detected ≡ false) × Chain 0 batch.changes))

  -- What the parser may answer.
  abbrev pub Parsed : Option (Result DirectoryBatch ParseError) → Type 0
  Parsed none = ⊥
  Parsed (some (err e)) = Unit
  Parsed (some (ok batch)) = BatchOf batch

  batch-Parsed :
      (o : Changes layout buffer n volume)
      → n ≤ length buffer
      → Ends 0 o
      → Parsed (
          Option.map
            (λ r. r >>= λ changes. ok (record { changes = changes; gap_detected = false }))
            o)
  batch-Parsed none fits h = absurd h
  batch-Parsed (some (err e)) fits h = tt
  batch-Parsed (some (ok changes)) fits h = inr (fits, (refl, h))

  suc-times : (k h : ℕ) → suc k * h ≡ h + k * h
  suc-times k h = omega arith

  Chain-length :
      (offset : ℕ) (changes : List DirectoryChange)
      → Chain offset changes
      → offset + length changes * layout.header_bytes ≤ n
  Chain-length offset _ (last _ change lies end) =
      omega (arith, lies.inside, suc-times 0 layout.header_bytes)
  Chain-length offset _ (link _ next change changes lies at long short rest) = omega (
    arith,
    long,
    Chain-length (offset + next) changes rest,
    suc-times (length changes) layout.header_bytes,
  )

-- If a header has bytes at all, the loop over the records ends, with an error or with a batch. Either
-- Windows returned no bytes and the batch is a gap without changes; or its changes are read from records that lie one after another from the start of the buffer, each with its name within the bytes
-- that Windows returned, up to the record that has no next one.
pub parse_extended_change_buffer-Parsed :
    (layout : Layout) (buffer : List ℕ) (n : ℕ) (volume : List ℕ)
    → 0 < layout.header_bytes
    → Parsed layout buffer n volume (parse_extended_change_buffer layout buffer n volume)
unfolding parse_extended_change_buffer
parse_extended_change_buffer-Parsed layout buffer n volume header = elim (Bool-cases (n == 0)) [
  | inl t ↦ rw t (inl ((==_iff n 0).0 t, (refl, refl)))
  | inr t ↦ elim (Bool-cases (ltb (length buffer) n)) [
    | inl u ↦ rw (t, u) tt
    | inr u ↦
        rw (t, u)
          (batch-Parsed layout buffer n volume _ (ground (arith, u))
            (read_changes-Ends layout buffer n volume header (n + 1) 0 (omega arith)))
  ]
]

-- A batch has no more changes than headers fit into the bytes that Windows returned.
pub parse_extended_change_buffer-bound :
    (layout : Layout) (buffer : List ℕ) (n : ℕ) (volume : List ℕ) (batch : DirectoryBatch)
    → 0 < layout.header_bytes
    → parse_extended_change_buffer layout buffer n volume ≡ some (ok batch)
    → length batch.changes * layout.header_bytes ≤ n
parse_extended_change_buffer-bound layout buffer n volume batch header h =
    let parsed : BatchOf layout buffer n volume batch =
      subst (Parsed layout buffer n volume) h
        (parse_extended_change_buffer-Parsed layout buffer n volume header) in
    elim parsed [
      | inl (none_read, (empty, gap)) ↦ rw empty (omega arith)
      | inr (fits, (gapless, chain)) ↦
          omega (arith, Chain-length layout buffer n volume 0 batch.changes chain)
    ]
