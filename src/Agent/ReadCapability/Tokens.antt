-- ===== src/Agent/ReadCapability/Tokens.antt =====
-- The comparison of tokens without a data-dependent exit decides equality, and guards the grant.
use context_layer.Base.{
  ℕ, zero, suc, ◌/◌, ◌^◌, ◌<◌, ◌≡◌, ◌↔◌, refl, sym, subst, true, List, [], ◌∷◌, length, All,
  All-append, Bool-cases, inl, inr, ltb, some, ltb→lt, Text, encode_char, to_bytes, arith,
}
use native.Mathlib.Nat.{pow-suc}
use context_layer.Agent.Policy.{
  xor_bits, or_bits, accumulate, constant_time_equal, ReadCapabilityPolicy, grant_for_token,
}
use mathlib.Core.Option.{some_inj}
use context_layer.Contracts.{ReadCapabilityToken}
use context_layer.Core.Grants.{RetrievalGrant}

xor_bits-lt : (w a b : ℕ) → xor_bits w a b < 2 ^ w
unfolding xor_bits
xor_bits-lt zero a b = omega arith
xor_bits-lt (suc w) a b = omega (arith, pow-suc 2 w, xor_bits-lt w (a / 2) (b / 2))

or_bits-lt : (w a b : ℕ) → or_bits w a b < 2 ^ w
unfolding or_bits
or_bits-lt zero a b = omega arith
or_bits-lt (suc w) a b = ground (arith, pow-suc 2 w, or_bits-lt w (a / 2) (b / 2))

eq_of_xor_bits : (w a b : ℕ) → a < 2 ^ w → b < 2 ^ w → xor_bits w a b ≡ 0 → a ≡ b
unfolding xor_bits
eq_of_xor_bits zero a b ha hb h = omega arith
eq_of_xor_bits (suc w) a b ha hb h =
    let half =
      eq_of_xor_bits w (a / 2) (b / 2) (omega (arith, pow-suc 2 w)) (omega (arith, pow-suc 2 w))
        (omega arith) in
    omega (arith, half)

xor_bits-same : (w a : ℕ) → xor_bits w a a ≡ 0
unfolding xor_bits
xor_bits-same zero a = refl
xor_bits-same (suc w) a = omega (arith, xor_bits-same w (a / 2))

or_bits-zero : (w : ℕ) → or_bits w 0 0 ≡ 0
unfolding or_bits
or_bits-zero zero = refl
or_bits-zero (suc w) = ground (arith, or_bits-zero w)

zero_of_or_bits : (w a b : ℕ) → a < 2 ^ w → b < 2 ^ w → or_bits w a b ≡ 0 → (a ≡ 0) × (b ≡ 0)
unfolding or_bits
zero_of_or_bits zero a b ha hb h = (omega arith, omega arith)
zero_of_or_bits (suc w) a b ha hb h =
    let half =
      zero_of_or_bits w (a / 2) (b / 2) (omega (arith, pow-suc 2 w)) (omega (arith, pow-suc 2 w))
        (ground arith) in
    let left : a / 2 ≡ 0 = half.0 in let right : b / 2 ≡ 0 = half.1 in (ground arith, ground arith)

abbrev Octets : List ℕ → Type 0
Octets = All (λ b. b < 256)

accumulate-eq :
    (d : ℕ) (left right : List ℕ)
    → d < 256
    → Octets left
    → Octets right
    → length left ≡ length right
    → accumulate d left right ≡ 0
    → (d ≡ 0) × (left ≡ right)
unfolding accumulate
accumulate-eq d [] [] hd hl hr n h = (h, refl)
accumulate-eq d [] (r ∷ right) hd hl hr n h = absurd (omega arith)
accumulate-eq d (l ∷ left) [] hd hl hr n h = absurd (omega arith)
accumulate-eq d (l ∷ left) (r ∷ right) hd hl hr n h =
    let (joined, rest) =
      accumulate-eq (or_bits 8 d (xor_bits 8 l r)) left right (or_bits-lt 8 d (xor_bits 8 l r)) hl.1
        hr.1 (omega arith) h in
    let (clear, equal) = zero_of_or_bits 8 d (xor_bits 8 l r) hd (xor_bits-lt 8 l r) joined in
    (clear, rw (eq_of_xor_bits 8 l r hl.0 hr.0 equal, rest))

accumulate-same : (left : List ℕ) → accumulate 0 left left ≡ 0
unfolding accumulate
accumulate-same [] = refl
accumulate-same (l ∷ left) = rw (xor_bits-same 8 l, or_bits-zero 8) (accumulate-same left)

-- On lists of octets, the comparison is true exactly when the lists are equal.
pub constant_time_equal_iff :
    (left right : List ℕ)
    → All (λ b. b < 256) left
    → All (λ b. b < 256) right
    → (constant_time_equal left right ≡ true) ↔ (left ≡ right)
unfolding constant_time_equal
constant_time_equal_iff left right hl hr = (onto, back)
  where
    onto : constant_time_equal left right ≡ true → left ≡ right
    onto h =
        (accumulate-eq 0 left right (omega arith) hl hr (ground (arith, h)) (ground (arith, h))).1

    back : left ≡ right → constant_time_equal left right ≡ true
    back e =
        subst (λ xs. constant_time_equal left xs ≡ true) e
          (rw (accumulate-same left) (ground arith))

encode_char-octets : (c : ℕ) → c < 0x110000 → All (λ b. b < 256) (encode_char c)
encode_char-octets c h = elim (Bool-cases (ltb c 0x80)) [
  | inl one ↦ rw one (ground arith)
  | inr more ↦ elim (Bool-cases (ltb c 0x800)) [
    | inl two ↦ rw (more, two) (omega (arith, ltb→lt c 0x800 two), (omega arith, tt))
    | inr wide ↦ elim (Bool-cases (ltb c 0x10000)) [
      | inl three ↦
          rw (more, wide, three)
            (omega (arith, ltb→lt c 0x10000 three), (omega arith, (omega arith, tt)))
      | inr four ↦
          rw (more, wide, four) (omega arith, (omega arith, (omega arith, (omega arith, tt))))
    ]
  ]
]

to_bytes-octets : (s : Text) → All (λ c. c < 0x110000) s → All (λ b. b < 256) (to_bytes s)
to_bytes-octets [] h = tt
to_bytes-octets (c ∷ s) h =
    All-append (λ b. b < 256) (encode_char c) (to_bytes s) (encode_char-octets c h.0)
      (to_bytes-octets s h.1)

-- A policy gives its grant only for a token with the bytes of its own.
pub grant_for_token-bytes :
    (policy : ReadCapabilityPolicy) (token : ReadCapabilityToken) (grant : RetrievalGrant)
    → All (λ c. c < 0x110000) policy.token
    → All (λ c. c < 0x110000) token
    → grant_for_token policy token ≡ some grant
    → (to_bytes policy.token ≡ to_bytes token) × (grant ≡ policy.grant)
unfolding grant_for_token
grant_for_token-bytes policy token grant own given h =
    elim (Bool-cases (constant_time_equal (to_bytes policy.token) (to_bytes token))) [
      | inl same ↦ (
        (constant_time_equal_iff _ _ (to_bytes-octets policy.token own)
              (to_bytes-octets token given)).0
            same,
        sym (some_inj.0 (rw same at h)),
      )
      | inr other ↦ absurd (ground (arith, rw other at h))
    ]
