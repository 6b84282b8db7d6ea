-- ===== src/Base/Checks.antt =====
-- When a chain of checks succeeds: equivalences that take it apart, test by test.
use Prim.Native.Nat.{ℕ, ◌≤◌}
use mathlib.Core.Path.{◌≡◌, refl}
use mathlib.Core.Logic.{◌↔◌, ◌⊎◌, inl, inr}
use mathlib.Core.Bool.{Bool, true, false, ◌&&◌, ◌||◌}
use native.Mathlib.Omega.{arith}
use context_layer.Base.Tests.{leb, leb→le, le→leb}
use context_layer.Base.Strings.{Text, text_eq, eq_of_text_eq, text_eq_refl}
use context_layer.Base.Results.{Result, ok, err, ◌>>=◌, ◌>>◌, ensure}

pub text_eq_iff : (s t : Text) → (text_eq s t ≡ true) ↔ (s ≡ t)
text_eq_iff s t = (eq_of_text_eq s t, λ e. rw (e, text_eq_refl t))

pub or_iff {ℓ κ} :
    {P : Type ℓ} {Q : Type κ} (a b : Bool)
    → (a ≡ true) ↔ P
    → (b ≡ true) ↔ Q
    → ((a || b) ≡ true) ↔ (P ⊎ Q)
or_iff true b p q = (λ h. inl (p.0 refl), λ h. refl)
or_iff false b p q =
    (λ h. inr (q.0 h), λ h. elim h [ inl x ↦ absurd (ground (arith, p.1 x)) | inr y ↦ q.1 y ])

pub and_iff : (a b : Bool) → ((a && b) ≡ true) ↔ ((a ≡ true) × (b ≡ true))
and_iff true b = (λ h. (refl, h), λ h. h.1)
and_iff false b = (λ h. absurd (ground (arith, h)), λ h. h.0)

-- An `ensure` in a chain succeeds if its test does and the rest does.
pub ensure_iff {ℓ κ} :
    {B : Type ℓ} {E : Type κ} (t : Bool) (e : E) (r : Result B E) (b : B)
    → ((ensure t e >> r) ≡ ok b) ↔ ((t ≡ true) × (r ≡ ok b))
ensure_iff true e r b = (λ h. (refl, h), λ h. h.1)
ensure_iff false e r b = (λ h. absurd (ground (arith, h)), λ h. absurd (ground (arith, h.0)))

pub last_iff {ℓ} : {E : Type ℓ} (t : Bool) (e : E) → (ensure t e ≡ ok tt) ↔ (t ≡ true)
last_iff true e = (λ h. refl, λ h. refl)
last_iff false e = (λ h. absurd (ground (arith, h)), λ h. absurd (ground (arith, h)))

pub iff_trans {ℓ κ μ} : {P : Type ℓ} {Q : Type κ} {R : Type μ} → P ↔ Q → Q ↔ R → P ↔ R
iff_trans f g = (λ p. g.0 (f.0 p), λ r. f.1 (g.1 r))

pub both_iff {ℓ κ μ ν} :
    {P : Type ℓ} {Q : Type κ} {R : Type μ} {S : Type ν} → P ↔ Q → R ↔ S → (P × R) ↔ (Q × S)
both_iff f g = (λ h. (f.0 h.0, g.0 h.1), λ h. (f.1 h.0, g.1 h.1))

-- A chain that ends in a value succeeds if its checks do.
pub value_iff {ℓ κ μ} :
    {B : Type ℓ} {E : Type κ} {P : Type μ} (m : Result (Unit {0}) E) (b : B)
    → (m ≡ ok tt) ↔ P
    → ((c : B) × ((m >> ok b) ≡ ok c)) ↔ P
value_iff (ok tt) b p = (λ h. p.0 refl, λ h. (b, refl))
value_iff (err e) b p = (λ h. absurd (ground (arith, h.1)), λ h. absurd (ground (arith, p.1 h)))

pub link_iff {ℓ κ μ ν} :
    {B : Type ℓ} {E : Type κ} {P : Type μ} {Q : Type ν} (m : Result (Unit {0}) E) (r : Result B E)
    → (m ≡ ok tt) ↔ P
    → ((c : B) × (r ≡ ok c)) ↔ Q
    → ((c : B) × ((m >> r) ≡ ok c)) ↔ (P × Q)
link_iff (ok tt) r p q = (λ h. (p.0 refl, q.0 h), λ h. q.1 h.1)
link_iff (err e) r p q = (λ h. absurd (ground (arith, h.1)), λ h. absurd (ground (arith, p.1 h.0)))

pub test_iff {ℓ κ} :
    {E : Type ℓ} {P : Type κ} (t : Bool) (e : E) → (t ≡ true) ↔ P → (ensure t e ≡ ok tt) ↔ P
test_iff t e p = iff_trans (last_iff t e) p

pub le_iff : (a b : ℕ) → (leb a b ≡ true) ↔ (a ≤ b)
le_iff a b = (leb→le a b, le→leb a b)

pub bound_iff {ℓ κ μ} :
    {A : Type ℓ} {B : Type κ} {E : Type μ} (m : Result A E) (f : A → B)
    → ((c : B) × ((m >>= λ a. ok (f a)) ≡ ok c)) ↔ ((a : A) × (m ≡ ok a))
bound_iff (ok a) f = (λ h. (a, refl), λ h. (f a, refl))
bound_iff (err e) f = (λ h. absurd (ground (arith, h.1)), λ h. absurd (ground (arith, h.1)))
