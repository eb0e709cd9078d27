-- ===== src/Common/Decides.antt =====
-- Boolean tests that decide propositions, and the propositions behind an option.
use mathlib.Core.Path.{◌≡◌, refl}
use mathlib.Core.Logic.{◌↔◌, ◌⊎◌, inl, inr}
use mathlib.Core.Bool.{Bool, true, false, not, ◌&&◌, ◌||◌}
use mathlib.Core.Option.{Option, none, some}

abbrev pub Decides : Bool → Type 0 → Type 0
Decides b P = (b ≡ true) ↔ P

-- The predicate of the value, or the proposition where there is none.
abbrev pub OrElse {ℓ} : {A : Type ℓ} → (A → Type 0) → Option A → Type 0 → Type 0
OrElse P none Q = Q
OrElse P (some a) Q = P a

pub decides-and : (a b : Bool) (P Q : Type 0) → Decides a P → Decides b Q → Decides (a && b) (P × Q)
decides-and true b P Q p q = (λ h. (p.0 refl, q.0 h), λ (x, y). q.1 y)
decides-and false b P Q p q = (λ h. cc, λ (x, y). p.1 x)

pub decides-or : (a b : Bool) (P Q : Type 0) → Decides a P → Decides b Q → Decides (a || b) (P ⊎ Q)
decides-or true b P Q p q = (λ h. inl (p.0 refl), λ h. refl)
decides-or false b P Q p q =
    (λ h. inr (q.0 h), λ h. elim h [ inl x ↦ absurd (cc (p.1 x)) | inr y ↦ q.1 y ])

pub decides-not : (a : Bool) (P : Type 0) → Decides a P → Decides (not a) (P → ⊥)
decides-not true P p = (λ h. cc, λ h. absurd (h (p.0 refl)))
decides-not false P p = (λ h x. absurd (cc (p.1 x)), λ h. refl)

pub refuted : (a : Bool) (P : Type 0) → Decides a P → a ≡ false → P → ⊥
refuted a P p e x = cc (p.1 x)

pub decides-option {ℓ} :
    {A : Type ℓ} (f : A → Bool) (P : A → Type 0) (b : Bool) (Q : Type 0) (o : Option A)
    → ((a : A) → Decides (f a) (P a))
    → Decides b Q
    → Decides (elim o [ none ↦ b | some a ↦ f a ]) (OrElse P o Q)
decides-option f P b Q none p q = q
decides-option f P b Q (some a) p q = p a

pub decides-true : Decides true (Unit {0})
decides-true = (λ h. tt, λ h. refl)
