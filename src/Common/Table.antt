-- ===== src/Common/Table.antt =====
-- A value for each number, and a new value for one of them.
use exfiltrate.Common.{ℕ, ◌==◌, if◌then◌else◌, Bool-cases, inl, inr, ◌⊎◌}
use exfiltrate.Common.{arith, ◌≡◌, ◌≢◌}

abbrev pub update {ℓ} : {A : Type ℓ} → (ℕ → A) → ℕ → A → ℕ → A
update f i a j = if i == j then a else f j

pub update_other {ℓ} : {A : Type ℓ} → (f : ℕ → A) (i j : ℕ) (a : A) → i ≢ j → update f i a j ≡ f j
update_other f i j a ne = ground arith

pub update_self {ℓ} : {A : Type ℓ} → (f : ℕ → A) (i : ℕ) (a : A) → update f i a i ≡ a
update_self f i a = ground arith

pub same_or_not : (i j : ℕ) → (i ≡ j) ⊎ (i ≢ j)
same_or_not i j = elim (Bool-cases (i == j)) [
  | inl e ↦ inl (ground (arith, e))
  | inr e ↦ inr (λ h. ground (arith, e, h))
]
