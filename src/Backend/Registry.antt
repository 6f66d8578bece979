-- ===== src/Backend/Registry.antt =====
-- The registry seen as a function from handles to controllers.
use mfi_wrapper.Prelude.{
  ℕ, ◌≤◌, ◌≡◌, refl, sym, ap, ◌∙◌, [], ◌∷◌, Option, none, some, arith, ◌==◌, if◌then◌else◌,
}
use mfi_wrapper.Backend.Defs.{Devices, find, assign, erase, Backend}

pub find-assign :
    (h k : ℕ) (p : Option ℕ) (m : Devices)
    → find k (assign h p m) ≡ (if h == k then some p else find k m)
unfolding find assign
find-assign h k p [] = refl
find-assign h k p ((j, q) ∷ rest) = ground (arith, find-assign h k p rest)

-- No handle has two entries.
abbrev pub Distinct : Devices → Type 0
Distinct [] = Unit {0}
Distinct ((k, p) ∷ rest) = (find k rest ≡ none) × Distinct rest

pub find-erase :
    (h k : ℕ) (m : Devices) → Distinct m → find k (erase h m) ≡ (if h == k then none else find k m)
unfolding find erase
find-erase h k [] d = ground arith
find-erase h k ((j, q) ∷ rest) d = ground (arith, find-erase h k rest d.1, d.0, missing j k rest)
  where
    missing : (i k : ℕ) (m : Devices) → find i m ≡ none → i ≡ k → find k m ≡ none
    missing i k m e same = ap (λ x. find x m) (sym same) ∙ e

-- The controller that a handle stands for; an entry with a null pointer stands for none.
unfoldable pub controller : Backend → ℕ → Option ℕ
controller b h = elim (find h b.devices) [ none ↦ none | some p ↦ p ]

pub assign-Distinct : (h : ℕ) (p : Option ℕ) (m : Devices) → Distinct m → Distinct (assign h p m)
unfolding find assign
assign-Distinct h p [] d = (refl, tt)
assign-Distinct h p ((j, q) ∷ rest) d =
    ground (arith, assign-Distinct h p rest d.1, find-assign h j p rest, d.0)

pub erase-Distinct : (h : ℕ) (m : Devices) → Distinct m → Distinct (erase h m)
unfolding find erase
erase-Distinct h [] d = tt
erase-Distinct h ((j, q) ∷ rest) d =
    ground (arith, erase-Distinct h rest d.1, find-erase h j rest d.1, d.0)

-- The registry is well formed: no handle twice, and controllers only under handles that were given
-- out.
pub record IsRegistry (b : Backend) : Type 0 where
  pub distinct : Distinct b.devices
  pub given_out : (h : ℕ) → b.next_handle ≤ h → controller b h ≡ none
