-- ===== src/Process/Vma/Coverage.antt =====
-- Which addresses the table of process/vma.rs covers.
use chod_os.Base.{
  ℕ, zero, suc, ◌<◌, ◌≡◌, refl, Bool, true, false, ◌||◌, none, some, List, [], ◌∷◌, arith, length,
  get_or, set, Bool-cases, inl, inr, ◌⊎◌,
}
use chod_os.Process.Vma.{VmaEntry, empty, holds, find, update_prot}

-- Some entry holds the address.
unfoldable pub covered : List VmaEntry → ℕ → Bool
covered [] v = false
covered (e ∷ es) v = holds e v || covered es v

-- A search for an address fails only where no region holds it, and else returns a region that does.
pub find_lem :
    (t : List VmaEntry) (v : ℕ)
    → ((find t v ≡ none) × (covered t v ≡ false))
      ⊎ ((e : VmaEntry) × (find t v ≡ some e) × (holds e v ≡ true) × (covered t v ≡ true))
unfolding find covered
find_lem [] v = inl (refl, refl)
find_lem (e ∷ es) v = elim (Bool-cases (holds e v)) [
  | inl here ↦ inr (e, ground (arith, here), here, ground (arith, here))
  | inr there ↦ elim (find_lem es v) [
    | inl (missing, bare) ↦ inl (ground (arith, there, missing), ground (arith, there, bare))
    | inr (e', found, held, whole) ↦
        inr (e', ground (arith, there, found), held, ground (arith, there, whole))
  ]
]

-- A new entry that holds what the old one held loses nothing.
pub covered-set :
    (t : List VmaEntry) (i : ℕ) (e : VmaEntry) (v : ℕ)
    → i < length t
    → covered t v ≡ true
    → ((holds (get_or t i empty) v ≡ false) ⊎ (holds e v ≡ true))
    → covered (set t i e) v ≡ true
unfolding covered
covered-set [] i e v h c keeps = absurd (omega arith)
covered-set (d ∷ es) zero e v h c (inl nothing) = ground (arith, c, nothing)
covered-set (d ∷ es) zero e v h c (inr held) = ground (arith, held)
covered-set (d ∷ es) (suc i) e v h c keeps = elim (Bool-cases (holds d v)) [
  | inl here ↦ ground (arith, here)
  | inr there ↦ ground (arith, covered-set es i e v (omega arith) (ground (arith, c, there)) keeps)
]

pub covered-set_self :
    (t : List VmaEntry) (i : ℕ) (e : VmaEntry) (v : ℕ)
    → i < length t
    → holds e v ≡ true
    → covered (set t i e) v ≡ true
unfolding covered
covered-set_self [] i e v h held = absurd (omega arith)
covered-set_self (d ∷ es) zero e v h held = ground (arith, held)
covered-set_self (d ∷ es) (suc i) e v h held =
    ground (arith, covered-set_self es i e v (omega arith) held)

-- A change of permissions changes neither the addresses that are covered nor the number of entries.
pub update_prot-covered :
    (t : List VmaEntry) (addr len new_prot v : ℕ)
    → let (found, t') = update_prot t addr len new_prot in
      (covered t' v ≡ covered t v) × (length t' ≡ length t)
unfolding update_prot covered
update_prot-covered [] addr len new_prot v = (refl, refl)
update_prot-covered (e ∷ es) addr len new_prot v =
    let (same, size) = update_prot-covered es addr len new_prot v in
    (ground (arith, same), ground (arith, size))
