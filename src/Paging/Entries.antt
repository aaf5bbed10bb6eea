-- ===== src/Paging/Entries.antt =====
-- The entries of page tables in memory: what a write of one entry and the clearing of a frame change.
use chod_os.Base.{
  ℕ, ◌+◌, ◌*◌, ◌%◌, ◌^◌, ◌≡◌, ◌≢◌, ◌<◌, ◌≤◌, refl, ap, true, ◌&&◌, arith, if◌then◌else◌, ◌==◌, ltb,
  leb, inl, inr, ◌⊎◌, ℕ_discrete, dec_lt,
}
use chod_os.Base.Words.{u64}
use chod_os.Base.Cells.{
  Memory, load64, store64, load64-store64, load64-store64_apart, load64_eq, load64-lt,
}
use chod_os.Paging.{entry, clear}

pub entry-lt : (mem : Memory) (t i : ℕ) → entry mem t i < 2 ^ 64
unfolding entry
entry-lt mem t i = load64-lt mem (t + 8 * i)

module _ (mem : Memory) (t t' i i' : ℕ) (ta : t % 4096 ≡ 0) (ta' : t' % 4096 ≡ 0) (ii : i < 512)
    (ii' : i' < 512) where
  pub entry_set :
      (v : ℕ)
      → entry (store64 mem (t + 8 * i) v) t' i'
        ≡ (if (t == t') && (i == i') then u64 v else entry mem t' i')
  unfolding entry
  entry_set v = elim (ℕ_discrete (t + 8 * i) (t' + 8 * i')) [
    | yes e ↦
        let p : t ≡ t' = omega (arith, e, ta, ta', ii, ii') in
        let q : i ≡ i' = omega (arith, e, p) in
        ground
          (arith, p, q, load64-store64 mem (t + 8 * i) v, ap (load64 (store64 mem (t + 8 * i) v)) e)
    | no ne ↦ ground (arith, ne, load64-store64_apart mem (t + 8 * i) v (t' + 8 * i') (apart ne))
  ]
    where
      apart :
          t + 8 * i ≢ t' + 8 * i' → (t' + 8 * i' + 8 ≤ t + 8 * i) ⊎ (t + 8 * i + 8 ≤ t' + 8 * i')
      apart ne = elim (dec_lt (t' + 8 * i') (t + 8 * i)) [
        | yes l ↦ inl (omega (arith, l, ta, ta'))
        | no l ↦ inr (omega (arith, l, ne, ta, ta'))
      ]

zeros : (a : ℕ) → load64 (λ q. 0) a ≡ 0
unfolding load64
zeros a = refl

pub entry-clear :
    (mem : Memory) (p t i : ℕ)
    → p % 4096 ≡ 0
    → t % 4096 ≡ 0
    → i < 512
    → entry (clear mem p) t i ≡ (if p == t then 0 else entry mem t i)
unfolding entry clear
entry-clear mem p t i pa ta ii = elim (ℕ_discrete p t) [
  | yes e ↦ ground (
    arith,
    e,
    zeros (t + 8 * i),
    load64_eq (clear mem p) (λ q. 0) (t + 8 * i) (λ q l h. ground (arith, e, ii, l, h)),
  )
  | no ne ↦ ground (
    arith,
    ne,
    load64_eq (clear mem p) mem (t + 8 * i) (λ q l h. ground (arith, outside q l h, ne)),
  )
]
  where
    outside :
        (q : ℕ) → t + 8 * i ≤ q → q < t + 8 * i + 8 → (leb p q && ltb q (p + 4096) ≡ true) → p ≡ t
    outside q l h e = ground (arith, l, h, e, pa, ta, ii)
