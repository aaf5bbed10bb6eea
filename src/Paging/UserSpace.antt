-- ===== src/Paging/UserSpace.antt =====
-- `alloc_user_pml4`: a new space shares the half of the kernel, and is empty below it.
use chod_os.Base.{
  ℕ, zero, suc, ◌+◌, ◌*◌, ◌%◌, ◌≡◌, ◌≢◌, ◌<◌, ◌≤◌, refl, sym, ap, ◌∙◌, ◌&&◌, Option, none, some,
  List, [], ◌∷◌, arith, if◌then◌else◌, ◌==◌, ltb, leb, inl, inr, Bool-cases, Option-cases,
}
use native.Mathlib.Nat.{mod-eq_of_lt}
use chod_os.Base.Cells.{Memory, store64}
use chod_os.Memory.Frame.{Frames, alloc_frame}
use chod_os.Memory.Frame.Alloc.{Allocated, alloc_frame-Allocated, alloc_frame-none_iff}
use chod_os.Paging.{
  Machine, ◌>>=◌, ◌>>◌, entry, page_of, clear, zero_frame, alloc_table, virt_to_phys, index4,
  index3, index2, index1,
}
use chod_os.Paging.Space.{copy_entries, alloc_user_pml4}
use chod_os.Paging.Entries.{entry-clear, entry_set, entry-lt}
use chod_os.Paging.Walk.{walk, indices, address, virt_to_phys-walk}
use chod_os.Paging.Tree.{IsTree, walk_eq, walk-absent, onto}
use chod_os.Paging.Create.{take_frame-some}
use chod_os.Paging.Leaf.{indices-AreIndices}
use chod_os.Paging.Demand.{cleared, apart}

-- Only entries `i` to `i + n` of the other table change.
entry-copy_entries :
    (from to : ℕ)
    → from % 4096 ≡ 0
    → to % 4096 ≡ 0
    → from ≢ to
    → (i n : ℕ) (mem : Memory) (t j : ℕ) → i + n ≤ 512
    → t % 4096 ≡ 0
    → j < 512
    → entry (copy_entries from to i n mem) t j
      ≡ (if (to == t) && leb i j && ltb j (i + n) then entry mem from j else entry mem t j)
unfolding copy_entries
entry-copy_entries from to fa ta ne i zero mem t j size aligned less = ground arith
entry-copy_entries from to fa ta ne i (suc n) mem t j size aligned less =
    let mem1 = store64 mem (to + 8 * i) (entry mem from i) in
    let at : (s : ℕ)
        → s % 4096 ≡ 0
        → entry mem1 s j ≡ (if (to == s) && (i == j) then entry mem from i else entry mem s j) =
      λ s sa.
        entry_set mem to s i j ta sa (omega (arith, size)) less (entry mem from i)
        ∙ ap (λ w. if (to == s) && (i == j) then w else entry mem s j)
            (mod-eq_of_lt (entry-lt mem from i)) in
    let source : entry mem1 from j ≡ entry mem from j = at from fa ∙ ground (arith, ne) in
    entry-copy_entries from to fa ta ne (i + 1) n mem1 t j (omega (arith, size)) aligned less
    ∙ ground (arith, source, at t aligned, ap (λ q. entry mem from q) {x = i} {y = j})

walk-same :
    (mem : Memory) (t t' i : ℕ) (is : List ℕ)
    → entry mem t i ≡ entry mem t' i
    → walk mem t (i ∷ is) ≡ walk mem t' (i ∷ is)
unfolding walk
walk-same mem t t' i is e = rw e refl

module _ (m : Machine) (owner : ℕ → Option (List ℕ)) (tree : IsTree m m.kernel_cr3 owner) (phys : ℕ)
    (frames : Frames) (a : Allocated m.frames phys frames) where
  empty : Machine
  empty = cleared m m.kernel_cr3 owner tree phys frames a

  shared_mem : Memory
  shared_mem = copy_entries m.kernel_cr3 phys 256 256 (clear m.mem phys)

  shared_entry :
      (t j : ℕ)
      → t % 4096 ≡ 0
      → j < 512
      → entry shared_mem t j ≡ (
          if phys == t
          then (if ltb j 256 then 0 else entry m.mem m.kernel_cr3 j)
          else entry m.mem t j)
  unfolding shared_mem
  shared_entry t j ta less =
      let root = m.kernel_cr3 in
      let ne = apart m root owner tree phys frames a root [] tree.top in
      let aligned = tree.aligned root [] tree.top in
      entry-copy_entries root phys aligned a.aligned (λ e. ne (sym e)) 256 256 (clear m.mem phys) t
        j (omega arith) ta less
      ∙ ground (
        arith,
        ne,
        less,
        entry-clear m.mem phys root j a.aligned aligned less,
        entry-clear m.mem phys t j a.aligned ta less,
      )

  -- The kernel's own tables are as before.
  kernel_walk :
      (va : ℕ) → walk shared_mem m.kernel_cr3 (indices va) ≡ walk m.mem m.kernel_cr3 (indices va)
  kernel_walk va =
      walk_eq m shared_mem m.kernel_cr3 owner tree phys 0 (onto (indices va) [])
        (λ t j p own less miss.
          shared_entry t j (tree.aligned t p own) less
          ∙ ground (arith, apart m m.kernel_cr3 owner tree phys frames a t p own))
        (λ t j p is hit own size below path.
          absurd (apart m m.kernel_cr3 owner tree phys frames a t p own (ground (arith, hit))))
        m.kernel_cr3 [] (indices va) tree.top refl (indices-AreIndices va) refl

  user_walk :
      (va : ℕ)
      → walk shared_mem phys (indices va)
        ≡ (if ltb (index4 va) 256 then none else walk m.mem m.kernel_cr3 (indices va))
  user_walk va =
      let root = m.kernel_cr3 in
      let is = index3 va ∷ index2 va ∷ index1 va ∷ [] in
      let ne = apart m root owner tree phys frames a root [] tree.top in
      let here = shared_entry phys (index4 va) a.aligned (omega arith) in
      elim (Bool-cases (ltb (index4 va) 256)) [
        | inl user ↦
            walk-absent shared_mem phys (index4 va) is (ground (arith, here, user)) ∙ rw user refl
        | inr high ↦
            let there : entry shared_mem root (index4 va) ≡ entry m.mem root (index4 va) =
              shared_entry root (index4 va) (tree.aligned root [] tree.top) (omega arith)
              ∙ ground (arith, ne) in
            let same : entry shared_mem phys (index4 va) ≡ entry shared_mem root (index4 va) =
              here ∙ ground (arith, high, there) in
            walk-same shared_mem phys root (index4 va) is same ∙ kernel_walk va ∙ rw high refl
      ]

-- With a frame left, a new address space is made: an address of the lower half leads nowhere in it, and one
-- of the upper half leads where it leads in the kernel's. The kernel's own space is as before.
pub alloc_user_pml4-virt_to_phys :
    (m : Machine) (owner : ℕ → Option (List ℕ)) (va : ℕ)
    → IsTree m m.kernel_cr3 owner
    → 1 ≤ m.frames.free_frames
    → (m' : Machine) × (cr3 : ℕ) × (alloc_user_pml4 m ≡ some (cr3, m'))
      × (virt_to_phys m'.mem cr3 va
          ≡ (if ltb (index4 va) 256 then none else virt_to_phys m.mem m.kernel_cr3 va))
      × (virt_to_phys m'.mem m.kernel_cr3 va ≡ virt_to_phys m.mem m.kernel_cr3 va)
unfolding alloc_user_pml4 alloc_table zero_frame shared_mem
alloc_user_pml4-virt_to_phys m owner va tree enough = elim (Option-cases (alloc_frame m.frames)) [
  | inl none_ ↦ absurd (omega (arith, (alloc_frame-none_iff m.frames tree.valid).0 none_, enough))
  | inr ((phys, frames), some_) ↦
      let a = alloc_frame-Allocated m.frames frames phys tree.valid some_ in
      let mem' = shared_mem m owner tree phys frames a in
      let root = m.kernel_cr3 in
      let at : page_of root ≡ root = omega (arith, tree.aligned root [] tree.top) in
      let new : page_of phys ≡ phys = omega (arith, a.aligned) in
      let through : (mem : Memory) (t : ℕ)
          → page_of t ≡ t
          → virt_to_phys mem t va ≡ address va (walk mem t (indices va)) =
        λ mem t e. virt_to_phys-walk mem t va ∙ ap (λ q. address va (walk mem q (indices va))) e in
      (
        record m { frames = frames; mem = mem' },
        phys,
        rw (take_frame-some m phys frames some_, ◌>>=◌, ◌>>◌, alloc_user_pml4, alloc_table)
            (rw at refl),
        through mem' phys new
            ∙ ap (address va) (user_walk m owner tree phys frames a va)
            ∙ elim (Bool-cases (ltb (index4 va) 256)) [
              | inl user ↦ rw user refl
              | inr high ↦ rw high (sym (through m.mem root at))
            ],
        through mem' root at
            ∙ ap (address va) (kernel_walk m owner tree phys frames a va)
            ∙ sym (through m.mem root at),
      )
]
