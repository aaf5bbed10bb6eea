-- ===== src/Paging/Grow.antt =====
-- `get_or_create`: with a frame left, the step to the next table succeeds.
use chod_os.Base.{
  ℕ, ◌≡◌, ◌<◌, ◌≤◌, refl, true, false, ◌&&◌, Option, some, List, ◌∷◌, arith, if◌then◌else◌, ◌==◌,
  ltb, length, inl, inr, Bool-cases, Option-cases, bit_or,
}
use chod_os.Memory.Frame.{alloc_frame}
use chod_os.Memory.Frame.Alloc.{alloc_frame-Allocated, alloc_frame-none_iff}
use chod_os.Paging.{Machine, entry, present, huge, page_of, get_or_create, mid_flags}
use chod_os.Paging.Bits.{bit_or-page}
use chod_os.Paging.Tree.{IsTree}
use chod_os.Paging.Create.{Opened, created, create_table_lem, new_Opened}

-- A run of `get_or_create` and what it leaves.
pub data Opens (m : Machine) (root : ℕ) (owner : ℕ → Option (List ℕ)) (tb : ℕ) (pb : List ℕ) (i : ℕ)
    : Type 0 where
  opens :
      (t' : ℕ) (m' : Machine) (owner' : ℕ → Option (List ℕ))
      → get_or_create tb i mid_flags m ≡ some (t', m')
      → Opened m root owner tb pb i t' m' owner'
      → Opens m root owner tb pb i

-- With a frame left, a step to the next table succeeds, and opens it where there was none. A large page
-- stands in its way.
pub get_or_create-Opened :
    (m : Machine) (root : ℕ) (owner : ℕ → Option (List ℕ)) (tb : ℕ) (pb : List ℕ) (i : ℕ)
    → IsTree m root owner
    → owner tb ≡ some pb
    → length pb < 3
    → i < 512
    → (present (entry m.mem tb i) ≡ true → huge (entry m.mem tb i) && ltb 0 (length pb) ≡ false)
    → 1 ≤ m.frames.free_frames
    → Opens m root owner tb pb i
unfolding get_or_create
get_or_create-Opened m root owner tb pb i tree own short less plain enough =
    elim (Bool-cases (present (entry m.mem tb i))) [
      | inl here ↦
          opens (page_of (entry m.mem tb i)) m owner (rw (here, get_or_create) refl) (record {
            tree = tree;
            mine = tree.child tb pb i own short less here (plain here);
            kept = λ t p h. h;
            walks = λ is below four. refl;
            here = here;
            small = plain here;
            next = refl;
            entries = λ t j p h jl pres. refl;
            frames = omega arith;
            others = λ f h. h;
            unowned = λ t h o. o;
            bytes = λ q h o. refl;
            rest = (refl, refl);
          })
      | inr absent ↦ elim (Option-cases (alloc_frame m.frames)) [
        | inl none_ ↦
            absurd (omega (arith, (alloc_frame-none_iff m.frames tree.valid).0 none_, enough))
        | inr ((n, frames), some_) ↦
            let a = alloc_frame-Allocated m.frames frames n tree.valid some_ in
            opens (page_of (bit_or n mid_flags)) (created m tb i n frames)
              (λ t. if n == t then some (i ∷ pb) else owner t)
              (rw (absent, get_or_create) (create_table_lem m tb i n frames some_))
              (moved (page_of (bit_or n mid_flags))
                (omega (arith, bit_or-page n 7 a.aligned (omega arith), a.aligned))
                (new_Opened m root owner tree tb pb i own short less absent n frames a))
      ]
    ]
  where
    moved :
        {n : ℕ} {m' : Machine} {owner' : ℕ → Option (List ℕ)} (t' : ℕ)
        → t' ≡ n
        → Opened m root owner tb pb i n m' owner'
        → Opened m root owner tb pb i t' m' owner'
    moved t' e o = rw e o
