-- ===== src/Paging/Create.antt =====
-- A new table below an entry that had none.
use chod_os.Base.{
  ℕ, ◌+◌, ◌*◌, ◌/◌, ◌%◌, ◌≡◌, ◌≢◌, ◌<◌, ◌≤◌, refl, sym, ap, ◌∙◌, true, false, ◌&&◌, Option, none,
  some, List, [], ◌∷◌, arith, if◌then◌else◌, ◌==◌, ltb, length, inl, inr, Bool-cases, ℕ_discrete,
  bit_or,
}
use chod_os.Base.Cells.{store64, store64_outside}
use chod_os.Base.Words.{u64}
use chod_os.Memory.Frame.{Frames, is_free, alloc_frame}
use chod_os.Memory.Frame.Alloc.{Allocated}
use chod_os.Paging.{
  Machine, ◌>>=◌, entry, present, huge, page_of, clear, take_frame, zero_frame, set_entry,
  alloc_table, create_table, mid_flags,
}
use chod_os.Paging.Bits.{bit_or-page}
use chod_os.Paging.Entries.{entry_set, entry-clear}
use chod_os.Paging.Walk.{walk}
use chod_os.Paging.Tree.{
  outside_tables, IsTree, AreIndices, walk-absent, walk-next, walk_eq, not-ends, onto,
}

-- What a step to the table below entry `i` of `tb` leaves: the table `t'`, and a tree in which all walks
-- from the root end where they did.
pub record Opened (m : Machine) (root : ℕ) (owner : ℕ → Option (List ℕ)) (tb : ℕ) (pb : List ℕ)
    (i t' : ℕ) (m' : Machine) (owner' : ℕ → Option (List ℕ)) : Type 0 where
  pub tree : IsTree m' root owner'
  pub mine : owner' t' ≡ some (i ∷ pb)
  pub kept : (t : ℕ) (p : List ℕ) → owner t ≡ some p → owner' t ≡ some p
  pub walks :
      (is : List ℕ) → AreIndices is → length is ≡ 4 → walk m'.mem root is ≡ walk m.mem root is
  pub here : present (entry m'.mem tb i) ≡ true
  pub small : huge (entry m'.mem tb i) && ltb 0 (length pb) ≡ false
  pub next : page_of (entry m'.mem tb i) ≡ t'
  pub entries :
      (t j : ℕ) (p : List ℕ)
      → owner t ≡ some p
      → j < 512
      → present (entry m.mem t j) ≡ true
      → entry m'.mem t j ≡ entry m.mem t j
  pub frames : m.frames.free_frames ≤ m'.frames.free_frames + 1
  pub others : (f : ℕ) → is_free m.frames.bitmap f ≡ false → is_free m'.frames.bitmap f ≡ false
  pub unowned :
      (t : ℕ) → is_free m.frames.bitmap (t / 4096) ≡ false → owner t ≡ none → owner' t ≡ none
  pub bytes :
      (q : ℕ)
      → is_free m.frames.bitmap (q / 4096) ≡ false
      → owner (page_of q) ≡ none
      → m'.mem q ≡ m.mem q
  pub rest : (m'.kernel_cr3 ≡ m.kernel_cr3) × (m'.ro_channel_slot ≡ m.ro_channel_slot)

-- The state after `create_table` with the frame `n`.
abbrev pub created : Machine → ℕ → ℕ → ℕ → Frames → Machine
created m tb i n frames = record m {
  frames = frames;
  mem = store64 (clear m.mem n) (tb + 8 * i) (bit_or n mid_flags);
}

pub take_frame-some :
    (m : Machine) (n : ℕ) (frames : Frames)
    → alloc_frame m.frames ≡ some (n, frames)
    → take_frame m ≡ some (n, record m { frames = frames })
unfolding take_frame
take_frame-some m n frames e = rw (e, take_frame) refl

some-inj : (p q : List ℕ) → some p ≡ some q → p ≡ q
some-inj p q e = cc

pub create_table_lem :
    (m : Machine) (tb i n : ℕ) (frames : Frames)
    → alloc_frame m.frames ≡ some (n, frames)
    → create_table tb i mid_flags m ≡ some (page_of (bit_or n mid_flags), created m tb i n frames)
unfolding create_table alloc_table zero_frame set_entry
create_table_lem m tb i n frames e =
    rw (take_frame-some m n frames e, create_table, alloc_table, ◌>>=◌) refl

module _ (m : Machine) (root : ℕ) (owner : ℕ → Option (List ℕ)) (tree : IsTree m root owner)
    (tb : ℕ) (pb : List ℕ) (i : ℕ) (own : owner tb ≡ some pb) (short : length pb < 3)
    (less : i < 512) (absent : present (entry m.mem tb i) ≡ false) (n : ℕ) (frames : Frames)
    (a : Allocated m.frames n frames) where
  abbrev m' : Machine
  m' = created m tb i n frames

  abbrev owner' : ℕ → Option (List ℕ)
  owner' t = if n == t then some (i ∷ pb) else owner t

  -- A table of the tree is not the new frame, which was free.
  apart : (t : ℕ) (p : List ℕ) → owner t ≡ some p → n ≢ t
  apart t p h e = cc (a.was_free, tree.used t p h, ap (λ q. is_free m.frames.bitmap (q / 4096)) e)

  entries_lem :
      (t j : ℕ)
      → t % 4096 ≡ 0
      → j < 512
      → entry m'.mem t j
        ≡ (if (tb == t) && (i == j) then n + 7 else (if n == t then 0 else entry m.mem t j))
  entries_lem t j ta jl =
      let inside = a.inside in
      let word : u64 (bit_or n 7) ≡ n + 7 =
        omega (arith, bit_or-page n 7 a.aligned (omega arith), inside) in
      entry_set (clear m.mem n) tb t i j (tree.aligned tb pb own) ta less jl (bit_or n 7)
      ∙ ground (arith, word, entry-clear m.mem n t j a.aligned ta jl)

  same :
      (t j : ℕ) (p : List ℕ)
      → owner t ≡ some p
      → j < 512
      → (tb == t) && (i == j) ≡ false
      → entry m'.mem t j ≡ entry m.mem t j
  same t j p h jl miss = ground (arith, miss, entries_lem t j (tree.aligned t p h) jl, apart t p h)

  at_new : (j : ℕ) → j < 512 → entry m'.mem n j ≡ 0
  at_new j jl = ground (arith, entries_lem n j a.aligned jl, apart tb pb own)

  at_entry : entry m'.mem tb i ≡ n + 7
  at_entry = ground (arith, entries_lem tb i (tree.aligned tb pb own) less)

  at_page : page_of (n + 7) ≡ n
  at_page = omega (arith, a.aligned)

  at_present : present (n + 7) ≡ true
  at_present = ground (arith, a.aligned)

  at_small : huge (n + 7) ≡ false
  at_small = ground (arith, a.aligned)

  new_tree : IsTree m' root owner'
  new_tree = record {
    valid = a.valid;
    top = ground (arith, tree.top, apart root [] tree.top);
    aligned = λ t p h. elim (ℕ_discrete n t) [
      | yes e ↦ omega (arith, a.aligned, e)
      | no e ↦ tree.aligned t p (ground (arith, h, e))
    ];
    used = λ t p h. elim (ℕ_discrete n t) [
      | yes e ↦ ground (arith, a.changed (t / 4096), e)
      | no e ↦ ground (arith, a.changed (t / 4096), tree.used t p (ground (arith, h, e)))
    ];
    child = λ t p j h sh jl pres sm. elim (ℕ_discrete n t) [
      | yes e ↦ absurd (ground (arith, pres, at_new j jl, ap (λ q. entry m'.mem q j) e))
      | no e ↦ child' t p j (ground (arith, h, e)) sh jl pres sm
    ];
  }
    where
      child' :
          (t : ℕ) (p : List ℕ) (j : ℕ)
          → owner t ≡ some p
          → length p < 3
          → j < 512
          → present (entry m'.mem t j) ≡ true
          → huge (entry m'.mem t j) && ltb 0 (length p) ≡ false
          → owner' (page_of (entry m'.mem t j)) ≡ some (j ∷ p)
      child' t p j h sh jl pres sm = elim (Bool-cases ((tb == t) && (i == j))) [
        | inl hit ↦
            let p-eq : p ≡ pb =
              some-inj p pb (sym h ∙ ap owner {x = t} {y = tb} (ground (arith, hit)) ∙ own) in
            let at : page_of (entry m'.mem t j) ≡ n =
              ap page_of (entries_lem t j (tree.aligned t p h) jl) ∙ ground (arith, hit, at_page) in
            ap owner' at ∙ ground (arith, p-eq, hit)
        | inr miss ↦
            let e = same t j p h jl miss in
            let c =
              tree.child t p j h sh jl (ap present (sym e) ∙ pres)
                (ap (λ q. huge q && ltb 0 (length p)) (sym e) ∙ sm) in
            ap (λ q. owner' (page_of q)) e
            ∙ ground (arith, c, apart (page_of (entry m.mem t j)) (j ∷ p) c)
      ]

  new_walks :
      (is : List ℕ) → AreIndices is → length is ≡ 4 → walk m'.mem root is ≡ walk m.mem root is
  new_walks is below four =
      walk_eq m m'.mem root owner tree tb i (onto is []) same (at (onto is [])) root [] is tree.top
        (omega (arith, four)) below refl
    where
      same_place : (t j : ℕ) (p : List ℕ) → (tb == t) && (i == j) ≡ true → owner t ≡ some p → p ≡ pb
      same_place t j p hit h =
          some-inj p pb (sym h ∙ ap owner {x = t} {y = tb} (ground (arith, hit)) ∙ own)

      -- Nothing was found below the entry, and nothing is in the new table.
      at :
          (full : List ℕ) (t j : ℕ) (p is : List ℕ)
          → (tb == t) && (i == j) ≡ true
          → owner t ≡ some p
          → length p + length (j ∷ is) ≡ 4
          → AreIndices is
          → onto is (j ∷ p) ≡ full
          → walk m'.mem t (j ∷ is) ≡ walk m.mem t (j ∷ is)
      at full t j p [] hit h size below path =
          absurd (omega (arith, size, short, ap length (same_place t j p hit h)))
      at full t j p (k ∷ is) hit h size (kl, below) path =
          let new : entry m'.mem t j ≡ n + 7 =
            entries_lem t j (tree.aligned t p h) (ground (arith, hit, less))
            ∙ ground (arith, hit) in
          let old : present (entry m.mem t j) ≡ false = ground (arith, hit, absent) in
          walk-next m'.mem t j (k ∷ is) (ap present new ∙ at_present) (
            not-ends p (k ∷ is) (entry m'.mem t j) j size
              (omega (arith, short, ap length (same_place t j p hit h)))
              (ground (arith, new, at_small)))
          ∙ ap (λ q. walk m'.mem (page_of q) (k ∷ is)) new
          ∙ ap (λ q. walk m'.mem q (k ∷ is)) at_page
          ∙ walk-absent m'.mem n k is (ground (arith, at_new k kl))
          ∙ sym (walk-absent m.mem t j (k ∷ is) old)

  pub new_Opened : Opened m root owner tb pb i n m' owner'
  unfolding clear
  new_Opened = record {
    tree = new_tree;
    mine = ground arith;
    kept = λ t p h. ground (arith, h, apart t p h);
    walks = new_walks;
    here = ap present at_entry ∙ at_present;
    small = ground (arith, at_entry, at_small);
    next = ap page_of at_entry ∙ at_page;
    entries = λ t j p h jl pres. elim (Bool-cases ((tb == t) && (i == j))) [
      | inl hit ↦ absurd (ground (arith, hit, pres, absent))
      | inr miss ↦ same t j p h jl miss
    ];
    frames = omega (arith, a.counted);
    others = λ f h. ground (arith, h, a.changed f);
    unowned = λ t h o.
        ground
          (arith, h, o, a.was_free, ap (λ q. is_free m.frames.bitmap (q / 4096)) {x = n} {y = t});
    bytes = λ q used o.
        store64_outside (clear m.mem n) (tb + 8 * i) (bit_or n mid_flags) q
          (outside_tables tree tb i q pb own less o)
        ∙ ground (
          arith,
          used,
          a.was_free,
          a.aligned,
          ap (λ f. is_free m.frames.bitmap f) {x = q / 4096} {y = n / 4096},
        );
    rest = (refl, refl);
  }
