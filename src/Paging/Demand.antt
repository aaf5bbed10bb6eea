-- ===== src/Paging/Demand.antt =====
-- Demand paging: `demand_alloc_page` on what `try_demand_page` of process/vma.rs asks for.
use chod_os.Base.{
  bit_and, ◌==◌, ◌^◌, ◌%◌, ℕ, ◌/◌, ◌%◌, ◌^◌, ◌≡◌, ◌≢◌, ◌<◌, refl, sym, ap, ◌∙◌, ◌&&◌, Option, some,
  List, [], arith, ◌==◌, ltb, length, bit_and,
}
use chod_os.Memory.Frame.{Frames, is_free}
use chod_os.Memory.Frame.Alloc.{Allocated}
use chod_os.Paging.{Machine, entry, present, huge, page_of, clear}
use chod_os.Paging.Entries.{entry-clear}
use chod_os.Paging.Walk.{walk, indices}
use chod_os.Paging.Tree.{IsTree, walk_eq, onto}
use chod_os.Paging.Leaf.{indices-AreIndices}

module _ (m : Machine) (root : ℕ) (owner : ℕ → Option (List ℕ)) (tree : IsTree m root owner)
    (phys : ℕ) (frames : Frames) (a : Allocated m.frames phys frames) where
  abbrev pub cleared : Machine
  cleared = record m { frames = frames; mem = clear m.mem phys }

  pub apart : (t : ℕ) (p : List ℕ) → owner t ≡ some p → phys ≢ t
  apart t p h e = cc (a.was_free, tree.used t p h, ap (λ q. is_free m.frames.bitmap (q / 4096)) e)

  same_entry :
      (t j : ℕ) (p : List ℕ) → owner t ≡ some p → j < 512 → entry cleared.mem t j ≡ entry m.mem t j
  same_entry t j p own less =
      entry-clear m.mem phys t j a.aligned (tree.aligned t p own) less
      ∙ ground (arith, apart t p own)

  pub cleared-IsTree : IsTree cleared root owner
  cleared-IsTree = record {
    valid = a.valid;
    top = tree.top;
    aligned = tree.aligned;
    used = λ t p h. ground (arith, a.changed (t / 4096), tree.used t p h);
    child = λ t p j own short less here small.
        let e = same_entry t j p own less in
        ap (λ q. owner (page_of q)) e
        ∙ tree.child t p j own short less (ap present (sym e) ∙ here)
            (ap (λ q. huge q && ltb 0 (length p)) (sym e) ∙ small);
  }

  pub cleared-walk : (va : ℕ) → walk cleared.mem root (indices va) ≡ walk m.mem root (indices va)
  cleared-walk va =
      walk_eq m cleared.mem root owner tree phys 0 (onto (indices va) [])
        (λ t j p own less miss. same_entry t j p own less)
        (λ t j p is hit own size below path. absurd (apart t p own (ground (arith, hit)))) root []
        (indices va) tree.top refl (indices-AreIndices va) refl
