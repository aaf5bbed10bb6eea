-- ===== src/Memory/Frame/Tests.antt =====
-- Runs of memory/frame.rs on a memory map with one usable region, frames 1 to 3.
use mathlib.Core.Path.{subst}
use chod_os.Base.{
  ℕ, ◌+◌, ◌≤◌, ◌<◌, ◌≡◌, ◌⊎◌, refl, ◌∙◌, arith, false, none, some, List, [], ◌∷◌, replicate,
  trailing_zeros,
}
use chod_os.Memory.Frame.{
  Frames, Entry, init, init_from, free_range, set_free, is_free, alloc_scan, alloc_frame,
  alloc_contiguous, max_frames,
}
use chod_os.Memory.Frame.Count.{IsValid}
use chod_os.Memory.Frame.Alloc.{Allocated, alloc_frame-Allocated}
use chod_os.Memory.Frame.Contiguous.{IsRun, AllocatedRun, alloc_contiguous_lem}
use chod_os.Memory.Frame.Init.{AreDisjoint, any_covers, init-IsValid}

abbrev memory_map : List Entry
memory_map =
    record { type_ = 7; base = 0; length = 0x9000 }
    ∷ record { type_ = 0; base = 0x1000; length = 0x3000 }
    ∷ []

abbrev with_first : ℕ → ℕ → Frames
with_first w free = record { bitmap = w ∷ replicate 32767 0; free_frames = free; total_usable = 3 }

init-memory_map : init 0 memory_map ≡ with_first 14 3
unfolding init init_from free_range set_free
init-memory_map = refl

alloc_frame-memory_map : alloc_frame (with_first 14 3) ≡ some (0x1000, with_first 12 2)
unfolding alloc_frame alloc_scan trailing_zeros
alloc_frame-memory_map = refl

memory_map-AreDisjoint : AreDisjoint 0 memory_map
memory_map-AreDisjoint = ((λ g c. cc), ((λ g c. refl), tt))

-- Five free frames, from the eighth on.
abbrev five_map : List Entry
five_map = record { type_ = 0; base = 0x8000; length = 0x5000 } ∷ []

abbrev pub five_free : Frames
five_free = record { bitmap = 0x1F00 ∷ replicate 32767 0; free_frames = 5; total_usable = 5 }

init-five_map : init 0 five_map ≡ five_free
unfolding init init_from free_range set_free
init-five_map = refl

five_map-AreDisjoint : AreDisjoint 0 five_map
five_map-AreDisjoint = ((λ g c. refl), tt)

pub five_free-IsValid : IsValid five_free
five_free-IsValid = subst IsValid init-five_map (init-IsValid 0 five_map five_map-AreDisjoint).0

pub five_free_used : (g : ℕ) → g < 8 → is_free five_free.bitmap g ≡ false
five_free_used g h =
    subst (λ s. is_free s.bitmap g ≡ false) init-five_map
      ((init-IsValid 0 five_map five_map-AreDisjoint).1 g ∙ ground (arith, h))

init-IsValid_example :
    IsValid (init 0 memory_map)
    × ((g : ℕ) → is_free (init 0 memory_map).bitmap g ≡ any_covers 0 memory_map g)
init-IsValid_example = init-IsValid 0 memory_map memory_map-AreDisjoint

three_free-IsValid : IsValid (with_first 14 3)
three_free-IsValid = subst IsValid init-memory_map init-IsValid_example.0

alloc_frame-Allocated_example : Allocated (with_first 14 3) 0x1000 (with_first 12 2)
alloc_frame-Allocated_example =
    alloc_frame-Allocated (with_first 14 3) (with_first 12 2) 0x1000 three_free-IsValid
      alloc_frame-memory_map

alloc_contiguous_lem_example :
    ((alloc_contiguous (with_first 14 3) 2 ≡ none)
      × (0 < 2 → (t : ℕ) → t + 2 ≤ max_frames → ¬ (IsRun (with_first 14 3).bitmap 2 t)))
    ⊎ ((p : ℕ) × (s' : Frames) × (alloc_contiguous (with_first 14 3) 2 ≡ some (p, s'))
        × (0 < 2)
        × AllocatedRun (with_first 14 3) 2 p s')
alloc_contiguous_lem_example = alloc_contiguous_lem (with_first 14 3) 2 three_free-IsValid
