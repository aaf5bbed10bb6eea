-- ===== src/Memory/Frame.antt =====
-- kernel/src/memory/frame.rs: the bitmap allocator of physical frames. The three statics are the
-- fields of one record; a bit that is set is a free frame.
pub mod View
pub mod Count
pub mod Mark
pub mod Scan
pub mod Alloc
pub mod Contiguous
pub mod Init
pub mod Tests
use chod_os.Base.{
  trailing_zeros, ℕ, zero, suc, ◌+◌, ◌-◌, ◌*◌, ◌/◌, ◌%◌, ◌^◌, min, bit_and, bit_or, Bool, true,
  false, not, Option, none, some, List, [], ◌∷◌, if◌then◌else◌, ◌==◌, ltb, get_or, set, replicate,
}
use chod_os.Base.Words.{u64, sub64, not64}

abbrev pub page_size : ℕ
page_size = 4096

abbrev pub bitmap_words : ℕ
bitmap_words = 32768

abbrev pub max_frames : ℕ
max_frames = bitmap_words * 64

pub record Frames : Type 0 where
  pub bitmap : List ℕ
  pub free_frames : ℕ
  pub total_usable : ℕ

-- A region of the boot loader's memory map: the fields of its entry that the allocator reads.
pub record Entry : Type 0 where
  pub type_ : ℕ
  pub base : ℕ
  pub length : ℕ

pub set_free : List ℕ → ℕ → List ℕ
set_free bitmap frame =
    set bitmap (frame / 64) (bit_or (get_or bitmap (frame / 64) 0) (2 ^ (frame % 64)))

pub set_used : List ℕ → ℕ → List ℕ
set_used bitmap frame =
    set bitmap (frame / 64) (bit_and (get_or bitmap (frame / 64) 0) (not64 (2 ^ (frame % 64))))

pub is_free : List ℕ → ℕ → Bool
is_free bitmap frame = not (bit_and (get_or bitmap (frame / 64) 0) (2 ^ (frame % 64)) == 0)

-- The inner loop of `init`, `n` frames from `frame` on.
pub free_range : ℕ → ℕ → List ℕ → ℕ → List ℕ × ℕ
free_range zero frame bitmap free = (bitmap, free)
free_range (suc n) frame bitmap free =
    free_range n (frame + 1) (set_free bitmap frame) (u64 (free + 1))

abbrev pub start_frame : Entry → ℕ
start_frame e = e.base / page_size

abbrev pub end_frame : Entry → ℕ
end_frame e = u64 (e.base + e.length) / page_size

-- The outer loop of `init`. `usable` is the boot loader's MEMMAP_USABLE.
pub init_from : ℕ → List Entry → List ℕ → ℕ → ℕ → Frames
init_from usable [] bitmap free total = record {
  bitmap = bitmap;
  free_frames = free;
  total_usable = total;
}
init_from usable (e ∷ es) bitmap free total =
    let skip = init_from usable es bitmap free total in
    let freed =
      free_range (min (end_frame e) max_frames - start_frame e) (start_frame e) bitmap free in
    let take = init_from usable es freed.0 freed.1 (u64 (total + e.length / page_size)) in
    if e.type_ == usable then take else skip

-- `.bss` is all zero: every frame starts as used.
pub init : ℕ → List Entry → Frames
init usable entries = init_from usable entries (replicate bitmap_words 0) 0 0

-- A word of used frames stays in front of what the scan of the later words leaves.
pub after_word : ℕ → Option (ℕ × List ℕ) → Option (ℕ × List ℕ)
after_word w none = none
after_word w (some (frame, ws')) = some (frame, w ∷ ws')

-- The scan of `alloc_frame` over the words from `word_idx` on: the frame found, and the words after.
pub alloc_scan : ℕ → List ℕ → Option (ℕ × List ℕ)
unfolding after_word
alloc_scan word_idx [] = none
alloc_scan word_idx (w ∷ ws) =
    let rest = alloc_scan (word_idx + 1) ws in
    let bit = trailing_zeros 64 w in
    if w == 0
    then after_word w rest
    else some (word_idx * 64 + bit, bit_and w (not64 (2 ^ bit)) ∷ ws)

pub alloc_frame : Frames → Option (ℕ × Frames)
alloc_frame s = elim (alloc_scan 0 s.bitmap) [
  | none ↦ none
  | some (frame, bitmap') ↦
      some (frame * page_size, record s { bitmap = bitmap'; free_frames = sub64 s.free_frames 1 })
]

-- `for i in run_start..run_start + count { set_used(i) }`
pub mark_used : ℕ → ℕ → List ℕ → List ℕ
mark_used zero start bitmap = bitmap
mark_used (suc n) start bitmap = mark_used n (start + 1) (set_used bitmap start)

-- The scan of `alloc_contiguous`, with `n` frames left from `frame` on: where the run starts.
pub run_scan : ℕ → List ℕ → ℕ → ℕ → ℕ → ℕ → Option ℕ
run_scan count bitmap zero frame run_start run_len = none
run_scan count bitmap (suc n) frame run_start run_len =
    let start = if run_len == 0 then frame else run_start in
    let longer = run_scan count bitmap n (frame + 1) start (run_len + 1) in
    let broken = run_scan count bitmap n (frame + 1) run_start 0 in
    if is_free bitmap frame then (if run_len + 1 == count then some start else longer) else broken

pub alloc_contiguous : Frames → ℕ → Option (ℕ × Frames)
alloc_contiguous s count =
    if count == 0 then none else elim (run_scan count s.bitmap max_frames 0 0 0) [
      | none ↦ none
      | some start ↦ some (
        start * page_size,
        record s {
          bitmap = mark_used count start s.bitmap;
          free_frames = sub64 s.free_frames count;
        },
      )
    ]

pub free_frame : Frames → ℕ → Frames
free_frame s phys_addr =
    let frame = phys_addr / page_size in
    if ltb frame max_frames
    then (if is_free s.bitmap frame
        then s
        else record s { bitmap = set_free s.bitmap frame; free_frames = u64 (s.free_frames + 1) })
    else s

pub free_frame_count : Frames → ℕ
free_frame_count s = s.free_frames

pub total_usable_frames : Frames → ℕ
total_usable_frames s = s.total_usable
