-- ===== src/Process/Vma.antt =====
-- process/vma.rs: the table of the mapped regions.
pub mod Coverage
pub mod Insert
pub mod Tests
use chod_os.Base.{
  ℕ, zero, suc, ◌+◌, ◌-◌, ◌*◌, ◌^◌, ◌<◌, ◌≡◌, Bool, true, false, not, ◌&&◌, Option, none, some,
  List, [], ◌∷◌, if◌then◌else◌, ◌==◌, ltb, leb, bit_and, get_or, set, replicate, map,
}
use chod_os.Base.Words.{u64, not64}

abbrev pub prot_write : ℕ
prot_write = 2

abbrev pub max_vma : ℕ
max_vma = 128

pub record VmaEntry : Type 0 where
  pub base : ℕ
  pub pages : ℕ
  pub prot : ℕ
  pub lazy : Bool
  pub valid : Bool

abbrev pub empty : VmaEntry
empty = record { base = 0; pages = 0; prot = 0; lazy = false; valid = false }

abbrev pub end_of : VmaEntry → ℕ
end_of e = u64 (e.base + u64 (e.pages * 4096))

-- The first index, from `i` on, of an entry that is not valid.
unfoldable pub first_free : List VmaEntry → ℕ → Option ℕ
first_free [] i = none
first_free (e ∷ es) i = let later = first_free es (i + 1) in if not e.valid then some i else later

-- The entry with the fewest pages, the first of them, where `best` is that of the entries before `i`.
unfoldable pub min_pages : List VmaEntry → ℕ → ℕ → ℕ → ℕ
min_pages t zero i best = best
min_pages t (suc left) i best =
    min_pages t left (i + 1)
      (if ltb (get_or t i empty).pages (get_or t best empty).pages then i else best)

unfoldable pub insert_slot : List VmaEntry → VmaEntry → List VmaEntry
insert_slot t entry = elim (first_free t 0) [
  | some i ↦ set t i entry
  | none ↦ set t (min_pages t 127 1 0) entry
]

unfoldable pub find_base : List VmaEntry → ℕ → ℕ → Option ℕ
find_base [] base i = none
find_base (e ∷ es) base i =
    let later = find_base es base (i + 1) in if e.valid && (e.base == base) then some i else later

-- What of the old entry lies behind the new one.
abbrev pub remainder : VmaEntry → ℕ → ℕ → VmaEntry
remainder e base pages = record {
  base = u64 (base + u64 (pages * 4096));
  pages = e.pages - pages;
  prot = e.prot;
  lazy = e.lazy;
  valid = true;
}

unfoldable pub insert : List VmaEntry → ℕ → ℕ → ℕ → Bool → List VmaEntry
insert t base pages prot lazy =
    let new_entry : VmaEntry = record {
      base = base;
      pages = pages;
      prot = prot;
      lazy = lazy;
      valid = true;
    } in
    elim (find_base t base 0) [
      | none ↦ insert_slot t new_entry
      | some i ↦
          let e = get_or t i empty in
          if ltb pages e.pages
          then insert_slot (set t i new_entry) (remainder e base pages)
          else set t i new_entry
    ]

unfoldable pub reset : List VmaEntry → List VmaEntry
reset t = map (λ (e : VmaEntry). record e { valid = false }) t

-- The removed entry is returned after its flag was cleared.
unfoldable pub remove : List VmaEntry → ℕ → Option VmaEntry × List VmaEntry
remove t addr = elim (find_base t addr 0) [
  | none ↦ (none, t)
  | some i ↦ let e = record (get_or t i empty) { valid = false } in (some e, set t i e)
]

abbrev pub holds : VmaEntry → ℕ → Bool
holds e vaddr = e.valid && leb e.base vaddr && ltb vaddr (end_of e)

unfoldable pub find : List VmaEntry → ℕ → Option VmaEntry
find [] vaddr = none
find (e ∷ es) vaddr = let later = find es vaddr in if holds e vaddr then some e else later

abbrev pub overlaps : VmaEntry → ℕ → ℕ → Bool
overlaps e addr end = e.valid && ltb addr (end_of e) && ltb e.base end

unfoldable pub update_prot : List VmaEntry → ℕ → ℕ → ℕ → Bool × List VmaEntry
update_prot [] addr len new_prot = (false, [])
update_prot (e ∷ es) addr len new_prot =
    let (found, es') = update_prot es addr len new_prot in
    if overlaps e addr (u64 (addr + len))
    then (true, record e { prot = new_prot } ∷ es')
    else (found, e ∷ es')

-- Whether the fault is served, and the page and its permission that paging is asked for.
unfoldable pub try_demand_page : List VmaEntry → ℕ → Option (ℕ × Bool)
try_demand_page t cr2 = elim (find t cr2) [
  | none ↦ none
  | some e ↦
      if e.lazy then some (bit_and cr2 (not64 4095), not (bit_and e.prot prot_write == 0)) else none
]
