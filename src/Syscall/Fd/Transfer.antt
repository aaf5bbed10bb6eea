-- ===== src/Syscall/Fd/Transfer.antt =====
-- Reading and writing of open files in syscall/fd.rs.
use chod_os.Base.{
  ℕ, ◌+◌, ◌-◌, ◌^◌, ◌≡◌, ◌<◌, refl, sym, ap, ◌∙◌, List, ◌++◌, arith, if◌then◌else◌, ltb, Bool-cases,
  inl, inr, dec_lt, length, get_or, take, drop, replicate, min, max, length-append, length-take,
  length-replicate, length-drop, take-min, drop-min, take-add, drop-drop, get_or-append_left,
  get_or-append_right, get_or-take, get_or-drop, get_or-outside, get_or-replicate, take-append,
  drop-append, take_all,
}
use native.Mathlib.Nat.{mod-eq_of_lt}
use chod_os.Base.Words.{u64}
use chod_os.Vfs.{Vfs}
use chod_os.Syscall.Fd.{FileResource, source, slice, read_resource, grow, overwrite}

-- The clipped count is not needed: what there is is taken.
pub slice-take :
    (bytes : List ℕ) (count pos : ℕ) → slice bytes count pos ≡ take count (drop pos bytes)
slice-take bytes count pos =
    ap (λ k. take (min count k) (drop pos bytes)) (sym (length-drop pos bytes))
    ∙ take-min count (drop pos bytes)

length-slice :
    (bytes : List ℕ) (count pos : ℕ)
    → length (slice bytes count pos) ≡ min count (length bytes - pos)
length-slice bytes count pos =
    omega
      (arith, length-take (min count (length bytes - pos)) (drop pos bytes), length-drop pos bytes)

slice-slice :
    (xs : List ℕ) (c1 c2 p : ℕ)
    → slice xs c1 p ++ slice xs c2 (p + length (slice xs c1 p)) ≡ slice xs (c1 + c2) p
slice-slice xs c1 c2 p =
    let ys : List ℕ = drop p xs in
    let next : drop (p + length (slice xs c1 p)) xs ≡ drop c1 ys =
      ap (λ k. drop (p + k) xs) {x = length (slice xs c1 p)} {y = min c1 (length ys)}
        (omega (arith, length-slice xs c1 p, length-drop p xs))
      ∙ sym (drop-drop p (min c1 (length ys)) xs)
      ∙ drop-min c1 ys in
    ap (λ zs. zs ++ slice xs c2 (p + length (slice xs c1 p))) (slice-take xs c1 p)
    ∙ ap (λ zs. take c1 ys ++ zs)
        (slice-take xs c2 (p + length (slice xs c1 p)) ∙ ap (λ zs. take c2 zs) next)
    ∙ sym (take-add c1 c2 ys)
    ∙ sym (slice-take xs (c1 + c2) p)

-- Two reads one after the other give what one read of both counts gives, and leave the position where
-- it leaves it: an open file is read as a stream. The position and the contents are below 2^64.
pub read_resource_twice :
    (fs : Vfs) (f : FileResource) (c1 c2 : ℕ)
    → f.pos < 2 ^ 64
    → length (source fs f) < 2 ^ 64
    → let (bytes1, f1) = read_resource fs f c1 in
      let (bytes2, f2) = read_resource fs f1 c2 in
      (bytes1 ++ bytes2 ≡ (read_resource fs f (c1 + c2)).0)
      × (f2.pos ≡ (read_resource fs f (c1 + c2)).1.pos)
unfolding read_resource source
read_resource_twice fs f c1 c2 inside fits =
    let xs = source fs f in
    let p1 : ℕ = f.pos + length (slice xs c1 f.pos) in
    let same : u64 p1 ≡ p1 = mod-eq_of_lt (omega (arith, inside, fits, length-slice xs c1 f.pos)) in
    let joined : slice xs c1 f.pos ++ slice xs c2 (u64 p1) ≡ slice xs (c1 + c2) f.pos =
      ap (λ k. slice xs c1 f.pos ++ slice xs c2 k) same ∙ slice-slice xs c1 c2 f.pos in
    (
      joined,
      omega
          (arith, same, length-append (slice xs c1 f.pos) (slice xs c2 (u64 p1)), ap length joined),
    )

length-grow : (xs : List ℕ) (n : ℕ) → length (grow xs n) ≡ max (length xs) n
unfolding grow
length-grow xs n = elim (dec_lt (length xs) n) [
  | yes short ↦ ground (
    arith,
    short,
    length-append (take n xs) (replicate (n - length xs) 0),
    length-take n xs,
    length-replicate {A = ℕ} (n - length xs) 0,
  )
  | no long ↦ ground (arith, long)
]

get_or-grow : (xs : List ℕ) (n i : ℕ) → get_or (grow xs n) i 0 ≡ get_or xs i 0
unfolding grow
get_or-grow xs n i = elim (Bool-cases (ltb (length xs) n)) [
  | inr long ↦ rw (long, grow) refl
  | inl short ↦
      let whole : take n xs ≡ xs = take_all n xs (ground (arith, short)) in
      rw (short, grow)
        (ap (λ ys. get_or (ys ++ replicate (n - length xs) 0) i 0) whole
          ∙ elim (dec_lt i (length xs)) [
            | yes h ↦ get_or-append_left xs (replicate (n - length xs) 0) i 0 h
            | no h ↦
                get_or-append_right xs (replicate (n - length xs) 0) i 0 (omega arith)
                ∙ get_or-replicate (n - length xs) 0 (i - length xs)
                ∙ sym (get_or-outside xs i 0 (omega arith))
          ])
]

-- What a write leaves: the contents are as long as it needs, and each byte is the one written there,
-- or the one that was there, or zero in a gap behind the old end.
pub overwrite_lem :
    (content : List ℕ) (pos : ℕ) (bytes : List ℕ) (i : ℕ)
    → pos + length bytes < 2 ^ 64
    → (length (overwrite content pos bytes) ≡ max (length content) (pos + length bytes))
      × (get_or (overwrite content pos bytes) i 0 ≡ (
          if ltb i pos
          then get_or content i 0
          else (if ltb i (pos + length bytes)
              then get_or bytes (i - pos) 0
              else get_or content i 0)))
      × (slice (overwrite content pos bytes) (length bytes) pos ≡ bytes)
overwrite_lem content pos bytes i fits = (
  omega (arith, len, length-append bytes rest, length-append front (bytes ++ rest)),
  place (dec_lt i pos) (dec_lt i (pos + length bytes)),
  slice-take (front ++ (bytes ++ rest)) (length bytes) pos
      ∙ ap (λ k. take (length bytes) (drop k (front ++ (bytes ++ rest)))) {x = pos}
          {y = length front} (omega (arith, len))
      ∙ ap (λ ys. take (length bytes) ys) (drop-append front (bytes ++ rest))
      ∙ take-append bytes rest,
)
  where
    grown : List ℕ
    grown = grow content (u64 (pos + length bytes))

    front : List ℕ
    front = take pos grown

    rest : List ℕ
    rest = drop (pos + length bytes) grown

    len :
        (length front ≡ pos)
        × (length grown ≡ max (length content) (pos + length bytes))
        × (length rest ≡ length grown - (pos + length bytes))
    len =
        let size : length grown ≡ max (length content) (pos + length bytes) =
          omega (arith, length-grow content (u64 (pos + length bytes)), fits) in
        (omega (arith, length-take pos grown, size), size, length-drop (pos + length bytes) grown)

    place :
        Dec (i < pos)
        → Dec (i < pos + length bytes)
        → get_or (front ++ (bytes ++ rest)) i 0 ≡ (
            if ltb i pos
            then get_or content i 0
            else (if ltb i (pos + length bytes)
                then get_or bytes (i - pos) 0
                else get_or content i 0))
    place (yes before) d = ground (
      arith,
      before,
      get_or-append_left front (bytes ++ rest) i 0 (omega (arith, len.0, before)),
      get_or-take pos grown i 0 before,
      get_or-grow content (u64 (pos + length bytes)) i,
    )
    place (no after) (yes inside) = ground (
      arith,
      after,
      inside,
      get_or-append_right front (bytes ++ rest) i 0 (omega (arith, len.0, after)),
      get_or-append_left bytes rest (i - length front) 0 (omega (arith, len.0, after, inside)),
      ap (λ k. get_or bytes (i - k) 0) len.0,
    )
    place (no after) (no behind) = ground (
      arith,
      after,
      behind,
      get_or-append_right front (bytes ++ rest) i 0 (omega (arith, len.0, after)),
      get_or-append_right bytes rest (i - length front) 0 (omega (arith, len.0, after, behind)),
      get_or-drop (pos + length bytes) grown (i - length front - length bytes) 0,
      get_or-grow content (u64 (pos + length bytes)) i,
      ap (λ k. get_or grown k 0) {x = pos + length bytes + (i - length front - length bytes)}
          {y = i} (omega (arith, len.0, after, behind)),
    )
