-- ===== src/Syscall/Pipe/Transfer.antt =====
-- Reading and writing the pipe of syscall/pipe.rs, as a bounded queue of bytes.
use chod_os.Base.{
  ℕ, zero, suc, ◌+◌, ◌-◌, ◌^◌, ◌<◌, ◌≡◌, refl, sym, ap, ◌∙◌, inl, inr, ◌⊎◌, ℕ_discrete, false, none,
  some, List, [], ◌∷◌, ◌++◌, arith, ◌==◌, length, length-append, take, take-nil, take-zero,
  take-cons, drop, min,
}
use mathlib.Core.List.{append-nil, append_assoc}
use chod_os.Base.Words.{u32}
use chod_os.Ring.{Ring}
use chod_os.Ring.View.{IsValid, contents, length-contents, push_lem, pop_lem, empty_lem}
use chod_os.Syscall.Errno.{val, efault}
use chod_os.Syscall.Pipe.{
  Pipe, pipe_cap, read_loop, write_loop, pipe_read, pipe_write, sys_pipe, is_read_fd, is_write_fd,
}

-- How many more bytes the ring takes.
abbrev pub free_space : Ring → ℕ
free_space r = pipe_cap - 1 - length (contents pipe_cap r)

-- What the loop of `pipe_write` has done.
record Wrote (r : Ring) (src : List ℕ) (n : ℕ) (out : ℕ × Ring) : Type 0 where
  valid : IsValid pipe_cap out.1
  number : out.0 ≡ n + min (length src) (free_space r)
  stored : contents pipe_cap out.1 ≡ contents pipe_cap r ++ take (out.0 - n) src

write_loop-Wrote :
    (src : List ℕ) (n : ℕ) (r : Ring) → IsValid pipe_cap r → Wrote r src n (write_loop src n r)
unfolding write_loop
write_loop-Wrote [] n r v = record {
  valid = v;
  number = omega arith;
  stored = rw (take-nil ℕ (n - n), append-nil);
}
write_loop-Wrote (x ∷ src) n r v = elim (push_lem pipe_cap r x v) [
  | inl (e, full) ↦
      rw (e, write_loop)
        (record {
          valid = v;
          number = omega (arith, length-contents pipe_cap r);
          stored = rw (take-zero (x ∷ src) (n - n) (omega arith), append-nil);
        })
  | inr (r', e, room, p) ↦
      rw (e, write_loop)
        (let w = write_loop-Wrote src (n + 1) r' p.valid in
          let wrote = (write_loop src (n + 1) r').0 in
          let one_less : free_space r' ≡ free_space r - 1 =
            omega (arith, ap length p.stored, length-append (contents pipe_cap r) (x ∷ [])) in
          record {
            valid = w.valid;
            number = omega (arith, w.number, one_less, length-contents pipe_cap r);
            stored =
                w.stored
                ∙ ap (λ ys. ys ++ take (wrote - (n + 1)) src) p.stored
                ∙ append_assoc (contents pipe_cap r) (x ∷ []) (take (wrote - (n + 1)) src)
                ∙ ap (λ ys. contents pipe_cap r ++ ys)
                    (sym (
                      take-cons (wrote - n) x src (omega (arith, w.number))
                      ∙ ap (λ k. x ∷ take k src) {x = wrote - n - 1} {y = wrote - (n + 1)}
                          (omega arith)));
          })
]

-- What the loop of `pipe_read` has done.
record Read (r : Ring) (count : ℕ) (out : List ℕ × Ring) : Type 0 where
  valid : IsValid pipe_cap out.1
  bytes : out.0 ≡ take count (contents pipe_cap r)
  rest : contents pipe_cap out.1 ≡ drop count (contents pipe_cap r)

read_loop-Read : (count : ℕ) (r : Ring) → IsValid pipe_cap r → Read r count (read_loop count r)
unfolding read_loop
read_loop-Read zero r v = record { valid = v; bytes = refl; rest = refl }
read_loop-Read (suc left) r v = elim (pop_lem pipe_cap r v) [
  | inl (e, empty) ↦
      rw (e, read_loop) (record { valid = v; bytes = rw empty; rest = empty ∙ rw empty })
  | inr (x, r', e, p) ↦
      let w = read_loop-Read left r' p.valid in
      rw (e, read_loop)
        (record {
          valid = w.valid;
          bytes = rw p.taken (ap (λ ys. x ∷ ys) w.bytes);
          rest = rw p.taken w.rest;
        })
]

-- A write to a valid pipe takes as many bytes as there is room for, returns their number, and puts
-- those bytes, in order, behind what is stored; the file numbers stay. No more than 4095 fit.
pub pipe_write_lem :
    (p : Pipe) (src : List ℕ)
    → IsValid pipe_cap p.ring
    → let (n, p') = pipe_write p src in
      IsValid pipe_cap p'.ring
      × (n ≡ min (length src) (pipe_cap - 1 - length (contents pipe_cap p.ring)))
      × (contents pipe_cap p'.ring ≡ contents pipe_cap p.ring ++ take n src)
      × (p'.read_fd ≡ p.read_fd)
      × (p'.write_fd ≡ p.write_fd)
unfolding pipe_write
pipe_write_lem p src v =
    let w = write_loop-Wrote src 0 p.ring v in
    (
      w.valid,
      omega (arith, w.number),
      w.stored ∙ ap (λ k. contents pipe_cap p.ring ++ take k src) (omega arith),
      refl,
      refl,
    )

-- A read of a valid pipe returns the oldest bytes, as many as asked for or stored, and leaves the
-- others in their order; the file numbers stay.
pub pipe_read_lem :
    (p : Pipe) (count : ℕ)
    → IsValid pipe_cap p.ring
    → let (bytes, p') = pipe_read p count in
      IsValid pipe_cap p'.ring
      × (bytes ≡ take count (contents pipe_cap p.ring))
      × (contents pipe_cap p'.ring ≡ drop count (contents pipe_cap p.ring))
      × (p'.read_fd ≡ p.read_fd)
      × (p'.write_fd ≡ p.write_fd)
unfolding pipe_read
pipe_read_lem p count v =
    let w = read_loop-Read count p.ring v in (w.valid, w.bytes, w.rest, refl, refl)

take-append-drop : (n : ℕ) (xs : List ℕ) → take n xs ++ drop n xs ≡ xs
take-append-drop zero xs = refl
take-append-drop (suc n) [] = refl
take-append-drop (suc n) (x ∷ xs) = ap (λ ys. x ∷ ys) (take-append-drop n xs)

-- One call of a client of the pipe.
pub data Call : Type 0 where
  reads : ℕ → Call
  writes : List ℕ → Call

-- The bytes that the readers of a history receive, the bytes that the pipe accepts from its writers,
-- and the pipe at the end.
abbrev pub step : Pipe → Call → List ℕ × List ℕ × Pipe
step p (reads count) = let (bytes, p') = pipe_read p count in (bytes, [], p')
step p (writes src) = let (n, p') = pipe_write p src in ([], take n src, p')

pub run : Pipe → List Call → List ℕ × List ℕ × Pipe
run p [] = ([], [], p)
run p (c ∷ cs) =
    let (received, accepted, p') = step p c in
    let (received', accepted', p'') = run p' cs in
    (received ++ received', accepted ++ accepted', p'')

step_keeps :
    (p : Pipe) (c : Call)
    → IsValid pipe_cap p.ring
    → let (received, accepted, p') = step p c in
      IsValid pipe_cap p'.ring
      × (contents pipe_cap p.ring ++ accepted ≡ received ++ contents pipe_cap p'.ring)
step_keeps p (reads count) v =
    let (v', bytes, rest, _, _) = pipe_read_lem p count v in
    (v', rw (append-nil, bytes, rest) (sym (take-append-drop count (contents pipe_cap p.ring))))
step_keeps p (writes src) v = let (v', n, stored, _, _) = pipe_write_lem p src v in (v', sym stored)

-- Over any history of reads and writes of a valid pipe no byte is lost, made up or overtaken: what
-- was stored followed by what was accepted is what was received followed by what is stored now.
pub run-fifo :
    (p : Pipe) (cs : List Call)
    → IsValid pipe_cap p.ring
    → let (received, accepted, p') = run p cs in
      contents pipe_cap p.ring ++ accepted ≡ received ++ contents pipe_cap p'.ring
unfolding run
run-fifo p [] v = append-nil (contents pipe_cap p.ring)
run-fifo p (c ∷ cs) v =
    let (received, accepted, p') = step p c in
    let (received', accepted', p'') = run p' cs in
    let (v', one) = step_keeps p c v in
    sym (append_assoc (contents pipe_cap p.ring) accepted accepted')
    ∙ ap (λ ys. ys ++ accepted') one
    ∙ append_assoc received (contents pipe_cap p'.ring) accepted'
    ∙ ap (λ ys. received ++ ys) (run-fifo p' cs v')
    ∙ sym (append_assoc received received' (contents pipe_cap p''.ring))

-- A call of `sys_pipe` with an array, while file numbers are far from overflow, empties the pipe,
-- returns two new numbers one apart, and from then on these two are the only ones that are taken
-- for the pipe's ends. Without an array it fails and changes nothing.
pub sys_pipe_lem :
    (p : Pipe) (fds_vaddr : ℕ)
    → IsValid pipe_cap p.ring
    → p.next_fd + 2 < 2 ^ 31
    → let (res, fds, p') = sys_pipe p fds_vaddr in
      ((fds_vaddr ≡ 0) × (res ≡ efault) × (fds ≡ none) × (p' ≡ p))
      ⊎ ((res ≡ val 0)
          × (fds ≡ some (p.next_fd, p.next_fd + 1))
          × IsValid pipe_cap p'.ring
          × (contents pipe_cap p'.ring ≡ [])
          × ((fd : ℕ) → is_read_fd p' fd ≡ (fd == p.next_fd))
          × ((fd : ℕ) → is_write_fd p' fd ≡ (fd == p.next_fd + 1))
          × (p'.next_fd ≡ p.next_fd + 2))
unfolding sys_pipe is_read_fd is_write_fd
sys_pipe_lem p fds_vaddr v h = elim (ℕ_discrete fds_vaddr 0) [
  | yes e ↦ inl (e, ground arith, ground arith, ground arith)
  | no ne ↦
      let test : (fds_vaddr == 0) ≡ false = ground arith in
      let fits : u32 (p.next_fd + 1) ≡ p.next_fd + 1 = omega arith in
      let (v', none_left) =
        empty_lem pipe_cap (record p.ring { head = 0; tail = 0 }) (omega arith) v.sized refl refl in
      rw test
        (inr (refl, rw fits, v', none_left, λ fd. ground arith, λ fd. ground arith, omega arith))
]
