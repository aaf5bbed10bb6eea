-- ===== src/Syscall/Pipe/Tests.antt =====
-- Runs of the pipe, created with file numbers 10 and 11.
use chod_os.Base.{ℕ, ◌≡◌, refl, List, [], ◌∷◌, ◌++◌, replicate, length-replicate, arith}
use chod_os.Ring.{Ring}
use chod_os.Ring
use chod_os.Ring.View.{IsValid, contents}
use chod_os.Syscall.Pipe.{Pipe, pipe_cap, pipe_read, read_loop}
use chod_os.Syscall.Pipe.Transfer.{Call, reads, writes, run, run-fifo}

abbrev pipe : ℕ → ℕ → Pipe
pipe head tail = record {
  ring = record { buf = replicate 4096 65; head = head; tail = tail };
  read_fd = 10;
  write_fd = 11;
  next_fd = 12;
}

pipe-IsValid : IsValid pipe_cap (pipe 4095 1).ring
pipe-IsValid = record {
  sized = length-replicate {A = ℕ} 4096 65;
  head_in = omega arith;
  tail_in = omega arith;
}

reads_round_the_end : (pipe_read (pipe 4095 1) 9).0 ≡ 65 ∷ 65 ∷ []
unfolding pipe_read read_loop Ring.pop
reads_round_the_end = refl

abbrev history : List Call
history = writes (7 ∷ 8 ∷ []) ∷ reads 3 ∷ writes (9 ∷ []) ∷ reads 9 ∷ []

run-fifo_example :
    let (received, accepted, p') = run (pipe 4095 1) history in
    contents pipe_cap (pipe 4095 1).ring ++ accepted ≡ received ++ contents pipe_cap p'.ring
run-fifo_example = run-fifo (pipe 4095 1) history pipe-IsValid
