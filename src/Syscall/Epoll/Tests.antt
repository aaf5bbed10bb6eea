-- ===== src/Syscall/Epoll/Tests.antt =====
-- Runs of the epoll table: file number 10 watched for input, number 1 for output.
use chod_os.Base.{
  ℕ, ◌≡◌, refl, false, none, some, [], ◌∷◌, replicate, length, if◌then◌else◌, ltb, arith, min, take,
}
use chod_os.Ring.{Ring}
use chod_os.Ring
use chod_os.Syscall.Errno.{val}
use chod_os.Syscall.Pipe.{World}
use chod_os.Syscall.Epoll.{
  Epoll, sys_epoll_create, sys_epoll_wait, wait_loop, wait_pass, ready_events, add_entry, find_fd,
}
use chod_os.Syscall.Epoll.Interest.{IsValid, interest}
use chod_os.Syscall.Epoll.Add.{add_entry-interest}
use chod_os.Syscall.Epoll.Remove.{sys_epoll_create-interest}
use chod_os.Syscall.Epoll.Wait.{all_ready, sys_epoll_wait_lem}

abbrev zeros : Epoll
zeros = record { fds = []; evs = replicate 16 0; datas = replicate 16 0; cnt = 3 }

abbrev created : Epoll
created = (sys_epoll_create zeros 0).1

abbrev two : Epoll
two = add_entry (add_entry created 10 1 77) 1 4 88

created-IsValid : IsValid created
created-IsValid = (sys_epoll_create-interest zeros 0 refl refl).0

two-IsValid : IsValid two
two-IsValid = (add_entry-interest _ 1 4 88 (add_entry-interest created 10 1 77 created-IsValid).0).0

abbrev quiet : World
quiet = record {
  has_key = false;
  pipe = record {
    ring = record { buf = 5 ∷ 6 ∷ []; head = 0; tail = 0 };
    read_fd = 10;
    write_fd = 11;
    next_fd = 12;
  };
}

abbrev loud : World
loud = record quiet {
  pipe = record (quiet.pipe) { ring = record { buf = 5 ∷ 6 ∷ []; head = 0; tail = 1 } };
}

wait-two : sys_epoll_wait (loud ∷ []) two 4096 8 0 ≡ some (val 2, (1, 77) ∷ (4, 88) ∷ [])
unfolding sys_epoll_wait wait_loop wait_pass ready_events add_entry find_fd sys_epoll_create
    Ring.has_data
wait-two = refl

sys_epoll_create-interest_example : IsValid created × ((g : ℕ) → interest created g ≡ none)
sys_epoll_create-interest_example = sys_epoll_create-interest zeros 0 refl refl

sys_epoll_wait_lem_example : sys_epoll_wait (quiet ∷ loud ∷ []) two 4096 8 5 ≡ (
    if ltb 0 (length (all_ready quiet two two.cnt 0))
    then some (
      val (min 8 (length (all_ready quiet two two.cnt 0))),
      take 8 (all_ready quiet two two.cnt 0),
    )
    else sys_epoll_wait (loud ∷ []) two 4096 8 5)
sys_epoll_wait_lem_example =
    sys_epoll_wait_lem quiet (loud ∷ []) two 4096 8 5 (omega arith) (omega arith)
