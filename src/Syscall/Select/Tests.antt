-- ===== src/Syscall/Select/Tests.antt =====
-- A run of `select` in which standard input is ready and asked for.
use chod_os.Base.{◌≡◌, true, false, none, some, [], ◌∷◌, if◌then◌else◌, ◌==◌}
use chod_os.Syscall.Errno.{val}
use chod_os.Syscall.Pipe.{World}
use chod_os.Syscall.Select.{Memory, is_blocking, sys_select, sys_select_reports_nothing}

abbrev key_waiting : World
key_waiting = record {
  has_key = true;
  pipe = record {
    ring = record { buf = []; head = 0; tail = 0 };
    read_fd = 10;
    write_fd = 11;
    next_fd = 12;
  };
}

-- Bit 0 of the read set at 4096.
abbrev asks_for_input : Memory
asks_for_input a = if a == 4096 then 1 else 0

sys_select_reports_nothing_example :
    (is_blocking asks_for_input 8192 ≡ false
      → (mem' : Memory) × (sys_select (key_waiting ∷ []) 1 4096 0 0 8192 asks_for_input
          ≡ some (val 0, mem')))
    × (is_blocking asks_for_input 8192 ≡ true
        → sys_select (key_waiting ∷ []) 1 4096 0 0 8192 asks_for_input ≡ none)
sys_select_reports_nothing_example =
    sys_select_reports_nothing key_waiting [] 1 4096 0 0 8192 asks_for_input
