-- ===== src/Syscall/Epoll.antt =====
-- `epoll` of syscall/pipe.rs: the table of watched file numbers, three arrays and a count.
pub mod Interest
pub mod Add
pub mod Remove
pub mod Wait
pub mod Tests
use chod_os.Base.{
  ℕ, zero, suc, ◌+◌, ◌-◌, ◌^◌, ◌≤◌, ◌<◌, ◌≡◌, ◌≢◌, refl, ap, ◌∙◌, Bool, true, false, not, ◌&&◌,
  ◌||◌, Option, none, some, List, [], ◌∷◌, ◌++◌, arith, if◌then◌else◌, ◌==◌, leb, ltb, bit_and,
  bit_or, inl, inr, ◌⊎◌, Bool-cases, length, get_or, set, replicate, length-set, get_or-set_self,
  get_or-set_ne, ℕ_discrete, dec_lt, take,
}
use chod_os.Base.Words.{u32}
use chod_os.Syscall.Errno.{Result, val, efault, einval}
use chod_os.Syscall.Pipe.{World, is_read_ready, is_write_ready, no_fd}

abbrev pub epoll_max : ℕ
epoll_max = 16

abbrev pub epollin : ℕ
epollin = 1

abbrev pub epollout : ℕ
epollout = 4

pub record Epoll : Type 0 where
  pub fds : List ℕ
  pub evs : List ℕ
  pub datas : List ℕ
  pub cnt : ℕ

-- The first index from `i` on, among `left` of them, that watches `fd`.
pub find_fd : ℕ → ℕ → List ℕ → ℕ → Option ℕ
find_fd zero i fds fd = none
find_fd (suc left) i fds fd =
    let later = find_fd left (i + 1) fds fd in if get_or fds i 0 == fd then some i else later

-- `EP_FD[i].store(-1)` for every slot.
pub sys_epoll_create : Epoll → ℕ → Result × Epoll
sys_epoll_create e flags = (val 9, record e { fds = replicate epoll_max no_fd; cnt = 0 })

-- `fd as u64` of an i32 extends its sign.
pub sign_extend : ℕ → ℕ
sign_extend fd = if ltb fd (2 ^ 31) then fd else fd + 2 ^ 64 - 2 ^ 32

pub add_entry : Epoll → ℕ → ℕ → ℕ → Epoll
add_entry e fd events payload = elim (find_fd e.cnt 0 e.fds fd) [
  | some i ↦ record e { evs = set e.evs i events; datas = set e.datas i payload }
  | none ↦
      if ltb e.cnt epoll_max
      then record {
        fds = set e.fds e.cnt fd;
        evs = set e.evs e.cnt events;
        datas = set e.datas e.cnt payload;
        cnt = e.cnt + 1;
      }
      else e
]

-- The last entry moves into the place of the removed one.
pub move_last : Epoll → ℕ → ℕ → Epoll
move_last e i last =
    if ltb i last
    then record e {
      fds = set e.fds i (get_or e.fds last 0);
      evs = set e.evs i (get_or e.evs last 0);
      datas = set e.datas i (get_or e.datas last 0);
    }
    else e

pub remove_entry : Epoll → ℕ → Epoll
unfolding move_last
remove_entry e fd = elim (find_fd e.cnt 0 e.fds fd) [
  | none ↦ e
  | some i ↦
      let last = e.cnt - 1 in
      let moved = move_last e i last in
      record moved { fds = set moved.fds last no_fd; cnt = e.cnt - 1 }
]

-- `event` is what the user's event holds at its two offsets, `none` for a null pointer.
pub sys_epoll_ctl : Epoll → ℕ → ℕ → Option (ℕ × ℕ) → Result × Epoll
unfolding sign_extend add_entry remove_entry
sys_epoll_ctl e op fd64 event =
    let fd = u32 fd64 in
    let events : ℕ = elim event [ none ↦ epollin | some (ev, payload) ↦ ev ] in
    let payload : ℕ = elim event [ none ↦ sign_extend fd | some (ev, payload) ↦ payload ] in
    if (op == 1) || (op == 3)
    then (val 0, add_entry e fd events payload)
    else (if op == 2 then (val 0, remove_entry e fd) else (einval, e))

pub ready_events : World → ℕ → ℕ → ℕ
unfolding is_read_ready is_write_ready sign_extend
ready_events w fd ev =
    bit_or
      (if not (bit_and ev epollin == 0) && is_read_ready w (sign_extend fd) then epollin else 0)
      (if not (bit_and ev epollout == 0) && is_write_ready w (sign_extend fd) then epollout else 0)

-- One pass of `sys_epoll_wait` over the entries from `i` on, `out` of `max` events written: the
-- events and payloads that follow.
pub wait_pass : World → Epoll → ℕ → ℕ → ℕ → ℕ → List (ℕ × ℕ)
wait_pass w e max zero i out = []
wait_pass w e max (suc left) i out =
    let ready_ev = ready_events w (get_or e.fds i 0) (get_or e.evs i 0) in
    let skip = wait_pass w e max left (i + 1) out in
    let report = (ready_ev, get_or e.datas i 0) ∷ wait_pass w e max left (i + 1) (out + 1) in
    if leb max out then [] else (if not (ready_ev == 0) then report else skip)

pub wait_loop : List World → Epoll → ℕ → Bool → Option (List (ℕ × ℕ))
wait_loop [] e max blocking = none
wait_loop (w ∷ ws) e max blocking =
    let events = wait_pass w e max e.cnt 0 0 in
    let again = wait_loop ws e max blocking in
    if ltb 0 (length events) then some events else (if not blocking then some [] else again)

-- The result is the number of events, or an error with no event; `none` is a call that still waits.
pub sys_epoll_wait : List World → Epoll → ℕ → ℕ → ℕ → Option (Result × List (ℕ × ℕ))
unfolding wait_loop
sys_epoll_wait worlds e ev_vaddr maxevents timeout =
    let events = wait_loop worlds e maxevents (not (timeout == 0)) in
    if ev_vaddr == 0
    then some (efault, [])
    else (if maxevents == 0
        then some (einval, [])
        else elim events [ none ↦ none | some evs ↦ some (val (length evs), evs) ])
