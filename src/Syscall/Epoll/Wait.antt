-- ===== src/Syscall/Epoll/Wait.antt =====
-- `epoll_wait` of syscall/pipe.rs against a list of what is ready.
use chod_os.Base.{
  ℕ, zero, suc, ◌+◌, ◌-◌, ◌≡◌, ◌≢◌, sym, ap, some, List, [], ◌∷◌, arith, if◌then◌else◌, ◌==◌, ltb,
  length, get_or, take, length-take, min, take-nil, take-zero, take-cons,
}
use chod_os.Syscall.Errno.{val}
use chod_os.Syscall.Pipe.{World}
use chod_os.Syscall.Epoll.{Epoll, ready_events, wait_pass, sys_epoll_wait}

-- The entries that have an event, in the order of the table.
pub all_ready : World → Epoll → ℕ → ℕ → List (ℕ × ℕ)
all_ready w e zero i = []
all_ready w e (suc left) i =
    let ready_ev = ready_events w (get_or e.fds i 0) (get_or e.evs i 0) in
    let rest = all_ready w e left (i + 1) in
    if ready_ev == 0 then rest else (ready_ev, get_or e.datas i 0) ∷ rest

wait_pass-take :
    (w : World) (e : Epoll) (max left i out : ℕ)
    → wait_pass w e max left i out ≡ take (max - out) (all_ready w e left i)
unfolding wait_pass all_ready
wait_pass-take w e max zero i out = sym (take-nil (ℕ × ℕ) (max - out))
wait_pass-take w e max (suc left) i out = ground (
  arith,
  wait_pass-take w e max left (i + 1) out,
  wait_pass-take w e max left (i + 1) (out + 1),
  take-zero (all_ready w e (suc left) i) (max - out),
  take-cons (max - out) (ready_events w (get_or e.fds i 0) (get_or e.evs i 0), get_or e.datas i 0)
      (all_ready w e left (i + 1)),
)

-- A call with room for events reports the entries that are ready when it first looks, in table order
-- and at most `maxevents` of them, with their number; where none is ready it returns 0 if the timeout is
-- 0. With any other timeout, a positive number of milliseconds too, it looks again when it is next woken
-- and goes on in the same way, without regard to the time that has passed.
pub sys_epoll_wait_lem :
    (w : World) (ws : List World) (e : Epoll) (ev_vaddr maxevents timeout : ℕ)
    → ev_vaddr ≢ 0
    → maxevents ≢ 0
    → let ready = all_ready w e e.cnt 0 in
      sys_epoll_wait (w ∷ ws) e ev_vaddr maxevents timeout ≡ (
        if ltb 0 (length ready)
        then some (val (min maxevents (length ready)), take maxevents ready)
        else (if timeout == 0
            then some (val 0, [])
            else sys_epoll_wait ws e ev_vaddr maxevents timeout))
unfolding sys_epoll_wait
sys_epoll_wait_lem w ws e ev_vaddr maxevents timeout p q = ground (
  arith,
  wait_pass-take w e maxevents e.cnt 0 0,
  length-take maxevents (all_ready w e e.cnt 0),
  ap (λ k. take k (all_ready w e e.cnt 0)) {x = maxevents - 0} {y = maxevents} (omega arith),
)
