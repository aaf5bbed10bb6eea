-- ===== src/Lib.antt =====
-- chodOS: a hobby microkernel for x86-64 in Rust. This library models the parts of the kernel that
-- keep state of their own and decide something, and proves what they promise.
--
-- The parts, and the file of the library for each part of the repository:
--   * Memory/Frame.antt is kernel/src/memory/frame.rs, the bitmap of physical frames. A word of the
--     bitmap is a number below 2^64; set_free, set_used, is_free, init, alloc_frame,
--     alloc_contiguous and free_frame keep the names of the code. The scan of alloc_contiguous runs
--     max_frames rounds, one per frame, as the loop of the code does; trailing_zeros looks at the 64
--     digits of a word.
--   * Paging.antt is kernel/src/paging/mod.rs without ELF loading and copies of address spaces:
--     virt_to_phys, map_4k, munmap_pages, set_page_prot, demand_alloc_page and the frames of channels,
--     over a memory with a byte at each physical address. Paging/Space.antt has alloc_user_pml4 and
--     mmap_map, Paging/Walk.antt translation as one recursion, and Paging/Tree.antt the shape of the
--     tables, in which no table stands at two places.
--   * Process/Handle.antt is kernel/src/process/handle.rs, rights and handle tables; Process/Pcb.antt
--     is kernel/src/process/mod.rs, the control blocks; Process/Scheduler.antt and
--     Process/Switching.antt are kernel/src/process/scheduler.rs, the first the operations on the
--     table and the second the context switch in both modes. Process/Vma.antt is
--     kernel/src/process/vma.rs, the table of mapped regions.
--   * Process/Shared.antt is kernel/src/process/ipc_cap.rs, the shared buffers and the doorbells,
--     Process/Channels.antt is kernel/src/process/ipc_fast.rs, the registry of fast channels, and
--     Process/Ipc.antt is kernel/src/process/ipc.rs with send_cap and recv_cap of ipc_cap.rs.
--   * Policy/Evictions.antt and Policy/Pairs.antt are the parts of kernel/src/policy/mod.rs that keep
--     the pairs of processes which lost their fast channel (in_evict_cooldown, record_eviction and
--     expire_evictions), and those that exchange messages (observe_ipc).
--   * Signal.antt and Signal/Calls.antt are kernel/src/signal.rs, and syscall_dispatch of
--     kernel/src/interrupts/handlers.rs; Process/Userproc.antt has the entry of a user process of
--     kernel/src/process/userproc.rs, which signals are part of.
--   * Vfs.antt is kernel/src/vfs/mod.rs up to rename, Vfs/Attributes.antt and Vfs/Overlay.antt are the
--     rest of it, Vfs/Tmpfs.antt is kernel/src/vfs/tmpfs.rs, and Vfs/Path.antt has what both do with
--     strings. A node is a place in a list of nodes, which names lead to as an Arc does.
--   * Syscall/Fd.antt is kernel/src/syscall/fd.rs, open files and their numbers.
--   * Input/Keyboard.antt is kernel/src/kbd.rs, Input/Events.antt is kernel/src/input_direct.rs.
--   * Syscall/Pipe.antt, Syscall/Select.antt and Syscall/Epoll.antt are kernel/src/syscall/pipe.rs;
--     Syscall/Errno.antt has the error numbers of kernel/src/syscall/mod.rs.
--   * Net/ is kernel/src/net/: Checksum, Arp, Ipv4, Icmp and Udp for the files of these names, and
--     Stack for mod.rs, with the size of the receive buffers of
--     kernel/src/virtio/net.rs.
--   * Ring.antt is the ring that pipe.rs, kbd.rs and input_direct.rs each keep; Base.antt has what all
--     parts share: lists with native indices, Boolean tests, machine words and binary digits.
--
-- How they interact: the keyboard interrupt turns scancodes into characters in the keyboard's ring
-- and events in the direct ring; select and epoll look at that ring and at the pipe. The scheduler
-- keeps the control blocks, each with its handle table and its queue of messages, and tells the
-- policy engine, which is a list of calls here, whenever a process comes, goes, sends or is
-- switched. A message goes over a fast channel where the pair has one, which the receiver polls
-- before it looks at its queue, and else by the queue. A page fault asks the table of regions, and
-- paging maps a new frame for the page. A file number is a handle of a handle table, whose
-- capability names an open file, which names a node of the file tree. After each system call the
-- pending signals of the process that made it are looked at.
--
-- How state and loops are modelled: a static of the code is a field of the record of its part, and
-- an operation returns the new record beside its result. A loop over an array is a recursion on the
-- number of rounds left, which is the length of the array, or on a list. A loop that waits for an
-- interrupt gets the list of what each round meets, and answers nothing where the list ends first.
-- The loop over the carries of a checksum is run twice, enough for a sum of 32 bits. A sender that
-- waits for a doorbell is answered `spins`. Memory that is shared is physical, and where a virtual
-- address leads is a parameter there, which Paging/Channel.antt gives for a fast channel. What user
-- code passes by address is a list of bytes or the words read from it. Machine words are native
-- numbers, with % 2^w written where the code can wrap around, and a signed word is given as its
-- unsigned one.
--
-- Not modelled: what is written in assembly or talks to a device (interrupts, smp, serial, fb,
-- virtio but for the size of its receive buffers), start-up, demonstrations and benchmarks, text
-- for the log. Copies of address spaces, ext4, /proc and /dev, ELF loading, fork and exec, the rest
-- of the policy engine and the dispatch of system calls are not modelled either: where a modelled
-- part asks one of them, its answer is a parameter.
pub mod Base
pub mod Input
pub mod Memory
pub mod Net
pub mod Paging
pub mod Policy
pub mod Process
pub mod Ring
pub mod Signal
pub mod Syscall
pub mod Vfs
