-- ===== src/Lib.antt =====
-- A model of the kernel of OSC2026, a small operating system for 64-bit RISC-V, and what is proved
-- of it.
--
-- The parts and the files that model them:
-- - Links: the circular lists of kernel/include/list.h, over a store of prev and next pointers.
--   Links/Ring relates a list head to the sequence of its nodes; every other part uses the sequence.
-- - Buddy: the page allocator of kernel/src/buddy.c. The state is `frame_array`, the free lists and
--   the bounds of the region; the functions carry the names of the C functions, and each loop is a
--   function of its own (order_loop, fill, clean, fit_order, build_loop, first_nonempty, split_loop,
--   coalesce). Buddy/Inv states the invariant.
-- - Startup: the startup allocator in the second half of kernel/src/buddy.c, which hands out the
--   memory for the metadata and is replayed into the page allocator.
-- - Kmalloc: the chunk allocator of kernel/src/kmalloc.c, a client of the page allocator. A state of
--   it is a `Heap`, which holds the state of the page allocator.
-- - Task: the bottom-half queue of kernel/src/task.c. Nodes come from the heap; a callback, with the
--   interrupts taken while it runs, is a function on states that the theorems take as a parameter.
-- - Timer: the timer queue of kernel/src/timer.c, a client of the task queue. The time CSR and the
--   frequency in the device tree are arguments; `sbi_set_timer` sets the field `deadline`.
-- - Sched: threads and the scheduler of kernel/src/sched.c. Threads are named by their addresses;
--   `switch_to` changes `current`. `children` stands for the list of the siblings below a thread.
-- - Signal: the signals of kernel/src/signal.c over the state of the scheduler. The bitmap of pending
--   signals is a number, with its bits set, cleared and tested one shift at a time.
-- - Utils: strings and the printing of numbers, kernel/src/utils.c. Utils/Memory and Utils/Copy read
--   strings in memory, which is a function from addresses to bytes, and copy bytes.
-- - Uart: the rings and the interrupt handler of kernel/src/uart.c, a client of the task queue.
--   Uart/Console has the functions that wait, uart_getc, uart_putc and uart_puts; what the interrupt
--   handler and the other threads do in the meantime is a parameter.
-- - Process: system calls on processes of kernel/src/syscall.c, and the search by pid and the start
--   of a user process of kernel/src/sched.c, over Sched and Signal. What the archive holds under a
--   path is an argument; the other threads that run while `sys_waitpid` waits are a parameter.
--   Process/Io has the calls on the UART, over a console that is a parameter, and usleep with its
--   timer; Process/Read has the read over the console of Uart/Console; Process/Dispatch decodes a trap frame as `do_syscall` does.
-- - Trap: the dispatcher of kernel/src/trap.c. The top halves, the bottom halves and the system calls
--   are handlers that the theorems take as a parameter; Signal and Sched are the models above.
-- - Dtb: the device tree, kernel/src/dtb.c, over the bytes of a blob. One function reads a token, and
--   the three loops of the source are one walk with a step function each. Dtb/Tree has trees and
--   their tokens, and Dtb/Blob says when a blob holds a tree.
-- - Cpio: the archive of the initial ramdisk, kernel/src/cpio.c. Cpio/Archive has the sequence of
--   files of an archive.
-- - Shell: the line editor and the commands of kernel/src/shell.c, clients of Process, Signal, Timer
--   and Kmalloc.
-- - Loader: the command of the boot loader that receives the kernel over the UART, bootloader/src/shell.c,
--   with the polled uart_getc of bootloader/src/uart.c. The order in which a compiler makes the calls in
--   an expression is a parameter.
-- - Plic: the interrupt controller, kernel/src/plic.c, over its registers.
-- - Video: the copy of an image into the framebuffer, kernel/src/video.c, and its system call.
-- - Boot: steps 3 to 10 of `main` in kernel/src/main.c, which compose Dtb, Startup, Buddy and Kmalloc:
--   the memory map of the device tree, the regions registered, the arrays of metadata, and the replay
--   into the page allocator. Boot/Ready has the whole.
-- - Common: names of the library passed on, tests on numbers, lists, membership and signed integers.
-- - Tests: runs on small inputs, and an application of each result.
--
-- Numbers: `unsigned long` and `uintptr_t` are natural numbers, and what may wrap is taken modulo
-- 2 ^ 64 (`u64`). `int` values of frames, results and priorities are integers. A null pointer is 0.
-- Thread ids are natural numbers: 2 ^ 31 threads are never made.
--
-- Loops that count down or walk a list are structural recursion. Fuel is used for `order_loop`
-- (64 shifts of a 64-bit word), `build_loop` (one round for each page and one more),
-- `lowest_bit_from` (64 bits), and for `task_run_pending` and `timer_top_half`, whose callbacks may
-- prolong the loop: there running out is the result `none`, and the results say for which callbacks
-- one round for each element and one more are enough. The fuel of `dfs_find_pid` is more than the
-- depth of the process tree, and that of `wait_for` counts the times that the parent is woken.
-- A walk of a device tree takes a round for each token, so that a quarter of `size_dt_struct` and one
-- more is enough; a name is looked for in at most `limit` bytes. A walk of an archive takes a round for
-- each file and one more. The fuel of a wait in Uart/Console and Process/Io counts its rounds.
--
-- Interrupts: `sie_save_clear` and `sie_restore` are modelled where a callback runs between them
-- (Task). Everywhere else the flag is restored by the operation that clears it and left out.
--
-- Not modelled: the log output, the words of the signal trampoline, the set-up of the registers of the
-- UART and of the trap vector, the registration of the framebuffer at the firmware, the cache, the
-- assembly files, the order of the device initialisers in kernel/src/main.c, the shell's
-- demonstrations, its texts of help and info and its command load, in which the interrupt handler and
-- the command compete for the bytes received, and the other files of the boot loader, which are older
-- copies of the kernel's.
pub mod Common
pub mod Links
pub mod Loader
pub mod Buddy
pub mod Startup
pub mod Kmalloc
pub mod Task
pub mod Timer
pub mod Sched
pub mod Signal
pub mod Utils
pub mod Uart
pub mod Process
pub mod Dtb
pub mod Cpio
pub mod Shell
pub mod Trap
pub mod Plic
pub mod Video
pub mod Boot
pub mod Tests
