-- ===== src/Lib.antt =====
-- A model of the exercise programs for Linux on RISC-V with 32 bits: the kernel modules under
-- modules/ and the user programs under C/.
--
-- Kernel, libc and processor are not in the repository. What the programs use of them is a
-- parameter: `Kernel` has the copies between user and kernel memory and the seek, with their
-- documented laws; `Calls` has programs as sequences of calls, whose answers come from an oracle
-- that may depend on all calls before, so that a theorem about every oracle covers every failure.
-- A trace of calls is settled into the resources that are held after it. Counters and clocks are
-- functions from the number of a read to its value.
--
-- Parts and files:
--   modules/chardev.c: Chardev (the file operations), Chardev/Invariant (histories),
--     Chardev/Content and Chardev/RoundTrip (the bytes of the file), Chardev/File (the abstract
--     file: what it allows a call to answer and to do), Chardev/Bytes and Chardev/Refinement (the
--     driver does what it allows),
--     Chardev/Lifecycle (loading and unloading); modules/chardev_user.c: Chardev/UserTest and
--     Chardev/Timing (its two tests), Chardev/Main (both over an opened and mapped device);
--   modules/mychardev.c: Mychardev; modules/sysfs.c, modules/irqnet.c, modules/vint_net.c: Irq;
--   modules/virt-int.c: Gpio/Virt, Gpio/Virt/Count (the file that shows the count) and
--     Gpio/Virt/Lifecycle; modules/gpio-sim-int.c and modules/gpio-sim-demo.c: Gpio/Sim;
--     modules/hrtimer.c: Hrtimer;
--   C/rdtime.h and its copies: Counter; C/read_counter.h: Frequency and Frequency/X86;
--     C/shared_lock.h: Clock; C/timer_accuracy.c, C/timer_acculacy.c and C/cpu_hog.c: Intervals;
--   C/posix_shm.h, C/posix_shm_init.c, C/posix_shm_worker.c, C/posix_shm_cleanup.c: PosixShm
--     (workers that interleave), PosixShm/Progress, PosixShm/Setup (the programs one after the
--     other) and PosixShm/Sequential (which is one of the schedules); C/shm.c: SysvShm (processes
--     that interleave), SysvShm/Recovery (processes that die) and SysvShm/Main (the calls of one
--     process); PosixShm and SysvShm stand on Mutex, where a semaphore guards a family of
--     processes;
--   C/logger.c and C/health.c: Logging, with Logging/Exclusion, Logging/Progress with its child
--     LoggerTurn, Logging/Commands, Logging/Startup (how each comes to its semaphore),
--     Logging/Setup (the calls up to the loops), Logging/Atomic and Logging/Atomic/Simulation (a
--     system whose critical sections are single steps, and that both do what it allows);
--     C/pi_sem.h: PiSem, with PiSem/Once;
--   C/epoll_server.c, which feeds the payment, logger and health processes: Epoll, with
--     Epoll/Descriptors and Epoll/Setup;
--   C/server_tcp.c, C/server_unix.c: Server, Server/Setup, Server/Reap, and Buffer for the arrays
--     that texts are read into;
--   C/payment.c: Payment, and Payment/Orders with the server; C/select.c and C/select_urandom.c:
--     Select, with Select/Text and Select/Closing; C/select_simple.c: Select/Simple;
--   C/mem_ex1.c to C/mem_ex4.c, which store machine code and call it: MachineCode and
--     MachineCode/Results;
--   C/pipe2.c: Pipe; C/pipe.c, C/named_pipe.c, C/mqueue.c, C/unix_socket.c, C/unix_socket_cl.c and
--     C/poll.c: Messages; the first three as pairs of processes: Channels, with its children
--     Invariant and Delivery; the socket and its client: UnixSocket, with Connection, Exchange and
--     Ends;
--   C/sched_rr.c, C/rtsample.c, C/sched_fifo.c: Scheduling, with Invariant, Output and Progress;
--   C/set_time.c, C/timer_test.c: SteppedClock, with SteppedClock/Sleep; C/itimer.c, C/itimer_signal.c, C/posix_timer.c,
--     C/posix_timer2.c, C/timer_thread.c: Timers;
--   C/zeroacc.c, C/testlow.c: AddressSpace (the memory of a process) and AddressSpace/Pages;
--     C/user_read.c, C/user_mmap.c, C/mmap_zero.c, C/sbrk.c: AddressSpace/Examples;
--     C/mmap_fixed.c: AddressSpace/Fixed;
--   C/urandom.c, C/sys_readwrite.c, C/exectest.c: SystemCalls;
--   C/mmap_write.c and C/zero_mmap.c: Mapping; C/perf_mmap.c: PerfMmap;
--   C/access_time.c: AccessTime; C/array.c: ArraySum; C/sysfs_led.c: SysfsLed.
-- Prelude has the shared notation and lemmas; the modules named Tests run the models on concrete
-- inputs, with the kernel of Kernel/Memory.
--
-- Concurrent programs are step relations: one step is one call or one access that another process
-- can observe, and a schedule is any sequence of steps. Loops without a bound take fuel: the reads
-- of the time counter need as many rounds as its high half changes and one more, the waits need
-- the number of the reading that ends them, and the timer needs its ten expiries. Conversions and
-- products that can wrap are written out (`Clock.to_long`, `Frequency.calibrate`,
-- `PerfMmap.cycles`); counters of events are numbers without a bound, since they would have to
-- pass 2 ^ 31 to wrap.
--
-- Not modelled: log messages and prints, the options and addresses of sockets and mappings, the
-- examples of single system calls, of addresses and of loops without an end, the draft
-- C/shmposix.c, which cannot be compiled, the ARM branches of C/read_counter.h, which read one
-- register, the build files, and the configuration.
mod Prelude
pub mod Kernel
pub mod Calls
pub mod Chardev
pub mod Mychardev
pub mod Intervals
pub mod Irq
pub mod Gpio
pub mod Hrtimer
pub mod Counter
pub mod Clock
pub mod Frequency
pub mod MachineCode
pub mod Messages
pub mod Mutex
pub mod PosixShm
pub mod SysvShm
pub mod Buffer
pub mod Logging
pub mod Mapping
pub mod Epoll
pub mod Server
pub mod AccessTime
pub mod ArraySum
pub mod SysfsLed
pub mod Scheduling
pub mod Timers
pub mod SystemCalls
pub mod Channels
pub mod UnixSocket
pub mod AddressSpace
pub mod SteppedClock
pub mod Select
pub mod Payment
pub mod PerfMmap
pub mod PiSem
pub mod Pipe
