-- ===== src/Lib.antt =====
-- liblitmus, the user-space library of the real-time operating system LITMUS^RT, and the programs
-- that come with it.
--
-- The library (src/) wraps system calls (syscalls.c), reads the files and the control page by which
-- the kernel talks to it (kernel_iface.c), finds out which CPUs form a scheduling domain and moves
-- threads there (migration.c), and on top of these opens locks, sets task parameters (litmus.c) and
-- switches threads between background and real-time mode (task.c). The programs (bin/) call the
-- library.
--
-- Code acts on the world by calls only. A kernel is a parameter: a record of functions that answer
-- a call, given all the calls before it (Kernel/Calls). Code is a function from the state of a
-- thread - the calls made so far, what ctrl_page points at, the flag of the control page, errno - to
-- an outcome and a state; an outcome is a value, an exit, or a fault, as by an access through a bad
-- pointer (Kernel/Monad). Results that C stores through pointer arguments are returned beside the
-- result proper.
--
-- The files:
--   Base           numbers, lists, bits of a number, C's integers as ℤ, bytes and C strings
--   Kernel         calls, kernels, the state of a thread; Kernel/Descriptors has the open files
--   Syscalls       src/syscalls.c, and the wrappers open_fmlp_sem .. open_dflp_sem of
--                  include/litmus.h
--   KernelIface    src/kernel_iface.c: Files has map_file and read_file, Stats has
--                  read_litmus_stats, ControlPage the control page and enter_np and exit_np;
--                  Reading, Content, Decimal, StatsRound and NonPreempt prove theorems on them
--   Migration      src/migration.c: CpuSet has the CPU_ macros that it uses, Mask has read_mapping,
--                  Domains the public functions; HexText, MaskText, Lookup, AnyText, Errors
--                  and Affinity have theorems
--   Litmus         src/litmus.c, src/task.c and lt_sleep of src/clocks.c: Locks, Params, Sporadic
--                  and Mode; LockNames, ModeLaws, ModeMachine and Setup have theorems
--   Lifecycle      an abstract specification of a real-time task, as a state machine over its
--                  system calls (Phase), and what keeps to it (Quiet, Library, Returning, Runs,
--                  Switch)
--   Finishing      what it takes for code to end without a fault, one rule for each way to build
--                  code; Finishing/Library has the library's functions
--   Tools          bin/common.c (Common), bin/rt_launch.c (Launch; LaunchLaws with Params,
--                  LaunchPhases with LaunchQuiet, LaunchSafe, LaunchExec), bin/rtspin.c
--                  (ExecTimes, Spin, SpinMain; ExecTimesLaws, SpinTime, SpinLife with SpinQuiet,
--                  SpinPhases and SpinRun, SpinTotal and SpinFile with SpinEnds and SpinFinish,
--                  SpinDone with SpinSteady and SpinReturns), bin/release_ts.c (Release; ReleaseLaws),
--                  bin/base_task.c and bin/base_mt_task.c (BaseTask; BaseTaskLaws, ThreadsLaws),
--                  bin/null_call.c and bin/cycles.c (NullCall; NullCallLaws), get_cycles of
--                  arch/*/include/asm/cycles.h (Cycles; CycleLaws), cputime and wctime of
--                  src/clocks.c (Clocks)
--   TestRunner     tests/runner.c and the macro SYSCALL of include/tests.h; Counts and Verdict have
--                  theorems
--   KernelTests    the macros of include/tests.h, tests/nesting.c (Nesting), tests/locks.c (LockCases,
--                  ForkCases), tests/fdso.c (ObjectCases) and tests/core_api.c (ParamCases);
--                  Discipline specifies locks that are held one inside the other, Judging has the
--                  rules for test code, and Starting, NestingLaws, NestingRuns, NestingVerdicts,
--                  RunnerLaws, LockLaws, TeardownLaws and RefusalLaws what the tests find out about
--                  a kernel
--   Uncache        bin/uncache.c: Timespec and Data; TimespecLaws, DataLaws and MaxAlloc
--   Tests          runs on concrete kernels, and an instance of each result
--
-- Bounds. Loops that the source does not bound are run on fuel, and are a fault without it:
-- read_loop gets one round more than the bytes it may read, and every round but the last reads a
-- byte; read_chunks gets one round more than the text has bytes, and a round moves left by nine;
-- skip_comments and count_jobs get a round for each byte, and a round consumes one; while_above and
-- while_below get a round for each whole second in the nanoseconds and one or two more; the loop
-- of do_max_alloc gets 65, since a size that is doubled 64 times is 0 and mmap refuses it. Loops
-- that wait for time to pass, or that never end, take the number of rounds as an argument.
-- unsigned long has 64 bits, int has 32; integers are written with their wrap-around where the
-- source lets them wrap, and int values that do not overflow are elements of ℤ.
--
-- Not modelled: what is printed, but for show_rt_param and the measurements of bin/null_call.c and
-- bin/cycles.c; failures of malloc; tests/pcp.c and tests/sched.c, which are about processes that
-- run at the same time and how long they take; of tests/core_api.c the test with invalid pointers,
-- the one that writes into the control page behind its fields, and the two with a pipe; cli and sti
-- of arch/x86/include/asm/irq.h. What the inline assembly of arch/ reads, the catalogue that
-- tests/make_catalog.py generates, values of double, the conversions of fscanf and what getopt does
-- to the command line are parameters. The constants and the priority test of the kernel's header
-- litmus/rt_param.h are parameters (Header).
pub mod Base
pub mod Kernel
pub mod Syscalls
pub mod KernelIface
pub mod Migration
pub mod Litmus
pub mod Lifecycle
pub mod Finishing
pub mod TestRunner
pub mod KernelTests
pub mod Uncache
pub mod Tools
mod Tests
