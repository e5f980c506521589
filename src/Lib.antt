-- ===== src/Lib.antt =====
-- A model of BankDB, a bank simulator in C that executes each transaction of a trace in a thread of
-- its own, against accounts under reader-writer locks and a buffer pool of five slots, while a timer
-- thread advances a clock. `main` loads accounts and transactions, starts the threads, joins them,
-- and reports; a report checks that no money was made or lost.
--
-- The parts, and the files of bankdb/ that they model:
--   Bank             include/bank.h, src/core/bank.c: the accounts, `init_bank`, `add_account`,
--                    `get_account`; Bank/Money has `deposit`, `withdraw`, `transfer`, `get_balance`
--   LockMgr, RwLock  src/concurrency/lock_mgr.c, and the POSIX reader-writer lock it uses
--   BufferPool       src/concurrency/buffer_pool.c: the critical sections of `load_account` and
--                    `unload_account`; BufferPool/Calls has their mutex and semaphore calls
--   Timer            src/core/timer.c
--   Transaction      src/core/transaction.c: the helpers of the parser; Transaction/Execute has
--                    `execute_transaction`, the code of a thread
--   Machine          the memory that threads share, the atomic accesses to it, and a function's
--                    code as the sequence of its accesses; Machine/Exec runs it alone
--   Threads          the system of threads that src/main.c starts, and the schedules of their turns
--   Discipline, Pins what one thread does about locks, money and semaphores, and about pins
--   Metrics          src/system/metrics.c: what is reported in the end
--   Parser           src/system/parser.c and the functions of src/utils/utils.c on strings: the
--                    helpers on lines; Parser/Scan has the conversions of `sscanf`, Parser/Files
--                    the two input files, Parser/Decimal and Parser/Words the text of what they read
--   Flow             `compute_committed_external_flow` of src/main.c
--   Main             the command line of src/main.c; Main/Program has `main`
--   Serial           no part of the program, but what a transaction promises when it runs alone: a
--                    fold over its operations on a ledger of balances
--   Common, CInt     lists, integers, sums over threads; C's `int` and `long`, which wrap around
--   Tests            a bank of two accounts and two threads, to which the theorems are applied
--
-- Code that threads run is a value of `Machine.Prog`: a result, or an access to the shared memory
-- and what to do with the reply. A schedule is any list of turns; in a turn one thread makes its
-- next access, or the timer makes a round. A thread whose access has to wait (for a lock, the mutex,
-- a semaphore or the clock) changes nothing in its turn. So a schedule is any interleaving, and a
-- theorem about every list of turns is one about every order that the threads can take.
--
-- The proofs about threads go in two steps. `Discipline` is a program logic for one thread: a claim
-- says which locks, semaphore units and money the thread owns, each access has a condition on it,
-- and `execute_transaction` is proved to keep to the conditions. `Threads` has the invariant that
-- ties the claims of all threads to the memory: each lock counts its claims, the accounts and the
-- purses of the threads hold a constant supply, and the semaphores account for the slots of the
-- pool. Every turn keeps it. `Pins` repeats both steps for the pins that a thread has on accounts in
-- the pool. `Serial` compares the code of a thread, run without a break, with the ledger.
--
-- How the source is read:
--   * A pointer to an account is the number of its slot, NULL is `none`. The pointers to the bank
--     and to the pool are addresses of globals, never NULL.
--   * No function that threads run writes an identifier or the number of accounts, so a thread's
--     `get_account` reads the bank as it was loaded. That these stay is a theorem of Threads/Frame.
--   * A critical section under `tick_lock` is one access. Under `pool_lock`, whose calls are accesses
--     of their own, what a section does to the slots is one access.
--   * A balance is loaded and stored by two accesses, so `balance_centavos += amount` can be
--     interrupted between them.
--   * `sem_trywait` fails with EAGAIN only. Creating a thread does not fail; the
--     handles that it gives are an argument of `main`. A read lock is granted whenever no writer
--     holds the lock, as the default kind of lock does.
--   * An `int` and a `long` wrap around in two's complement.
--   * Loops over arrays are recursions on the list or on the count; no fuel is used.
-- Not modelled: the opening of files (a function from names to lines is an argument of `main`), the
-- usage text and what the verbose flag prints, a `pthread_create` that fails, the destruction of
-- locks and semaphores at the end, debug messages, the layout of printed text (a printed balance is
-- recorded, and what a report prints is a value), and the length of a tick.
pub mod Common
pub mod CInt
pub mod RwLock
pub mod Bank
pub mod BufferPool
pub mod Machine
pub mod LockMgr
pub mod Timer
pub mod Transaction
pub mod Discipline
pub mod Threads
pub mod Parser
pub mod Metrics
pub mod Flow
pub mod Serial
pub mod Main
pub mod Pins
pub mod Tests
