-- ===== src/RwLock.antt =====
-- `pthread_rwlock_t`, which each account of include/bank.h carries. A call that would block is
-- `none`. A reader gets in whenever no writer holds the lock, as glibc's default kind has it.
use cmsc125_lab3_sabandal_sa.Common.{
  ℕ, ◌+◌, ◌-◌, Bool, true, false, ◌||◌, Option, none, some, ltb, if◌then◌else◌,
}

pub record RwLock : Type 0 where
  pub writer : Bool
  pub readers : ℕ

-- `pthread_rwlock_init`
abbrev pub open_lock : RwLock
open_lock = record { writer = false; readers = 0 }

abbrev pub write_lock : RwLock → Option RwLock
write_lock l = if l.writer || ltb 0 l.readers then none else some (record l { writer = true })

abbrev pub read_lock : RwLock → Option RwLock
read_lock l = if l.writer then none else some (record l { readers = l.readers + 1 })

-- One call releases either kind of hold.
abbrev pub release : RwLock → RwLock
release l = if l.writer then record l { writer = false } else record l { readers = l.readers - 1 }
