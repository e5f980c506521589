-- ===== src/Threads/Startup.antt =====
-- From an accounts file to the start of the threads, as `main` of src/main.c goes.
use cmsc125_lab3_sabandal_sa.Common.{ℕ, ◌<◌, ◌≡◌, refl, true, some, List, [], pos}
use cmsc125_lab3_sabandal_sa.CInt.{int_half}
use cmsc125_lab3_sabandal_sa.Bank.{Bank, zeroed_bank, init_bank, init_account_locks}
use cmsc125_lab3_sabandal_sa.Bank.Loaded.{first-IsLoaded, init_account_locks-IsLoaded}
use cmsc125_lab3_sabandal_sa.BufferPool.{init_buffer_pool, zeroed_pool}
use cmsc125_lab3_sabandal_sa.Machine.{Shared}
use cmsc125_lab3_sabandal_sa.Parser.Files.{parse_accounts_file}
use cmsc125_lab3_sabandal_sa.Parser.Files.Accounts.{parse_accounts_file-IsLoaded}
use cmsc125_lab3_sabandal_sa.Transaction.{Transaction}
use cmsc125_lab3_sabandal_sa.Threads.Launch.{supply_of, IsReady}

-- The shared memory when `main` starts the threads.
abbrev pub started : Bank → Shared
started bank = record {
  bank = init_account_locks bank;
  pool = init_buffer_pool zeroed_pool;
  global_tick = pos 0;
  simulation_running = true;
  output = [];
}

-- What the theorems on threads ask for, `main` sees to. If the accounts file is read without error
-- into the bank that `init_bank` has set up, and its balances and all deposits of the `n`
-- transactions fit into an `int` together, then the memory in which `main` starts the threads is
-- ready.
pub started-IsReady :
    (lines : List (List ℕ)) (bank : Bank) (n : ℕ) (transactions : ℕ → Transaction)
    → parse_accounts_file lines (init_bank zeroed_bank) ≡ some bank
    → supply_of n transactions (started bank) < int_half
    → IsReady n transactions (started bank)
started-IsReady lines bank n transactions read small =
    let loaded =
      init_account_locks-IsLoaded bank
        (parse_accounts_file-IsLoaded lines (init_bank zeroed_bank) bank first-IsLoaded read) in
    record {
      valid = loaded.valid;
      nonneg = loaded.nonneg;
      blank = loaded.blank;
      unlocked = loaded.unlocked;
      empty_pool = refl;
      small = small;
    }
