-- ===== src/BufferPool.antt =====
-- include/buffer_pool.h, and the critical sections of src/concurrency/buffer_pool.c: what each
-- function does to the slots and the counters while it holds `pool_lock`. The calls around them
-- (the mutex, the semaphores) stand in `Machine` and `BufferPool/Calls`.
pub mod Calls
use cmsc125_lab3_sabandal_sa.Common.{
  ℕ, Bool, true, false, not, ◌&&◌, Option, none, some, List, [], ◌∷◌, ℤ, pos, negsuc, ltb_ℤ, leb_ℤ,
  ◌==ℤ◌, if◌then◌else◌, replicate, map,
}
use cmsc125_lab3_sabandal_sa.CInt.{add_int, sub_int}

-- `BUFFER_POOL_SIZE`
abbrev pub buffer_pool_size : ℕ
buffer_pool_size = 5

-- `data_ptr` is the pointer `data`, the slot of the account in the bank.
pub record BufferSlot : Type 0 where
  pub account_id : ℤ
  pub data_ptr : Option ℕ
  pub in_use : Bool
  pub pin_count : ℤ

-- The semaphores are their values; `pool_lock` tells whether the mutex is held.
pub record BufferPool : Type 0 where
  pub slots : List BufferSlot
  pub empty_slots : ℕ
  pub full_slots : ℕ
  pub pool_lock : Bool
  pub load_count : ℤ
  pub unload_count : ℤ
  pub blocked_count : ℤ
  pub current_usage : ℤ
  pub peak_usage : ℤ

abbrev pub free_slot : BufferSlot
free_slot = record { account_id = negsuc 0; data_ptr = none; in_use = false; pin_count = pos 0 }

-- Every field of every one of the `BUFFER_POOL_SIZE` slots is written.
unfoldable pub init_buffer_slots : List BufferSlot → List BufferSlot
init_buffer_slots slots = map (λ (s : BufferSlot). free_slot) slots

unfoldable pub init_buffer_pool : BufferPool → BufferPool
unfolding init_buffer_slots
init_buffer_pool pool = record {
  slots = init_buffer_slots pool.slots;
  empty_slots = buffer_pool_size;
  full_slots = 0;
  pool_lock = false;
  load_count = pos 0;
  unload_count = pos 0;
  blocked_count = pos 0;
  current_usage = pos 0;
  peak_usage = pos 0;
}

-- The test that every search of the slots makes.
abbrev pub holds_account : BufferSlot → ℤ → Bool
holds_account s account_id = s.in_use && s.account_id ==ℤ account_id

abbrev pub on_tail : BufferSlot → Option (List BufferSlot) → Option (List BufferSlot)
on_tail s none = none
on_tail s (some rest) = some (s ∷ rest)

-- The first loop of `load_account`, and again its second: one more pin on a loaded account.
unfoldable pub pin_slot : List BufferSlot → ℤ → Option (List BufferSlot)
pin_slot [] account_id = none
pin_slot (s ∷ rest) account_id =
    if holds_account s account_id
    then some (record s { pin_count = add_int s.pin_count (pos 1) } ∷ rest)
    else on_tail s (pin_slot rest account_id)

-- The third loop: the account goes into the first unused slot.
unfoldable pub fill_slot : List BufferSlot → ℤ → ℕ → Option (List BufferSlot)
fill_slot [] account_id account = none
fill_slot (s ∷ rest) account_id account =
    if not s.in_use
    then some (
        record {
          account_id = account_id;
          data_ptr = some account;
          in_use = true;
          pin_count = pos 1;
        }
        ∷ rest)
    else on_tail s (fill_slot rest account_id account)

-- The counters after an insertion.
abbrev pub count_load : BufferPool → BufferPool
count_load pool =
    let usage = add_int pool.current_usage (pos 1) in
    record pool {
      load_count = add_int pool.load_count (pos 1);
      current_usage = usage;
      peak_usage = if ltb_ℤ pool.peak_usage usage then usage else pool.peak_usage;
    }

-- How the critical section after the wait ends: the account had come in meanwhile, or it was
-- `inserted` (and the pool is full or not), or no slot was free.
pub data Placed : Type 0 where
  already : Placed
  inserted : (pool_is_full : Bool) → Placed
  no_slot : Placed

abbrev fill_section : BufferPool → Option (List BufferSlot) → BufferPool × Placed
fill_section pool none = (pool, no_slot)
fill_section pool (some slots) =
    let counted = count_load (record pool { slots = slots }) in
    (counted, inserted (counted.current_usage ==ℤ pos buffer_pool_size))

-- Lines 79 to 106 of the source, under the mutex.
unfoldable pub place : BufferPool → ℤ → ℕ → BufferPool × Placed
unfolding pin_slot fill_slot
place pool account_id account = elim (pin_slot pool.slots account_id) [
  | some slots ↦ (record pool { slots = slots }, already)
  | none ↦ fill_section pool (fill_slot pool.slots account_id account)
]

-- How the loop of `unload_account` ends, with the slots that it leaves.
pub data Unpin : Type 0 where
  absent : Unpin
  kept : List BufferSlot → Unpin
  freed : List BufferSlot → Unpin

abbrev pub unpin_tail : BufferSlot → Unpin → Unpin
unpin_tail s absent = absent
unpin_tail s (kept rest) = kept (s ∷ rest)
unpin_tail s (freed rest) = freed (s ∷ rest)

-- One pin less on the first slot with the account; the last pin frees the slot.
unfoldable pub unpin_slot : List BufferSlot → ℤ → Unpin
unpin_slot [] account_id = absent
unpin_slot (s ∷ rest) account_id =
    let pins = sub_int s.pin_count (pos 1) in
    if holds_account s account_id
    then if leb_ℤ pins (pos 0)
      then freed (free_slot ∷ rest)
      else kept (record s { pin_count = pins } ∷ rest)
    else unpin_tail s (unpin_slot rest account_id)

-- Lines 132 to 151 under the mutex: the flag says that the slot was freed.
unfoldable pub unpin : BufferPool → ℤ → BufferPool × Bool
unfolding unpin_slot
unpin pool account_id = elim (unpin_slot pool.slots account_id) [
  | absent ↦ (pool, false)
  | kept slots ↦ (record pool { slots = slots }, false)
  | freed slots ↦ (
    record pool {
      slots = slots;
      unload_count = add_int pool.unload_count (pos 1);
      current_usage = sub_int pool.current_usage (pos 1);
    },
    true,
  )
]

-- The loop of `is_account_loaded`.
unfoldable pub slots_hold : List BufferSlot → ℤ → Bool
slots_hold [] account_id = false
slots_hold (s ∷ rest) account_id =
    if holds_account s account_id then true else slots_hold rest account_id

-- A pool of static storage, before `init_buffer_pool`.
abbrev pub zeroed_pool : BufferPool
zeroed_pool = record {
  slots =
      replicate buffer_pool_size
        (record { account_id = pos 0; data_ptr = none; in_use = false; pin_count = pos 0 });
  empty_slots = 0;
  full_slots = 0;
  pool_lock = false;
  load_count = pos 0;
  unload_count = pos 0;
  blocked_count = pos 0;
  current_usage = pos 0;
  peak_usage = pos 0;
}
