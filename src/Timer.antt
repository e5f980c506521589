-- ===== src/Timer.antt =====
-- src/core/timer.c. The tick and the flag are shared memory under `tick_lock`, which is held for
-- one short section at a time: such a section is one access. `wait_until_tick` is the access
-- `await_tick` of `Machine`, whose condition wait is left once the tick is reached.
use cmsc125_lab3_sabandal_sa.Common.{Bool, true, false, not, ℤ, pos, if◌then◌else◌}
use cmsc125_lab3_sabandal_sa.CInt.{add_int}
use cmsc125_lab3_sabandal_sa.Machine.{Shared, await_tick, Prog, access}

unfoldable pub init_timer : Shared → Shared
init_timer s = record s { global_tick = pos 0; simulation_running = false }

-- One round of `timer_thread` after its sleep; the flag says that the loop goes on.
unfoldable pub timer_round : Shared → Bool × Shared
timer_round s =
    if not s.simulation_running
    then (false, s)
    else (true, record s { global_tick = add_int s.global_tick (pos 1) })

unfoldable pub wait_until_tick : ℤ → Prog (Unit {0})
wait_until_tick target_tick = access (await_tick target_tick)
