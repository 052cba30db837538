-- ===== src/Reactor/Tests.antt =====
-- ae.c: runs of the event loop over a kernel that keeps an interest list and a log of calls.
use xteam.Prelude.{◌≡◌, refl, true, false, some, [], ◌∷◌}
use xteam.Reactor.Types.{is_none}
use xteam.Reactor.Files.{event, create_file_event, get_file_events}
use xteam.Reactor.Timers.{get_time, add_milliseconds_to_now}
use xteam.Reactor.Process.{call_file, dispatch, turn, run, main}
use xteam.Reactor.Masks.{wanted, create_file_event-IsSynced}
use xteam.Reactor.Safety.{IsSound, main-IsSound}
use xteam.Reactor.Due.{process_time_events}
use xteam.Reactor.Walk.{settle, process_time_events_lem}
use xteam.Reactor.Dispatch.{first_call, second_proc, dispatch_order, dispatch_removed}
use xteam.Reactor.Sample.{
  kernel, callbacks, watching, kernel-IsEpoll, both, timer, sample, world, sample-IsBounded,
  sample-IsSound, sample-IsSynced, quiet_callbacks, quiet,
}

create_file_event-IsSynced_example :
    let (st, l', w') = create_file_event 2 both 5 7 (sample 1 2 false) world in
    watching w' 2 ≡ wanted (get_file_events l' 2)
create_file_event-IsSynced_example =
    create_file_event-IsSynced watching 2 both 5 7 (sample 1 2 false) world kernel-IsEpoll
      (sample-IsBounded 1 2 false) refl sample-IsSynced 2

-- Under AE_BARRIER the writable procedure is called first: the log is read from its end.
dispatch_order_runs : (dispatch 1 both (sample 1 2 true) world).1.1 ≡ 1 ∷ 2 ∷ []
unfolding dispatch callbacks
dispatch_order_runs = refl

slot_same : event (first_call 1 both (sample 1 2 true) world).0 1 ≡ event (sample 1 2 true) 1
unfolding first_call callbacks call_file
slot_same = refl

dispatch_order_example :
    dispatch 1 both (sample 1 2 true) world
    ≡ call_file 1 1 7 both
        (first_call 1 both (sample 1 2 true) world).0
        (first_call 1 both (sample 1 2 true) world).1
unfolding second_proc
dispatch_order_example = dispatch_order 1 both (sample 1 2 true) world refl refl refl refl slot_same

main_stops :
    main 1 (sample 1 2 false) world
    ≡ some ((turn (sample 1 2 false) world).0, (turn (sample 1 2 false) world).1)
unfolding main run turn kernel callbacks
main_stops = refl

main-IsSound_example :
    IsSound (turn (sample 1 2 false) world).0 × ((turn (sample 1 2 false) world).0.stop ≡ true)
main-IsSound_example =
    main-IsSound 1 (sample 1 2 false) world (turn (sample 1 2 false) world).0
      (turn (sample 1 2 false) world).1 (sample-IsSound 1 2 false) main_stops

slot_taken : is_none (event (first_call 1 both (sample 3 2 false) world).0 1).mask ≡ true
unfolding first_call callbacks call_file
slot_taken = refl

dispatch_removed_example :
    dispatch 1 both (sample 3 2 false) world ≡ first_call 1 both (sample 3 2 false) world
dispatch_removed_example =
    dispatch_removed 1 both (sample 3 2 false) world refl refl refl refl slot_taken

-- The due timer is put off by half a second, and counted.
process_time_events_lem_example :
    process_time_events ⦃c = quiet_callbacks⦄ (sample 1 2 false) world ≡ (
      1,
      record (sample 1 2 false) { last_time = 100; timers = timer 1 200 ∷ timer 0 101 ∷ [] },
      (world.0, 8 ∷ []),
    )
unfolding settle kernel quiet get_time add_milliseconds_to_now
process_time_events_lem_example =
    process_time_events_lem ⦃c = quiet_callbacks⦄ quiet (sample 1 2 false) world
