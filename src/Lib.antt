-- ===== src/Lib.antt =====
-- The embedded voice agent's own logic, apart from drivers, drawing and network: how a conversation
-- is started and stopped, what of it is remembered across restarts, when an alarm rings, the
-- stopwatch, the Echo game, the battery indicator, the saved settings, the two directions of the
-- audio, and the way onto the network.
--
-- The parts and how they interact. The session worker (main/session_ctl.c) is one task that starts
-- and stops the conversation; the screen, the buttons, the tools and the alarms only ask it. The
-- alarms (main/alarms.c) keep a table of eight entries, decide with main/alarm_sched.c when each is
-- next due, and run one ring at a time: chime, drain, the agent's announcement, chime again, under
-- a cap. The conversation's turns are kept in an arena (main/dg_agent.c), of which a new session is
-- given the newest; the worker writes the arena to a ring of eight records on flash
-- (main/history_store.c), and a start of the device reads the newest one. The stopwatch
-- (main/stopwatch.c) and the game (main/echo.c) are arithmetic on a 32-bit millisecond clock that
-- their callers pass in. The BOOT button (main/boot_button.c) stops a ring, toggles a session, or
-- forgets the network. The settings (main/wifi_creds.c, main/api_key.c, main/agent_name.c) are
-- strings in non-volatile storage. The agent's speech goes through a stream buffer to the playback
-- task, and the microphone's blocks go up through the capture task, which leaves one out while the
-- alarm holds the uplink (main/audio_io.c). The agent's messages are put together from the pieces
-- of a WebSocket (main/dg_agent.c). The station (main/wifi_sta.c) joins the network whose name and
-- password come from the form of the set-up page (main/wifi_prov.c). The touch panel's steps
-- (main/controls.c) change the levels at once and have the worker save them. The zone and the
-- format that the agent's tool or the panel asks for are put in force by the main loop
-- (main/clock.c, main/tz_table.c).
--
--   Common, Common/Lists     lists on native numbers; names that all files share
--   Common/Words             32-bit sums and differences, and the bits of a mask
--   Common/Int               integers, for instants in seconds
--   Common/Bytes             characters, decimal printing and snprintf's cut
--   Session                  main/session_ctl.c: Ctl is its static variables; request_* are the
--                            session_ctl_request_* functions; wake and finish are the two halves of
--                            the loop of session_ctl_task, with do_stop, do_start and pm_session;
--                            each action's outside calls are a list, in the order they are made
--   Session/Requests         request_t, and the task notification as the interface Mailbox
--   Session/Outside          what those calls leave of the microphone, the CPU lock and the screen
--   Session/Steps            the loop one test at a time, with requests between any two steps
--   Session/Wakeups          the requests, and passes of the worker with none between them
--   Session/Cooldown         the debounce
--   Alarm                    alarm_entry_t, alarm_is_stale, alarm_soonest of main/alarm_sched.c
--   Alarm/Calendar           alarm_next_local and its helpers; the zone is the interface Zone, whose
--                            laws are in Minutes, about a day's search; Soundness is about the days
--   Alarm/Text               alarm_parse_hhmm, alarm_parse_days, alarm_label_sanitize,
--                            alarm_fmt_time, alarm_days_phrase
--   Alarm/Ring               alarm_ring_begin, alarm_ring_step, and perform of main/alarms.c
--   Alarm/Snooze             alarm_snooze_entry, and of main/alarms.c ring, ring_tick,
--                            alarms_dismiss, alarms_snooze and the request flags; Outcome is what
--                            a snooze leaves, Sound the tone and the uplink through any of these
--   Alarm/Table              main/alarms.c: the blob, the monotonic deadlines and the flags as a
--                            Table; add_locked, remove_locked, reconcile_locked, due_locked,
--                            alarms_tick up to its unlock, alarms_init,
--                            alarms_cancel_id, the loops of the cancel and set-timer tools
--   Memory                   main/dg_agent.c: the arena and its index as a Memory; history_add,
--                            history_evict_oldest, history_to_json's choice, history_load, the
--                            record of dg_agent_flush_history, dg_agent_clear_history
--   Memory/Turns, Adding, Runs, Replay, Saved
--                            the turns an arena stands for, and the operations on them
--   Memory/Schedule          history_mark_dirty, history_note_save_failure, the flush timer, and
--                            when dg_agent_flush_history writes; Debounce and Unsaved are its runs
--   Memory/Restart           a flush to the ring of records, and the start that reads it
--   History                  main/history_store.c: slot_valid, history_store_load, ensure_scanned,
--                            history_store_save; the flash is the interface Partition
--   History/Flash, Torn, Writing, Outcome
--                            the bytes of a slot, also of one that was written in part
--   History/Newest, Ring, Saving, Restart, Skipped
--                            the newest record, over a save and a restart, also without a load
--   Battery                  main/battery.c: median_of and a pass of sampler_task; Median and
--                            Settling are the filter and runs of the sampler
--   Clock                    main/clock.c: rtc_write, rtc_read and days_from_civil; gmtime_r's date is
--                            an argument; Civil counts the days, Rtc is the round trip
--   Audio/Buffer             the FreeRTOS stream buffer, as an interface
--   Audio/Play               main/audio_io.c: audio_io_play and the operations beside it; Queued, Carry,
--                            Stream are a chunk of speech
--   Audio/Speaker, Tune, Drain
--                            spk_reopen and the amplifier, the chime and the tones, and a pass of
--                            playback_task; Whole, Runs, Calls, Spoken, Heard, Requests are its runs
--   Audio/Denoise            the staging of the noise suppressor, whose engine is an interface;
--                            Rechunk, Blocks, Delay are the stream through it
--   Audio/Uplink             a pass of capture_task, audio_io_uplink_hold; Voice, Mic, Sending are the
--                            conditions under which a block goes up
--   Audio/Levels             the volume and the microphone's gain; Kept, Reboot are what is saved
--   Common/Bits, Cuts        fields of a word, lists cut in two
--   Agent                    main/dg_agent.c: accumulate_json; Messages is about whole messages
--   Portal                   main/wifi_prov.c: form_get, key_is_plausible, json_escape; Form is the
--                            encoding of a browser, Fields a whole form
--   Wifi                     main/wifi_sta.c: on_wifi_event, wifi_sta_start, wifi_sta_stop and the
--                            wait; bars_from_rssi; Retries is about the events, Signal the bars
--   Clock/Zone               main/tz_table.c: tz_lookup, tz_resolve, tz_default_12h; main/clock.c:
--                            tz_apply, clock_fn_set_clock, clock_set_12h, clock_12h, the zone's and
--                            the format's parts of clock_start and clock_tick; Rules, Asking, Reboot
--   Controls                 main/controls.c: controls_volume_step, controls_mic_gain_step,
--                            controls_commit; deal_shape, controls_echo_callout; Dial is the saving
--                            of the levels, Marks the volume's grid, Dealing the deck of callouts
--   Stopwatch                sw_toggle, sw_lap, sw_reset, sw_elapsed, sw_fmt
--   Echo                     echo_start, echo_tick, echo_resume, echo_press
--   Button                   the callbacks of main/boot_button.c, and any sequence of them
--   Settings, Settings/Nvs   the load, save and erase functions of the three files, over the
--                            interface Storage of ESP-IDF's storage
--
-- Conventions. A uint32_t is a natural number with its wrap written out; an int64_t instant is an
-- integer without bound, since instants are seconds of a calendar. A C array is a list of its
-- length, a C string the list of its bytes before the NUL. A function that writes through a pointer
-- or to a static variable returns the new value. A pass of the alarm loop reads each clock once.
-- Log lines are left out.
--
-- Bounds and fuel. The search for a free id has fuel 9: among nine consecutive ids of 1..255 eight
-- pending entries leave one free. The wall-clock search tries at most 181 minutes, as the source
-- does, and eight days. Making room for a turn has fuel 41, one more than the turns there can be.
-- Decimal printing has ten digits, enough for 32 bits.
--
-- Not modelled. The FreeRTOS notification, localtime_r, mktime and the non-volatile storage are
-- parameters with their documented laws. The flash partition and esp_crc32_le are parameters: an
-- erased byte takes the value programmed, a write that is cut short leaves a prefix of its bytes,
-- and what an interrupted erase leaves is a hypothesis. The rows of the zone table are an
-- argument, and so are esp_random's answers. The answers of the agent and of the flash to the
-- session worker, and what the battery's registers answer, are arguments. The rest of the client
-- of the agent service (main/dg_agent.c), the codec drivers, drawing, the set-up of the network
-- and the clock's synchronisation are not modelled: they are calls of ESP-IDF and of LVGL, or
-- computations in floats. Of the audio path, the waves of the chime, the echo canceller and the
-- denoising engine are arguments, and within one pass of its tasks the flags of other tasks are
-- read once. The texts of the alarm tools and the captions of a ring are not modelled either.
pub mod Agent
pub mod Alarm
pub mod Audio
pub mod Battery
pub mod Button
pub mod Clock
pub mod Common
pub mod Controls
pub mod Echo
pub mod History
pub mod Memory
pub mod Portal
pub mod Session
pub mod Settings
pub mod Stopwatch
pub mod Wifi
