-- ===== src/Lib.antt =====
-- The Hurra v3 firmware (C): the actions by which it injects input, what crosses the board-to-board SPI
-- link and the channel between the two cores, and how it is merged into the reports to the PC.
--
-- The host board captures the descriptors and reports of a HID device and sends them over SPI to the
-- device board, which clones the device to the PC. Injected input comes in on a command link, goes
-- from the command core to the relay core of its board, and over SPI where the boards are two.
--
-- The files, and the code each models:
--   Base (Tests, Lists, Bits, Int, Text) shared names; C arrays as lists; `&`, `|`, `^` on binary digits;
--                               signed integers and the casts between them and words
--   Spi/Frame                   src/spi_frame.c: crc16, pack, unpack, seq_gap
--   Spi/Stream                  src/spi_frame_stream.c: init, push, resync; `feed` is the receive loop
--                               of src/two_board.c, two_board_device_run
--   Xfer/Outcome                the result of both reassemblers
--   Xfer/Desc                   src/desc_xfer.c: chunk_count, pack_chunk, reset, accept; `sent` is the
--                               body of send_descriptor_blob in src/two_board.c
--   Xfer/Report                 src/report_xfer.c: fragment_count, pack_fragment, reset, accept;
--                               `sent` is the body of send_report_frames in src/two_board.c
--   TwoBoard/Relay              src/two_board.c, two_board_device_run: the relay loop's handling of a
--                               slot; what usb_merge_forward_report returns is a parameter
--   Inject/Ring                 src/inject_link.c: init, push, drain
--   Icc/Ring                    src/icc.c: ring_push, ring_pop
--   Icc/Mailbox                 src/icc.c: icc_init_v3f and icc_init_v5f, icc_send_to_v5f,
--                               icc_pump_to_v5f, icc_recv_from_v3f, each split where the other core
--                               can see a register change
--   Serial                      src/desc_capture.h: the captured structs
--   Serial/Cursor               src/desc_serialize.c: w_u8, w_u16, w_blob, r_u8, r_u16, r_blob; a read
--                               cursor holds the bytes not yet read, and reading is a small monad
--   Serial/Write, Serial/Read   src/desc_serialize.c: desc_serialize, desc_deserialize, by sections
--   Synth                       src/synth_mouse.c: the tables, build_descriptors, next_report
--   Actions/Keys                src/actions.c: act_kb_down, act_kb_up, act_kb_press, act_kb_release_tick,
--                               act_kb_isdown, act_kb_init; its Run is any sequence of them
--   Actions/Masks               src/actions.c: act_kb_mask, act_kb_mask_get, act_phys_*
--   Actions/Mouse               src/actions.c: act_button_set, act_click, act_click_tick, act_move,
--                               act_wheel, act_motion_*; each takes the time and returns what it injects
--   Actions/Pump                src/actions.c: act_init, the switches, act_tick
--   Icc/Status                  src/icc_status.c: pack and unpack; src/icc.c: icc_status_pump_v5f and
--                               icc_status_poll_v3f
--   Kmbox/V3f, Kmbox/Host       src/kmbox_cmd.c, src/kmbox_cmd_host.c: the four injection calls; Call is
--                               any one of them
--   Humanize                    src/humanize.c, on integers
--   Hid                         src/hid_layout.h: the layout of a mouse report
--   Hid/Field                   src/hid_layout.c, hid_layout_read_field, and src/usb_merge.c,
--                               write_report_field
--   Hid/Parse, Hid/Derive       src/hid_layout.c, hid_layout_parse_mouse: its loop over the items, and
--                               what it derives from the fields found
--   Merge                       src/usb_merge.c: the static variables as one record, usb_merge_init
--   Merge/Accum                 src/usb_merge.c: merge_apply_*, merge_schedule_*, merge_run_releases,
--                               usb_merge_apply_record, usb_merge_drain_icc; its Endpoints is usb_merge_cache_endpoints
--   Merge/Report                src/usb_merge.c: the two paths of a mouse report, usb_merge_phys_mouse;
--                               its Keyboard is usb_merge_keyboard and usb_merge_phys_keyboard
--   Merge/Send                  src/usb_merge.c: usb_merge_report, usb_merge_forward_report,
--                               usb_merge_send_pending; the USB device is the parameter UsbDevice, a
--                               record of the two calls that the merge makes
--   Ferrum/Decimal, Ferrum/Args src/ferrum.c: parse_int, format_int, trim, split_args and the split of
--                               dispatch_line
--   Ferrum/Commands, /Dispatch  src/ferrum.c: the handlers, cmd_*, and dispatch; a handler returns the new
--                               state with the replies, injected moves and keyboard states in order
--   Ferrum/Line, Ferrum/Notify  src/ferrum.c: ferrum_init, ferrum_reset, ferrum_tick, ferrum_feed_byte,
--                               and the hooks ferrum_notify_*
--   Hurra                       src/hurra.c: the variables, track_id, the random numbers, hurra_init
--   Hurra/Listeners, /Dispatch  src/hurra.c: the listeners and the types they are registered for;
--                               on_frame is what TinyFrame does with a message; hurra_tick
--   Hurra/Notify                src/hurra.c: tlm_send and the hooks hurra_notify_*
--   Flow                        a command of src/ferrum.c through src/actions.c and src/kmbox_cmd.c to
--                               src/usb_merge.c
--   Helpers                     src/display_rowpick.h, src/uart_rx_class.h, src/hid_iface_index.h,
--                               src/usb_hs_desc.c
--   Timing                      src/time_deadline.h, src/usb_host_time.h, src/usb_desc_interval.h
-- Below each of these stand the modules of its lemmas, named for what they prove, and its Tests.
--
-- How the state corresponds: a struct is a record with the struct's fields, a fixed-size array is a
-- list of that length, a static variable is a field of the component's record, and a function that
-- writes through a pointer returns the new value. Machine words are native numbers with the
-- wrap-around of each store written out. Where the C returns 0 or an error and writes nothing, the
-- model returns `none` or the error.
--
-- Loops: the scan of `resync` runs on the places left in the window, the bit and byte loops of the CRC
-- on the bits and bytes left, `release_loop` of Actions/Keys on a fuel of the number of scheduled
-- releases, since each round either removes one or passes one by, and `drain_loop` of Inject/Ring on a
-- fuel of 8, one more than the seven records that the queue can have, so that it always ends on the
-- empty queue. The loop over a report descriptor runs on a fuel of its length and one, since a round
-- passes a byte or more, and the last one only ends the loop, and `release_keys` of Merge/Accum on the number of scheduled releases. `digits_of` of Ferrum/Decimal runs
-- on ten rounds, as many as a number of 32 bits has digits.
--
-- Floats: the callers in src/usb_merge.c give the humanizer whole counts, so that its floats are
-- integers in the model; in C their sums are exact as long as they are below 2^24. Where
-- the sums matter, this bound is a hypothesis or is shown.
--
-- The two cores: a step of `System` in Icc/Mailbox/Order is what one core does between two stores that
-- the other core can see. The fences of the source make those stores visible in program order, which
-- the model takes over; it does not model the memory system itself.
--
-- Not modelled here: the register accesses of the SPI, USB, UART and IPC hardware, the doorbell
-- interrupt (it only wakes the other core), the start-up code, the display and indicator drivers, the
-- fractions that the gesture filter works with, the framing of src/hurra.c, which is the TinyFrame library's, and other third-party code. One reading of the
-- clock stands for those that src/ferrum.c and src/hurra.c make while they handle a byte or a message.
pub mod Actions
pub mod Ferrum
pub mod Flow
pub mod Helpers
pub mod Hid
pub mod Humanize
pub mod Hurra
pub mod Kmbox
pub mod Merge
pub mod Serial
pub mod Synth
pub mod Base
pub mod Spi
pub mod Timing
pub mod TwoBoard
pub mod Xfer
pub mod Icc
pub mod Inject
