-- ===== src/Lib.antt =====
-- The lcdpico firmware, which shows the front panel of an HP 34401A multimeter on an LCD.
--
-- Decoder (decoder_34401a.c and .h in src/) is the core. The interrupt handlers
-- decoder34401_sckedge, _reset and _int sample the meter's serial lines, assemble byte pairs and
-- queue them; decoder34401_process takes the pairs off the queue, runs the frame automaton and
-- publishes the line of text, the annunciators, the bar graph and the blinking position, which the
-- display task and the web server read.
--
--   Decoder/State      dmm_context_t, in six records by the struct's own comment blocks
--   Decoder/Edge       the interrupt handlers and fifo_append
--   Decoder/Message    messageByte, dmm_putc_safe, the bar graph
--   Decoder/Publish    processShiftWindow, publishAnnunciators, decodeControlFrame, process_reset
--   Decoder/Process    decoder34401_process: its loop, and one function for each case;
--                      Process/Finish, the end of a message
--   Decoder/Valid      the representation invariant, and that every step keeps it
--   Decoder/Fifo       the FIFO as a bounded queue
--   Decoder/Sampling   from eight clock edges to a byte pair
--   Decoder/Drain      one call of decoder34401_process against the bytes that wait
--   Decoder/Frames     one pair through the automaton, and the kinds of frames
--   Decoder/Text       the line that a message frame spells
--   Decoder/Buttons    button frames and the SHIFT window
--   Decoder/Panel      annunciator and control frames
--   Decoder/Scanned    the decoder with its scanners
--   Decoder/Tests, Decoder/FrameTests, Decoder/ScanTests   the theorems at concrete inputs
--
-- Scanner (regex_34401a.c, which re2c generated from regex_34401a.re) judges a finished line. Its
-- three functions are kept as they are written: labelled blocks with goto, a cursor into the line
-- and a marker.
--
--   Scanner/Regex       regular expressions, what they match, and a matcher by derivatives
--   Scanner/Grammar     the expressions of regex_34401a.re, and two classes of the code that differ
--   Scanner/Machine     the blocks, and their run over a line
--   Scanner/Reading, Scanner/Menu, Scanner/Display   the three functions, label by label
--   Scanner/Simulation  a check by evaluation that a function follows the matcher, and its proof
--   Scanner/Lines       what the functions answer for a line
--   Scanner/Tests       the theorems at concrete inputs
--
-- Screen (display.c, the theme in img/240x960) is the task that shows the decoder's line on the LCD:
-- it lays the text out in twelve cells, holds back lines that no scanner knew, and redraws the hidden
-- one of two frames where cells have changed.
--
--   Screen/Cells    the layout of the text; Cells/Text and Cells/Reach relate it to the text
--   Screen/Status   display_status without the drawing; Status/Hold, when a message is shown
--   Screen/Theme    the theme's tables and the tile table of init_theme
--   Screen/Refresh  the loop over the cells in update_display, as a list of copies to a frame
--   Screen/Update   all of update_display; Update/Shows and Update/Frames, what the frames show
--   Screen/Engine   the copies as jobs of the LCD controller
--   Screen/Task     display_status as a whole; Screen/Wire, a frame on the wire and then the LCD
--   Screen/Tests, Screen/EngineTests   the theorems at concrete inputs
--
-- What a frame shows in the region of a cell is the list of the copies since one covered it. The
-- overlays of a theme lie inside their cell. The list is empty where nothing was drawn since the
-- frame was filled with black.
--
-- Graphics (lt7680.c) is the driver of the LCD controller: bytes over SPI that set its registers.
--
--   Graphics/Registers, Graphics/Panel   the constants of lt7680.h and lcd/er-tft371-1.h
--   Graphics/Spi        the SDK's SPI and pins as a record, and the frames of two bytes
--   Graphics/Chip       what the driver relies on of the chip, and what writes come to
--   Graphics/Status     the waits for the chip, and lt7680_write_pixels
--   Graphics/Settings   the settings that only write; Graphics/Engine, the block transfers
--   Graphics/Start      the reset, the check, lt7680_init and lt7680_setup
--   Graphics/Jobs, Graphics/Copies, Graphics/RoundTrip, Graphics/Started   the registers afterwards
--   Graphics/Runs       when the engine runs a job
--   Graphics/Sim, Graphics/Tests   a chip byte for byte, and the theorems at concrete inputs
--
-- The waits run on fuel. The chip's record bounds how often the status can be read before the core
-- is idle, and one round more is enough; a third says when the engine runs a job; for the start a second record bounds the PLL and the SDRAM.
--
-- Command (command_util.c, and process_command and the tables of command.c) is the SCPI interpreter
-- that the console and the network services share. process_command splits a line into commands, and
-- run_cmd walks the command tree by the subcommands and calls a handler.
--
--   Command/Tree         struct cmd_t as a tree, struct prev_cmd_t, the search and the stack
--   Command/Interpreter  run_cmd and process_command
--   Command/Paths        a line whose subcommands lead to a handler
--   Command/Errors       a line whose subcommands lead to none
--   Command/Handlers     the names of the handlers; Command/Tables, the tables of command.c
--   Command/Spelling     how a name may be spelled
--   Command/Reach        routes through levels in which no entry hides another, and the tables
--   Command/Stack        the stack's bounds and what get_prev_cmd gives
--   Command/Numbers      str_to_int (util.c) and the decimal that is printed
--   Command/Settings     the settings of unsigned integers and of switches
--   Command/Indices      get_cmd_index and the settings of array elements
--   Command/Tests, Command/NumberTests, Command/TableTests   the theorems at concrete inputs
--
-- In run_cmd the command tree and the handlers are arguments: a handler is a function on a state of
-- the program. The tables are those that WIFI_SUPPORT and TLS_SUPPORT give; they take a handler for
-- each of its names. What lies in memory behind a command line is an argument too, since run_cmd
-- reads there when a line begins with blanks.
--
-- Flash (flash.c) are the operations on the files that keep the configuration.
--
--   Flash/Littlefs  what is called of littlefs, as a record of functions, and a monitor of the calls
--   Flash/Files     flash_read_file, flash_write_file, flash_delete_file, flash_rename_file,
--                   flash_file_size
--   Flash/Balance   the order of the calls; Flash/Failures, what the callers learn of errors
--   Flash/Tests     the theorems at concrete inputs
--
-- Core1 (core1_gpio_callback and core1_main of lcd-pico.c, time_passed of util_rp2.c) is the second
-- core: an interrupt handler that passes the meter's edges to the decoder, and a loop that calls
-- decoder34401_process and display_status.
--
--   Core1         the state of the core, one round of the loop and the interrupts
--   Core1/Timely  when new data reaches the display task; Core1/Steps, rounds and interrupts
--   Core1/Reading, Core1/Meter   from the bytes that wait to the LCD in one round
--   Core1/Tests   the theorems at concrete inputs
--
-- Log has the names of the priorities and facilities of log.c, with its tests in Log/Tests.
-- Util/Copies has strncopy of util.c, and Util/Powers its pow_i64.
--
-- Common has the arrays, the fixed-width words, the laws of the bitwise operations and the C
-- strings that the parts share.
--
-- State is passed explicitly. The pins' samples and the timer's readings are arguments of the step
-- that reads them. A write in C is a record update; an array is a list with `get_or` and `set`, and
-- the invariant keeps every index inside. Words keep their wrap-around (Common/Words). Interrupts
-- interleave with the decoder's loop between two of its rounds; in Core1 they come between two
-- rounds of the second core's loop.
--
-- The loop of decoder34401_process runs on fuel: 256 rounds, since the FIFO holds at most 255
-- pairs. The decoder takes its three scanners as the record Scanners; Decoder/Scanned fills it with
-- those of Scanner. A scanner runs on fuel: six blocks for each byte and six for the terminator,
-- since one block reads a byte and at most five lead from there to the next one or to a return.
--
-- Not modelled: re2c itself; the network services and the drivers of the panels and of the other
-- hardware, which call the Pico SDK, lwIP and wolfSSH; the first core's loop, which polls the
-- console and the network; the pictures, which a library decodes; the handlers of the commands and
-- the configuration, which print and call cJSON; generated data.
pub mod Common
pub mod Decoder
pub mod Flash
pub mod Graphics
pub mod Scanner
pub mod Screen
pub mod Command
pub mod Util
pub mod Log
pub mod Core1
