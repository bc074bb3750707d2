-- ===== src/Lib.antt =====
-- andor2k: the daemon that drives the Andor camera of the Aristarchos telescope.
--
-- The daemon cools the camera and serves one client after another. A client sends it commands. The
-- image command is parsed into the parameters of an acquisition, the camera is prepared from these,
-- and images are taken and saved as FITS files, one (single scan) or several (run till abort, kinetic
-- series), while one thread reports to the client and another listens for an abort. Each step returns
-- a status, and the first that is not 0 ends the command.
--
-- Base has what the other modules share: tests on numbers, integers, lists, and the C functions on
-- strings that the program uses (strncmp, strcmp, strtok, strtol).
-- Base64: src/cbase64.cpp, the code that the telescope's messages are in.
-- Params: AndorParameters of src/andor2k.hpp and set_defaults of src/andor2k.cpp.
-- Headers: src/fits_header.hpp and src/fits_header.cpp; Headers.Stored has the sizes of their arrays,
-- for the headers that Aristarchos reads (Aristarchos.Overrun) and Setup adds (Setup.Buffers).
-- ImageCommand: resolve_image_parameters of src/resolve_image_parameters.cpp; option_of is the chain
-- of its strncmp tests, apply_option the body of a branch, final_tests what follows the loop.
-- Driver: the camera's driver, the client, the threads and the files, which the program acts on. An
-- action is an event, and an environment answers it, knowing all that happened before; a function of
-- the program is a function of the environment and the history.
-- Setup.Modes: src/set_readout_mode.cpp, src/set_acquisition_mode.cpp, src/vhsspeed.cpp and
-- src/set_preampgain.cpp. Setup: setup_acquisition of src/set_acquisition.cpp, whose parts are
-- functions of their own (set_modes, check_detector, add_aristarchos_headers, add_headers).
-- Scan: src/save_as_fits.cpp, src/get_single_scan.cpp and src/get_rta_scan.cpp.
-- Cooling: src/cooling.cpp and src/sys_shutdown.cpp. Timing: exp2tick_every of
-- src/acquisition_reporter.cpp, of which exposure2tick_every of src/get_acquisition.cpp is a copy.
-- Reporter: AcquisitionReporter::report of src/acquisition_reporter.cpp. Reporter.Series:
-- src/acquisition_series_reporter.cpp. Reporter.Thread: ThreadReporter of src/get_acquisition.cpp.
-- Abort: src/abort_listener.cpp. Interleaved: the three threads of a single scan, that is
-- src/get_single_scan.cpp, src/abort_listener.cpp and the reporter, as a step relation, with the
-- condition that the scan waits for as a parameter; fd_condition is that of the code. The shutdown of
-- the abort socket is there what the system makes of it: it acts on the socket with that number, and
-- wakes no recv on a connection. In Scan it is one event, and the environment's answer says whether it
-- reached the listener (Driver.Threads.IsReached).
-- Statuses: the names of the driver's statuses in src/andor2k.cpp.
-- FitsNames: src/fits_filenames.cpp. Aristarchos: src/aristarchos.cpp, where Aristarchos.Request has
-- the exchange with the telescope's server.
-- Kinetic: get_acquisition and get_kinetic_scan of src/get_acquisition.cpp, and
-- src/coarse_image_time.cpp; Kinetic.Await has wait_for_acquisition, and Setup.Correction has
-- find_start_time_cor, which nothing calls. Daemon: bin/andor2kd.cpp, with print_status and select_camera of
-- src/andor_tools.cpp; Daemon.Settings has set_param_value. The daemon calls the parser of the image
-- command, Setup, Kinetic (which calls Scan) and Cooling, as the code does.
-- FitsImage: FitsImage of src/cppfits.hpp over the calls of cfitsio; Setup.Written puts it behind
-- setup_acquisition. CommandLine: src/cmd_parser.cpp, which takes its options from ImageCommand.
-- Sockets: src/cpp_socket.hpp and src/cpp_socket.cpp over the calls of the system, a history of calls
-- with their values. Ntp: src/get_ntp_time.cpp, over the same calls. Client: bin/andor2k_client.cpp,
-- over Sockets and with the messages of Driver.Messages.
--
-- How the model relates to the code. A char array is the string it holds; an int is an integer, and
-- what is stored from strtol is wrapped to 32 bits; a float is the 32 bits of its pattern. The
-- floating-point functions and the growth of a vector are the fields of Params.Platform, about which
-- nothing is assumed; the decompression of libbz2 is an argument. A shared variable that another
-- thread writes is read by an event. What is printed is left out, and so is the text of the reporter's
-- messages.
--
-- Bounds and fuel. The loops over tokens, headers and images are recursions on lists and on the number
-- of images. Three loops wait, and end when a clock says that the time is over; a read of the clock is
-- an event, and each round sleeps. They are recursions on a number of rounds that is more than they
-- make by a clock that keeps time (Driver.Clock.Punctual): the wait for a new image of a series sleeps
-- for a millisecond and ends before eleven seconds are over (Scan.max_polls; running out of polls
-- counts as that end), cooling sleeps for five seconds and ends when 46 minutes are over
-- (Cooling.max_cooling_rounds), and so does warming up, which ends when 1801 seconds are over
-- (Cooling.max_warming_rounds; here running out of rounds is a result of its own). The kinetic series
-- takes its number of rounds as an argument, and one more than the images is enough where the number
-- of images that the driver gives grows. The daemon runs for ever: its clients and their messages
-- are numbers too, and running out of them is a result of its own. The memory that the cards of the
-- telescope are read from ends before the rounds of their loop.
--
-- The reporters of Reporter run for a number of rounds that is an argument, and so does the loop over
-- the lines that a user types at the client. The loop over the fraction of a second of a server's time
-- divides ten times at most, which is enough for the digits of 32 bits (Ntp.Answer.HasDigits).
--
-- Not modelled: the driver, cfitsio and the system behind their calls, floating point, the time in
-- words (src/andor_time_utils.hpp), src/socket_sprintf.cpp and src/usage.cpp, which only format, an
-- older version of the sockets that is not built, and the programs that try the driver by hand. In the
-- setup of an acquisition the exchange with the telescope's server is one event, and in the scans the
-- name of a file is one; there the abort listener and the reporters are their start and their end, and
-- the daemon's sockets are events too. The interleaving of the threads is that of a single scan: of a
-- series it is not modelled.
pub mod Base
pub mod Base64
pub mod Params
pub mod Headers
pub mod ImageCommand
pub mod Driver
pub mod Scan
pub mod Setup
pub mod Cooling
pub mod Timing
pub mod FitsNames
pub mod Aristarchos
pub mod Kinetic
pub mod Daemon
pub mod Reporter
pub mod Abort
pub mod Statuses
pub mod Interleaved
pub mod Client
pub mod Ntp
pub mod Sockets
pub mod CommandLine
pub mod FitsImage
