-- ===== src/Driver.antt =====
-- The world that the daemon acts on: the camera's driver (atmcdLXd.h of the Andor SDK, which is not
-- part of the repository), the client's socket, the two helper threads, and the FITS files.
-- An action is an event. What it answers is given by the environment, which sees all that has
-- happened before: a history is a list of events, the newest first, and every theorem is about every
-- environment.
pub mod Clock
pub mod Threads
pub mod Messages
pub mod Targets
use andor2k.Base.{ℕ, Bool, true, false, List, [], ◌∷◌, if◌then◌else◌, ℤ, pos}
use andor2k.Base.Text.{Bytes, codes}
use andor2k.Params.{Float}
use andor2k.Headers.{FitsHeader}

-- The codes DRV_… that the source names; `undocumented` is any other value.
pub data Status : Type 0 where
  success not_initialized acquiring idle error_ack no_new_data general_errors : Status
  p1_invalid p2_invalid p3_invalid p4_invalid p5_invalid p6_invalid : Status
  vxd_not_installed ini_error error_pagelock invalid_filter binning_error : Status
  spool_setup_error spool_error temp_cycle accum_time_not_met kinetic_time_not_met : Status
  acq_buffer acq_downfifo_full : Status
  temp_off temp_not_reached temp_drift temp_not_stabilized temp_stabilized : Status
  not_supported : Status
  undocumented : ℕ → Status

abbrev pub is_success : Status → Bool
is_success success = true
is_success _ = false

-- `std::numeric_limits<unsigned int>::max()`, which is no code of the driver.
abbrev pub not_applicable : Status
not_applicable = undocumented 4294967295

-- The driver's functions with the arguments that go in.
pub data Call : Type 0 where
  set_read_mode : ℤ → Call
  set_single_track : ℤ → ℤ → Call
  set_image : ℤ → ℤ → ℤ → ℤ → ℤ → ℤ → Call
  set_acquisition_mode : ℤ → Call
  set_exposure_time : Float → Call
  set_number_accumulations : ℤ → Call
  set_accumulation_cycle_time : Float → Call
  set_number_kinetics : ℤ → Call
  set_kinetic_cycle_time : Float → Call
  get_fastest_recommended_vs_speed : Call
  set_vs_speed : ℤ → Call
  set_hs_speed : ℤ → ℤ → Call
  get_hs_speed : ℤ → ℤ → ℤ → Call
  get_number_pre_amp_gains : Call
  set_pre_amp_gain : ℤ → Call
  get_pre_amp_gain : ℤ → Call
  set_shutter : ℤ → ℤ → ℤ → ℤ → Call
  get_detector : Call
  set_trigger_mode : ℤ → Call
  get_acquisition_timings : Call
  get_read_out_time : Call
  get_temperature_f : Call
  -- The state of the camera is in the reply's status: what GetStatus itself returns is not read.
  get_status : Call
  get_temperature : Call
  set_temperature : ℤ → Call
  is_cooler_on cooler_on cooler_off : Call
  shut_down : Call
  start_acquisition wait_for_acquisition abort_acquisition : Call
  get_acquired_data : ℤ → Call
  get_number_new_images : Call
  get_images : ℤ → ℤ → ℤ → Call
  get_total_number_images_acquired : Call
  get_most_recent_image : ℤ → Call
  get_number_hs_speeds : ℤ → ℤ → Call
  get_available_cameras : Call
  get_camera_handle set_current_camera : ℤ → Call
  initialize : Bytes → Call
  cancel_wait : Call

-- The messages to the client, one for each format of `socket_sprintf`; %s arguments that only
-- repeat a status in words, and the time, are left out.
pub data Message : Type 0 where
  start_error : Message
  start_error_series : Status → Message
  aborted_by_user : Status → Message
  wait_error : Status → Message
  series_aborted_by_user : ℤ → ℤ → Status → Message
  series_wait_error : ℤ → ℤ → Status → Message
  series_data_error : ℤ → ℤ → Status → Message
  data_error : Status → Message
  recent_image_error : Status → Message
  data_acquired : Message
  fits_name_error : Message
  fits_write_error : Message
  fits_created : Bytes → Message
  image_done : Bytes → Message
  series_done : ℤ → ℤ → Message
  kinetic_done : ℤ → Message
  -- Of the cooling, with the temperature.
  cooling_begun : ℤ → Message
  cooling_target_error : Status → ℤ → Message
  cooling_cooler_error : Status → ℤ → Message
  cooling_progress : Status → ℤ → Message
  cooling_too_long : ℤ → Message
  cooling_done : ℤ → Message
  -- Of the daemon: a temperature that is refused, and the state of the camera, that of its cooling,
  -- and the temperature.
  invalid_command : Message
  status_report : Status → Status → ℤ → Message

pub data Event : Type 0 where
  call : Call → Event
  -- this_thread::sleep_for, in milliseconds
  sleep : ℕ → Event
  send : Message → Event
  -- get_aristarchos_headers(num_tries, headers)
  fetch_headers : ℤ → Event
  -- the connection to the telescope's server: `ClientSocket`, send, recv and close
  connect_fcc : Event
  send_fcc : Bytes → Event
  recv_fcc close_fcc : Event
  -- the thread of `abort_listener`; the shutdown of the socket with the number `abort_socket_fd`, where
  -- the flag of the answer says whether it reached the listener; and the wait for the thread
  spawn_listener shutdown_listener join_listener : Event
  -- the thread of a reporter, which ends when it can lock `g_mtx`
  spawn_reporter join_reporter : Event
  -- the thread of a `ThreadReporter`, with the milliseconds for an image and for the series, and the
  -- number of the image; it ends when `stop_reporting_thread` is set
  spawn_progress : ℤ → ℤ → ℤ → Event
  stop_progress : Bool → Event
  join_progress : Event
  -- g_mtx
  lock unlock : Event
  -- a read of `abort_set`, and of `sig_abort_set` and `sig_interrupt_set`
  read_abort_set read_sig_abort read_sig_interrupt : Event
  -- of the reporter: `try_lock` of g_mtx, the milliseconds since the series was started, and a message
  -- with the percentage
  try_lock read_elapsed : Event
  send_progress : ℤ → Event
  -- of the reporter of a series: the milliseconds since the image and since the series was started, the
  -- number of the current image, a new start of the image that lies so many milliseconds back, and a
  -- message that says whether the image is acquired, its number, and the percentages of the image and
  -- of the series
  read_series_times read_current_image : Event
  restart_image : ℤ → Event
  send_series : Bool → ℤ → ℤ → ℤ → Event
  -- of a ThreadReporter: stop_reporting_thread, acquisition_thread_finished, the milliseconds since the
  -- thread and since the acquisition was started, and a message with both percentages
  read_stop_reporting read_finished read_thread_times : Event
  send_thread_progress : ℤ → ℤ → Event
  -- of the abort listener: abort_set, g_mtx_abort, abort_socket_fd, the condition variable, and the
  -- socket
  set_abort : Bool → Event
  lock_abort unlock_abort notify_abort : Event
  set_abort_fd : ℤ → Event
  listen_abort accept_abort receive_abort : Event
  -- the daemon's socket: `ServerSocket`, accept, and recv from the client; and the flag of "abort"
  listen accept receive : Event
  set_abort_exposure : Event
  -- whether the time is over that the function which asks has set itself
  read_clock : Event
  -- get_next_fits_filename, and the calls of cfitsio behind `FitsImage`
  next_fits_filename : Event
  create_fits : Bytes → Event
  write_fits : ℤ → ℤ → Event
  apply_fits_headers : List FitsHeader → Event
  close_fits : Event

-- What an event answers; each reads the parts that its function fills.
pub record Reply : Type 0 where
  pub status : Status
  pub flag : Bool
  pub int1 : ℤ
  pub int2 : ℤ
  pub float1 : Float
  pub float2 : Float
  pub float3 : Float
  pub text : Bytes
  pub headers : List FitsHeader

abbrev pub History : Type 0
History = List Event

abbrev pub Environment : Type 0
Environment = History → Event → Reply

abbrev pub M {ℓ} : Type ℓ → Type ℓ
M A = Environment → History → A × History

infixl 5 ◌>>=◌ ◌>>◌
abbrev pub ◌>>=◌ {ℓ κ} : {A : Type ℓ} {B : Type κ} → M A → (A → M B) → M B
◌>>=◌ m f env h = let (a, h') = m env h in f a env h'

abbrev pub ◌>>◌ {ℓ κ} : {A : Type ℓ} {B : Type κ} → M A → M B → M B
◌>>◌ m k = m >>= λ _. k

abbrev pub ret {ℓ} : {A : Type ℓ} → A → M A
ret a env h = (a, h)

abbrev pub perform : Event → M Reply
perform e env h = (env h e, e ∷ h)

-- A call of the driver, for its status.
abbrev pub driver : Call → M Status
driver c env h = ((env h (call c)).status, call c ∷ h)

-- A chain of calls that goes on while they succeed.
infixr 6 ◌and_then◌
abbrev pub ◌and_then◌ : M Status → M Status → M Status
◌and_then◌ m k = m >>= λ s. if is_success s then k else ret s
