-- ===== src/Statuses.antt =====
-- The names of the driver's statuses, in src/andor2k.cpp. Each is copied into a buffer of the caller
-- with room for MAX_STATUS_STRING_SIZE characters.
use andor2k.Base.{ℕ, ◌≡◌, Bool, true, ◌&&◌, not, [], ◌∷◌, length, ltb, ◌==◌, arith}
use andor2k.Base.Text.{Bytes, codes}
use andor2k.Driver.{
  Status, M, ◌>>=◌, ret, driver, get_status, idle, temp_cycle, acquiring, accum_time_not_met,
  kinetic_time_not_met, error_ack, acq_buffer, acq_downfifo_full, spool_error, success,
  not_initialized, p1_invalid, p2_invalid, p3_invalid, p4_invalid, no_new_data, vxd_not_installed,
  ini_error, error_pagelock, invalid_filter, binning_error, spool_setup_error, general_errors,
  temp_off, temp_not_reached, temp_drift, temp_not_stabilized, temp_stabilized,
}

abbrev pub max_status_string_size : ℕ
max_status_string_size = 128

unfoldable pub status_string : Status → Bytes
status_string idle = codes "IDLE, waiting for instructions"
status_string temp_cycle = codes "Executing temperature cycle"
status_string acquiring = codes "Acquisition in progress"
status_string accum_time_not_met = codes "Unable to meet Accumulate cycle time"
status_string kinetic_time_not_met = codes "Unable to meet Kinetic cycle time"
status_string error_ack = codes "Unable communicate with card"
status_string acq_buffer =
    codes "Computer unable to read the data via the ISA slot at the required rate"
status_string acq_downfifo_full =
    codes "Computer unable to read data fast enough to stop camera memory going full"
status_string spool_error = codes "Overflow of the spool buffer"
status_string _ = codes "Camera in unknown/undocumented state!"

unfoldable pub get_get_acquired_data_status_string : Status → Bytes
get_get_acquired_data_status_string success = codes "Data acquired successefully"
get_get_acquired_data_status_string acquiring = codes "Acquisition in progress"
get_get_acquired_data_status_string error_ack = codes "Unable to communicate with card"
get_get_acquired_data_status_string p1_invalid = codes "Invalid pointer"
get_get_acquired_data_status_string p2_invalid = codes "Array size is incorrect"
get_get_acquired_data_status_string no_new_data = codes "No acquisition has taken place"
get_get_acquired_data_status_string _ = codes "Undocumented error"

unfoldable pub get_start_acquisition_status_string : Status → Bytes
get_start_acquisition_status_string success = codes "Acquisition started"
get_start_acquisition_status_string not_initialized = codes "System not initialized"
get_start_acquisition_status_string acquiring = codes "Acquisition in progess"
get_start_acquisition_status_string vxd_not_installed = codes "VxX not loaded"
get_start_acquisition_status_string error_ack = codes "Unable to communicate with card"
get_start_acquisition_status_string ini_error = codes "Error reading 'DETECTOR.INI'"
get_start_acquisition_status_string error_pagelock = codes "Unable to allocate memory"
get_start_acquisition_status_string invalid_filter =
    codes "Filter not available for current acquisition"
get_start_acquisition_status_string binning_error = codes "Range not multiple of horizontal binning"
get_start_acquisition_status_string spool_setup_error = codes "Error with spool settings"
get_start_acquisition_status_string _ = codes "unknown/undocumented acquisition state!"

unfoldable pub get_get_images_string : Status → Bytes
get_get_images_string success = codes "GetImages succeded"
get_get_images_string not_initialized = codes "System not initialized!"
get_get_images_string error_ack = codes "Unable to communicate with card"
get_get_images_string general_errors = codes "The series is out of range"
get_get_images_string p3_invalid = codes "Invalid pointer"
get_get_images_string p4_invalid = codes "Array size incorrect"
get_get_images_string no_new_data = codes "There is no new data yet"
get_get_images_string _ = codes "unknown/undocumented acquisition state!"

unfoldable pub get_get_temperature_string : Status → Bytes
get_get_temperature_string not_initialized = codes "System not initialized!"
get_get_temperature_string acquiring = codes "Acquisition in progress"
get_get_temperature_string error_ack = codes "Unable to communicate with card"
get_get_temperature_string temp_off = codes "Temperature is off"
get_get_temperature_string temp_not_reached = codes "Temperature has not reached set point"
get_get_temperature_string temp_drift = codes "Temperature had stabilised but has since drifted"
get_get_temperature_string temp_not_stabilized = codes "Temperature reached but not stabilized"
get_get_temperature_string temp_stabilized = codes "Temperature has stabilized at set point"
get_get_temperature_string _ = codes "unknown/undocumented acquisition state!"

-- The name of the state that the driver gives.
pub get_status_string : M Bytes
unfolding status_string
get_status_string = do s ← driver get_status; ret (status_string s)

-- A part of a message to the client, which splits it at each ';'.
abbrev pub is_field : Bytes → Bool
is_field [] = true
is_field (c ∷ t) = not (c == b';') && is_field t

-- Each name fits its buffer with the null character, and is one field of a message.
abbrev pub is_name : Bytes → Bool
is_name t = ltb (length t) max_status_string_size && is_field t

-- For every status of the driver, each of the five names fits its buffer with the null character and
-- has no ';', at which a client splits a message.
pub names_are_fields :
    (s : Status)
    → (is_name (status_string s) ≡ true)
      × (is_name (get_get_acquired_data_status_string s) ≡ true)
      × (is_name (get_start_acquisition_status_string s) ≡ true)
      × (is_name (get_get_images_string s) ≡ true)
      × (is_name (get_get_temperature_string s) ≡ true)
unfolding status_string get_get_acquired_data_status_string get_start_acquisition_status_string
    get_get_images_string get_get_temperature_string
names_are_fields s = (ground arith, ground arith, ground arith, ground arith, ground arith)
