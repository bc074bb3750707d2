-- ===== src/Driver/Messages.antt =====
-- The texts of the messages, and which of them tell the client that its command is over.
use andor2k.Base.{ℕ, ◌+◌, ◌≡◌, refl, Bool, true, false, [], ◌∷◌, if◌then◌else◌}
use andor2k.Base.Text.{Bytes, codes, starts_with}
use andor2k.Driver.{
  Message, start_error, start_error_series, aborted_by_user, wait_error, series_aborted_by_user,
  series_wait_error, series_data_error, data_error, recent_image_error, data_acquired,
  fits_name_error, fits_write_error, fits_created, image_done, series_done, kinetic_done,
  cooling_begun, cooling_target_error, cooling_cooler_error, cooling_progress, cooling_too_long,
  cooling_done, invalid_command, status_report, Event, History, send,
}

-- The format, up to its first argument.
abbrev pub text_of : Message → Bytes
text_of start_error = codes "done;error:1;info:start acquisition error ("
text_of (start_error_series _) = codes "done;error:"
text_of (aborted_by_user _) = codes "done;status:unfinished (abort called by user);error:"
text_of (wait_error _) = codes "done;status:failed/error while waiting acquisition;error:"
text_of (series_aborted_by_user _ _ _) = codes "done;status:unfinished "
text_of (series_wait_error _ _ _) = codes "done;status:failed/error "
text_of (series_data_error _ _ _) = codes "done;status:failed/error image "
text_of (data_error _) = codes "done;status:error (failed getting acquired data, "
text_of (recent_image_error _) = codes "done;error:10;status:error;error:"
text_of data_acquired = codes "info:image data acquired;status:saving to FITS ...;image:1/1;time:"
text_of fits_name_error = codes "done;status:error saving FITS file;error:"
text_of fits_write_error = codes "done;error:1;status:error while saving to FITS;error:"
text_of (fits_created _) = codes "info:image saved to FITS;status:FITS file created "
text_of (image_done _) = codes "done;error:0;info:FITS "
text_of (series_done _ _) = codes "done;error:0;info:exposure series ok;status:acquired and saved "
text_of (kinetic_done _) = codes "done;error:0;info:images acquired and saved "
text_of (cooling_begun _) = codes "ctemp:"
text_of (cooling_target_error _ _) = codes "done;error:"
text_of (cooling_cooler_error _ _) = codes "done;error:"
text_of (cooling_progress _ _) = codes "ctemp:"
text_of (cooling_too_long _) = codes "done;error:"
text_of (cooling_done _) = codes "done;ctemp:"
text_of invalid_command = codes "done;error:1;status:Invalid command!"
text_of (status_report _ _ _) = codes "status:"

-- A client reads messages until one begins with "done".
abbrev pub is_done : Message → Bool
is_done data_acquired = false
is_done (fits_created _) = false
is_done (cooling_begun _) = false
is_done (cooling_progress _ _) = false
is_done (status_report _ _ _) = false
is_done _ = true

is_done_lem : (m : Message) → is_done m ≡ starts_with (codes "done") (text_of m)
unfolding starts_with
is_done_lem data_acquired = refl
is_done_lem _ = refl

-- How many of the messages sent say that the command is over.
abbrev pub dones_of : Event → ℕ
dones_of (send m) = if is_done m then 1 else 0
dones_of _ = 0

abbrev pub dones : History → ℕ
dones [] = 0
dones (e ∷ h) = dones_of e + dones h
