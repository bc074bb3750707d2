-- ===== src/Daemon/Settings.antt =====
-- set_param_value of bin/andor2kd.cpp: the command "setparam" with its values, as a change of the
-- parameters. What is printed is left out.
pub mod Targets
use andor2k.Base.{
  ℕ, ◌%◌, ◌-◌, ◌^◌, Bool, true, false, ◌||◌, not, List, [], ◌∷◌, Option, none, some, ltb,
  if◌then◌else◌, length, drop, ℤ, pos, negsuc, ltb_ℤ, leb_ℤ, eqb_ℤ,
}
use andor2k.Base.Text.{Bytes, codes, starts_with, tokens, strtol}
use andor2k.Params.{
  Platform, Float, AndorParameters, AcquisitionMode, single_scan, accumulate, kinetic_series,
  fast_kinetics, run_till_abort, unnamed,
}
use andor2k.ImageCommand.{int_of}
use andor2k.Driver.{
  M, ◌>>=◌, ret, perform, driver, is_success, call, get_number_hs_speeds, get_hs_speed,
  get_pre_amp_gain,
}

-- The conversion of an `int` to a `signed char`: the low 8 bits.
abbrev pub signed8 : ℕ → ℤ
signed8 w = if ltb w 128 then pos w else negsuc (255 - w)

abbrev pub to_int8 : ℤ → ℤ
to_int8 (pos n) = signed8 (n % 256)
to_int8 (negsuc n) = signed8 (255 - n % 256)

-- `static_cast<AcquisitionMode>(ival)`
pub int2acquisition_mode : ℤ → AcquisitionMode
int2acquisition_mode n =
    let m = to_int8 n in
    if eqb_ℤ m (pos 1)
    then single_scan
    else if eqb_ℤ m (pos 2)
    then accumulate
    else if eqb_ℤ m (pos 3)
    then kinetic_series
    else if eqb_ℤ m (pos 4)
    then fast_kinetics
    else if eqb_ℤ m (pos 5)
    then run_till_abort
    else unnamed m

-- What a token does: the function returns a status, or goes on; `overflow` where the name of the
-- observer does not fit its array.
pub data Setting : Type 0 where
  refused : ℕ → AndorParameters → Setting
  set_to : AndorParameters → Setting
  overflow : Setting

abbrev pub max_observer_name : ℕ
max_observer_name = 32

-- The number of a conversion; 0 where there is none. `end == token` never holds, since `end` is behind
-- the "=".
abbrev pub float_of : Option Float → Float
float_of none = 0
float_of (some x) = x

pub set_hsspeed : AndorParameters → ℤ → M Setting
set_hsspeed p ival = do
  speeds ← perform (call (get_number_hs_speeds (pos 0) (pos 0)))
  if is_success speeds.status
      then (if ltb_ℤ ival (pos 0) || leb_ℤ speeds.int1 ival then ret (refused 2 p) else (do
        s ← driver (get_hs_speed (pos 0) (pos 0) ival)
        ret (if is_success s then set_to (record p { hsspeed = ival }) else refused 2 p)))
      else ret (refused 2 p)

pub set_preampgain : AndorParameters → ℤ → M Setting
set_preampgain p ival = if ltb_ℤ ival (pos 0) || leb_ℤ (pos 3) ival then ret (refused 11 p) else (do
  s ← driver (get_pre_amp_gain ival)
  ret (if is_success s then set_to (record p { preampgain = ival }) else refused 1 p))

pub data ParamName : Type 0 where
  acqmode kineticcycletime observername hsspeed preampgain : ParamName

-- The chain of `strncmp` tests on a token, in its order, with what follows the "=".
pub param_of : Bytes → Option (ParamName × Bytes)
unfolding starts_with
param_of token =
    if starts_with (codes "acqmode=") token
    then some (acqmode, drop 8 token)
    else if starts_with (codes "kineticcycletime=") token
    then some (kineticcycletime, drop 17 token)
    else if starts_with (codes "observername=") token
    then some (observername, drop 13 token)
    else if starts_with (codes "hsspeed=") token
    then some (ParamName.hsspeed, drop 8 token)
    else if starts_with (codes "preampgain=") token
    then some (ParamName.preampgain, drop 11 token)
    else none

-- The branch of a token; any other is skipped.
pub set_param : Platform → AndorParameters → Option (ParamName × Bytes) → M Setting
unfolding strtol set_hsspeed set_preampgain int2acquisition_mode
set_param pf p none = ret (set_to p)
set_param pf p (some (acqmode, t)) =
    ret (set_to (record p { acquisition_mode = int2acquisition_mode (int_of (strtol t)) }))
set_param pf p (some (kineticcycletime, t)) =
    ret (set_to (record p { kinetics_cycle_time = float_of (pf.strtod t) }))
set_param pf p (some (observername, t)) =
    ret (
      if ltb (length t) max_observer_name
      then set_to (record p { observer_name = t })
      else overflow)
set_param pf p (some (ParamName.hsspeed, t)) = set_hsspeed p (pf.strtod_int t)
set_param pf p (some (ParamName.preampgain, t)) = set_preampgain p (pf.strtod_int t)

pub set_token : Platform → AndorParameters → Bytes → M Setting
unfolding param_of set_param
set_token pf p token = set_param pf p (param_of token)

-- The status with the parameters, which keep what was set before an error; `none` after an overflow.
pub after_token :
    (AndorParameters → M (Option (ℕ × AndorParameters)))
    → Setting
    → M (Option (ℕ × AndorParameters))
after_token more (refused c p) = ret (some (c, p))
after_token more (set_to p) = more p
after_token more overflow = ret none

pub set_tokens : Platform → List Bytes → AndorParameters → M (Option (ℕ × AndorParameters))
unfolding set_token after_token
set_tokens pf [] p = ret (some (0, p))
set_tokens pf (token ∷ ts) p = set_token pf p token >>= after_token (set_tokens pf ts)

-- The first token is the command.
unfoldable pub set_param_value :
    Platform → Bytes → AndorParameters → M (Option (ℕ × AndorParameters))
unfolding starts_with tokens set_tokens
set_param_value pf command p =
    if starts_with (codes "setparam") command
    then set_tokens pf (drop 1 (tokens command)) p
    else ret (some (1, p))
