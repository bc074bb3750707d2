-- ===== src/Driver/Targets.antt =====
-- The temperatures that the camera is told to reach, which are to be within ANDOR_MIN_TEMP and
-- ANDOR_MAX_TEMP of src/andor2k.hpp.
use andor2k.Base.{◌≡◌, Bool, true, ◌&&◌, [], ◌∷◌, ℤ, pos, neg_ℕ, leb_ℤ}
use andor2k.Driver.{Event, History, Environment, M, ◌>>=◌, call, set_temperature}

abbrev pub andor_min_temp : ℤ
andor_min_temp = neg_ℕ 120

abbrev pub andor_max_temp : ℤ
andor_max_temp = pos 10

abbrev pub in_limits : ℤ → Bool
in_limits t = leb_ℤ andor_min_temp t && leb_ℤ t andor_max_temp

-- Whether the temperature of an event is within the limits.
abbrev pub is_safe : Event → Bool
is_safe (call (set_temperature t)) = in_limits t
is_safe _ = true

-- Every temperature of a history is within the limits.
abbrev pub all_safe : History → Bool
all_safe [] = true
all_safe (e ∷ h) = is_safe e && all_safe h

-- An action that tells the camera no other temperature.
abbrev pub IsSafe {ℓ} : {A : Type ℓ} → M A → Type 0
IsSafe m = (env : Environment) (h : History) → all_safe h ≡ true → all_safe (m env h).1 ≡ true

-- One action after another.
pub IsSafe->>= {ℓ κ} :
    {A : Type ℓ} {B : Type κ} (m : M A) (f : A → M B)
    → IsSafe m
    → ((a : A) → IsSafe (f a))
    → IsSafe (m >>= f)
IsSafe->>= m f first then env h q = then (m env h).0 env (m env h).1 (first env h q)
