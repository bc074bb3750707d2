-- ===== src/Daemon/Settings/Targets.antt =====
-- The command "setparam" of bin/andor2kd.cpp tells the camera no temperature.
use andor2k.Base.{List, [], ◌∷◌, some, none, Option, arith, ℕ, ℤ, Bool-cases, inl, inr, drop}
use andor2k.Base.Text.{Bytes, codes, starts_with, tokens}
use andor2k.Params.{Platform, AndorParameters}
use andor2k.Driver.{M}
use andor2k.Driver.Targets.{IsSafe}
use andor2k.Daemon.Settings.{
  ParamName, acqmode, kineticcycletime, observername, param_of, set_param, Setting, refused, set_to,
  overflow, set_hsspeed, set_preampgain, set_token, after_token, set_tokens, set_param_value,
}

set_hsspeed-IsSafe : (p : AndorParameters) (i : ℤ) → IsSafe (set_hsspeed p i)
unfolding set_hsspeed
set_hsspeed-IsSafe p i env h q = ground arith

set_preampgain-IsSafe : (p : AndorParameters) (i : ℤ) → IsSafe (set_preampgain p i)
unfolding set_preampgain
set_preampgain-IsSafe p i env h q = ground arith

set_param-IsSafe :
    (pf : Platform) (p : AndorParameters) (t : Option (ParamName × Bytes))
    → IsSafe (set_param pf p t)
unfolding set_param
set_param-IsSafe pf p none env h q = q
set_param-IsSafe pf p (some (acqmode, t)) env h q = q
set_param-IsSafe pf p (some (kineticcycletime, t)) env h q = q
set_param-IsSafe pf p (some (observername, t)) env h q = q
set_param-IsSafe pf p (some (ParamName.hsspeed, t)) env h q =
    set_hsspeed-IsSafe p (pf.strtod_int t) env h q
set_param-IsSafe pf p (some (ParamName.preampgain, t)) env h q =
    set_preampgain-IsSafe p (pf.strtod_int t) env h q

set_token-IsSafe :
    (pf : Platform) (p : AndorParameters) (token : Bytes) → IsSafe (set_token pf p token)
unfolding set_token
set_token-IsSafe pf p token env h q = set_param-IsSafe pf p (param_of token) env h q

after_token-IsSafe :
    (more : AndorParameters → M (Option (ℕ × AndorParameters))) (s : Setting)
    → ((p : AndorParameters) → IsSafe (more p))
    → IsSafe (after_token more s)
unfolding after_token
after_token-IsSafe more (refused c p) rest env h q = q
after_token-IsSafe more (set_to p) rest env h q = rest p env h q
after_token-IsSafe more overflow rest env h q = q

set_tokens-IsSafe :
    (pf : Platform) (ts : List Bytes) (p : AndorParameters) → IsSafe (set_tokens pf ts p)
unfolding set_tokens
set_tokens-IsSafe pf [] p env h q = q
set_tokens-IsSafe pf (t ∷ ts) p env h q =
    let r = set_token pf p t env h in
    after_token-IsSafe (set_tokens pf ts) r.0 (set_tokens-IsSafe pf ts) env r.1
      (set_token-IsSafe pf p t env h q)

pub set_param_value-IsSafe :
    (pf : Platform) (command : Bytes) (p : AndorParameters) → IsSafe (set_param_value pf command p)
unfolding set_param_value
set_param_value-IsSafe pf command p env h q =
    elim (Bool-cases (starts_with (codes "setparam") command)) [
      | inl t ↦ rw (t, set_param_value) (set_tokens-IsSafe pf (drop 1 (tokens command)) p env h q)
      | inr f ↦ rw (f, set_param_value) q
    ]
