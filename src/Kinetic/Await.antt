-- ===== src/Kinetic/Await.antt =====
-- wait_for_acquisition of src/get_acquisition.cpp, which a thread may run while another reports.
use andor2k.Base.{ℕ, ◌≡◌, refl, ◌∷◌, Bool, true, if◌then◌else◌, Bool-cases, inl, inr}
use andor2k.Driver.{
  M, ◌>>=◌, ◌>>◌, ret, driver, call, Environment, History, is_success, wait_for_acquisition,
  abort_acquisition,
}

-- The variables that it leaves: `status`, `stop_reporting_thread`, `acquisition_thread_finished`.
record Waited : Type 0 where
  status : ℕ
  stop_reporting_thread : Bool
  acquisition_thread_finished : Bool

-- The status is set to 0 after that of the failed wait.
abbrev waited : Waited
waited = record { status = 0; stop_reporting_thread = true; acquisition_thread_finished = true }

await_acquisition : M Waited
await_acquisition = do
  s ← driver wait_for_acquisition
  if is_success s then ret waited else (do driver abort_acquisition; ret waited)

-- A wait that fails is followed by AbortAcquisition, and one that does not fail is not; what is left in
-- the variables is the same, so that they do not tell the two apart.
await_acquisition_lem :
    (env env' : Environment) (h : History)
    → ((await_acquisition env h).0 ≡ (await_acquisition env' h).0)
      × ((await_acquisition env h).1 ≡ (
          if is_success (env h (call wait_for_acquisition)).status
          then call wait_for_acquisition ∷ h
          else call abort_acquisition ∷ call wait_for_acquisition ∷ h))
unfolding await_acquisition
await_acquisition_lem env env' h =
    let s = (env h (call wait_for_acquisition)).status in
    let s' = (env' h (call wait_for_acquisition)).status in
    elim (Bool-cases (is_success s)) [
      | inl t ↦ elim (Bool-cases (is_success s')) [
        | inl t' ↦ rw (t, t', await_acquisition) (refl, refl)
        | inr f' ↦ rw (t, f', await_acquisition) (refl, refl)
      ]
      | inr f ↦ elim (Bool-cases (is_success s')) [
        | inl t' ↦ rw (f, t', await_acquisition) (refl, refl)
        | inr f' ↦ rw (f, f', await_acquisition) (refl, refl)
      ]
    ]
