-- ===== src/Daemon/Power.antt =====
-- How the daemon of bin/andor2kd.cpp ends, and what state it leaves the camera in.
use andor2k.Base.{
  ◌∷◌, ℕ, zero, suc, ◌≡◌, ◌∙◌, refl, sym, ap, Bool, true, false, some, none, Option, arith, ◌==◌,
  if◌then◌else◌, pos, ltb_ℤ, leb_ℤ, Bool-cases, inl, inr, Option-cases,
}
use andor2k.Params.{Platform, AndorParameters, set_defaults}
use andor2k.Driver.{
  ◌>>=◌, ◌>>◌, perform, ret, Environment, History, M, call, listen, accept, initialize, sleep,
  is_success, shut_down,
}
use andor2k.Cooling.{cool_to_temperature, system_shutdown}
use andor2k.Cooling.Ends.{system_shutdown_last}
use andor2k.Daemon.{
  Answer, chat, Served, shutdown_received, not_accepted, running, after_chat, serve, finish,
  after_serving, run_service, after_cooling, cool_and_run, main, initialize_to_temp,
}

-- The last thing that was done.
abbrev pub is_shut_down : History → Bool
is_shut_down (call shut_down ∷ h) = true
is_shut_down _ = false

abbrev pub is_accept : History → Bool
is_accept (accept ∷ h) = true
is_accept _ = false

-- What a status of the daemon says of the last thing that was done.
abbrev Ends : M Answer → Type 0
Ends m =
    (env : Environment) (h : History) (c : ℕ)
    → (m env h).0 ≡ some (pos c)
    → (c ≡ 0 → is_shut_down (m env h).1 ≡ true) × (c ≡ 1 → is_accept (m env h).1 ≡ true)

finish-Ends : Ends finish
unfolding finish
finish-Ends env h c e = elim (Option-cases (system_shutdown env h).0) [
  | inl n ↦
      absurd (let z : (finish env h).0 ≡ none = rw (n, finish) refl in let both = sym z ∙ e in cc)
  | inr (u, s) ↦
      let z : (finish env h).0 ≡ some (pos 0) = rw (s, finish) refl in
      let zero_status = sym z ∙ e in
      let (h', last) = system_shutdown_last env h (λ n. let both = sym s ∙ n in cc) in
      (λ _. ap is_shut_down last, λ one. absurd (ground (arith, zero_status, one)))
]

-- A status that is neither 0 nor 1 says nothing.
other-Ends : (n : ℕ) → Ends (λ env h. (some (pos (suc (suc n))), h))
other-Ends n env h c e = (λ z. absurd (ground (arith, e, z)), λ z. absurd (ground (arith, e, z)))

chosen_not_accepted :
    (b : Bool) (m : M Served) (env : Environment) (h : History)
    → ((m env h).0 ≡ not_accepted → is_accept (m env h).1 ≡ true)
    → ((if b then m else ret shutdown_received) env h).0 ≡ not_accepted
    → is_accept ((if b then m else ret shutdown_received) env h).1 ≡ true
chosen_not_accepted true m env h rest e = rest e
chosen_not_accepted false m env h rest e = absurd (cc)

Ends-if : (b : Bool) (x y : M Answer) → Ends x → Ends y → Ends (if b then x else y)
Ends-if true x y ex ey = ex
Ends-if false x y ex ey = ey

after_chat_not_accepted :
    (more : AndorParameters → M Served) (r : Answer × AndorParameters) (env : Environment)
    (h : History)
    → ((p : AndorParameters) (h' : History)
        → (more p env h').0 ≡ not_accepted
        → is_accept (more p env h').1 ≡ true)
    → (after_chat more r env h).0 ≡ not_accepted
    → is_accept (after_chat more r env h).1 ≡ true
unfolding after_chat
after_chat_not_accepted more (none, p) env h rest e = absurd (cc)
after_chat_not_accepted more (some a, p) env h rest e =
    chosen_not_accepted (leb_ℤ (pos 0) a) (more p) env h (rest p h) e

serve_not_accepted :
    (clients messages rounds : ℕ) (pf : Platform) (p : AndorParameters) (env : Environment)
    (h : History)
    → (serve clients messages rounds pf p env h).0 ≡ not_accepted
    → is_accept (serve clients messages rounds pf p env h).1 ≡ true
unfolding serve
serve_not_accepted zero messages rounds pf p env h e = absurd (cc)
serve_not_accepted (suc clients) messages rounds pf p env h e =
    let more = serve clients messages rounds pf in
    let r = chat messages rounds pf p env (accept ∷ h) in
    elim (Bool-cases (ltb_ℤ (env h accept).int1 (pos 0))) [
      | inl t ↦ rw (t, serve) refl
      | inr f ↦
          let step : serve (suc clients) messages rounds pf p env h ≡ after_chat more r.0 env r.1 =
            rw (f, serve) refl in
          rw (f, serve)
            (after_chat_not_accepted more r.0 env r.1
              (λ p' h'. serve_not_accepted clients messages rounds pf p' env h')
              (sym (ap (λ s. s.0) step) ∙ e))
    ]

-- What follows the loop over the clients.
after_serving-Ends :
    (s : Served) (env : Environment) (h : History) (c : ℕ)
    → (s ≡ not_accepted → is_accept h ≡ true)
    → (after_serving s env h).0 ≡ some (pos c)
    → (c ≡ 0 → is_shut_down (after_serving s env h).1 ≡ true)
      × (c ≡ 1 → is_accept (after_serving s env h).1 ≡ true)
unfolding after_serving
after_serving-Ends shutdown_received env h c a e = finish-Ends env h c e
after_serving-Ends not_accepted env h c a e = (λ z. absurd (ground (arith, e, z)), λ z. a refl)
after_serving-Ends running env h c a e = absurd (cc)

module _ (clients messages rounds : ℕ) (pf : Platform) (p : AndorParameters) where
  run_service-Ends : Ends (run_service clients messages rounds pf p)
  unfolding run_service
  run_service-Ends env h c e =
      Ends-if (env h listen).flag (serve clients messages rounds pf p >>= after_serving) finish
        (λ env' h' c' e'.
          let r = serve clients messages rounds pf p env' h' in
          after_serving-Ends r.0 env' r.1 c'
            (serve_not_accepted clients messages rounds pf p env' h') e')
        finish-Ends env (listen ∷ h) c e

  after_cooling-Ends :
      (service : M Answer) (r : Option ℕ) → Ends service → Ends (after_cooling service r)
  unfolding after_cooling
  after_cooling-Ends service none s env h c e = absurd (cc)
  after_cooling-Ends service (some d) s env h c e =
      Ends-if (d == 0) service (ret (some (pos 10))) s (other-Ends 8) env h c e

  cool_and_run-Ends : Ends (cool_and_run clients messages rounds pf p)
  unfolding cool_and_run
  cool_and_run-Ends env h c e =
      let service = run_service clients messages rounds pf p in
      let init = call (initialize p.initialization_dir) in
      Ends-if (is_success (env h init).status)
        (perform (sleep 2000)
          >> (cool_to_temperature false initialize_to_temp >>= after_cooling service))
        (ret (some (pos 10)))
        (λ env' h' c' e'.
          let r = cool_to_temperature false initialize_to_temp env' (sleep 2000 ∷ h') in
          after_cooling-Ends service r.0 run_service-Ends env' r.1 c' e')
        (other-Ends 8) env (init ∷ h) c e

-- When the daemon returns 0, the last thing that it has done is the driver's ShutDown. When it returns
-- 1, the last thing is an accept, so that it has not shut the camera down since.
pub main-Ends :
    (clients messages rounds : ℕ) (pf : Platform) (blank : AndorParameters) (env : Environment)
    (h : History) (c : ℕ)
    → (main clients messages rounds pf blank env h).0 ≡ some (pos c)
    → (c ≡ 0 → is_shut_down (main clients messages rounds pf blank env h).1 ≡ true)
      × (c ≡ 1 → is_accept (main clients messages rounds pf blank env h).1 ≡ true)
unfolding main set_defaults
main-Ends clients messages rounds pf blank env h c e =
    cool_and_run-Ends clients messages rounds pf (set_defaults blank) env h c e
