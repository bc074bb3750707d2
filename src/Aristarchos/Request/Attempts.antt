-- ===== src/Aristarchos/Request/Attempts.antt =====
-- How often src/aristarchos.cpp connects to the telescope's server.
use andor2k.Base.{
  ◌*◌, ℕ, zero, suc, ◌+◌, ◌≤◌, ◌≡◌, ◌≢◌, ◌∙◌, refl, ap, Bool, true, false, List, [], ◌∷◌, Option,
  none, some, arith, if◌then◌else◌, ℤ, pos, Bool-cases, Option-cases, inl, inr,
}
use andor2k.Base.Text.{Bytes}
use andor2k.Headers.{FitsHeader}
use andor2k.Driver.{Event, History, Environment, connect_fcc, send_fcc}
use andor2k.Aristarchos.{Parsed, resolved, unresolved, overrun}
use andor2k.Aristarchos.Request.{
  header_text, text_or, close_fcc, ret, sleep, AristrachosCommand, cmd_sequence, give_up, get_reply,
  send_command, send_commands, connect_and_send, request_tries, send_request_header_sequence,
  header_tries, parsed_status, extract_headers, get_aristarchos_headers,
}

abbrev connects_of : Event → ℕ
connects_of connect_fcc = 1
connects_of _ = 0

-- The connections that were tried.
abbrev pub connects : History → ℕ
connects [] = 0
connects (e ∷ h) = connects_of e + connects h

get_reply-connects :
    (w : ℕ) (env : Environment) (h : History) → connects (get_reply w env h).1 ≡ connects h
unfolding get_reply give_up
get_reply-connects w env h = ground arith

send_command-connects :
    (cmd : AristrachosCommand) (env : Environment) (h : History)
    → connects (send_command cmd env h).1 ≡ connects h
unfolding send_command give_up
send_command-connects cmd env h = ground (
  arith,
  get_reply-connects cmd.wait_reply env (sleep (cmd.sleep_after * 1000) ∷ send_fcc cmd.command ∷ h),
)

-- What follows a command.
rest-connects :
    (cmds : List AristrachosCommand) (env : Environment) (n : ℕ) (r : (Bool × Bytes) × History)
    → ((header : Bytes) (h : History) → connects (send_commands cmds header env h).1 ≡ connects h)
    → connects r.1 ≡ n
    → connects ((if r.0.0 then ret (true, r.0.1) else send_commands cmds r.0.1) env r.1).1 ≡ n
rest-connects cmds env n ((true, header), h) rest e = e
rest-connects cmds env n ((false, header), h) rest e = rest header h ∙ e

send_commands-connects :
    (cmds : List AristrachosCommand) (header : Bytes) (env : Environment) (h : History)
    → connects (send_commands cmds header env h).1 ≡ connects h
unfolding send_commands
send_commands-connects [] header env h = refl
send_commands-connects (cmd ∷ cmds) header env h =
    rest-connects cmds env (connects h) (send_command cmd env h)
      (λ header' h'. send_commands-connects cmds header' env h') (send_command-connects cmd env h)

-- A try connects once, and leaves no error.
connect_and_send-one :
    (header : Bytes) (env : Environment) (h : History)
    → (header' : Bytes) × (h' : History) × (connect_and_send header env h ≡ ((false, header'), h'))
      × (connects h' ≡ suc (connects h))
unfolding connect_and_send
connect_and_send-one header env h = elim (Bool-cases (env h connect_fcc).flag) [
  | inl t ↦
      let r = send_commands cmd_sequence header env (connect_fcc ∷ h) in
      let e = send_commands-connects cmd_sequence header env (connect_fcc ∷ h) in
      (r.0.1, close_fcc ∷ r.1, rw (t, connect_and_send) refl, omega (arith, e))
  | inr f ↦ (header, connect_fcc ∷ h, rw (f, connect_and_send) refl, omega arith)
]

request_tries_done :
    (left : ℕ) (header : Bytes) (env : Environment) (h : History)
    → (request_tries left false header env h) ≡ ((false, header), h)
unfolding request_tries
request_tries_done zero header env h = refl
request_tries_done (suc left) header env h = refl

request_tries-one :
    (left : ℕ) (header : Bytes) (env : Environment) (h : History)
    → (header' : Bytes) × (h' : History) × (request_tries (suc left) true header env h
        ≡ ((false, header'), h'))
      × (connects h' ≡ suc (connects h))
unfolding request_tries
request_tries-one left header env h =
    let (header', h', e, one) = connect_and_send-one header env h in
    (
      header',
      sleep 200 ∷ h',
      ap (λ r. request_tries left r.0.0 r.0.1 env (sleep 200 ∷ r.1)) e
          ∙ request_tries_done left header' env (sleep 200 ∷ h'),
      omega (arith, one),
    )

-- Where at least one try is allowed, the exchange with the server connects exactly once, whatever the
-- server answers and even if there is no connection, and its result is not the null pointer.
pub send_request-one :
    (n : ℕ) (header : Bytes) (env : Environment) (h : History)
    → (header' : Bytes) × (h' : History) × (send_request_header_sequence (pos (suc n)) header env h
        ≡ (some header', h'))
      × (connects h' ≡ suc (connects h))
unfolding send_request_header_sequence
send_request-one n header env h =
    let (header', h', e, one) = request_tries-one n header env h in
    (header', h', ap (λ r. (if r.0.0 then none else some r.0.1, r.1)) e, one)

-- What the tries for a header text do.
header_tries-connects :
    (decompress : Bytes → Option Bytes) (n left : ℕ) (env : Environment) (h : History)
    → (k : ℕ) × (r : Option Bytes) × (h' : History) × (header_tries decompress
          (pos (suc n))
          left
          env
          h
        ≡ (r, h'))
      × (connects h' ≡ k + connects h)
      × (k ≤ left)
      × (1 ≤ left → 1 ≤ k)
      × (r ≡ none → k ≡ left)
unfolding header_tries
header_tries-connects decompress n zero env h =
    (0, none, h, refl, omega arith, omega arith, λ z. z, λ _. refl)
header_tries-connects decompress n (suc left) env h =
    let (raw, h', e, one) = send_request-one n [] env h in
    let again = header_tries decompress (pos (suc n)) left in
    let step : header_tries decompress (pos (suc n)) (suc left) env h
        ≡ text_or again (header_text decompress (some raw)) env h' =
      ap (λ r. text_or again (header_text decompress r.0) env r.1) e in
    elim (Option-cases (header_text decompress (some raw))) [
      | inl refused ↦
          let (k, r, h'', e', more, le, _, all) = header_tries-connects decompress n left env h' in
          (
            suc k,
            r,
            h'',
            step ∙ ap (λ d. text_or again d env h') refused ∙ e',
            omega (arith, more, one),
            omega (arith, le),
            λ _. omega arith,
            λ z. ap suc (all z),
          )
      | inr (text, decoded) ↦ (
        1,
        some text,
        h',
        step ∙ ap (λ d. text_or again d env h') decoded,
        omega (arith, one),
        omega arith,
        λ _. omega arith,
        λ z. cc,
      )
    ]

parsed_status_tried : (p : Parsed) → parsed_status p ≢ some (pos 1, [])
unfolding parsed_status
parsed_status_tried (resolved hs) e = cc
parsed_status_tried (unresolved hs) e = cc
parsed_status_tried overrun e = cc

extract_headers_failed :
    (stale : Bytes) (r : Option Bytes) → extract_headers stale r ≡ some (pos 1, []) → r ≡ none
unfolding extract_headers
extract_headers_failed stale none e = refl
extract_headers_failed stale (some text) e = absurd (parsed_status_tried _ e)

-- Where at least one try is allowed, getting the headers connects to the server between once and that
-- many times, and where the status 1 tells of a failure, it has connected exactly that many times.
pub get_aristarchos_headers-connects :
    (decompress : Bytes → Option Bytes) (stale : Bytes) (n : ℕ) (env : Environment) (h : History)
    → (k : ℕ) × (r : Option (ℤ × List FitsHeader)) × (h' : History) × (get_aristarchos_headers
          decompress stale
          (pos (suc n))
          env
          h
        ≡ (r, h'))
      × (connects h' ≡ k + connects h)
      × (1 ≤ k)
      × (k ≤ suc n)
      × (r ≡ some (pos 1, []) → k ≡ suc n)
unfolding get_aristarchos_headers
get_aristarchos_headers-connects decompress stale n env h =
    let (k, r, h', e, more, le, some_try, all) = header_tries-connects decompress n (suc n) env h in
    (
      k,
      extract_headers stale r,
      h',
      ap (λ t. (extract_headers stale t.0, t.1)) e,
      more,
      some_try (omega arith),
      le,
      λ failed. all (extract_headers_failed stale r failed),
    )
