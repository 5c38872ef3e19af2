-- ===== src/OneAction/Zdy/Retries.antt =====
-- api-one-action/zdy-doors/zdy.go: how long `doRequest` goes on.
use focot_services.Prelude.{
  Bool-cases, Text, codes, ℕ, zero, suc, ◌≤◌, ◌<◌, ◌≡◌, refl, inl, inr, Bool, true, false, ◌&&◌,
  Option, none, some, List, ◌++◌, arith,
}
use focot_services.OneAction.Zdy.{
  CommonResponse, LoginResult, RequestOption, Reply, not_sent, not_read, null_reply, replied,
  Ending, returned, failed, panicked, unfinished, Service, srv_url, url_login, is_empty, is_code,
  inject, State, Op, on_end, Request, after_reply, inject_and_send, request_body, on_login,
  login_form, refresh_token, do_request,
}

abbrev pub is_unfinished : {A : Type 0} → Ending A → Bool
is_unfinished unfinished = true
is_unfinished (returned _) = false
is_unfinished (failed _) = false
is_unfinished (panicked _) = false

-- Whether the service says that the token has expired.
abbrev pub is_expired : Reply → Bool
is_expired (replied r) = is_code 2 r.code
is_expired other = false

module _ (S : Service) where
  -- A measure of how often a request will yet be told that its token has expired: no login raises
  -- it, and each such reply, together with the login that follows it, lowers it. A service that accepts
  -- the tokens from its logins has one, a service that declares every token expired has none.
  pub record IsPatient (method url : Text) (left : State S → ℕ) : Type 0 where
    pub keeps : (s : State S) → left (refresh_token S s).1 ≤ left s
    pub lowers :
        (form : List (Text × Text)) (s : State S)
        → let sent = S.send method url (inject s.token (some form)) s.world in
          is_expired sent.0 ≡ true → left (refresh_token S (record s { world = sent.1 })).1 < left s

  on_login_finishes : (r : CommonResponse) (s : State S) → is_unfinished (on_login S r s).0 ≡ false
  unfolding on_login
  on_login_finishes r s = by_read (S.read_login r.result) refl
    where
      by_read :
          (o : Option (Option LoginResult))
          → S.read_login r.result ≡ o
          → is_unfinished (on_login S r s).0 ≡ false
      by_read none e = rw (on_login, e) refl
      by_read (some none) e = rw (on_login, e) refl
      by_read (some (some res)) e = rw (on_login, e) refl

  -- A login is one request, which finishes.
  pub refresh_token_finishes : (s : State S) → is_unfinished (refresh_token S s).0 ≡ false
  unfolding refresh_token request_body inject_and_send after_reply
  refresh_token_finishes s =
      on_sent (S.send (codes "POST") (srv_url ++ url_login) (inject s.token (login_form S)) s.world)
        refl
    where
      on_sent :
          (sent : Reply × S.World)
          → S.send (codes "POST") (srv_url ++ url_login) (inject s.token (login_form S)) s.world
            ≡ sent
          → is_unfinished (refresh_token S s).0 ≡ false
      on_sent (not_sent, w) e = rw (refresh_token, request_body, inject_and_send, e) refl
      on_sent (not_read, w) e = rw (refresh_token, request_body, inject_and_send, e) refl
      on_sent (null_reply, w) e = rw (refresh_token, request_body, inject_and_send, e) refl
      on_sent (replied r, w) e =
          let off : (is_code 2 r.code && false) ≡ false = ground arith in
          elim (Bool-cases (is_code 0 r.code)) [
            | inl good ↦
                rw (refresh_token, request_body, inject_and_send, e, good, off)
                  (on_login_finishes r (record s { world = w }))
            | inr bad ↦ rw (refresh_token, request_body, inject_and_send, e, bad, off) refl
          ]

  -- What follows a login.
  after_refresh :
      (left : State S → ℕ) {A : Type 0} (k : Text → Op S A) (s : State S) (n : ℕ)
      → left (refresh_token S s).1 < n
      → ((t : Text) (u : State S) → left u < n → is_unfinished (k t u).0 ≡ false)
      → is_unfinished ((on_end S k (refresh_token S s).0 (refresh_token S s).1)).0 ≡ false
  after_refresh left k s n small next = by_end (refresh_token S s).0 (refresh_token_finishes s)
    where
      by_end :
          (e : Ending Text)
          → is_unfinished e ≡ false
          → is_unfinished (on_end S k e (refresh_token S s).1).0 ≡ false
      by_end (returned t) done = next t (refresh_token S s).1 small
      by_end (failed x) done = refl
      by_end (panicked f) done = refl
      by_end unfinished done = absurd (cc)

  inject_and_send_finishes :
      (method url : Text) (left : State S → ℕ)
      → IsPatient method url left
      → (again : Request S) (n : ℕ) (o : RequestOption) (form : List (Text × Text)) (s : State S)
      → left s < suc n
      → ((o : RequestOption) (form : List (Text × Text)) (u : State S)
          → left u < n
          → is_unfinished (again o (some form) u).0 ≡ false)
      → is_unfinished (inject_and_send S (refresh_token S) again method url o (some form) s).0
        ≡ false
  unfolding inject_and_send after_reply
  inject_and_send_finishes method url left patient again n o form s small next =
      on_sent (S.send method url (inject s.token (some form)) s.world) refl (patient.lowers form s)
    where
      on_sent :
          (sent : Reply × S.World)
          → S.send method url (inject s.token (some form)) s.world ≡ sent
          → (let sent = S.send method url (inject s.token (some form)) s.world in
              is_expired sent.0 ≡ true
              → left (refresh_token S (record s { world = sent.1 })).1 < left s)
          → is_unfinished (inject_and_send S (refresh_token S) again method url o (some form) s).0
            ≡ false
      on_sent (not_sent, w) e lower = rw (inject_and_send, e) refl
      on_sent (not_read, w) e lower = rw (inject_and_send, e) refl
      on_sent (null_reply, w) e lower = rw (inject_and_send, e) refl
      on_sent (replied r, w) e lower = elim (Bool-cases (is_code 2 r.code && o.auto_refresh)) [
        | inl on ↦
            let less : is_code 2 r.code ≡ true
                → left (refresh_token S (record s { world = w })).1 < left s =
              rw e at lower in
            rw (inject_and_send, e, on)
              (after_refresh left _ (record s { world = w }) n
                (omega (arith, less (ground arith), small)) (λ t u fewer. next _ _ u fewer))
        | inr off ↦ rw (inject_and_send, e, off) (ground arith)
      ]

  pub do_request_finishes :
      (method url : Text) (left : State S → ℕ)
      → IsPatient method url left
      → (fuel : ℕ) (o : RequestOption) (form : List (Text × Text)) (s : State S) → left s < fuel
      → is_unfinished (do_request S fuel method url o (some form) s).0 ≡ false
  unfolding do_request request_body
  do_request_finishes method url left patient zero o form s enough = absurd (omega (arith, enough))
  do_request_finishes method url left patient (suc fuel) o form s enough =
      let next =
        λ (o : RequestOption) (form : List (Text × Text)) (u : State S) (fewer : left u < fuel).
          do_request_finishes method url left patient fuel o form u fewer in
      elim (Bool-cases (o.auth && is_empty s.token)) [
        | inl login ↦
            rw (do_request, request_body, login)
              (after_refresh left _ s (suc fuel) (omega (arith, patient.keeps s, enough))
                (λ t u fewer.
                  inject_and_send_finishes method url left patient (do_request S fuel method url)
                    fuel (record o { auto_refresh = false }) form u fewer next))
        | inr direct ↦
            rw (do_request, request_body, direct)
              (inject_and_send_finishes method url left patient (do_request S fuel method url) fuel
                o form s enough next)
      ]
