-- ===== src/OneAction/Zdy/Endless.antt =====
-- api-one-action/zdy-doors/zdy.go: a retry that allows further retries.
use focot_services.Prelude.{
  Text, ℕ, zero, suc, ◌≡◌, refl, Bool, true, false, ◌&&◌, Option, List, arith,
}
use focot_services.OneAction.Zdy.{
  RequestOption, Reply, not_sent, not_read, null_reply, replied, returned, unfinished, Service,
  is_empty, is_code, inject, State, after_reply, inject_and_send, request_body, refresh_token,
  do_request,
}
use focot_services.OneAction.Zdy.Retries.{is_expired}

module _ (S : Service) where
  -- A service that accepts every login, but says of every token that it has expired.
  pub record IsStale (method url : Text) : Type 0 where
    pub expires :
        (form : Option (List (Text × Text))) (w : S.World)
        → is_expired (S.send method url form w).0 ≡ true
    pub logs_in : (s : State S) → (t : Text) × ((refresh_token S s).0 ≡ returned t)
    pub has_token : (s : State S) → is_empty (refresh_token S s).1.token ≡ false

  -- With a service that accepts every login and hands out a token, but says of each request with one
  -- method and url that the token has expired, `doRequest` of these never ends, whatever the fuel. This
  -- is for a request that may refresh, with a token from the start.
  pub do_request_endless :
      (method url : Text)
      → IsStale method url
      → (fuel : ℕ) (o : RequestOption) (form : Option (List (Text × Text))) (s : State S)
      → o.auto_refresh ≡ true
      → is_empty s.token ≡ false
      → (do_request S fuel method url o form s).0 ≡ unfinished
  unfolding do_request request_body inject_and_send after_reply
  do_request_endless method url stale zero o form s may held = refl
  do_request_endless method url stale (suc fuel) o form s may held =
      on_sent (S.send method url (inject s.token form) s.world) refl
        (stale.expires (inject s.token form) s.world)
        (λ check form u held.
          do_request_endless method url stale fuel
            (record { check_err_code = check; auth = true; auto_refresh = true }) form u refl held)
    where
      on_sent :
          (sent : Reply × S.World)
          → S.send method url (inject s.token form) s.world ≡ sent
          → is_expired (S.send method url (inject s.token form) s.world).0 ≡ true
          → ((check : Bool) (form : Option (List (Text × Text))) (u : State S)
              → is_empty u.token ≡ false
              → (do_request S fuel method url
                  (record { check_err_code = check; auth = true; auto_refresh = true })
                  form
                  u).0
                ≡ unfinished)
          → (do_request S (suc fuel) method url o form s).0 ≡ unfinished
      on_sent (replied r, w) e old again =
          let expired : is_code 2 r.code ≡ true = rw e at old in
          let stay : (o.auth && is_empty s.token) ≡ false = ground arith in
          let (t, logged) = stale.logs_in (record s { world = w }) in
          rw (do_request, request_body, stay, inject_and_send, e, expired, may, logged)
            (again o.check_err_code _ _ (stale.has_token (record s { world = w })))
      on_sent (not_sent, w) e old again = absurd (let no : false ≡ true = rw e at old in cc)
      on_sent (not_read, w) e old again = absurd (let no : false ≡ true = rw e at old in cc)
      on_sent (null_reply, w) e old again = absurd (let no : false ≡ true = rw e at old in cc)
