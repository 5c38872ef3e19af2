-- ===== src/Damaku/Agent/Start/Handshake.antt =====
-- io-bilive-damaku: how an agent that starts is set up by the center.
use focot_services.Prelude.{
  leb, if◌then◌else◌, Bool-cases, Text, codes, ℕ, suc, ◌+◌, ◌-◌, ◌≤◌, ◌≡◌, refl, sym, ap, ◌∙◌, inl,
  inr, Bool, true, false, ◌||◌, Option, none, some, List, [], ◌∷◌, ◌++◌, arith,
}
use focot_services.Prelude.Results.{ok}
use focot_services.Damaku.Cache.{Bytes}
use focot_services.Damaku.Center.Agents.{agent_initialization, has, with_bit, AgentStatus}
use focot_services.Damaku.Center.Manager.{ControlResponse, Link, control, three_seconds, init_visit}
use focot_services.Damaku.Agent.Start.{
  Global, AgentInit, init_msg, to_int64, set_headers, set_up, Boot, success, failure, BootEvent,
  ticked, received, on_init, boot_step, init_loop,
}

-- Whether a message settles the start: it can be read, and the queue takes the subscription.
abbrev pub settles : (Bytes → Option AgentInit) → BootEvent → Bool
settles decode ticked = false
settles decode (received bytes (some _)) = false
settles decode (received bytes none) = elim (decode bytes) [ none ↦ false | some _ ↦ true ]

abbrev pub any_settles : (Bytes → Option AgentInit) → List BootEvent → Bool
any_settles decode [] = false
any_settles decode (e ∷ events) = settles decode e || any_settles decode events

-- How many answers are a success.
abbrev pub successes : List ControlResponse → ℕ
successes [] = 0
successes (r ∷ replies) = if r.is_ok then suc (successes replies) else successes replies

successes-append :
    (xs ys : List ControlResponse) → successes (xs ++ ys) ≡ successes xs + successes ys
successes-append [] ys = omega arith
successes-append (x ∷ xs) ys = ground (arith, successes-append xs ys)

-- Whether the last answer is a success.
abbrev pub ends_well : List ControlResponse → Bool
ends_well [] = false
ends_well (r ∷ []) = r.is_ok
ends_well (r ∷ q ∷ replies) = ends_well (q ∷ replies)

ends_well-concat :
    (replies : List ControlResponse) (r : ControlResponse) → ends_well (replies ++ r ∷ []) ≡ r.is_ok
ends_well-concat [] r = refl
ends_well-concat (q ∷ []) r = refl
ends_well-concat (q ∷ p ∷ replies) r = ends_well-concat (p ∷ replies) r

-- A ready agent is subscribed and has answered one success, its last answer; another is not and has
-- answered none.
abbrev pub IsSettled : Boot → Type 0
IsSettled b =
    (b.subscribed ≡ b.ready)
    × (successes b.replies ≡ (if b.ready then 1 else 0))
    × (ends_well b.replies ≡ b.ready)

-- The answer that goes back: the last one, if there is any.
abbrev pub sent_reply : (ControlResponse → Bytes) → List ControlResponse → Option Bytes
sent_reply encode [] = none
sent_reply encode (r ∷ []) = some (encode r)
sent_reply encode (r ∷ q ∷ replies) = sent_reply encode (q ∷ replies)

sent_reply-concat :
    (encode : ControlResponse → Bytes) (replies : List ControlResponse) (r : ControlResponse)
    → sent_reply encode (replies ++ r ∷ []) ≡ some (encode r)
sent_reply-concat encode [] r = refl
sent_reply-concat encode (q ∷ []) r = refl
sent_reply-concat encode (q ∷ p ∷ replies) r = sent_reply-concat encode (p ∷ replies) r

module _ (decode : Bytes → Option AgentInit) where
  boot_step-IsSettled :
      (e : BootEvent) (b : Boot)
      → b.ready ≡ false
      → IsSettled b
      → IsSettled (boot_step decode e b) × ((boot_step decode e b).ready ≡ settles decode e)
  unfolding boot_step on_init
  boot_step-IsSettled ticked b starting h = (h, starting)
  boot_step-IsSettled (received bytes none) b starting h =
      elim (decode bytes)
        as (λ d.
          let b' : Boot = elim d [ none ↦ b | some m ↦ on_init m none b ] in
          IsSettled b' × (b'.ready ≡ elim d [ none ↦ false | some _ ↦ true ])) [
            | none ↦ (h, starting)
            | some m ↦ (
              (
                refl,
                ground (arith, successes-append b.replies (success ∷ [])),
                ends_well-concat b.replies success,
              ),
              refl,
            )
          ]
  boot_step-IsSettled (received bytes (some e)) b starting h =
      elim (decode bytes)
        as (λ d.
          let b' : Boot = elim d [ none ↦ b | some m ↦ on_init m (some e) b ] in
          IsSettled b' × (b'.ready ≡ false)) [
            | none ↦ (h, starting)
            | some m ↦ (
              (
                h.0,
                ground (arith, successes-append b.replies (failure e ∷ [])),
                ends_well-concat b.replies (failure e) ∙ sym starting,
              ),
              starting,
            )
          ]

  init_loop-ready :
      (events : List BootEvent) (b : Boot) → b.ready ≡ true → init_loop decode events b ≡ b
  unfolding init_loop
  init_loop-ready [] b h = refl
  init_loop-ready (e ∷ events) b h = rw h

  onward :
      (events : List BootEvent) (e : BootEvent) (b : Boot)
      → b.ready ≡ false
      → init_loop decode (e ∷ events) b ≡ init_loop decode events (boot_step decode e b)
  unfolding init_loop
  onward events e b starting =
      ap (λ t. if t then b else init_loop decode events (boot_step decode e b)) starting

  -- Whatever comes, an agent that starts leaves its loop exactly when a message has come that it can
  -- read while the queue takes its subscription; it is subscribed to its actions exactly then, and
  -- exactly then it has answered a success, which is its last answer and the only success.
  pub init_loop-IsSettled :
      (events : List BootEvent) (b : Boot)
      → b.ready ≡ false
      → IsSettled b
      → IsSettled (init_loop decode events b)
        × ((init_loop decode events b).ready ≡ any_settles decode events)
  unfolding init_loop
  init_loop-IsSettled [] b starting h = (h, starting)
  init_loop-IsSettled (e ∷ events) b starting h =
      let (settled, same) = boot_step-IsSettled e b starting h in
      elim (Bool-cases (settles decode e)) [
        | inl yes_now ↦
            rw
              (
                onward events e b starting,
                init_loop-ready events (boot_step decode e b) (same ∙ yes_now),
                yes_now,
              )
              (settled, same ∙ yes_now)
        | inr later ↦
            rw (onward events e b starting, later)
              (init_loop-IsSettled events (boot_step decode e b) (same ∙ later) settled)
      ]

  boot_step_read :
      (bytes : Bytes) (m : AgentInit) (error : Option Text) (b : Boot)
      → decode bytes ≡ some m
      → boot_step decode (received bytes error) b ≡ on_init m error b
  unfolding boot_step
  boot_step_read bytes m error b h = ap (λ d. elim d [ none ↦ b | some m' ↦ on_init m' error b ]) h

  -- The center initialises an agent that registered within three seconds and is not initialised yet.
  -- The agent takes the cookie, the id and the buvid of the center's configuration, and keeps its
  -- own user agent, priority mode and headers: those of the configuration never arrive. It is ready
  -- exactly where the queue takes its subscription, and exactly then the center marks it as
  -- initialised, and changes nothing of it otherwise. Asked for are that the message is read as it
  -- was written, the round trip of the answers, and that the request brings back the agent's answer.
  pub init_visit-set_up :
      (link : Link) (g : Global) (a : AgentStatus) (b : Boot) (now later : ℕ) (error : Option Text)
      (payload : Bytes) (encode_reply : ControlResponse → Bytes)
      → has a.condition agent_initialization ≡ false
      → now - a.update_time ≤ three_seconds
      → b.ready ≡ false
      → decode payload ≡ some (init_msg g)
      → ((r : ControlResponse) → link.decode (encode_reply r) ≡ some r)
      → link.request
          (link.prefix ++ (codes ".agent." ++ (a.id ++ b'.' ∷ codes "init")))
          (some payload)
        ≡ sent_reply encode_reply (boot_step decode (received payload error) b).replies
      → let b' = boot_step decode (received payload error) b in
        (init_visit link (some payload) now later a
          ≡ ok (
              if b'.ready
              then record a {
                condition = with_bit a.condition agent_initialization;
                update_time = later;
              }
              else a))
        × (b'.ready ≡ elim error [ none ↦ true | some _ ↦ false ])
        × (b'.client ≡ record b.client { cookie = g.cookie; buvid = g.buvid; uid = to_int64 g.uid })
  unfolding boot_step on_init init_msg set_up set_headers init_visit control
  init_visit-set_up link g a b now later none payload encode_reply fresh soon starting read answered
        carried =
      let stepped = boot_step_read payload (init_msg g) none b read in
      let timely : leb (now - a.update_time) three_seconds ≡ true = ground arith in
      let reply =
        carried
        ∙ ap (λ (x : Boot). sent_reply encode_reply x.replies) stepped
        ∙ sent_reply-concat encode_reply b.replies success in
      rw stepped (rw (fresh, timely, control, reply, answered success) refl, refl, refl)
  init_visit-set_up link g a b now later (some e) payload encode_reply fresh soon starting read
        answered carried =
      let stepped = boot_step_read payload (init_msg g) (some e) b read in
      let timely : leb (now - a.update_time) three_seconds ≡ true = ground arith in
      let reply =
        carried
        ∙ ap (λ (x : Boot). sent_reply encode_reply x.replies) stepped
        ∙ sent_reply-concat encode_reply b.replies (failure e) in
      rw stepped
        (rw (fresh, timely, control, reply, answered (failure e), starting) refl, starting, refl)
