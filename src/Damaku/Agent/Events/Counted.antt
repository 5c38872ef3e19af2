-- ===== src/Damaku/Agent/Events/Counted.antt =====
-- io-bilive-damaku/agent: the counters of waiting events stay exact.
use mathlib.Core.Path.{subst}
use focot_services.Prelude.{
  ltb, Bool-cases, Option-cases, length, length-append, ℕ, zero, suc, ◌+◌, ◌%◌, ◌^◌, ◌≤◌, ◌≡◌, refl,
  sym, ap, ◌∙◌, inl, inr, Option, none, some, List, [], ◌∷◌, ◌++◌, append_assoc, append-nil, arith,
}
use focot_services.Prelude.Results.{
  Result, ok, err, ◌>>=◌, ok-Passed, value_or, Fault, nil_dereference,
}
use focot_services.Damaku.Agent.Events.Data.{
  ChatEvent, danmu_msg, send_gift, guard_buy, super_chat_message, online_rank_count, online_rank_v2,
  unsupported, Output, Frame,
}
use focot_services.Damaku.Agent.Events.Handle.{nothing, handle}
use focot_services.Damaku.Agent.Events.Counters.{
  Counters, change, up, down, Intake, on_wrapper, behind, pick, enter, handler_turn, zeros,
}

-- One event more, and the number of events in a queue for each command.
abbrev pub raised : ChatEvent → Counters → Counters
raised (danmu_msg _) c = record c { danmu = c.danmu + 1 }
raised (send_gift _) c = record c { gift = c.gift + 1 }
raised (guard_buy _) c = record c { guard = c.guard + 1 }
raised (super_chat_message _) c = record c { super_chat = c.super_chat + 1 }
raised (online_rank_count _) c = record c { count = c.count + 1 }
raised (online_rank_v2 _) c = record c { rank = c.rank + 1 }
raised (unsupported _) c = c

unfoldable pub tally : List ChatEvent → Counters
tally [] = zeros
tally (e ∷ es) = raised e (tally es)

abbrev pub reduced : Counters → Counters
reduced c = record {
  danmu = c.danmu % 2 ^ 32;
  gift = c.gift % 2 ^ 32;
  guard = c.guard % 2 ^ 32;
  super_chat = c.super_chat % 2 ^ 32;
  count = c.count % 2 ^ 32;
  rank = c.rank % 2 ^ 32;
}

-- Each counter is the number of the events of its command in the channel and before it, modulo 2^32,
-- and the channel holds at most its hundred.
abbrev pub Counts : Intake → Type 0
Counts s = (s.counters ≡ reduced (tally (s.channel ++ s.sending))) × (length s.channel ≤ 100)

raised_comm : (e x : ChatEvent) (c : Counters) → raised e (raised x c) ≡ raised x (raised e c)
raised_comm (danmu_msg _) x c = ground arith
raised_comm (send_gift _) x c = ground arith
raised_comm (guard_buy _) x c = ground arith
raised_comm (super_chat_message _) x c = ground arith
raised_comm (online_rank_count _) x c = ground arith
raised_comm (online_rank_v2 _) x c = ground arith
raised_comm (unsupported _) x c = refl

-- One event more in a part of a list.
tally-append :
    (zs xs ys : List ChatEvent) (e : ChatEvent)
    → tally xs ≡ raised e (tally ys)
    → tally (zs ++ xs) ≡ raised e (tally (zs ++ ys))
unfolding tally
tally-append [] xs ys e h = h
tally-append (z ∷ zs) xs ys e h =
    ap (raised z) (tally-append zs xs ys e h) ∙ raised_comm z e (tally (zs ++ ys))

tally-concat :
    (queue : List ChatEvent) (e : ChatEvent) → tally (queue ++ e ∷ []) ≡ raised e (tally queue)
unfolding tally
tally-concat queue e =
    tally-append queue (e ∷ []) [] e refl ∙ ap (λ q. raised e (tally q)) (append-nil queue)

tally-pick :
    (k : ℕ) (es : List ChatEvent) (e : ChatEvent) (rest : List ChatEvent)
    → pick k es ≡ some (e, rest)
    → tally es ≡ raised e (tally rest)
unfolding tally
tally-pick k [] e rest h = absurd (cc)
tally-pick zero (x ∷ es) e rest h =
    let same : (x, es) ≡ (e, rest) = cc in
    ap (λ (p : ChatEvent × List ChatEvent). raised p.0 (tally p.1)) same
tally-pick (suc k) (x ∷ es) e rest h =
    by_pick (pick k es) (λ y more is. tally-pick k es y more is) h
  where
    by_pick :
        (o : Option (ChatEvent × List ChatEvent))
        → ((y : ChatEvent) (more : List ChatEvent)
            → o ≡ some (y, more)
            → tally es ≡ raised y (tally more))
        → behind x o ≡ some (e, rest)
        → raised x (tally es) ≡ raised e (tally rest)
    by_pick none shorter h = absurd (cc)
    by_pick (some (y, more)) shorter h =
        let same : (y, x ∷ more) ≡ (e, rest) = cc in
        ap (raised x) (shorter y more refl)
        ∙ raised_comm x y (tally more)
        ∙ ap (λ (p : ChatEvent × List ChatEvent). raised p.0 (tally p.1)) same

-- What a counter is behind its change.
change-up :
    (e : ChatEvent) (c t : Counters)
    → c ≡ reduced t
    → elim (change up e c) [ none ↦ c | some c' ↦ c' ] ≡ reduced (raised e t)
unfolding change
change-up (danmu_msg j) c t h = ground arith
change-up (send_gift d) c t h = ground arith
change-up (guard_buy d) c t h = ground arith
change-up (super_chat_message d) c t h = ground arith
change-up (online_rank_count d) c t h = ground arith
change-up (online_rank_v2 d) c t h = ground arith
change-up (unsupported n) c t h = h

change-down :
    (e : ChatEvent) (c d t : Counters)
    → c ≡ reduced (raised e t)
    → change down e c ≡ some d
    → d ≡ reduced t
unfolding change
change-down (danmu_msg _) c d t h turn = ground arith
change-down (send_gift _) c d t h turn = ground arith
change-down (guard_buy _) c d t h turn = ground arith
change-down (super_chat_message _) c d t h turn = ground arith
change-down (online_rank_count _) c d t h turn = ground arith
change-down (online_rank_v2 _) c d t h turn = ground arith
change-down (unsupported _) c d t h turn = absurd (cc)

-- The wrapper keeps the counters exact, whatever event comes.
pub on_wrapper-Counts : (e : ChatEvent) (s : Intake) → Counts s → Counts (on_wrapper e s)
unfolding on_wrapper
on_wrapper-Counts e s (h, small) =
    let more =
      tally-append s.channel (s.sending ++ e ∷ []) s.sending e (tally-concat s.sending e) in
    (change-up e s.counters (tally (s.channel ++ s.sending)) h ∙ ap reduced (sym more), small)

-- A send keeps them, and does not overfill the channel.
pub enter-Counts : (k : ℕ) (s : Intake) → Counts s → Counts (enter k s)
unfolding enter
enter-Counts k s (h, small) = by_pick (pick k s.sending) refl
  where
    by_pick : (o : Option (ChatEvent × List ChatEvent)) → pick k s.sending ≡ o → Counts (enter k s)
    by_pick none is = rw (enter, is) (h, small)
    by_pick (some (e, rest)) is = elim (Bool-cases (ltb (length s.channel) 100)) [
      | inl room ↦
          let one : tally (s.channel ++ s.sending) ≡ raised e (tally (s.channel ++ rest)) =
            tally-append s.channel s.sending rest e (tally-pick k s.sending e rest is) in
          let same : tally ((s.channel ++ e ∷ []) ++ rest) ≡ raised e (tally (s.channel ++ rest)) =
            ap tally (append_assoc s.channel (e ∷ []) rest)
            ∙ tally-append s.channel (e ∷ rest) rest e (unfold tally in refl) in
          rw (enter, is, room)
            (h ∙ ap reduced (one ∙ sym same), ground (arith, length-append s.channel (e ∷ [])))
      | inr full ↦ rw (enter, is, full) (h, small)
    ]

-- A turn of the handler keeps them, and takes the first event of the channel.
pub handler_turn-Counts :
    (f : Frame) (s : Intake) (out : Output) (c : Counters) (channel : List ChatEvent)
    → Counts s
    → handler_turn f (s.counters, s.channel) ≡ ok (out, (c, channel))
    → Counts (record s { counters = c; channel = channel })
unfolding handler_turn tally
handler_turn-Counts f s out c channel (h, small) turned = by_channel s.channel h small turned
  where
    by_channel :
        (q : List ChatEvent)
        → s.counters ≡ reduced (tally (q ++ s.sending))
        → length q ≤ 100
        → handler_turn f (s.counters, q) ≡ ok (out, (c, channel))
        → Counts (record s { counters = c; channel = channel })
    by_channel [] h small t =
        let same : (nothing, (s.counters, [])) ≡ (out, (c, channel)) =
          ap (value_or (out, (c, channel))) t in
        let at : (s.counters, []) ≡ (c, channel) =
          ap (λ (r : Output × (Counters × List ChatEvent)). r.1) same in
        subst
          (λ (r : Counters × List ChatEvent). Counts (record s { counters = r.0; channel = r.1 }))
          at (h, small)
    by_channel (e ∷ queue) h small t = elim (Option-cases (change down e s.counters)) [
      | inl is ↦
          let no : err nil_dereference ≡ ok (out, (c, channel)) = rw (handler_turn, is) at t in
          absurd (cc)
      | inr (d, is) ↦
          let went : ok (handle f e, (d, queue)) ≡ ok (out, (c, channel)) =
            rw (handler_turn, is) at t in
          let at : ◌≡◌ {A = Counters × List ChatEvent} (d, queue) (c, channel) =
            ap (λ (r : Output × (Counters × List ChatEvent)). r.1)
              (ap (value_or (out, (c, channel))) went) in
          let exact = change-down e s.counters d (tally (queue ++ s.sending)) h is in
          subst
            (λ (r : Counters × List ChatEvent). Counts (record s { counters = r.0; channel = r.1 }))
            at (exact, omega (arith, small))
    ]

-- An event that arrives, the send of a wrapper at a place, and a turn of the handler.
pub data Step : Type 0 where
  arrive : ChatEvent → Step
  send_at : ℕ → Step
  turn : Step

abbrev pub run : Frame → List Step → Intake → Result Fault Intake
run f [] s = ok s
run f (arrive e ∷ steps) s = run f steps (on_wrapper e s)
run f (send_at k ∷ steps) s = run f steps (enter k s)
run f (turn ∷ steps) s = handler_turn f (s.counters, s.channel) >>= λ r.
    run f steps (record s { counters = r.1.0; channel = r.1.1 })

-- In whatever order events arrive, wrappers send and the handler takes events, each counter stays the
-- number of the events of its command in the channel and before it, modulo 2^32, as long as the handler
-- does not panic, and the channel is never overfilled.
pub run-Counts :
    (f : Frame) (steps : List Step) (s t : Intake) → Counts s → run f steps s ≡ ok t → Counts t
run-Counts f [] s t h go = rw (← (ap (value_or s) go)) h
run-Counts f (arrive e ∷ steps) s t h go =
    run-Counts f steps (on_wrapper e s) t (on_wrapper-Counts e s h) go
run-Counts f (send_at k ∷ steps) s t h go = run-Counts f steps (enter k s) t (enter-Counts k s h) go
run-Counts f (turn ∷ steps) s t h go =
    let p =
      ok-Passed (handler_turn f (s.counters, s.channel))
        (λ r. run f steps (record s { counters = r.1.0; channel = r.1.1 })) t go in
    run-Counts f steps (record s { counters = p.value.1.0; channel = p.value.1.1 }) t
      (handler_turn-Counts f s p.value.0 p.value.1.0 p.value.1.1 h p.reached) p.onward
