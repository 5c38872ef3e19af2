-- ===== src/Damaku/Agent/Actions/Rooms.antt =====
-- The rooms that an agent watches behind the actions that the center sends when it syncs it.
use focot_services.Prelude.{
  ◌==◌, is_yes, contains, contains-append, keep, ℕ, ◌≡◌, refl, ◌∙◌, Bool, not, ◌&&◌, ◌||◌, some,
  List, [], ◌∷◌, ◌++◌, map, arith, ℕ_discrete,
}
use focot_services.Prelude.Results.{Result, ok, err, ◌>>=◌, Fault}
use focot_services.Damaku.Cache.{Bytes}
use focot_services.Damaku.Agent.Actions.{
  add_room, del_room, AgentAction, Watcher, store, remove, add_action, del_action, on_action,
  on_actions,
}
use focot_services.Damaku.Center.Manager.{need_add, need_del}

contains-keep :
    (p : ℕ → Bool) (xs : List ℕ) (r : ℕ)
    → contains ℕ_discrete (keep p xs) r ≡ (p r && contains ℕ_discrete xs r)
contains-keep p [] r = ground arith
contains-keep p (x ∷ xs) r = ground (arith, contains-keep p xs r)

contains-store :
    (room : ℕ) (rooms : List ℕ) (r : ℕ)
    → contains ℕ_discrete (store room rooms) r
      ≡ (is_yes (ℕ_discrete room r) || contains ℕ_discrete rooms r)
contains-store room rooms r = ground (arith, contains-append ℕ_discrete rooms (room ∷ []) r)

contains-remove :
    (room : ℕ) (rooms : List ℕ) (r : ℕ)
    → contains ℕ_discrete (remove room rooms) r
      ≡ (not (is_yes (ℕ_discrete room r)) && contains ℕ_discrete rooms r)
contains-remove room rooms r = ground (arith, contains-keep (λ x. not (x == room)) rooms r)

on_actions-append :
    (decode : Bytes → AgentAction) (xs ys : List Bytes) (w : Watcher)
    → on_actions decode (xs ++ ys) w ≡ (on_actions decode xs w >>= on_actions decode ys)
unfolding on_actions
on_actions-append decode [] ys w = refl
on_actions-append decode (x ∷ xs) ys w =
    go (on_action (decode x) w) (λ w'. on_actions-append decode xs ys w')
  where
    go :
        (first : Result Fault Watcher)
        → ((w' : Watcher)
            → on_actions decode (xs ++ ys) w' ≡ (on_actions decode xs w' >>= on_actions decode ys))
        → (first >>= on_actions decode (xs ++ ys))
          ≡ ((first >>= on_actions decode xs) >>= on_actions decode ys)
    go (err f) later = refl
    go (ok w') later = later w'

module _ (decode : Bytes → AgentAction) (add del : ℕ → Bytes)
    (of_add : (r : ℕ) → decode (add r) ≡ record { type = add_room; room_id = some r })
    (of_del : (r : ℕ) → decode (del r) ≡ record { type = del_room; room_id = some r }) where
  added :
      (rooms : List ℕ) (w : Watcher)
      → (v : Watcher) × ((on_actions decode (map add rooms) w ≡ ok v)
          × ((r : ℕ)
              → contains ℕ_discrete v.watching r
                ≡ (contains ℕ_discrete rooms r || contains ℕ_discrete w.watching r)))
  unfolding on_actions on_action add_action
  added [] w = (w, (refl, λ r. refl))
  added (room ∷ rooms) w =
      let (v, facts) = added rooms (add_action room w) in
      (
        v,
        (
          rw (of_add room) facts.0,
          λ r. ground (arith, facts.1 r, contains-store room w.watching r),
        ),
      )

  deleted :
      (rooms : List ℕ) (w : Watcher)
      → (v : Watcher) × ((on_actions decode (map del rooms) w ≡ ok v)
          × ((r : ℕ)
              → contains ℕ_discrete v.watching r
                ≡ (not (contains ℕ_discrete rooms r) && contains ℕ_discrete w.watching r)))
  unfolding on_actions on_action del_action
  deleted [] w = (w, (refl, λ r. refl))
  deleted (room ∷ rooms) w =
      let (v, facts) = deleted rooms (del_action room w) in
      (
        v,
        (
          rw (of_del room) facts.0,
          λ r. ground (arith, facts.1 r, contains-remove room w.watching r),
        ),
      )

  -- An agent whose rooms the center knows takes all the actions of a sync, those for the rooms to
  -- add and then those for the rooms to leave, and watches exactly the rooms of the center behind
  -- them. Asked for is that each action arrives as it was sent.
  pub on_actions-sync :
      (watched cached : List ℕ) (w : Watcher)
      → ((r : ℕ) → contains ℕ_discrete w.watching r ≡ contains ℕ_discrete cached r)
      → (v : Watcher) × ((on_actions decode
              (map add (need_add watched cached) ++ map del (need_del watched cached))
              w
            ≡ ok v)
          × ((r : ℕ) → contains ℕ_discrete v.watching r ≡ contains ℕ_discrete watched r))
  on_actions-sync watched cached w known =
      let (u, grown) = added (need_add watched cached) w in
      let (v, shrunk) = deleted (need_del watched cached) u in
      (
        v,
        (
          on_actions-append decode (map add (need_add watched cached))
                (map del (need_del watched cached)) w
              ∙ rw (grown.0) (shrunk.0),
          λ r. ground (
            arith,
            grown.1 r,
            shrunk.1 r,
            known r,
            contains-keep (λ x. not (contains ℕ_discrete cached x)) watched r,
            contains-keep (λ x. not (contains ℕ_discrete watched x)) cached r,
          ),
        ),
      )
