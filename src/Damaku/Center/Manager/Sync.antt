-- ===== src/Damaku/Center/Manager/Sync.antt =====
-- The passes of `syncAgent`, and an agent that was silent for too long.
use focot_services.Prelude.{
  ltb, if◌then◌else◌, length, All, contains, keep, insert, Text, text_dec, ℕ, ◌-◌, ◌<◌, ◌≡◌, refl,
  sym, ◌∙◌, ◌≢◌, Bool, true, false, not, ◌&&◌, ◌||◌, Option, none, some, List, [], ◌∷◌, arith,
  ℕ_discrete,
}
use focot_services.Prelude.Results.{Result, ok, err, ◌>>◌, ok-Passed, Fault, unlock_of_unlocked}
use focot_services.Damaku.Cache.{Bytes}
use focot_services.Damaku.Center.Agents.{agent_sync, has, flip_bit, AgentStatus, is_ready, Manager}
use focot_services.Damaku.Center.Manager.{
  Link, three_seconds, init_visit, send_actions, unlock_mu, select_master, sync_done, need_add,
  need_del, sync_visit, sync_pass, status_visit,
}

-- Taking the sync bit back leaves an agent ready or not ready.
is_ready-flip_bit :
    (a : AgentStatus) (now : ℕ)
    → is_ready (record a { condition = flip_bit a.condition agent_sync; update_time = now })
      ≡ is_ready a
is_ready-flip_bit a now = ground arith

sync_done-unlocked :
    (k : Text) (a : AgentStatus) (watching need_add need_del : List ℕ) (now : ℕ) (m : Manager)
    → m.mu_locked ≡ false
    → sync_done k a watching need_add need_del now m ≡ err unlock_of_unlocked
unfolding sync_done unlock_mu select_master
sync_done-unlocked k a watching need_add need_del now m free = ground arith

-- What a visit of `syncAgent` that does not fault says of the agent and leaves of the manager.
record Skipped (a : AgentStatus) (m n : Manager) : Type 0 where
  reported : a.watching ≢ none
  waiting : is_ready a ≡ false
  same_master : n.master ≡ m.master
  still_free : n.mu_locked ≡ false

-- The end of a visit, behind the update of the condition.
attempt_lem :
    (link : Link) (add del : ℕ → Option Bytes) (now : ℕ) (k id : Text) (a : AgentStatus)
    (watching need_add need_del : List ℕ) (m : Manager) {n : Manager}
    → m.mu_locked ≡ false
    → (if is_ready a
        then (do
          send_actions link add id need_add
          send_actions link del id need_del
          sync_done k a watching need_add need_del now m)
        else ok m)
      ≡ ok n
    → (is_ready a ≡ false) × (n ≡ m)
attempt_lem link add del now k id a watching need_add need_del m {n} free h =
    go (is_ready a) (send_actions link add id need_add) (send_actions link del id need_del)
      (sync_done k a watching need_add need_del now m) refl
      (sync_done-unlocked k a watching need_add need_del now m free) h
  where
    go :
        (ready : Bool) (r s : Result Fault (Unit {0})) (last : Result Fault Manager)
        → is_ready a ≡ ready
        → last ≡ err unlock_of_unlocked
        → (if ready then (r >> (s >> last)) else ok m) ≡ ok n
        → (is_ready a ≡ false) × (n ≡ m)
    go false r s last e f k = (e, cc)
    go true (err x) s last e f k = cc
    go true (ok _) (err x) last e f k = cc
    go true (ok _) (ok _) last e f k = cc

-- A visit to an agent that has reported, whether or not its rooms have changed since it was synced.
reported_lem :
    (link : Link) (add del : ℕ → Option Bytes) (now : ℕ) (k : Text) (a : AgentStatus)
    (watching : List ℕ) (m : Manager) {n : Manager}
    → m.mu_locked ≡ false
    → sync_visit link add del now k (record a { watching = some watching }) m ≡ ok n
    → (is_ready a ≡ false) × (n.master ≡ m.master) × (n.mu_locked ≡ false)
unfolding sync_visit
reported_lem link add del now k a watching m {n} free h =
    go
      (has a.condition agent_sync
        && (ltb 0 (length (keep (λ r. not (contains ℕ_discrete watching r)) m.watched_room))
            || ltb 0 (length (keep (λ r. not (contains ℕ_discrete m.watched_room r)) watching))))
      h
  where
    attempted : AgentStatus → Result Fault Manager
    attempted b =
        let need_add = keep (λ r. not (contains ℕ_discrete watching r)) m.watched_room in
        let need_del = keep (λ r. not (contains ℕ_discrete m.watched_room r)) watching in
        let m' = record m { managed = insert text_dec k b m.managed } in
        if is_ready b
        then (do
          send_actions link add a.id need_add
          send_actions link del a.id need_del
          sync_done k b watching need_add need_del now m')
        else ok m'

    outcome :
        (b : AgentStatus)
        → attempted b ≡ ok n
        → (is_ready b ≡ false) × (n.master ≡ m.master) × (n.mu_locked ≡ false)
    outcome b v =
        let (off, same) =
          attempt_lem link add del now k a.id b watching
            (keep (λ r. not (contains ℕ_discrete watching r)) m.watched_room)
            (keep (λ r. not (contains ℕ_discrete m.watched_room r)) watching)
            (record m { managed = insert text_dec k b m.managed }) free v in
        (off, rw same refl, rw same free)

    go :
        (stale : Bool)
        → attempted (
            if stale
            then record a {
              watching = some watching;
              condition = flip_bit a.condition agent_sync;
              update_time = now;
            }
            else record a { watching = some watching })
          ≡ ok n
        → (is_ready a ≡ false) × (n.master ≡ m.master) × (n.mu_locked ≡ false)
    go true v =
        let (off, master, unlocked) =
          outcome
            (record a {
              watching = some watching;
              condition = flip_bit a.condition agent_sync;
              update_time = now;
            })
            v in
        (sym (is_ready-flip_bit a now) ∙ off, master, unlocked)
    go false v = outcome (record a { watching = some watching }) v

sync_visit-Skipped :
    (link : Link) (add del : ℕ → Option Bytes) (now : ℕ) (k : Text) (a : AgentStatus) (m : Manager)
    {n : Manager}
    → m.mu_locked ≡ false
    → sync_visit link add del now k a m ≡ ok n
    → Skipped a m n
unfolding sync_visit
sync_visit-Skipped link add del now k a m {n} free h = go a.watching refl h
  where
    go :
        (w : Option (List ℕ))
        → a.watching ≡ w
        → sync_visit link add del now k (record a { watching = w }) m ≡ ok n
        → Skipped a m n
    go none e v = cc
    go (some watching) e v =
        let (off, master, unlocked) = reported_lem link add del now k a watching m free v in
        record {
          reported = ground arith;
          waiting = off;
          same_master = master;
          still_free = unlocked;
        }

-- A pass of `syncAgent` that does not end the process has met agents only that have reported and
-- are not ready, and the master is what it was: the first ready agent that it meets, and the first
-- that has not reported, end the process. Where no master was chosen, none ever is.
pub sync_pass-Idle :
    (link : Link) (add del : ℕ → Option Bytes) (now : ℕ) (visited : List (Text × AgentStatus))
    (m : Manager) {n : Manager}
    → m.mu_locked ≡ false
    → sync_pass link add del now visited m ≡ ok n
    → All (λ (p : Text × AgentStatus). (p.1.watching ≢ none) × (is_ready p.1 ≡ false)) visited
      × (n.master ≡ m.master)
unfolding sync_pass
sync_pass-Idle link add del now [] m free h = (tt, cc)
sync_pass-Idle link add del now ((k, a) ∷ visited) m {n} free h =
    let p =
      ok-Passed (sync_visit link add del now k a m) (sync_pass link add del now visited) n h in
    let s = sync_visit-Skipped link add del now k a m free p.reached in
    let (rest, master) = sync_pass-Idle link add del now visited p.value s.still_free p.onward in
    (((s.reported, s.waiting), rest), master ∙ s.same_master)

-- An agent that was ready and then silent for more than three seconds is not ready behind the tick,
-- but still counts as initialized and counts as synced, whether it was or not; a visit of
-- `initAgent` then leaves it alone.
pub status_visit-silent :
    (link : Link) (payload : Option Bytes) (now later latest : ℕ) (a : AgentStatus)
    → is_ready a ≡ true
    → three_seconds < now - a.update_time
    → (is_ready (status_visit now a) ≡ false)
      × (has (status_visit now a).condition agent_sync ≡ true)
      × (init_visit link payload later latest (status_visit now a) ≡ ok (status_visit now a))
unfolding status_visit init_visit
status_visit-silent link payload now later latest a ready silent =
    (ground arith, ground arith, ground arith)
