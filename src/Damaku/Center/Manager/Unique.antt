-- ===== src/Damaku/Center/Manager/Unique.antt =====
-- The masks of the agents through the loop of `agentStatus`, and as `AgentMask` gives them.
use focot_services.Prelude.{
  if◌then◌else◌, is_yes, All, contains, Distinct, keys, lookup, insert, Text, codes, text_dec,
  split, last_part, ℕ, ◌+◌, ◌^◌, ◌<◌, ◌≡◌, refl, ◌⊎◌, inl, inr, Bool, true, false, Option, none,
  some, List, [], ◌∷◌, arith, ℕ_discrete,
}
use focot_services.Prelude.Results.{Result, ok, err, Fault, process_exit}
use focot_services.Damaku.Cache.{Bytes}
use focot_services.Damaku.Center.Agents.{AgentStatus, Manager, mask_bytes, agent_mask}
use focot_services.Damaku.Center.Manager.{
  status_visit, status_pass, StatusMsg, AgentEvent, tick, message, Flow, go_on, return, on_info,
  on_status, on_event, agent_status,
}
use focot_services.Damaku.Center.Manager.Registry.{
  masks, IsRegistry, Kept, replaced-IsRegistry, on_info-Kept,
}

masks-status_pass :
    (now : ℕ) (managed : List (Text × AgentStatus))
    → (masks (status_pass now managed) ≡ masks managed)
      × (keys (status_pass now managed) ≡ keys managed)
unfolding status_pass status_visit
masks-status_pass now [] = (refl, refl)
masks-status_pass now ((k, a) ∷ managed) =
    let rest = masks-status_pass now managed in (ground (arith, rest.0), ground (arith, rest.1))

named-status_pass :
    (now : ℕ) (managed : List (Text × AgentStatus))
    → All (λ (p : Text × AgentStatus). p.1.id ≡ p.0) managed
    → All (λ (p : Text × AgentStatus). p.1.id ≡ p.0) (status_pass now managed)
unfolding status_pass status_visit
named-status_pass now [] h = tt
named-status_pass now ((k, a) ∷ managed) h = (ground arith, named-status_pass now managed h.1)

tick-IsRegistry :
    (now : ℕ) (m : Manager)
    → IsRegistry m
    → IsRegistry (record m { managed = status_pass now m.managed })
tick-IsRegistry now m w =
    let (same, keyed) = masks-status_pass now m.managed in
    record {
      named = named-status_pass now m.managed w.named;
      distinct = rw same w.distinct;
      below = rw same w.below;
      keyed = rw keyed w.keyed;
    }

on_status-cases :
    (now : ℕ) (msg : StatusMsg) (m : Manager) {f : Flow}
    → on_status now msg m ≡ ok f
    → (f ≡ return m)
      ⊎ ((id : Text) × ((a b : AgentStatus) × (lookup text_dec id m.managed ≡ some a)
            × (b.id ≡ a.id)
            × (b.mask ≡ a.mask)
            × (f ≡ go_on (record m { managed = insert text_dec id b m.managed }))))
unfolding on_status
on_status-cases now msg m {f} h = ground arith

on_status-Kept :
    (now : ℕ) (msg : StatusMsg) (m : Manager) {f : Flow}
    → IsRegistry m
    → on_status now msg m ≡ ok f
    → Kept m f
on_status-Kept now msg m w h = elim (on_status-cases now msg m h) [
  | inl e ↦ rw e w
  | inr (id, rest) ↦
      let (a, b, found, named, same, e) = rest in
      rw e (replaced-IsRegistry id b m w found named same, refl)
]

module _ (decode_info : Bytes → Option Text) (decode_status : Bytes → Option StatusMsg) where
  on_event-cases :
      (e : AgentEvent) (m : Manager) {f : Flow}
      → on_event decode_info decode_status e m ≡ ok f
      → (f ≡ go_on m)
        ⊎ (((now : ℕ) × (f ≡ go_on (record m { managed = status_pass now m.managed })))
            ⊎ (((now : ℕ) × ((id : Text) × (f ≡ on_info now id m)))
                ⊎ ((now : ℕ) × ((msg : StatusMsg) × (on_status now msg m ≡ ok f)))))
  unfolding on_event
  on_event-cases (tick now) m h = ground arith
  on_event-cases (message now subject bytes) m {f} h =
      routed (is_yes (text_dec (last_part (split b'.' subject)) (codes "info")))
        (is_yes (text_dec (last_part (split b'.' subject)) (codes "status"))) (decode_info bytes)
        (decode_status bytes) h
    where
      routed :
          (is_info is_status : Bool) (info : Option Text) (status : Option StatusMsg)
          → (if is_info
              then elim info [ none ↦ ok (go_on m) | some id ↦ ok (on_info now id m) ]
              else if is_status
              then elim status [ none ↦ err process_exit | some msg ↦ on_status now msg m ]
              else ok (go_on m))
            ≡ ok f
          → (f ≡ go_on m)
            ⊎ (((now : ℕ) × (f ≡ go_on (record m { managed = status_pass now m.managed })))
                ⊎ (((now : ℕ) × ((id : Text) × (f ≡ on_info now id m)))
                    ⊎ ((now : ℕ) × ((msg : StatusMsg) × (on_status now msg m ≡ ok f)))))
      routed true c none d k = inl (cc)
      routed true c (some id) d k = inr (inr (inl (now, (id, cc))))
      routed false true i none k = cc
      routed false true i (some msg) k = inr (inr (inr (now, (msg, k))))
      routed false false i d k = inl (cc)

  on_event-Kept :
      (e : AgentEvent) (m : Manager) {f : Flow}
      → IsRegistry m
      → m.latest_mask + 1 < 2 ^ 16
      → on_event decode_info decode_status e m ≡ ok f
      → Kept m f
  on_event-Kept e m w room h = elim (on_event-cases e m h) [
    | inl same ↦ rw same (w, refl)
    | inr (inl (now, passed)) ↦ rw passed (tick-IsRegistry now m w, refl)
    | inr (inr (inl (now, (id, info)))) ↦ rw info (on_info-Kept now id m w room)
    | inr (inr (inr (now, (msg, status)))) ↦ on_status-Kept now msg m w status
  ]

  -- The loop of `agentStatus` keeps the registry, whatever events come, as long as a mask of sixteen
  -- bits is left: each agent stands under its id, and no two agents have one mask.
  pub agent_status-IsRegistry :
      (events : List AgentEvent) (m : Manager) {n : Manager}
      → IsRegistry m
      → m.latest_mask + 1 < 2 ^ 16
      → agent_status decode_info decode_status events m ≡ ok n
      → IsRegistry n
  unfolding agent_status
  agent_status-IsRegistry [] m {n} w room h = let same : m ≡ n = cc in rw (← same) w
  agent_status-IsRegistry (e ∷ events) m {n} w room h =
      after (λ m'. agent_status-IsRegistry events m') (on_event decode_info decode_status e m) refl
        h
    where
      after :
          ((m' : Manager)
            → IsRegistry m'
            → m'.latest_mask + 1 < 2 ^ 16
            → agent_status decode_info decode_status events m' ≡ ok n
            → IsRegistry n)
          → (r : Result Fault Flow) → on_event decode_info decode_status e m ≡ r
          → (elim r [
            | err f ↦ err f
            | ok (return m') ↦ ok m'
            | ok (go_on m') ↦ agent_status decode_info decode_status events m'
          ])
            ≡ ok n
          → IsRegistry n
      after later (err f) came k = ground arith
      after later (ok (return m')) came k =
          let same : m' ≡ n = cc in rw (← same) (on_event-Kept e m w room came)
      after later (ok (go_on m')) came k =
          let (kept, next) = on_event-Kept e m w room came in later m' kept (omega (arith, next)) k

masks-lookup :
    (i : Text) (managed : List (Text × AgentStatus)) {a : AgentStatus}
    → lookup text_dec i managed ≡ some a
    → contains ℕ_discrete (masks managed) a.mask ≡ true
masks-lookup i [] {a} found = ground arith
masks-lookup i ((k, c) ∷ managed) {a} found = ground (arith, masks-lookup i managed {a = a})

mask_unique :
    (i j : Text) (managed : List (Text × AgentStatus)) {a b : AgentStatus}
    → Distinct ℕ_discrete (masks managed)
    → lookup text_dec i managed ≡ some a
    → lookup text_dec j managed ≡ some b
    → a.mask ≡ b.mask
    → i ≡ j
mask_unique i j [] {a} {b} d hi hj same = ground arith
mask_unique i j ((k, c) ∷ managed) {a} {b} d hi hj same = ground (
  arith,
  mask_unique i j managed {a = a} {b = b} d.1,
  masks-lookup i managed {a = a},
  masks-lookup j managed {a = b},
)

-- In a registry, an answer of `AgentMask` tells which agent was asked for: two agents with one
-- answer are one agent.
pub agent_mask_unique :
    (i j : Text) (m : Manager) {bytes : Bytes}
    → IsRegistry m
    → agent_mask i m ≡ some bytes
    → agent_mask j m ≡ some bytes
    → i ≡ j
unfolding agent_mask
agent_mask_unique i j m {bytes} w hi hj =
    both (lookup text_dec i m.managed) (lookup text_dec j m.managed) refl refl hi hj
  where
    both :
        (o p : Option AgentStatus)
        → lookup text_dec i m.managed ≡ o
        → lookup text_dec j m.managed ≡ p
        → (elim o [ none ↦ none | some a ↦ some (mask_bytes a.mask) ]) ≡ some bytes
        → (elim p [ none ↦ none | some a ↦ some (mask_bytes a.mask) ]) ≡ some bytes
        → i ≡ j
    both none p fi fj ei ej = cc
    both (some a) none fi fj ei ej = cc
    both (some a) (some b) fi fj ei ej = mask_unique i j m.managed w.distinct fi fj (ground arith)
