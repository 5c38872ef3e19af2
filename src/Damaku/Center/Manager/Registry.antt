-- ===== src/Damaku/Center/Manager/Registry.antt =====
-- The registry of agents that `agentStatus` keeps: a mask belongs to one agent.
use focot_services.Prelude.{
  All, All-append, contains, Distinct, Distinct-concat, All-map, keys, lookup, insert,
  Distinct-insert, Text, text_dec, ℕ, ◌+◌, ◌%◌, ◌^◌, ◌<◌, ◌≡◌, refl, ◌∙◌, ◌⊎◌, inl, inr, false,
  none, some, List, [], ◌∷◌, ◌++◌, arith, ℕ_discrete,
}
use focot_services.Damaku.Center.Agents.{AgentStatus, Manager}
use focot_services.Damaku.Center.Manager.{Flow, go_on, return, new_agent, on_info}

abbrev pub masks : List (Text × AgentStatus) → List ℕ
masks [] = []
masks ((_, a) ∷ managed) = a.mask ∷ masks managed

-- Every agent stands under its own id, no two have one mask, and the masks are below the next one.
pub record IsRegistry (m : Manager) : Type 0 where
  pub named : All (λ (p : Text × AgentStatus). p.1.id ≡ p.0) m.managed
  pub distinct : Distinct ℕ_discrete (masks m.managed)
  pub below : All (λ k. k < m.latest_mask) (masks m.managed)
  pub keyed : Distinct text_dec (keys m.managed)

-- What holds of the manager that a handler goes on or returns with: it is a registry, and the next
-- mask is what it was where the loop goes on.
abbrev pub Kept : Manager → Flow → Type 0
Kept m (go_on n) = IsRegistry n × (n.latest_mask ≡ m.latest_mask)
Kept m (return n) = IsRegistry n

-- An agent that takes another's place under its key, with its id and mask, changes no mask.
masks-insert :
    (id : Text) (b : AgentStatus) (managed : List (Text × AgentStatus)) {a : AgentStatus}
    → lookup text_dec id managed ≡ some a
    → b.mask ≡ a.mask
    → masks (insert text_dec id b managed) ≡ masks managed
masks-insert id b [] found same = ground arith
masks-insert id b ((k, c) ∷ managed) {a} found same =
    ground (arith, masks-insert id b managed {a = a})

named-insert :
    (id : Text) (b : AgentStatus) (managed : List (Text × AgentStatus))
    → b.id ≡ id
    → All (λ (p : Text × AgentStatus). p.1.id ≡ p.0) managed
    → All (λ (p : Text × AgentStatus). p.1.id ≡ p.0) (insert text_dec id b managed)
named-insert id b [] e h = (e, tt)
named-insert id b ((k, c) ∷ managed) e h = ground (arith, named-insert id b managed e)

named-lookup :
    (id : Text) (managed : List (Text × AgentStatus)) {a : AgentStatus}
    → All (λ (p : Text × AgentStatus). p.1.id ≡ p.0) managed
    → lookup text_dec id managed ≡ some a
    → a.id ≡ id
named-lookup id [] {a} h found = ground arith
named-lookup id ((k, c) ∷ managed) {a} h found = ground (arith, named-lookup id managed {a = a} h.1)

-- A new agent goes to the end.
masks-insert_new :
    (id : Text) (b : AgentStatus) (managed : List (Text × AgentStatus))
    → lookup text_dec id managed ≡ none
    → masks (insert text_dec id b managed) ≡ masks managed ++ b.mask ∷ []
masks-insert_new id b [] found = refl
masks-insert_new id b ((k, c) ∷ managed) found = ground (arith, masks-insert_new id b managed)

below-fresh : (ks : List ℕ) (n : ℕ) → All (λ k. k < n) ks → contains ℕ_discrete ks n ≡ false
below-fresh [] n h = refl
below-fresh (k ∷ ks) n h = ground (arith, below-fresh ks n h.1)

below-up : (ks : List ℕ) (n : ℕ) → All (λ k. k < n) ks → All (λ k. k < n + 1) ks
below-up ks n h = All-map (λ k below. omega arith) ks h

-- An agent with the id and the mask of the one whose place it takes.
pub replaced-IsRegistry :
    (id : Text) (b : AgentStatus) (m : Manager) {a : AgentStatus}
    → IsRegistry m
    → lookup text_dec id m.managed ≡ some a
    → b.id ≡ a.id
    → b.mask ≡ a.mask
    → IsRegistry (record m { managed = insert text_dec id b m.managed })
replaced-IsRegistry id b m {a} w found named same =
    let masked = masks-insert id b m.managed found same in
    let of_key = named-lookup id m.managed w.named found in
    record {
      named = named-insert id b m.managed (named ∙ of_key) w.named;
      distinct = rw masked w.distinct;
      below = rw masked w.below;
      keyed = Distinct-insert text_dec id b m.managed w.keyed;
    }

on_info-cases :
    (now : ℕ) (id : Text) (m : Manager)
    → ((lookup text_dec id m.managed ≡ none)
        × (on_info now id m
            ≡ return (record m {
              managed = insert text_dec id (new_agent id m.latest_mask now) m.managed;
              latest_mask = (m.latest_mask + 1) % 2 ^ 16;
            })))
      ⊎ ((a : AgentStatus) × ((lookup text_dec id m.managed ≡ some a)
            × (on_info now id m
                ≡ go_on (record m {
                  managed =
                      insert text_dec id (record a { condition = 0; update_time = now }) m.managed;
                }))))
unfolding on_info
on_info-cases now id m = ground arith

registered-IsRegistry :
    (now : ℕ) (id : Text) (m : Manager)
    → IsRegistry m
    → m.latest_mask + 1 < 2 ^ 16
    → lookup text_dec id m.managed ≡ none
    → IsRegistry (record m {
      managed = insert text_dec id (new_agent id m.latest_mask now) m.managed;
      latest_mask = (m.latest_mask + 1) % 2 ^ 16;
    })
registered-IsRegistry now id m w room fresh =
    let masked = masks-insert_new id (new_agent id m.latest_mask now) m.managed fresh in
    let next : (m.latest_mask + 1) % 2 ^ 16 ≡ m.latest_mask + 1 = omega arith in
    record {
      named = named-insert id (new_agent id m.latest_mask now) m.managed refl w.named;
      distinct = rw masked (
          Distinct-concat ℕ_discrete (masks m.managed) m.latest_mask
            (below-fresh (masks m.managed) m.latest_mask w.below) w.distinct);
      below = rw masked (
          rw next (
            All-append (λ k. k < m.latest_mask + 1) (masks m.managed) (m.latest_mask ∷ [])
              (below-up (masks m.managed) m.latest_mask w.below) (omega arith, tt)));
      keyed = Distinct-insert text_dec id (new_agent id m.latest_mask now) m.managed w.keyed;
    }

pub on_info-Kept :
    (now : ℕ) (id : Text) (m : Manager)
    → IsRegistry m
    → m.latest_mask + 1 < 2 ^ 16
    → Kept m (on_info now id m)
on_info-Kept now id m w room = elim (on_info-cases now id m) [
  | inl (fresh, e) ↦ rw e (registered-IsRegistry now id m w room fresh)
  | inr (a, (found, e)) ↦ rw e (
    replaced-IsRegistry id (record a { condition = 0; update_time = now }) m w found refl refl,
    refl,
  )
]
