-- ===== src/HttpProxy/Node/Reached.antt =====
-- client-http-proxy and api-http-proxy: which requests of the gateway a node is subscribed to.
use mathlib.Core.List.{append_cancel_left, append_cancel_right}
use focot_services.Prelude.{
  is_yes, contains, contains-append, Text, codes, text_dec, join, ℕ, ◌≡◌, refl, sym, ap, ◌∙◌, Bool,
  true, false, ◌||◌, Option, none, some, List, [], ◌∷◌, ◌++◌, map, append-nil, arith,
}
use focot_services.Prelude.Results.{ok, ◌>>=◌, ok-Passed}
use focot_services.HttpProxy.Node.{
  Config, Action, subscribed, scheduler_started, published, closed, group_subject, node_subject,
  event_hooks, subscribe, subscribe_groups, limit_of, announce, subscribe_all, start_node,
}
use focot_services.Prelude.Int.{pos}

-- The subject to which `requestProxy` of the gateway sends a request for a node.
abbrev pub gateway_subject : Text → Text → Text
gateway_subject service node = join b'.' (service ∷ node ∷ codes "request" ∷ [])

-- The subjects that a node has subscribed to.
abbrev pub subjects : List Action → List Text
subjects [] = []
subjects (subscribed subject group ∷ actions) = subject ∷ subjects actions
subjects (scheduler_started _ ∷ actions) = subjects actions
subjects (published _ _ ∷ actions) = subjects actions
subjects (closed ∷ actions) = subjects actions

-- The names under which a node takes requests: those of its groups, and its own.
abbrev pub asked_as : List Text → Text → List Text
asked_as [] id = id ∷ []
asked_as (group ∷ groups) id = (codes "groups." ++ group) ∷ asked_as groups id

subjects-append : (xs ys : List Action) → subjects (xs ++ ys) ≡ subjects xs ++ subjects ys
subjects-append [] ys = refl
subjects-append (subscribed subject group ∷ xs) ys = ap (◌∷◌ subject) (subjects-append xs ys)
subjects-append (scheduler_started _ ∷ xs) ys = subjects-append xs ys
subjects-append (published _ _ ∷ xs) ys = subjects-append xs ys
subjects-append (closed ∷ xs) ys = subjects-append xs ys

-- The last character of a text.
abbrev last_code : Text → ℕ
last_code [] = 0
last_code (c ∷ []) = c
last_code (c ∷ d ∷ s) = last_code (d ∷ s)

last_code-append : (xs s : Text) (c : ℕ) → last_code (xs ++ c ∷ s) ≡ last_code (c ∷ s)
last_code-append [] s c = refl
last_code-append (x ∷ []) s c = refl
last_code-append (x ∷ y ∷ xs) s c = last_code-append (y ∷ xs) s c

-- Two decisions of equivalent questions.
is_yes_iff :
    {A B : Type 0} (a b : A) (c d : B) (p : Dec (a ≡ b)) (q : Dec (c ≡ d))
    → (a ≡ b → c ≡ d)
    → (c ≡ d → a ≡ b)
    → is_yes p ≡ is_yes q
is_yes_iff a b c d (yes e) (yes f) to back = refl
is_yes_iff a b c d (yes e) (no n) to back = absurd (n (to e))
is_yes_iff a b c d (no n) (yes f) to back = absurd (n (back f))
is_yes_iff a b c d (no n) (no m) to back = refl

-- Two names are asked at one subject only where they are one.
gateway_subject_dec :
    (service x y : Text)
    → is_yes (text_dec (gateway_subject service x) (gateway_subject service y))
      ≡ is_yes (text_dec x y)
unfolding join
gateway_subject_dec service x y =
    is_yes_iff (gateway_subject service x) (gateway_subject service y) x y _ _
      (λ e.
        let tails : b'.' ∷ (x ++ b'.' ∷ codes "request") ≡ b'.' ∷ (y ++ b'.' ∷ codes "request") =
          append_cancel_left service _ _ e in
        let same : x ++ b'.' ∷ codes "request" ≡ y ++ b'.' ∷ codes "request" = cc in
        append_cancel_right x y (b'.' ∷ codes "request") same)
      (λ e. ap (gateway_subject service) e)

-- No request goes to the subject for metas.
meta_subject_other :
    (service x y : Text)
    → is_yes (text_dec (join b'.' (service ∷ x ∷ codes "meta" ∷ [])) (gateway_subject service y))
      ≡ false
unfolding join
meta_subject_other service x y =
    elim (text_dec (join b'.' (service ∷ x ∷ codes "meta" ∷ [])) (gateway_subject service y))
      as (λ d. is_yes d ≡ false) [
        | yes e ↦
            let tails : b'.' ∷ (x ++ b'.' ∷ codes "meta") ≡ b'.' ∷ (y ++ b'.' ∷ codes "request") =
              append_cancel_left service _ _ e in
            let same : x ++ b'.' ∷ codes "meta" ≡ y ++ b'.' ∷ codes "request" = cc in
            let ends : ◌≡◌ {A = ℕ} b'a' b't' =
              sym (last_code-append x (codes "meta") b'.')
              ∙ ap last_code same
              ∙ last_code-append y (codes "request") b'.' in
            absurd (omega arith)
        | no _ ↦ refl
      ]

-- A subscription adds its subject.
subscribe-subjects :
    (accepts : Text → Bool) (subject : Text) (group : Option Text) (done told : List Action)
    → subscribe accepts subject group done ≡ ok told
    → (k : Text)
    → contains text_dec (subjects told) k
      ≡ (contains text_dec (subjects done) k || is_yes (text_dec subject k))
subscribe-subjects accepts subject group done told h k =
    let is : told ≡ done ++ subscribed subject group ∷ [] = ground arith in
    ap (λ x. contains text_dec (subjects x) k) is
    ∙ ap (λ x. contains text_dec x k) (subjects-append done (subscribed subject group ∷ []))
    ∙ contains-append text_dec (subjects done) (subject ∷ []) k
    ∙ ground arith

subscribe_groups-subjects :
    (accepts : Text → Bool) (cfg : Config) (groups : List Text) (done told : List Action)
    → subscribe_groups accepts cfg groups done ≡ ok told
    → (node : Text)
    → contains text_dec (subjects told) (gateway_subject cfg.service_id node) ≡ (
        contains text_dec (subjects done) (gateway_subject cfg.service_id node)
        || contains text_dec (map (λ g. codes "groups." ++ g) groups) node)
unfolding subscribe_groups join
subscribe_groups-subjects accepts cfg [] done told h node =
    let is : done ≡ told = cc in rw (← is) (ground arith)
subscribe_groups-subjects accepts cfg (group ∷ groups) done told h node =
    let p =
      ok-Passed (subscribe accepts (group_subject cfg group) (some group) done)
        (subscribe_groups accepts cfg groups) told h in
    ground (
      arith,
      subscribe_groups-subjects accepts cfg groups p.value told p.onward node,
      subscribe-subjects accepts (group_subject cfg group) (some group) done p.value p.reached
          (gateway_subject cfg.service_id node),
      gateway_subject_dec cfg.service_id (codes "groups." ++ group) node,
    )

contains-asked_as :
    (groups : List Text) (id node : Text)
    → contains text_dec (asked_as groups id) node ≡ (
        contains text_dec (map (λ g. codes "groups." ++ g) groups) node
        || is_yes (text_dec id node))
contains-asked_as [] id node = ground arith
contains-asked_as (group ∷ groups) id node = ground (arith, contains-asked_as groups id node)

-- Coming online subscribes to nothing.
announce-subjects :
    (publishes : Text → Bool) (cfg : Config) (told actions : List Action)
    → announce publishes cfg (told ++ scheduler_started (limit_of cfg.rate_limit_ms) ∷ [])
      ≡ ok actions
    → subjects actions ≡ subjects told
announce-subjects publishes cfg told actions h =
    let is : (told ++ scheduler_started (limit_of cfg.rate_limit_ms) ∷ [])
          ++ event_hooks cfg (pos 0) (codes "online") ∷ []
        ≡ actions =
      ground arith in
    ap subjects (sym is)
    ∙ subjects-append (told ++ scheduler_started (limit_of cfg.rate_limit_ms) ∷ [])
        (event_hooks cfg (pos 0) (codes "online") ∷ [])
    ∙ append-nil _
    ∙ subjects-append told (scheduler_started (limit_of cfg.rate_limit_ms) ∷ [])
    ∙ append-nil _

-- A node that has come online is subscribed to the requests that the gateway sends for a name
-- exactly where this is the node's own, or `groups.` in front of one of its groups.
pub start_node-reached :
    (accepts publishes : Text → Bool) (cfg : Config) (actions : List Action)
    → start_node true accepts publishes cfg ≡ ok actions
    → (node : Text)
    → contains text_dec (subjects actions) (gateway_subject cfg.service_id node)
      ≡ contains text_dec (asked_as cfg.node_groups cfg.node_id) node
unfolding start_node subscribe_all
start_node-reached accepts publishes cfg actions h node =
    let all =
      ok-Passed (subscribe_all accepts cfg)
        (λ told.
          announce publishes cfg (told ++ scheduler_started (limit_of cfg.rate_limit_ms) ∷ []))
        actions h in
    let grouped =
      ok-Passed (subscribe_groups accepts cfg cfg.node_groups [])
        (λ done.
          subscribe accepts (node_subject cfg (codes "request")) none done
          >>= subscribe accepts (node_subject cfg (codes "meta")) none)
        all.value all.reached in
    let asked =
      ok-Passed (subscribe accepts (node_subject cfg (codes "request")) none grouped.value)
        (subscribe accepts (node_subject cfg (codes "meta")) none) all.value grouped.onward in
    let subject = gateway_subject cfg.service_id node in
    ground (
      arith,
      announce-subjects publishes cfg all.value actions all.onward,
      subscribe_groups-subjects accepts cfg cfg.node_groups [] grouped.value grouped.reached node,
      subscribe-subjects accepts (node_subject cfg (codes "request")) none grouped.value asked.value
          asked.reached subject,
      subscribe-subjects accepts (node_subject cfg (codes "meta")) none asked.value all.value
          asked.onward subject,
      gateway_subject_dec cfg.service_id cfg.node_id node,
      meta_subject_other cfg.service_id cfg.node_id node,
      contains-asked_as cfg.node_groups cfg.node_id node,
    )
