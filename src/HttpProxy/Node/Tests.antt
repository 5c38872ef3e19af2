-- ===== src/HttpProxy/Node/Tests.antt =====
-- A node of two groups.
use focot_services.Prelude.{
  contains, codes, text_dec, join, ◌≡◌, refl, true, false, none, some, List, [], ◌∷◌,
}
use focot_services.Prelude.Int.{pos}
use focot_services.Prelude.Results.{ok}
use focot_services.HttpProxy.Node.{
  Config, get_meta, Action, subscribed, scheduler_started, published, closed, subscribe_groups,
  subscribe_all, start_node, stop_node,
}
use focot_services.HttpProxy.Node.Reached.{gateway_subject, subjects, asked_as, start_node-reached}

abbrev cfg : Config
cfg = record {
  service_id = codes "proxy";
  node_id = codes "n1";
  node_groups = codes "eu" ∷ codes "us" ∷ [];
  rate_limit_ms = pos 500;
  gzip_min_length = pos 1024;
  heartbeat_interval = pos 30;
}

abbrev online : List Action
online =
    subscribed (codes "proxy.groups.eu.request") (some (codes "eu"))
    ∷ subscribed (codes "proxy.groups.us.request") (some (codes "us"))
    ∷ subscribed (codes "proxy.n1.request") none
    ∷ subscribed (codes "proxy.n1.meta") none
    ∷ scheduler_started (some (pos 500))
    ∷ published (codes "proxy.event.online") (get_meta cfg (pos 0))
    ∷ []

comes_online : start_node true (λ _. true) (λ _. true) cfg ≡ ok online
unfolding start_node subscribe_all subscribe_groups join
comes_online = refl

-- A node that cannot announce itself stops.
not_announced : stop_node (λ _. false) cfg (pos 7) ≡ closed ∷ []
unfolding stop_node
not_announced = refl

start_node-reached_example :
    contains text_dec (subjects online) (gateway_subject (codes "proxy") (codes "groups.us"))
    ≡ contains text_dec (asked_as (codes "eu" ∷ codes "us" ∷ []) (codes "n1")) (codes "groups.us")
start_node-reached_example =
    start_node-reached (λ _. true) (λ _. true) cfg online comes_online (codes "groups.us")
