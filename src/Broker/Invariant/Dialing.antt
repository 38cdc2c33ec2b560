-- ===== src/Broker/Invariant/Dialing.antt =====
-- server/broker.cpp: the invariant under discovery's dial and drop calls and a start with
-- discovery.
use wisp.Prelude.{
  ◌≡◌, refl, sym, ◌∙◌, subst, inl, inr, not, Option-cases, List, [], ◌∷◌, ◌==◌, Bytes, bytes_eq,
  nat_eq, ℕ, if_both,
}
use wisp.Registry.{has_mesh_subscriber}
use wisp.Interest.{Links}
use wisp.Interest.Coverage.{
  IsCovering, add_peer-IsCovering, remove_peer-IsCovering, add_peer-demand, remove_peer-demand,
}
use wisp.Interest.Wanted.{Reflects}
use wisp.Beacon.{is_valid_cluster_name}
use wisp.Discovery.{Discovery, PeerCall, drop, dial, on_datagram, expire_stale}
use wisp.Broker.State.{Broker}
use wisp.Broker.Dialing.{
  apply_calls, enter_cluster, hear, expire, enable_discovery, start_discovery, parse_tcp_port,
  peer_link_id,
}
use wisp.Broker.Invariant.{IsValid}

apply_calls-IsCovering :
    (broker_id : Bytes) (calls : List PeerCall) (l : Links)
    → IsCovering l
    → IsCovering (apply_calls broker_id calls l)
unfolding apply_calls
apply_calls-IsCovering broker_id [] l v = v
apply_calls-IsCovering broker_id (drop uuid ∷ calls) l v =
    apply_calls-IsCovering broker_id calls _ (remove_peer-IsCovering l broker_id uuid v)
apply_calls-IsCovering broker_id (dial uuid address ∷ calls) l v =
    apply_calls-IsCovering broker_id calls _
      (add_peer-IsCovering l uuid address (peer_link_id broker_id uuid) v)

apply_calls-demand :
    (broker_id : Bytes) (calls : List PeerCall) (l : Links)
    → (apply_calls broker_id calls l).demand ≡ l.demand
unfolding apply_calls
apply_calls-demand broker_id [] l = refl
apply_calls-demand broker_id (drop uuid ∷ calls) l =
    apply_calls-demand broker_id calls _ ∙ remove_peer-demand l broker_id uuid
apply_calls-demand broker_id (dial uuid address ∷ calls) l =
    apply_calls-demand broker_id calls _
    ∙ add_peer-demand l uuid address (peer_link_id broker_id uuid)

pub enter_cluster-IsValid :
    (b : Broker) (d : Discovery) (calls : List PeerCall)
    → IsValid b
    → IsValid (enter_cluster b (d, calls))
unfolding enter_cluster
enter_cluster-IsValid b d calls v = record {
  consistent = v.consistent;
  covering = apply_calls-IsCovering b.broker_id calls b.links v.covering;
  reflects =
      subst (λ x. Reflects x (has_mesh_subscriber b.subscriptions))
        (sym (apply_calls-demand b.broker_id calls b.links)) v.reflects;
  recent = v.recent;
  tracked = v.tracked;
}

pub hear-IsValid :
    (b : Broker) (sender_ip datagram : Bytes) (now : ℕ)
    → IsValid b
    → IsValid (hear b sender_ip datagram now)
unfolding hear
hear-IsValid b sender_ip datagram now v = elim (Option-cases b.discovery) [
  | inl e ↦ rw e v
  | inr (d, e) ↦ rw e (
      enter_cluster-IsValid b (on_datagram d sender_ip datagram now).0
        (on_datagram d sender_ip datagram now).1 v)
]

pub expire-IsValid : (b : Broker) (now : ℕ) → IsValid b → IsValid (expire b now)
unfolding expire
expire-IsValid b now v = elim (Option-cases b.discovery) [
  | inl e ↦ rw e v
  | inr (d, e) ↦ rw e (enter_cluster-IsValid b (expire_stale d now).0 (expire_stale d now).1 v)
]

pub enable_discovery-IsValid :
    (b : Broker) (cluster : Bytes) → IsValid b → IsValid (enable_discovery b cluster)
unfolding enable_discovery
enable_discovery-IsValid b cluster v =
    if_both IsValid (not (is_valid_cluster_name cluster)) _ _ (λ _. v) (λ _. v)

pub start_discovery-IsValid :
    (b : Broker) (addresses : List Bytes) (tap_port : ℕ)
    → IsValid b
    → IsValid (start_discovery b addresses tap_port)
unfolding start_discovery
start_discovery-IsValid b addresses tap_port v =
    if_both IsValid (b.cluster_name == []) _ _ (λ _. v)
      λ _. if_both IsValid (parse_tcp_port addresses == 0) _ _ (λ _. v) (λ _. v)
