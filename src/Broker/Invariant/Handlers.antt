-- ===== src/Broker/Invariant/Handlers.antt =====
-- server/broker.cpp: the invariant under `handleClientMessage` and what it calls.
use wisp.Prelude.{
  ◌≡◌, ◌≢◌, refl, sym, ap, ◌∙◌, subst, inl, inr, Bool-cases, Option-cases, true, false, not, ◌&&◌,
  Bool, List, [], ◌∷◌, ◌==◌, Bytes, bytes_eq, bytes_beq_iff, arith, if_both, ℕ, ltb, length,
}
use wisp.Prelude.Map.{contains}
use wisp.Keys
use wisp.Keys.{Origin, decode_subscribe_scope}
use wisp.Registry.{Registry, has_mesh_subscriber}
use wisp.Registry.Consistent.{
  held, IsConsistent, subscribe-IsConsistent, held-subscribe, subscribe-unchanged,
}
use wisp.Registry.Removal.{unsubscribe-IsConsistent, held-unsubscribe, unsubscribe-unchanged}
use wisp.Registry.Mesh.{has_mesh_subscriber_iff}
use wisp.Interest.{note_mesh_interest_change}
use wisp.Interest.Coverage.{note_mesh_interest_change-IsCovering}
use wisp.Interest.Wanted.{update, note_mesh_interest_change-Reflects, Reflects-of_eq}
use wisp.Wire.{Header, make_control_header}
use wisp.Beacon.{is_valid_cluster_name}
use wisp.Discovery
use wisp.Discovery.{Discovery, PeerCall, drop, dial}
use wisp.Broker.State.{Broker, Outside}
use wisp.Broker.Session.{
  with_registry, on_subscribe, on_unsubscribe, can_subscribe, note_rejected_subscription,
  unlink_each, unlink_inbound_peers, inbound_links, on_set_cluster, touch, greet, dispatch,
  handle_client_message, max_topic_length_bytes,
}
use wisp.Broker.Invariant.{
  IsValid, Sound, SameCore, SameCore-IsValid, SameCore-trans, send_to-SameCore,
}
use wisp.Broker.Invariant.Dialing.{enter_cluster-IsValid}
use wisp.Broker.Invariant.Forget.{forget_client-IsValid}

mesh_same :
    (r r' : Registry) (t : Bytes)
    → IsConsistent r
    → IsConsistent r'
    → ((c : Bytes) → held r c t ≡ held r' c t)
    → has_mesh_subscriber r t ≡ has_mesh_subscriber r' t
mesh_same r r' t v v' h = ground (arith, there, back)
  where
    there : has_mesh_subscriber r t ≡ true → has_mesh_subscriber r' t ≡ true
    there e =
        let (c, s, p, q) = (has_mesh_subscriber_iff r t v).0 e in
        (has_mesh_subscriber_iff r' t v').1 (c, s, sym (h c) ∙ p, q)

    back : has_mesh_subscriber r' t ≡ true → has_mesh_subscriber r t ≡ true
    back e =
        let (c, s, p, q) = (has_mesh_subscriber_iff r' t v').0 e in
        (has_mesh_subscriber_iff r t v).1 (c, s, h c ∙ p, q)

-- A registry change that touches one topic keeps the broker valid.
with_registry-IsValid :
    (b : Broker) (topic : Bytes) (r : Registry) (changed : Bool)
    → IsValid b
    → IsConsistent r
    → ((t : Bytes) → topic ≢ t → (c : Bytes) → held b.subscriptions c t ≡ held r c t)
    → (changed ≡ false → r ≡ b.subscriptions)
    → IsValid (with_registry b topic (r, changed))
unfolding with_registry
with_registry-IsValid b topic r true v ok same unchanged = record {
  consistent = ok;
  covering = note_mesh_interest_change-IsCovering b.links topic before now v.covering;
  reflects =
      Reflects-of_eq (note_mesh_interest_change b.links topic before now).demand
        (update (has_mesh_subscriber b.subscriptions) topic now) (has_mesh_subscriber r)
        (λ t. elim (Bool-cases (topic == t)) [
          | inl e ↦
              let same_topic : topic ≡ t = ground (arith, bytes_beq_iff topic t, e) in
              rw e (ap (has_mesh_subscriber r) same_topic)
          | inr e ↦ rw e (
              mesh_same b.subscriptions r t v.consistent ok
                (same t (ground (arith, bytes_beq_iff topic t, e))))
        ])
        (note_mesh_interest_change-Reflects b.links (has_mesh_subscriber b.subscriptions) v.reflects
          topic before now (λ e. e));
  recent = v.recent;
  tracked = v.tracked;
}
  where
    before : Bool
    before = has_mesh_subscriber b.subscriptions topic

    now : Bool
    now = has_mesh_subscriber r topic
with_registry-IsValid b topic r false v ok same unchanged =
    subst (λ x. Sound x b.links b.seen) (sym (unchanged refl)) v

on_subscribe-IsValid :
    (b : Broker) (client topic payload : Bytes)
    → IsValid b
    → IsValid (on_subscribe b client topic payload)
unfolding on_subscribe note_rejected_subscription
on_subscribe-IsValid b client topic payload v =
    if_both IsValid (topic == []) _ _ (λ _. v)
      λ _.
        if_both IsValid (ltb max_topic_length_bytes (length topic)) _ _ (λ _. v)
          λ _.
            if_both IsValid (not (can_subscribe b client topic)) _ _ (λ _. v)
              λ _.
                with_registry-IsValid b topic _ _ v
                  (subscribe-IsConsistent b.subscriptions client topic scope v.consistent)
                  (λ t n c. ground (
                    arith,
                    held-subscribe b.subscriptions client topic scope v.consistent c t,
                    bytes_beq_iff topic t,
                  ))
                  (subscribe-unchanged b.subscriptions client topic scope)
  where
    scope : Origin
    scope = decode_subscribe_scope payload

on_unsubscribe-IsValid :
    (b : Broker) (client topic : Bytes) → IsValid b → IsValid (on_unsubscribe b client topic)
unfolding on_unsubscribe
on_unsubscribe-IsValid b client topic v =
    with_registry-IsValid b topic _ _ v
      (unsubscribe-IsConsistent b.subscriptions client topic v.consistent)
      (λ t n c.
        ground (arith, held-unsubscribe b.subscriptions client topic c t, bytes_beq_iff topic t))
      (unsubscribe-unchanged b.subscriptions client topic)

unlink_each-IsValid :
    (o : Outside) (clients : List Bytes) (b : Broker)
    → IsValid b
    → IsValid (unlink_each o clients b)
unfolding unlink_each
unlink_each-IsValid o [] b v = v
unlink_each-IsValid o (client ∷ rest) b v = unlink_each-IsValid o rest _ (
    forget_client-IsValid _ client (
      SameCore-IsValid b _
        (send_to-SameCore o b client (make_control_header Keys.unlink b.broker_id []) []) v))

on_set_cluster-IsValid :
    (o : Outside) (b : Broker) (name : Bytes) → IsValid b → IsValid (on_set_cluster o b name)
unfolding on_set_cluster unlink_inbound_peers
on_set_cluster-IsValid o b name v =
    if_both IsValid (not (is_valid_cluster_name name)) _ _ (λ _. v)
      λ _. elim (Option-cases b.discovery) [
        | inl e ↦ rw e v
        | inr (d, e) ↦ rw e (
            if_both IsValid (name == b.cluster_name) _ _ (λ _. v)
              λ _.
                enter_cluster-IsValid
                  (unlink_each o (inbound_links b.clients) (record b { cluster_name = name }))
                  (Discovery.set_cluster d name).0 (Discovery.set_cluster d name).1
                  (unlink_each-IsValid o (inbound_links b.clients)
                    (record b { cluster_name = name }) v))
      ]

touch-SameCore : (b : Broker) (client : Bytes) (now : ℕ) → SameCore b (touch b client now)
unfolding touch
touch-SameCore b client now = ground arith

pub greet-SameCore :
    (o : Outside) (b : Broker) (client key : Bytes) (now : ℕ)
    → SameCore b (greet o b client key now)
unfolding greet
greet-SameCore o b client key now =
    if_both (SameCore b) (not (contains client b.clients) && not (key == Keys.connect)) _ _
      (λ _.
        SameCore-trans b (touch b client now) _ (touch-SameCore b client now)
          (send_to-SameCore o (touch b client now) client _ []))
      (λ _. touch-SameCore b client now)

greet-IsValid :
    (o : Outside) (b : Broker) (client key : Bytes) (now : ℕ)
    → IsValid b
    → IsValid (greet o b client key now)
greet-IsValid o b client key now v =
    SameCore-IsValid b (greet o b client key now) (greet-SameCore o b client key now) v

dispatch-IsValid :
    (o : Outside) (b : Broker) (header : Header) (payload client : Bytes)
    → IsValid b
    → IsValid (dispatch o b header payload client).0
unfolding dispatch
dispatch-IsValid o b header payload client v =
    if_both Good (key == Keys.connect) _ _ (λ _. v)
      λ _.
        if_both Good (key == Keys.heartbeat) _ _
          (λ _. SameCore-IsValid b _ (send_to-SameCore o b client _ []) v)
          λ _.
            if_both Good (key == Keys.subscribe) _ _
              (λ _. on_subscribe-IsValid b client header.topic payload v)
              λ _.
                if_both Good (key == Keys.unsubscribe) _ _
                  (λ _. on_unsubscribe-IsValid b client header.topic v)
                  λ _.
                    if_both Good (key == Keys.set_cluster) _ _
                      (λ _. on_set_cluster-IsValid o b payload v) (λ _. v)
  where
    key : Bytes
    key = header.handler_key

    Good : Broker × Bool → Type 0
    Good p = IsValid p.0

-- Every message of a local client, control or not, leaves a valid broker valid.
pub handle_client_message-IsValid :
    (o : Outside) (b : Broker) (header : Header) (payload client : Bytes) (now : ℕ)
    → IsValid b
    → IsValid (handle_client_message o b header payload client now).0
unfolding handle_client_message
handle_client_message-IsValid o b header payload client now v =
    if_both (λ (p : Broker × Bool). IsValid p.0) (header.handler_key == Keys.disconnect) _ _
      (λ _. forget_client-IsValid b client v)
      (λ _.
        dispatch-IsValid o _ header payload client
          (greet-IsValid o b client header.handler_key now v))
