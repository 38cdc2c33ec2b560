-- ===== src/Broker/Invariant/Forget.antt =====
-- server/broker.cpp: the invariant under `removeClient`.
use wisp.Prelude.{
  ◌≡◌, ◌⊎◌, refl, inl, true, false, ◌&&◌, Bool, none, List, [], ◌∷◌, ◌==◌, Bytes, bytes_eq,
  bytes_beq_iff, if◌then◌else◌, arith, is_some,
}
use wisp.Prelude.Map.{Map, lookup, lookup-erase}
use wisp.Keys.{Origin}
use wisp.Registry.{Registry, has_mesh_subscriber, remove_client, subscriptions_of, topics_at}
use wisp.Registry.Consistent.{held, IsConsistent}
use wisp.Registry.Removal.{held-remove_client, remove_client-IsConsistent}
use wisp.Registry.Mesh.{has_mesh_subscriber_iff}
use wisp.Interest.{Links, note_mesh_interest_change}
use wisp.Interest.Coverage.{IsCovering, note_mesh_interest_change-IsCovering}
use wisp.Interest.Wanted.{Reflects, update, note_mesh_interest_change-Reflects, Reflects-of_eq}
use wisp.Broker.State.{Broker, mesh_topics, revisit, forget_client, held_topics}
use wisp.Broker.Invariant.{IsValid}

abbrev among : Bytes → List Bytes → Bool
among t [] = false
among t (x ∷ xs) = if x == t then true else among t xs

-- What is wanted once the topics of the list have been looked at again.
abbrev settled : (Bytes → Bool) → (Bytes → Bool) → List Bytes → Bytes → Bool
settled before after topics t = if among t topics then after t else before t

revisit-Reflects :
    (r : Registry) (topics : List Bytes) (l : Links) (wants : Bytes → Bool)
    → Reflects l.demand wants
    → ((t : Bytes) → among t topics ≡ true → (wants t ≡ true) ⊎ (wants t ≡ has_mesh_subscriber r t))
    → Reflects (revisit r topics l).demand (settled wants (has_mesh_subscriber r) topics)
unfolding revisit
revisit-Reflects r [] l wants v h = v
revisit-Reflects r (x ∷ topics) l wants v h =
    Reflects-of_eq (revisit r (x ∷ topics) l).demand
      (settled (update wants x now) (has_mesh_subscriber r) topics)
      (settled wants (has_mesh_subscriber r) (x ∷ topics)) (λ t. ground (arith, bytes_beq_iff x t))
      (revisit-Reflects r topics (note_mesh_interest_change l x true now) (update wants x now)
        (note_mesh_interest_change-Reflects l wants v x true now
          (λ e. ground (arith, h x, bytes_beq_iff x x)))
        (λ t a. ground (arith, h t, bytes_beq_iff x t)))
  where
    now : Bool
    now = has_mesh_subscriber r x

revisit-IsCovering :
    (r : Registry) (topics : List Bytes) (l : Links)
    → IsCovering l
    → IsCovering (revisit r topics l)
unfolding revisit
revisit-IsCovering r [] l v = v
revisit-IsCovering r (x ∷ topics) l v =
    revisit-IsCovering r topics (note_mesh_interest_change l x true (has_mesh_subscriber r x))
      (note_mesh_interest_change-IsCovering l x true (has_mesh_subscriber r x) v)

among-mesh_topics :
    (r : Registry) (m : Map Origin) (t : Bytes)
    → among t (mesh_topics r m) ≡ (is_some (lookup t m) && has_mesh_subscriber r t)
unfolding mesh_topics lookup
among-mesh_topics r [] t = refl
among-mesh_topics r ((k, s) ∷ m) t = ground (arith, among-mesh_topics r m t, bytes_beq_iff k t)

held_topics-topics_at : (r : Registry) (client : Bytes) → held_topics r client ≡ topics_at r client
unfolding subscriptions_of
held_topics-topics_at r client = ground arith

-- A topic that the client did not hold is wanted from the mesh as before, and one that is wanted
-- afterwards was wanted before.
module _ (r : Registry) (client : Bytes) (v : IsConsistent r) where
  after_removal : IsConsistent (remove_client r client)
  after_removal = remove_client-IsConsistent r client v

  wanted_before :
      (t : Bytes)
      → has_mesh_subscriber (remove_client r client) t ≡ true
      → has_mesh_subscriber r t ≡ true
  wanted_before t h =
      let (c, s, p, q) = (has_mesh_subscriber_iff (remove_client r client) t after_removal).0 h in
      (has_mesh_subscriber_iff r t v).1
        (c, s, ground (arith, held-remove_client r client v c t, p), q)

  wanted_still :
      (t : Bytes)
      → held r client t ≡ none
      → has_mesh_subscriber r t ≡ true
      → has_mesh_subscriber (remove_client r client) t ≡ true
  wanted_still t n h =
      let (c, s, p, q) = (has_mesh_subscriber_iff r t v).0 h in
      (has_mesh_subscriber_iff (remove_client r client) t after_removal).1
        (c, s, ground (arith, held-remove_client r client v c t, p, n, bytes_beq_iff client c), q)

  settled_removal :
      (t : Bytes)
      → settled
          (has_mesh_subscriber r)
          (has_mesh_subscriber (remove_client r client))
          (mesh_topics r (topics_at r client))
          t
        ≡ has_mesh_subscriber (remove_client r client) t
  settled_removal t =
      ground (arith, among-mesh_topics r (topics_at r client) t, wanted_before t, wanted_still t)

-- Forgetting a client keeps the broker valid.
pub forget_client-IsValid :
    (b : Broker) (client : Bytes) → IsValid b → IsValid (forget_client b client)
unfolding forget_client
forget_client-IsValid b client v =
    let r = b.subscriptions in
    let after = remove_client r client in
    let topics = mesh_topics r (held_topics r client) in
    record {
      consistent = remove_client-IsConsistent r client v.consistent;
      covering = revisit-IsCovering after topics b.links v.covering;
      reflects =
          Reflects-of_eq (revisit after topics b.links).demand
            (settled (has_mesh_subscriber r) (has_mesh_subscriber after) topics)
            (has_mesh_subscriber after)
            (λ t. rw (held_topics-topics_at r client) (settled_removal r client v.consistent t))
            (revisit-Reflects after topics b.links (has_mesh_subscriber r) v.reflects
              (λ t a. inl (ground (arith, among-mesh_topics r (held_topics r client) t, a))));
      recent = v.recent;
      tracked = v.tracked;
    }

-- A client that a valid broker forgets has no session and holds no topic afterwards. The sessions and
-- the holdings of the others are as they were, and the broker stays valid.
pub forget_client-forgets :
    (b : Broker) (client c t : Bytes)
    → IsValid b
    → IsValid (forget_client b client)
      × (lookup c (forget_client b client).clients
          ≡ (if client == c then none else lookup c b.clients))
      × (held (forget_client b client).subscriptions c t
          ≡ (if client == c then none else held b.subscriptions c t))
unfolding forget_client
forget_client-forgets b client c t v = (
  unfold forget_client in forget_client-IsValid b client v,
  lookup-erase client c b.clients,
  held-remove_client b.subscriptions client v.consistent c t,
)
