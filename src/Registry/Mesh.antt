-- ===== src/Registry/Mesh.antt =====
-- server/subscriptionregistry.h: `hasMeshSubscriber` against the clients' side of the mapping.
use wisp.Prelude.{
  ◌≡◌, ◌↔◌, sym, ◌∙◌, inl, inr, Bool-cases, true, false, some, List, [], ◌∷◌, Bytes, bytes_eq,
  bytes_beq_iff, beq_refl, arith, Option,
}
use wisp.Keys.{Origin, scope_accepts}
use wisp.Registry.{Registry, Subscriber, has_mesh_subscriber, any_mesh, subscribers_at}
use wisp.Registry.Subscribers.{scope_in, IsUnique}
use wisp.Registry.Consistent.{held, IsConsistent}

-- Some client's subscription takes what crosses a peer link.
abbrev pub WantsMesh : (Bytes → Option Origin) → Type 0
WantsMesh scope_of =
    (client : Bytes) × (scope : Origin) × (scope_of client ≡ some scope)
    × (scope_accepts scope false ≡ true)

any_mesh-WantsMesh :
    (subs : List Subscriber)
    → any_mesh subs ≡ true
    → IsUnique subs
    → WantsMesh (λ c. scope_in c subs)
unfolding any_mesh scope_in
any_mesh-WantsMesh [] h u = absurd (ground arith)
any_mesh-WantsMesh (s ∷ subs) h u = elim (Bool-cases (scope_accepts s.scope false)) [
  | inl e ↦ (s.client_id, s.scope, rw (beq_refl s.client_id), e)
  | inr e ↦
      let (c, scope, p, q) = any_mesh-WantsMesh subs (ground arith) u.1 in
      (c, scope, ground (arith, bytes_beq_iff s.client_id c), q)
]

any_mesh_of :
    (subs : List Subscriber) (c : Bytes) (scope : Origin)
    → scope_in c subs ≡ some scope
    → scope_accepts scope false ≡ true
    → any_mesh subs ≡ true
unfolding any_mesh scope_in
any_mesh_of [] c scope p q = cc
any_mesh_of (s ∷ subs) c scope p q = ground (arith, any_mesh_of subs c scope)

has_mesh_subscriber_lem :
    (r : Registry) (topic : Bytes)
    → has_mesh_subscriber r topic ≡ any_mesh (subscribers_at r.topic_subscribers topic)
unfolding has_mesh_subscriber
has_mesh_subscriber_lem r topic = ground arith

-- In a registry whose two maps agree, the broker wants a topic from its peers exactly when some client holds it with a scope that
-- takes what crosses a peer link.
pub has_mesh_subscriber_iff :
    (r : Registry) (topic : Bytes)
    → IsConsistent r
    → (has_mesh_subscriber r topic ≡ true) ↔ WantsMesh (λ c. held r c topic)
has_mesh_subscriber_iff r topic v = (
  λ h.
      let (c, scope, p, q) =
        any_mesh-WantsMesh subs (sym (has_mesh_subscriber_lem r topic) ∙ h) (v.unique topic) in
      (c, scope, v.agree c topic ∙ p, q),
  λ (c, scope, p, q).
      has_mesh_subscriber_lem r topic ∙ any_mesh_of subs c scope (sym (v.agree c topic) ∙ p) q,
)
  where
    subs : List Subscriber
    subs = subscribers_at r.topic_subscribers topic
