-- ===== src/Registry/Subscribers.antt =====
-- server/subscriptionregistry.h: one topic's vector of subscribers, read by client.
use wisp.Prelude.{
  ◌≡◌, refl, ap, sym, ◌∙◌, ◌&&◌, Option, none, some, List, [], ◌∷◌, ◌++◌, ◌==◌, Bytes, bytes_eq,
  bytes_beq_iff, if◌then◌else◌, arith, is_some,
}
use wisp.Keys.{Origin}
use mathlib.Core.Option
use wisp.Registry.{Subscriber, find_in, set_scope, back, without_back, swap_with_back, take_out}

-- The scope that a client is listed with.
unfoldable pub scope_in : Bytes → List Subscriber → Option Origin
scope_in c [] = none
scope_in c (s ∷ subs) = if s.client_id == c then some s.scope else scope_in c subs

-- No client is listed twice.
abbrev pub IsUnique : List Subscriber → Type 0
IsUnique [] = Unit {0}
IsUnique (s ∷ subs) = (scope_in s.client_id subs ≡ none) × IsUnique subs

pub scope_in-find_in :
    (c : Bytes) (subs : List Subscriber)
    → scope_in c subs ≡ Option.map (λ (s : Subscriber). s.scope) (find_in c subs)
unfolding scope_in find_in
scope_in-find_in c [] = refl
scope_in-find_in c (s ∷ subs) = ground (arith, scope_in-find_in c subs)

pub scope_in-push_back :
    (c : Bytes) (s : Subscriber) (subs : List Subscriber)
    → scope_in s.client_id subs ≡ none
    → scope_in c (subs ++ s ∷ []) ≡ (if s.client_id == c then some s.scope else scope_in c subs)
unfolding scope_in
scope_in-push_back c s [] h = refl
scope_in-push_back c s (t ∷ subs) h = ground (
  arith,
  scope_in-push_back c s subs,
  bytes_beq_iff t.client_id s.client_id,
  bytes_beq_iff t.client_id c,
  bytes_beq_iff s.client_id c,
)

pub push_back-IsUnique :
    (s : Subscriber) (subs : List Subscriber)
    → scope_in s.client_id subs ≡ none
    → IsUnique subs
    → IsUnique (subs ++ s ∷ [])
unfolding scope_in
push_back-IsUnique s [] h u = (refl, tt)
push_back-IsUnique s (t ∷ subs) h u = ground (
  arith,
  scope_in-push_back t.client_id s subs,
  push_back-IsUnique s subs,
  bytes_beq_iff t.client_id s.client_id,
  bytes_beq_iff s.client_id t.client_id,
)

pub scope_in-set_scope :
    (c client : Bytes) (scope : Origin) (subs : List Subscriber)
    → scope_in c (set_scope client scope subs)
      ≡ (if client == c && is_some (scope_in client subs) then some scope else scope_in c subs)
unfolding scope_in set_scope
scope_in-set_scope c client scope [] = ground arith
scope_in-set_scope c client scope (t ∷ subs) = ground (
  arith,
  scope_in-set_scope c client scope subs,
  bytes_beq_iff t.client_id client,
  bytes_beq_iff t.client_id c,
  bytes_beq_iff client c,
)

pub set_scope-IsUnique :
    (client : Bytes) (scope : Origin) (subs : List Subscriber)
    → IsUnique subs
    → IsUnique (set_scope client scope subs)
unfolding set_scope
set_scope-IsUnique client scope [] u = tt
set_scope-IsUnique client scope (t ∷ subs) u = ground (
  arith,
  scope_in-set_scope t.client_id client scope subs,
  set_scope-IsUnique client scope subs,
  bytes_beq_iff t.client_id client,
  bytes_beq_iff client t.client_id,
)

split_back :
    (s : Subscriber) (subs : List Subscriber) → without_back s subs ++ back s subs ∷ [] ≡ s ∷ subs
unfolding back without_back
split_back s [] = refl
split_back s (t ∷ subs) = ap (◌∷◌ s) (split_back t subs)

-- Of a list without repetition whose last entry is known.
pop_back :
    (s : Subscriber) (subs : List Subscriber)
    → IsUnique (subs ++ s ∷ [])
    → (scope_in s.client_id subs ≡ none) × IsUnique subs
unfolding scope_in
pop_back s [] u = (refl, tt)
pop_back s (t ∷ subs) u = ground (
  arith,
  pop_back s subs,
  scope_in-push_back t.client_id s subs,
  bytes_beq_iff t.client_id s.client_id,
  bytes_beq_iff s.client_id t.client_id,
)

swap_with_back_lem :
    (c : Bytes) (subs : List Subscriber)
    → IsUnique subs
    → (scope_in c (swap_with_back subs) ≡ scope_in c subs) × IsUnique (swap_with_back subs)
unfolding swap_with_back scope_in
swap_with_back_lem c [] u = (refl, tt)
swap_with_back_lem c (s ∷ subs) u =
    (sym (scope_in-push_back c l init h.0) ∙ ap (scope_in c) (split_back s subs), h)
  where
    l : Subscriber
    l = back s subs

    init : List Subscriber
    init = without_back s subs

    h : (scope_in l.client_id init ≡ none) × IsUnique init
    h = pop_back l init (rw (split_back s subs) u)

pub scope_in-take_out :
    (c client : Bytes) (subs : List Subscriber)
    → IsUnique subs
    → scope_in c (take_out client subs) ≡ (if client == c then none else scope_in c subs)
unfolding scope_in take_out
scope_in-take_out c client [] u = ground arith
scope_in-take_out c client (t ∷ subs) u = ground (
  arith,
  scope_in-take_out c client subs u.1,
  swap_with_back_lem c subs u.1,
  bytes_beq_iff t.client_id client,
  bytes_beq_iff t.client_id c,
  bytes_beq_iff client c,
)

pub take_out-IsUnique :
    (client : Bytes) (subs : List Subscriber) → IsUnique subs → IsUnique (take_out client subs)
unfolding take_out
take_out-IsUnique client [] u = tt
take_out-IsUnique client (t ∷ subs) u = ground (
  arith,
  scope_in-take_out t.client_id client subs u.1,
  take_out-IsUnique client subs u.1,
  swap_with_back_lem client subs u.1,
  bytes_beq_iff client t.client_id,
)
