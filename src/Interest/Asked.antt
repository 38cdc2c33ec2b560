-- ===== src/Interest/Asked.antt =====
-- PROTOCOL.md, SUBSCRIBE and UNSUBSCRIBE: what the remote end of a link holds for it, after the
-- control messages that were written to the link.
use wisp.Prelude.{
  ◌≡◌, refl, true, false, ◌||◌, Bool, List, [], ◌∷◌, ◌==◌, Bytes, bytes_eq, bytes_beq,
  if◌then◌else◌, arith,
}
use mathlib.Core.Option
use wisp.Prelude.Map.{Map, lookup, contains, keys}
use wisp.Keys
use wisp.Wire.{Envelope}
use wisp.Interest.{PeerLink, ask, withdraw, ask_all, each_peer}

-- Whether the remote end sends this topic: by the newest message that names it. The wildcard is a
-- topic here; that it stands for every other is said where this is used.
unfoldable pub asked : List Envelope → Bytes → Bool
asked [] t = false
asked (e ∷ log) t =
    if e.header.topic == t
    then if e.header.handler_key == Keys.subscribe
      then true
      else if e.header.handler_key == Keys.unsubscribe
      then false
      else asked log t
    else asked log t

unfoldable pub in_list : Bytes → List Bytes → Bool
in_list t [] = false
in_list t (x ∷ xs) = if x == t then true else in_list t xs

pub asked-ask :
    (topic t : Bytes) (link : PeerLink)
    → asked (ask topic link).control t ≡ (if topic == t then true else asked link.control t)
unfolding asked bytes_beq
asked-ask topic t link = refl

pub asked-withdraw :
    (topic t : Bytes) (link : PeerLink)
    → asked (withdraw topic link).control t ≡ (if topic == t then false else asked link.control t)
unfolding asked bytes_beq
asked-withdraw topic t link = refl

pub asked-ask_all :
    (topics : List Bytes) (t : Bytes) (link : PeerLink)
    → asked (ask_all topics link).control t ≡ (in_list t topics || asked link.control t)
unfolding ask_all in_list
asked-ask_all [] t link = refl
asked-ask_all (x ∷ topics) t link =
    ground (arith, asked-ask_all topics t (ask x link), asked-ask x t link)

pub in_list-keys {ℓ} : {V : Type ℓ} (t : Bytes) (m : Map V) → in_list t (keys m) ≡ contains t m
unfolding in_list keys contains lookup
in_list-keys t [] = refl
in_list-keys t ((k, v) ∷ m) = ground (arith, in_list-keys t m)

pub lookup-each_peer :
    (f : PeerLink → PeerLink) (k : Bytes) (peers : Map PeerLink)
    → lookup k (each_peer f peers) ≡ Option.map f (lookup k peers)
unfolding lookup each_peer
lookup-each_peer f k [] = refl
lookup-each_peer f k ((j, link) ∷ peers) = ground (arith, lookup-each_peer f k peers)
