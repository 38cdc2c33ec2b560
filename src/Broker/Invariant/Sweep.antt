-- ===== src/Broker/Invariant/Sweep.antt =====
-- server/broker.cpp: the invariant under the zombie sweep of `run`.
use wisp.Prelude.{
  ◌≡◌, refl, ◌∙◌, none, true, not, ◌||◌, ◌&&◌, Bool, false, List, [], ◌∷◌, ◌==◌, nat_eq, ltb, ◌-◌,
  ◌≤◌, Bytes, bytes_eq, ℕ, zero, suc, length, if◌then◌else◌, arith,
}
use wisp.Prelude.Map.{Map, lookup, lookup-erase}
use wisp.Discovery.Roster.{listed}
use wisp.Broker.State.{Broker, ClientState, forget_client}
use wisp.Broker.Upkeep.{sweep, forget_each, zombies, max_removals_per_sweep}
use wisp.Broker.Invariant.{IsValid}
use wisp.Broker.Invariant.Forget.{forget_client-IsValid}

forget_each-IsValid :
    (clients : List Bytes) (b : Broker) → IsValid b → IsValid (forget_each clients b)
unfolding forget_each
forget_each-IsValid [] b v = v
forget_each-IsValid (client ∷ clients) b v =
    forget_each-IsValid clients (forget_client b client) (forget_client-IsValid b client v)

-- A sweep of a valid broker leaves it valid.
pub sweep-IsValid : (b : Broker) (now : ℕ) → IsValid b → IsValid (sweep b now)
unfolding sweep
sweep-IsValid b now v =
    forget_each-IsValid (zombies max_removals_per_sweep b.client_timeout now b.clients) b v

lookup-forget_each :
    (clients : List Bytes) (b : Broker) (c : Bytes)
    → lookup c (forget_each clients b).clients
      ≡ (if listed clients c then none else lookup c b.clients)
unfolding forget_each forget_client
lookup-forget_each [] b c = refl
lookup-forget_each (client ∷ clients) b c =
    lookup-forget_each clients (forget_client b client) c
    ∙ ground (arith, lookup-erase client c b.clients)

-- Some entry of the client was last heard from longer ago than the timeout.
abbrev pub is_silent : ℕ → ℕ → Bytes → Map ClientState → Bool
is_silent timeout now c [] = false
is_silent timeout now c ((client, state) ∷ clients) =
    let rest = is_silent timeout now c clients in
    (client == c && ltb timeout (now - state.last_seen)) || rest

zombies-silent :
    (room timeout now : ℕ) (clients : Map ClientState) (c : Bytes)
    → (not (listed (zombies room timeout now clients) c) || is_silent timeout now c clients) ≡ true
unfolding zombies
zombies-silent zero timeout now clients c = refl
zombies-silent (suc room) timeout now [] c = refl
zombies-silent (suc room) timeout now ((client, state) ∷ clients) c = ground (
  arith,
  zombies-silent room timeout now clients c,
  zombies-silent (suc room) timeout now clients c,
)

zombies-full :
    (room timeout now : ℕ) (clients : Map ClientState) (c : Bytes)
    → (not (is_silent timeout now c clients)
        || (listed (zombies room timeout now clients) c
            || length (zombies room timeout now clients) == room))
      ≡ true
unfolding zombies
zombies-full zero timeout now clients c = ground arith
zombies-full (suc room) timeout now [] c = refl
zombies-full (suc room) timeout now ((client, state) ∷ clients) c =
    ground (
      arith,
      zombies-full room timeout now clients c,
      zombies-full (suc room) timeout now clients c,
    )

length-zombies :
    (room timeout now : ℕ) (clients : Map ClientState)
    → length (zombies room timeout now clients) ≤ room
unfolding zombies
length-zombies zero timeout now clients = omega arith
length-zombies (suc room) timeout now [] = omega arith
length-zombies (suc room) timeout now ((client, state) ∷ clients) =
    ground (
      arith,
      length-zombies room timeout now clients,
      length-zombies (suc room) timeout now clients,
    )

-- The clients that a sweep removes.
abbrev pub swept : Broker → ℕ → List Bytes
swept b now = zombies max_removals_per_sweep b.client_timeout now b.clients

-- A sweep of a valid broker leaves it valid. It removes the sessions of at most 16 clients and no other
-- session. Each of the 16 was silent for longer than the timeout, and a client that was so silent is
-- left over only when there are 16.
pub sweep-sweeps :
    (b : Broker) (now : ℕ) (c : Bytes)
    → IsValid b
    → IsValid (sweep b now)
      × (lookup c (sweep b now).clients
          ≡ (if listed (swept b now) c then none else lookup c b.clients))
      × (length (swept b now) ≤ 16)
      × ((not (listed (swept b now) c) || is_silent b.client_timeout now c b.clients) ≡ true)
      × ((not (is_silent b.client_timeout now c b.clients)
            || (listed (swept b now) c || length (swept b now) == 16))
          ≡ true)
unfolding sweep
sweep-sweeps b now c v = (
  unfold sweep in sweep-IsValid b now v,
  lookup-forget_each (swept b now) b c,
  length-zombies 16 b.client_timeout now b.clients,
  zombies-silent 16 b.client_timeout now b.clients c,
  zombies-full 16 b.client_timeout now b.clients c,
)
