-- ===== src/Interest/Follows.antt =====
-- server/broker.cpp: one link, and what each change of the interest writes to it.
use wisp.Prelude.{
  ◌≡◌, ◌≢◌, refl, subst, inl, inr, Bool-cases, Option-cases, true, false, ◌||◌, Bool, some, List,
  ◌==◌, Bytes, bytes_eq, bytes_beq_iff, if◌then◌else◌, arith, is_some,
}
use wisp.Prelude.Map.{
  Map, lookup, contains, keys, insert_ordered, erase, lookup-insert_ordered, lookup-erase,
}
use wisp.Keys.{wildcard_topic}
use wisp.Wire.{Envelope}
use wisp.Interest.{
  PeerLink, Demand, Links, ask, withdraw, ask_all, each_peer, send_interest_to, new_link,
}
use wisp.Interest.Asked.{
  asked, asked-ask, asked-withdraw, asked-ask_all, in_list-keys, lookup-each_peer,
}

-- The links take everything.
abbrev pub wide : Demand → Bool
wide d = d.saturated || d.wildcard

abbrev pub interested : Demand → Bytes → Bool
interested d t = contains t d.interest

-- What the remote end of a link holds for it: the wildcard while the links take everything, else
-- the interest set; and never a topic that has left the set, unless the broker is saturated.
pub record Follows (l : Demand) (log : List Envelope) : Type 0 where
  pub star : asked log wildcard_topic ≡ wide l
  pub covers :
      (t : Bytes) → t ≢ wildcard_topic → interested l t ≡ true → wide l ≡ false → asked log t ≡ true
  pub narrow :
      (t : Bytes)
      → t ≢ wildcard_topic
      → asked log t ≡ true
      → l.saturated ≡ false
      → interested l t ≡ true

abbrev pub AllFollow : Links → Type 0
AllFollow l =
    (k : Bytes) (link : PeerLink) → lookup k l.peers ≡ some link → Follows l.demand link.control

pub each_peer-AllFollow :
    (l l' : Links) (f : PeerLink → PeerLink)
    → l'.peers ≡ each_peer f l.peers
    → ((link : PeerLink) → Follows l.demand link.control → Follows l'.demand (f link).control)
    → AllFollow l
    → AllFollow l'
each_peer-AllFollow l l' f e step all k link h = elim (Option-cases (lookup k l.peers)) [
  | inl q ↦ absurd (ground (arith, lookup-each_peer f k l.peers, h, q, e))
  | inr (old, q) ↦
      let same : f old ≡ link = ground (arith, lookup-each_peer f k l.peers, h, q, e) in
      subst (λ x. Follows l'.demand x.control) same (step old (all k old q))
]

contains_of {ℓ} : {V : Type ℓ} (k : Bytes) (m : Map V) → contains k m ≡ is_some (lookup k m)
unfolding contains
contains_of k m = refl

module _ (l : Demand) (topic : Bytes) where
  abbrev pub grown : Demand
  grown = record l { interest = insert_ordered topic tt l.interest }

  pub interested-grown :
      (t : Bytes) → interested grown t ≡ (if topic == t then true else interested l t)
  unfolding contains
  interested-grown t = ground (arith, lookup-insert_ordered topic t tt l.interest)

  abbrev pub shrunk : Demand
  shrunk = record l { interest = erase topic l.interest }

  pub interested-shrunk :
      (t : Bytes) → interested shrunk t ≡ (if topic == t then false else interested l t)
  unfolding contains
  interested-shrunk t = ground (arith, lookup-erase topic t l.interest)

module _ (l : Demand) (link : PeerLink) (v : Follows l link.control) where
  pub subscribe_wildcard-Follows :
      Follows (record l { wildcard = true }) (ask wildcard_topic link).control
  subscribe_wildcard-Follows = record {
    star = ground (
      arith,
      asked-ask wildcard_topic wildcard_topic link,
      bytes_beq_iff wildcard_topic wildcard_topic,
    );
    covers = λ t n i w. ground arith;
    narrow = λ t n a s.
        ground (arith, asked-ask wildcard_topic t link, bytes_beq_iff wildcard_topic t, v.narrow t);
  }

  module _ (topic : Bytes) where
    pub grow-Follows : topic ≢ wildcard_topic → Follows (grown l topic) (ask topic link).control
    grow-Follows other = record {
      star =
          ground (
            arith,
            asked-ask topic wildcard_topic link,
            bytes_beq_iff topic wildcard_topic,
            v.star,
          );
      covers =
          λ t n i w. ground (arith, asked-ask topic t link, interested-grown l topic t, v.covers t);
      narrow =
          λ t n a s. ground (arith, asked-ask topic t link, interested-grown l topic t, v.narrow t);
    }

    pub saturate-Follows :
        Follows (record (grown l topic) { saturated = true }) (ask wildcard_topic link).control
    saturate-Follows = record {
      star = ground (
        arith,
        asked-ask wildcard_topic wildcard_topic link,
        bytes_beq_iff wildcard_topic wildcard_topic,
      );
      covers = λ t n i w. ground arith;
      narrow = λ t n a s. ground arith;
    }

    pub shrink-Follows :
        topic ≢ wildcard_topic → Follows (shrunk l topic) (withdraw topic link).control
    shrink-Follows other = record {
      star = ground (
        arith,
        asked-withdraw topic wildcard_topic link,
        bytes_beq_iff topic wildcard_topic,
        v.star,
      );
      covers = λ t n i w.
          ground (arith, asked-withdraw topic t link, interested-shrunk l topic t, v.covers t);
      narrow = λ t n a s.
          ground (arith, asked-withdraw topic t link, interested-shrunk l topic t, v.narrow t);
    }

  pub narrow_wildcard-Follows :
      l.saturated ≡ false
      → interested l wildcard_topic ≡ false
      → Follows
          (record l { wildcard = false })
          (ask_all (keys l.interest) (withdraw wildcard_topic link)).control
  narrow_wildcard-Follows s plain = record {
    star = ground (
      arith,
      asked-ask_all (keys l.interest) wildcard_topic (withdraw wildcard_topic link),
      in_list-keys wildcard_topic l.interest,
      asked-withdraw wildcard_topic wildcard_topic link,
      bytes_beq_iff wildcard_topic wildcard_topic,
    );
    covers = λ t n i w. ground (
      arith,
      asked-ask_all (keys l.interest) t (withdraw wildcard_topic link),
      in_list-keys t l.interest,
    );
    narrow = λ t n a s. ground (
      arith,
      asked-ask_all (keys l.interest) t (withdraw wildcard_topic link),
      in_list-keys t l.interest,
      asked-withdraw wildcard_topic t link,
      v.narrow t,
    );
  }

  pub drop_wildcard-Follows :
      l.saturated ≡ true → Follows (record l { wildcard = false }) link.control
  drop_wildcard-Follows s = record {
    star = ground (arith, v.star);
    covers = λ t n i w. ground arith;
    narrow = λ t n a u. ground arith;
  }

-- A link that has nothing yet is told the whole interest.
pub send_interest_to-Follows :
    (l : Demand) (address link_id : Bytes)
    → interested l wildcard_topic ≡ false
    → Follows l (send_interest_to l (new_link address link_id)).control
unfolding send_interest_to asked
send_interest_to-Follows l address link_id plain =
    let link = new_link address link_id in
    elim (Bool-cases (wide l)) [
      | inl w ↦ rw w (record {
        star = ground (
          arith,
          asked-ask wildcard_topic wildcard_topic link,
          bytes_beq_iff wildcard_topic wildcard_topic,
        );
        covers = λ t n i u. ground arith;
        narrow = λ t n a u. ground (arith, bytes_beq_iff wildcard_topic t);
      })
      | inr w ↦ rw w (record {
        star = ground (
          arith,
          asked-ask_all (keys l.interest) wildcard_topic link,
          in_list-keys wildcard_topic l.interest,
        );
        covers = λ t n i u.
            ground (arith, asked-ask_all (keys l.interest) t link, in_list-keys t l.interest);
        narrow = λ t n a u.
            ground (arith, asked-ask_all (keys l.interest) t link, in_list-keys t l.interest);
      })
    ]

-- A link that is told the whole interest again is asked for what it was.
pub send_again-Follows :
    (l : Demand) (link : PeerLink)
    → interested l wildcard_topic ≡ false
    → Follows l link.control
    → Follows l (send_interest_to l link).control
unfolding send_interest_to
send_again-Follows l link plain v = elim (Bool-cases (wide l)) [
  | inl w ↦ rw w (record {
    star = ground (
      arith,
      asked-ask wildcard_topic wildcard_topic link,
      bytes_beq_iff wildcard_topic wildcard_topic,
    );
    covers = λ t n i u. ground arith;
    narrow = λ t n a u.
        ground (arith, asked-ask wildcard_topic t link, bytes_beq_iff wildcard_topic t, v.narrow t);
  })
  | inr w ↦ rw w (record {
    star = ground (
      arith,
      asked-ask_all (keys l.interest) wildcard_topic link,
      in_list-keys wildcard_topic l.interest,
      v.star,
    );
    covers = λ t n i u.
        ground (arith, asked-ask_all (keys l.interest) t link, in_list-keys t l.interest);
    narrow = λ t n a u.
        ground
          (arith, asked-ask_all (keys l.interest) t link, in_list-keys t l.interest, v.narrow t);
  })
]
