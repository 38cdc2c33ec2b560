-- ===== src/Interest/Race.antt =====
-- server/broker.cpp, `addPeer` on the discovery thread beside `noteTopicSubscribed` on the broker
-- thread: the interest is written to the new link before the link is among the peers.
use wisp.Prelude.{
  ◌≡◌, ◌≤◌, refl, ◌∙◌, true, false, some, List, [], ◌∷◌, Bytes, bytes_eq, bytes_beq_iff, beq_refl,
  arith, length,
}
use wisp.Prelude.Map.{Map, lookup, contains, keys, insert, insert_ordered, lookup-insert}
use wisp.Keys.{wildcard_topic}
use wisp.Interest.{
  PeerLink, Demand, Links, each_peer, subscribe_topic, note_topic_subscribed, send_interest_to,
  publish_link, ask_all, new_link, has_address, max_interest_topics, is_propagatable_topic, ask,
}
use wisp.Interest.Asked.{asked, lookup-each_peer}
use wisp.Interest.Follows.{wide, interested, interested-grown, send_interest_to-Follows}
use wisp.Interest.Coverage.{IsCovering, star-plain, propagatable-ne-star}

-- The discovery thread writes the interest, the broker thread subscribes a topic, and then the
-- discovery thread publishes the link.
pub race : Links → Bytes → Bytes → Bytes → Bytes → Links
race l key address link_id topic =
    publish_link key (send_interest_to l.demand (new_link address link_id))
      (note_topic_subscribed l topic)

has_address-each_peer :
    (topic address : Bytes) (peers : Map PeerLink)
    → has_address address (each_peer (ask topic) peers) ≡ has_address address peers
unfolding has_address each_peer
has_address-each_peer topic address [] = refl
has_address-each_peer topic address ((k, link) ∷ peers) =
    ground (arith, has_address-each_peer topic address peers)

contains-each_peer :
    (f : PeerLink → PeerLink) (k : Bytes) (peers : Map PeerLink)
    → contains k (each_peer f peers) ≡ contains k peers
unfolding contains
contains-each_peer f k peers = ground (arith, lookup-each_peer f k peers)

ask_all-address :
    (topics : List Bytes) (link : PeerLink) → (ask_all topics link).address ≡ link.address
unfolding ask_all
ask_all-address [] link = refl
ask_all-address (t ∷ topics) link = ask_all-address topics (ask t link)

send_interest_to-address :
    (d : Demand) (link : PeerLink) → (send_interest_to d link).address ≡ link.address
unfolding send_interest_to
send_interest_to-address d link = ground (arith, ask_all-address (keys d.interest) link)

module _ (l : Links) (topic : Bytes) (ok : is_propagatable_topic topic ≡ true)
    (new : interested l.demand topic ≡ false) (narrow : wide l.demand ≡ false)
    (room : length (insert_ordered topic tt l.interest) ≤ max_interest_topics) where
  abbrev subscribed : Links
  subscribed = record l {
    demand = record l.demand { interest = insert_ordered topic tt l.interest };
    peers = each_peer (ask topic) l.peers;
  }

  note_subscribed : note_topic_subscribed l topic ≡ subscribed
  unfolding note_topic_subscribed subscribe_topic
  note_subscribed =
      ground (arith, bytes_beq_iff topic wildcard_topic, propagatable-ne-star topic ok)

  raced :
      (key address link_id : Bytes)
      → contains key l.peers ≡ false
      → has_address address l.peers ≡ false
      → race l key address link_id topic ≡ record subscribed {
        peers = insert key (send_interest_to l.demand (new_link address link_id)) subscribed.peers;
      }
  unfolding race publish_link
  raced key address link_id absent elsewhere = rw (
    note_subscribed,
    contains-each_peer (ask topic) key l.peers,
    absent,
    send_interest_to-address l.demand (new_link address link_id),
    has_address-each_peer topic address l.peers,
    elsewhere,
  )

  -- When the discovery thread writes the interest to a new link, the broker thread then subscribes
  -- a topic, and only then the link joins the peers: with a new topic that may cross links, from a
  -- covering state that asks for less than everything and has room for the topic, and with a key
  -- and an address that no peer has, the new link is among the peers afterwards and the topic is
  -- in the interest set, but the link was asked neither for the topic nor for everything.
  pub race_loses_topic :
      (key address link_id : Bytes)
      → IsCovering l
      → contains key l.peers ≡ false
      → has_address address l.peers ≡ false
      → (link : PeerLink) × (lookup key (race l key address link_id topic).peers ≡ some link)
        × (interested (race l key address link_id topic).demand topic ≡ true)
        × (asked link.control topic ≡ false)
        × (asked link.control wildcard_topic ≡ false)
  race_loses_topic key address link_id v absent elsewhere =
      let link = send_interest_to l.demand (new_link address link_id) in
      let f = send_interest_to-Follows l.demand address link_id (star-plain l v) in
      let after = raced key address link_id absent elsewhere in
      (
        link,
        rw after (rw (lookup-insert key key link subscribed.peers, beq_refl key) refl),
        rw after (rw (interested-grown l.demand topic topic, beq_refl topic) refl),
        ground (arith, f.narrow topic (propagatable-ne-star topic ok), new, narrow),
        f.star ∙ narrow,
      )
