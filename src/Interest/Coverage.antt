-- ===== src/Interest/Coverage.antt =====
-- server/broker.cpp: what every peer link was asked for, against this broker's interest.
use wisp.Prelude.{
  ◌≡◌, ◌≢◌, refl, subst, inl, inr, Bool-cases, Option-cases, true, false, not, ◌||◌, Bool, ◌==◌,
  Bytes, bytes_eq, bytes_beq, bytes_beq_iff, arith, if_both,
}
use wisp.Prelude.Map.{lookup, contains, keys, insert_ordered, lookup-insert, lookup-erase}
use wisp.Keys.{wildcard_topic}
use wisp.Interest.{
  PeerLink, Links, ask, withdraw, ask_all, subscribe_wildcard, subscribe_topic,
  note_topic_subscribed, unsubscribe_wildcard, unsubscribe_topic, note_topic_unsubscribed,
  note_mesh_interest_change, publish_link, add_peer, has_address, remove_peer,
  is_propagatable_topic,
}
use wisp.Interest.Follows.{
  interested, Follows, AllFollow, each_peer-AllFollow, interested-grown, interested-shrunk,
  subscribe_wildcard-Follows, grow-Follows, saturate-Follows, shrink-Follows,
  narrow_wildcard-Follows, drop_wildcard-Follows, send_interest_to-Follows,
}

-- Every link follows the interest, and the interest holds only topics that may cross a link.
pub record IsCovering (l : Links) : Type 0 where
  pub follow : AllFollow l
  pub plain : (t : Bytes) → interested l.demand t ≡ true → is_propagatable_topic t ≡ true

pub star-plain : (l : Links) → IsCovering l → interested l.demand wildcard_topic ≡ false
unfolding is_propagatable_topic bytes_beq
star-plain l v = ground (arith, v.plain wildcard_topic)

pub propagatable-ne-star : (t : Bytes) → is_propagatable_topic t ≡ true → t ≢ wildcard_topic
unfolding is_propagatable_topic
propagatable-ne-star t h e = ground (arith, bytes_beq_iff t wildcard_topic)

subscribe_wildcard-IsCovering : (l : Links) → IsCovering l → IsCovering (subscribe_wildcard l)
unfolding subscribe_wildcard
subscribe_wildcard-IsCovering l v =
    if_both IsCovering l.wildcard _ _ (λ _. v)
      λ _. record {
        follow =
            each_peer-AllFollow l _ (ask wildcard_topic) refl
              (λ link f. subscribe_wildcard-Follows l.demand link f) v.follow;
        plain = v.plain;
      }

subscribe_topic-IsCovering :
    (l : Links) (topic : Bytes)
    → is_propagatable_topic topic ≡ true
    → IsCovering l
    → IsCovering (subscribe_topic l topic)
unfolding subscribe_topic
subscribe_topic-IsCovering l topic ok v =
    if_both IsCovering (l.saturated || interested l.demand topic) _ _ (λ _. v)
      λ _.
        if_both IsCovering _ _ _
          (λ _. record {
            follow =
                each_peer-AllFollow l _ (ask wildcard_topic) refl
                  (λ link f. saturate-Follows l.demand link f topic) v.follow;
            plain = plain_grown;
          })
          (λ _. record {
            follow =
                each_peer-AllFollow l _ (ask topic) refl
                  (λ link f. grow-Follows l.demand link f topic (propagatable-ne-star topic ok))
                  v.follow;
            plain = plain_grown;
          })
  where
    plain_grown :
        (t : Bytes)
        → contains t (insert_ordered topic tt l.interest) ≡ true
        → is_propagatable_topic t ≡ true
    plain_grown t h =
        ground (arith, interested-grown l.demand topic t, bytes_beq_iff topic t, v.plain t)

unsubscribe_wildcard-IsCovering : (l : Links) → IsCovering l → IsCovering (unsubscribe_wildcard l)
unfolding unsubscribe_wildcard
unsubscribe_wildcard-IsCovering l v =
    if_both IsCovering (not l.wildcard) _ _ (λ _. v)
      λ _.
        if_both IsCovering l.saturated _ _
          (λ s. record {
            follow = λ k link h. drop_wildcard-Follows l.demand link (v.follow k link h) s;
            plain = v.plain;
          })
          (λ s. record {
            follow =
                each_peer-AllFollow l _
                  (λ link. ask_all (keys l.interest) (withdraw wildcard_topic link)) refl
                  (λ link f. narrow_wildcard-Follows l.demand link f s (star-plain l v)) v.follow;
            plain = v.plain;
          })

unsubscribe_topic-IsCovering :
    (l : Links) (topic : Bytes)
    → is_propagatable_topic topic ≡ true
    → IsCovering l
    → IsCovering (unsubscribe_topic l topic)
unfolding unsubscribe_topic
unsubscribe_topic-IsCovering l topic ok v =
    if_both IsCovering (l.saturated || not (interested l.demand topic)) _ _ (λ _. v)
      λ _. record {
        follow =
            each_peer-AllFollow l _ (withdraw topic) refl
              (λ link f. shrink-Follows l.demand link f topic (propagatable-ne-star topic ok))
              v.follow;
        plain = λ t h. ground (arith, interested-shrunk l.demand topic t, v.plain t);
      }

-- A change of what a topic is wanted for keeps every link's view in step.
pub note_mesh_interest_change-IsCovering :
    (l : Links) (topic : Bytes) (before now : Bool)
    → IsCovering l
    → IsCovering (note_mesh_interest_change l topic before now)
unfolding note_mesh_interest_change note_topic_subscribed note_topic_unsubscribed
note_mesh_interest_change-IsCovering l topic before now v =
    if_both IsCovering now _ _
      (λ _.
        if_both IsCovering before _ _ (λ _. v)
          λ _.
            if_both IsCovering (topic == wildcard_topic) _ _
              (λ _. subscribe_wildcard-IsCovering l v)
              λ _.
                if_both IsCovering (is_propagatable_topic topic) _ _
                  (λ ok. subscribe_topic-IsCovering l topic ok v) (λ _. v))
      (λ _.
        if_both IsCovering before _ _
          (λ _.
            if_both IsCovering (topic == wildcard_topic) _ _
              (λ _. unsubscribe_wildcard-IsCovering l v)
              λ _.
                if_both IsCovering (is_propagatable_topic topic) _ _
                  (λ ok. unsubscribe_topic-IsCovering l topic ok v) (λ _. v))
          (λ _. v))

-- A link that is added after its interest was sent, with no change of the interest in between,
-- joins the others with the same view.
pub publish_link-IsCovering :
    (l : Links) (key : Bytes) (link : PeerLink)
    → IsCovering l
    → Follows l.demand link.control
    → IsCovering (publish_link key link l)
unfolding publish_link
publish_link-IsCovering l key link v f =
    if_both IsCovering (contains key l.peers) _ _ (λ _. v)
      λ _.
        if_both IsCovering (has_address link.address l.peers) _ _ (λ _. v)
          λ _. record {
            follow = λ k other h. elim (Bool-cases (key == k)) [
              | inl e ↦
                  let same : link ≡ other = ground (arith, lookup-insert key k link l.peers) in
                  subst (λ x. Follows l.demand x.control) same f
              | inr e ↦ v.follow k other (ground (arith, lookup-insert key k link l.peers))
            ];
            plain = v.plain;
          }

-- Adding a peer, whether or not it is linked already, keeps every link asked for the interest.
pub add_peer-IsCovering :
    (l : Links) (key address link_id : Bytes)
    → IsCovering l
    → IsCovering (add_peer l key address link_id)
unfolding add_peer
add_peer-IsCovering l key address link_id v =
    publish_link-IsCovering l key _ v
      (send_interest_to-Follows l.demand address link_id (star-plain l v))

pub remove_peer-IsCovering :
    (l : Links) (broker_id key : Bytes) → IsCovering l → IsCovering (remove_peer l broker_id key).0
unfolding remove_peer
remove_peer-IsCovering l broker_id key v = elim (Option-cases (lookup key l.peers)) [
  | inl e ↦ rw (e, remove_peer) v
  | inr (link, e) ↦
      rw (e, remove_peer)
        (record {
          follow = λ k other h. v.follow k other (ground (arith, lookup-erase key k l.peers));
          plain = v.plain;
        })
]

pub remove_peer-demand :
    (l : Links) (broker_id key : Bytes) → (remove_peer l broker_id key).0.demand ≡ l.demand
unfolding remove_peer
remove_peer-demand l broker_id key = ground arith

pub add_peer-demand :
    (l : Links) (key address link_id : Bytes) → (add_peer l key address link_id).demand ≡ l.demand
unfolding add_peer publish_link
add_peer-demand l key address link_id = ground arith
