-- ===== src/Interest/Wanted.antt =====
-- server/broker.cpp: the interest set against what this broker's subscribers want from the mesh,
-- and what both mean for a link.
use wisp.Prelude.{
  ◌≡◌, ◌≢◌, ◌⊎◌, refl, ◌∙◌, inl, inr, Bool-cases, true, false, not, ◌&&◌, ◌||◌, Bool, some, ◌==◌,
  Bytes, bytes_eq, bytes_beq, bytes_beq_iff, if◌then◌else◌, arith, ltb, length, if_both,
}
use wisp.Prelude.Map.{lookup, insert_ordered}
use wisp.Keys.{wildcard_topic}
use wisp.Interest.{
  PeerLink, Demand, Links, ask, each_peer, subscribe_wildcard, subscribe_topic,
  note_topic_subscribed, unsubscribe_wildcard, unsubscribe_topic, note_topic_unsubscribed,
  note_mesh_interest_change, max_interest_topics, is_propagatable_topic,
}
use wisp.Interest.Asked.{asked}
use wisp.Interest.Follows.{wide, interested, interested-grown, interested-shrunk}
use wisp.Interest.Coverage.{IsCovering}

-- The wildcard flag and, unless the broker is saturated, the interest set say what is wanted.
pub record Reflects (d : Demand) (wants : Bytes → Bool) : Type 0 where
  pub wild : d.wildcard ≡ wants wildcard_topic
  pub exact :
      d.saturated ≡ false → (t : Bytes) → interested d t ≡ (is_propagatable_topic t && wants t)

abbrev pub update : (Bytes → Bool) → Bytes → Bool → Bytes → Bool
update wants topic b t = if topic == t then b else wants t

star-propagatable : is_propagatable_topic wildcard_topic ≡ false
unfolding is_propagatable_topic bytes_beq
star-propagatable = refl

module _ (l : Links) (wants : Bytes → Bool) (r : Reflects l.demand wants) (topic : Bytes) where
  -- The state reflects what is wanted once this topic is wanted, or not.
  abbrev Notes : Bool → Links → Type 0
  Notes b x = Reflects x.demand (update wants topic b)

  star_case :
      (b : Bool)
      → topic ≡ wildcard_topic
      → Notes b (record l { demand = record l.demand { wildcard = b } })
  star_case b e = record {
    wild = ground (arith, bytes_beq_iff topic wildcard_topic);
    exact = λ s t. ground (arith, r.exact s t, bytes_beq_iff topic t, star-propagatable);
  }

  same_star : (b : Bool) → topic ≡ wildcard_topic → l.wildcard ≡ b → Notes b l
  same_star b e w = record {
    wild = ground (arith, bytes_beq_iff topic wildcard_topic);
    exact = λ s t. ground (arith, r.exact s t, bytes_beq_iff topic t, star-propagatable);
  }

  private_case :
      (b : Bool)
      → (topic == wildcard_topic) ≡ false
      → is_propagatable_topic topic ≡ false
      → Notes b l
  private_case b other p = record {
    wild = ground (arith, r.wild);
    exact = λ s t. ground (arith, r.exact s t, bytes_beq_iff topic t);
  }

  kept : (b : Bool) → wants topic ≡ b → Notes b l
  kept b h = record {
    wild = ground (arith, r.wild, bytes_beq_iff topic wildcard_topic);
    exact = λ s t. ground (arith, r.exact s t, bytes_beq_iff topic t);
  }

  subscribed-Reflects : Notes true (note_topic_subscribed l topic)
  unfolding note_topic_subscribed subscribe_wildcard subscribe_topic
  subscribed-Reflects =
      if_both (Notes true) (topic == wildcard_topic) _ _
        (λ e.
          let star : topic ≡ wildcard_topic = ground (arith, bytes_beq_iff topic wildcard_topic) in
          if_both (Notes true) l.wildcard _ _ (λ w. same_star true star w)
            (λ _. star_case true star))
        λ other.
          if_both (Notes true) (is_propagatable_topic topic) _ _
            (λ ok.
              if_both (Notes true) (l.saturated || interested l.demand topic) _ _
                (λ known. record {
                  wild = ground (arith, r.wild);
                  exact =
                      λ s t. ground (arith, r.exact s t, r.exact s topic, bytes_beq_iff topic t);
                })
                λ new.
                  if_both (Notes true)
                    (ltb max_interest_topics (length (insert_ordered topic tt l.interest)))
                    (record l {
                      demand = record l.demand {
                        interest = insert_ordered topic tt l.interest;
                        saturated = true;
                      };
                      peers = each_peer (ask wildcard_topic) l.peers;
                    })
                    (record l {
                      demand = record l.demand { interest = insert_ordered topic tt l.interest };
                      peers = each_peer (ask topic) l.peers;
                    })
                    (λ _. record { wild = ground (arith, r.wild); exact = λ s t. ground arith })
                    (λ _. record {
                      wild = ground (arith, r.wild);
                      exact = λ s t. ground (
                        arith,
                        r.exact s t,
                        interested-grown l.demand topic t,
                        bytes_beq_iff topic t,
                      );
                    }))
            (λ p. private_case true other p)

  unsubscribed-Reflects : Notes false (note_topic_unsubscribed l topic)
  unfolding note_topic_unsubscribed unsubscribe_wildcard unsubscribe_topic
  unsubscribed-Reflects =
      if_both (Notes false) (topic == wildcard_topic) _ _
        (λ e.
          let star : topic ≡ wildcard_topic = ground (arith, bytes_beq_iff topic wildcard_topic) in
          if_both (Notes false) (not l.wildcard) _ _ (λ w. same_star false star (ground arith))
            λ _.
              if_both (Notes false) l.saturated _ _ (λ _. star_case false star)
                (λ _. star_case false star))
        λ other.
          if_both (Notes false) (is_propagatable_topic topic) _ _
            (λ ok.
              if_both (Notes false) (l.saturated || not (interested l.demand topic)) _ _
                (λ known. record {
                  wild = ground (arith, r.wild);
                  exact =
                      λ s t. ground (arith, r.exact s t, r.exact s topic, bytes_beq_iff topic t);
                })
                λ held. record {
                  wild = ground (arith, r.wild);
                  exact = λ s t. ground (
                    arith,
                    r.exact s t,
                    interested-shrunk l.demand topic t,
                    bytes_beq_iff topic t,
                  );
                })
            (λ p. private_case false other p)

  -- When the interest reflects what is wanted, it does so again after a topic is reported to have gone
  -- from being wanted or not to being wanted or not; a report of no change has to agree with what
  -- was wanted.
  pub note_mesh_interest_change-Reflects :
      (before now : Bool)
      → (before ≡ now → wants topic ≡ now)
      → Reflects (note_mesh_interest_change l topic before now).demand (update wants topic now)
  unfolding note_mesh_interest_change
  note_mesh_interest_change-Reflects true true h = kept true (h refl)
  note_mesh_interest_change-Reflects false false h = kept false (h refl)
  note_mesh_interest_change-Reflects true false h = unsubscribed-Reflects
  note_mesh_interest_change-Reflects false true h = subscribed-Reflects

pub Reflects-of_eq :
    (d : Demand) (wants wants' : Bytes → Bool)
    → ((t : Bytes) → wants t ≡ wants' t)
    → Reflects d wants
    → Reflects d wants'
Reflects-of_eq d wants wants' e r = record {
  wild = r.wild ∙ e wildcard_topic;
  exact = λ s t. ground (arith, r.exact s t, e t);
}

-- A topic that is wanted, the wildcard included, reaches the broker over every link: each link was
-- asked for it by name or for everything.
pub wanted-asked :
    (l : Links) (wants : Bytes → Bool) (key : Bytes) (link : PeerLink) (t : Bytes)
    → IsCovering l
    → Reflects l.demand wants
    → lookup key l.peers ≡ some link
    → wants t ≡ true
    → (is_propagatable_topic t ≡ true) ⊎ (t ≡ wildcard_topic)
    → (asked link.control t ≡ true) ⊎ (asked link.control wildcard_topic ≡ true)
wanted-asked l wants key link t v r h w (inr star) =
    inr (ground (arith, (v.follow key link h).star, r.wild))
wanted-asked l wants key link t v r h w (inl ok) = elim (Bool-cases (wide l.demand)) [
  | inl wideness ↦ inr ((v.follow key link h).star ∙ wideness)
  | inr exactly ↦ inl (
      (v.follow key link h).covers t (λ e. ground (arith, star-propagatable))
        (r.exact (ground arith) t ∙ (rw (ok, w))) exactly)
]

-- And nothing else: while the broker is not saturated and nobody holds the wildcard, a link is
-- asked for exactly the wanted topics that may cross it.
pub asked-iff_wanted :
    (l : Links) (wants : Bytes → Bool) (key : Bytes) (link : PeerLink) (t : Bytes)
    → IsCovering l
    → Reflects l.demand wants
    → lookup key l.peers ≡ some link
    → l.saturated ≡ false
    → wants wildcard_topic ≡ false
    → asked link.control t ≡ (is_propagatable_topic t && wants t)
asked-iff_wanted l wants key link t v r h s w = elim (Bool-cases (t == wildcard_topic)) [
  | inl e ↦
      let star : t ≡ wildcard_topic = ground (arith, bytes_beq_iff t wildcard_topic) in
      rw (star, star-propagatable) (ground (arith, (v.follow key link h).star, r.wild))
  | inr e ↦
      let f = v.follow key link h in
      let other : t ≢ wildcard_topic = λ q. ground (arith, bytes_beq_iff t wildcard_topic) in
      ground (arith, r.exact s t, r.wild, f.covers t other, f.narrow t other)
]
