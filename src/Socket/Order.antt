-- ===== src/Socket/Order.antt =====
-- common/zmqworker.cpp: the order of what the socket took, and how batches and backlogs keep it.
pub mod Kept
pub mod Batches
pub mod Steps
pub mod Calls
use wisp.Prelude.{
  ◌≡◌, refl, sym, ap, ◌∙◌, inl, inr, Bool-cases, Bool, true, false, List, [], ◌∷◌, ◌++◌,
  if◌then◌else◌, arith, if_both, ℕ, suc, ◌+◌, ◌<◌, ◌≤◌, ltb, length,
}
use wisp.Socket.State.{Item, Lane, Moment, send, put, flush, trim}

abbrev pub All {ℓ} : {A : Type ℓ} (P : A → Type 0) → List A → Type 0
All P [] = Unit {0}
All P (x ∷ xs) = P x × All P xs

-- Asked of data messages alone, and of control messages alone.
abbrev pub ForData : Lane → Type 0 → Type 0
ForData Lane.control P = Unit {0}
ForData Lane.data_ P = P
ForData Lane.encoded P = Unit {0}
ForData Lane.own P = Unit {0}

abbrev pub ForControl : Lane → Type 0 → Type 0
ForControl Lane.control P = P
ForControl Lane.data_ P = Unit {0}
ForControl Lane.encoded P = Unit {0}
ForControl Lane.own P = Unit {0}

pub ForData-map : (lane : Lane) (P Q : Type 0) → (P → Q) → ForData lane P → ForData lane Q
ForData-map Lane.control P Q f h = tt
ForData-map Lane.data_ P Q f h = f h
ForData-map Lane.encoded P Q f h = tt
ForData-map Lane.own P Q f h = tt

pub ForControl-map : (lane : Lane) (P Q : Type 0) → (P → Q) → ForControl lane P → ForControl lane Q
ForControl-map Lane.control P Q f h = f h
ForControl-map Lane.data_ P Q f h = tt
ForControl-map Lane.encoded P Q f h = tt
ForControl-map Lane.own P Q f h = tt

pub ForControl-of : (lane : Lane) (P : Type 0) → P → ForControl lane P
ForControl-of Lane.control P h = h
ForControl-of Lane.data_ P h = tt
ForControl-of Lane.encoded P h = tt
ForControl-of Lane.own P h = tt

-- A data message arrived before this number.
abbrev pub Behind : ℕ → Item → Type 0
Behind n item = ForData item.lane (item.stamp < n)

abbrev pub NotControl : Item → Type 0
NotControl item = ForControl item.lane ⊥

abbrev pub NotData : Item → Type 0
NotData item = ForData item.lane ⊥

-- Where a control message stands before these, newest first, they hold no later data.
abbrev pub Leads : Item → List Item → Type 0
Leads item wire = ForControl item.lane (All (Behind item.stamp) wire)

-- Every data message that the socket took before a control message had arrived before it.
abbrev pub InOrder : List Item → Type 0
InOrder [] = Unit {0}
InOrder (item ∷ wire) = Leads item wire × InOrder wire

-- All of `items` come after the data in `wire`.
abbrev pub Follow : List Item → List Item → Type 0
Follow items wire = All (λ item. All (Behind item.stamp) wire) items

module _ {ℓ} {A : Type ℓ} where
  pub All-append : (P : A → Type 0) (xs ys : List A) → All P xs → All P ys → All P (xs ++ ys)
  All-append P [] ys h k = k
  All-append P (x ∷ xs) ys h k = (h.0, All-append P xs ys h.1 k)

  pub All-map : (P Q : A → Type 0) (xs : List A) → ((x : A) → P x → Q x) → All P xs → All Q xs
  All-map P Q [] f h = tt
  All-map P Q (x ∷ xs) f h = (f x h.0, All-map P Q xs f h.1)

pub trim-All :
    (P : Item → Type 0) (limit : ℕ) (items : List Item) → All P items → All P (trim limit items)
unfolding trim
trim-All P limit [] h = tt
trim-All P limit (item ∷ items) h =
    if_both (All P) (ltb limit (length (item ∷ items))) _ _ (λ over. trim-All P limit items h.1)
      (λ fits. h)

pub Behind-mono : (n : ℕ) (item : Item) → Behind n item → Behind (n + 1) item
Behind-mono n item h =
    ForData-map item.lane (item.stamp < n) (item.stamp < n + 1) (λ l. omega (arith, l)) h

pub NotData-Behind : (n : ℕ) (item : Item) → NotData item → Behind n item
NotData-Behind n item h = ForData-map item.lane ⊥ (item.stamp < n) (λ e. absurd e) h

pub Follow-nil : (items : List Item) → Follow items []
Follow-nil [] = tt
Follow-nil (x ∷ items) = (tt, Follow-nil items)

-- A message that is no data may be taken before anything.
Follow-cons :
    (x : Item) (items wire : List Item) → NotData x → Follow items wire → Follow items (x ∷ wire)
Follow-cons x items wire n h =
    All-map (λ item. All (Behind item.stamp) wire) (λ item. All (Behind item.stamp) (x ∷ wire))
      items (λ item k. (NotData-Behind item.stamp x n, k)) h

-- What a batch of messages that are not control leaves on the wire.
pub put-InOrder :
    (m : Moment) (items wire : List Item)
    → All NotControl items
    → InOrder wire
    → InOrder (put m items wire)
unfolding put send
put-InOrder m [] wire n h = h
put-InOrder m (x ∷ items) wire n h = put-InOrder m items _ n.1 (
    if_both InOrder (m.takes wire) _ _
      (λ on. (ForControl-map x.lane ⊥ (All (Behind x.stamp) wire) (λ e. absurd e) n.0, h))
      (λ off. h))

pub put-All :
    (P : Item → Type 0) (m : Moment) (items wire : List Item)
    → All P items
    → All P wire
    → All P (put m items wire)
unfolding put send
put-All P m [] wire n h = h
put-All P m (x ∷ items) wire n h =
    put-All P m items _ n.1 (if_both (All P) (m.takes wire) _ _ (λ on. (n.0, h)) (λ off. h))

-- What waits and follows both the batch and what was taken before follows what is taken then.
pub put-Follow :
    (m : Moment) (rest items wire : List Item)
    → Follow rest items
    → Follow rest wire
    → Follow rest (put m items wire)
put-Follow m [] items wire f h = tt
put-Follow m (x ∷ rest) items wire f h =
    (put-All (Behind x.stamp) m items wire f.0 h.0, put-Follow m rest items wire f.1 h.1)

-- A flush of control messages that follow the wire.
pub flush-InOrder :
    (m : Moment) (items wire : List Item)
    → All NotData items
    → Follow items wire
    → InOrder wire
    → InOrder (flush m items wire).1
unfolding flush
flush-InOrder m [] wire n f h = h
flush-InOrder m (x ∷ items) wire n f h =
    if_both (λ (p : List Item × List Item). InOrder p.1) (m.takes wire) _ _
      (λ on.
        flush-InOrder m items (x ∷ wire) n.1 (Follow-cons x items wire n.0 f.1)
          (ForControl-of x.lane (All (Behind x.stamp) wire) f.0, h))
      (λ off. h)

pub flush-Behind :
    (k : ℕ) (m : Moment) (items wire : List Item)
    → All NotData items
    → All (Behind k) wire
    → All (Behind k) (flush m items wire).1
unfolding flush
flush-Behind k m [] wire n h = h
flush-Behind k m (x ∷ items) wire n h =
    if_both (λ (p : List Item × List Item). All (Behind k) p.1) (m.takes wire) _ _
      (λ on. flush-Behind k m items (x ∷ wire) n.1 (NotData-Behind k x n.0, h)) (λ off. h)

pub flush-All :
    (P : Item → Type 0) (m : Moment) (items wire : List Item)
    → All P items
    → All P (flush m items wire).0
unfolding flush
flush-All P m [] wire n = tt
flush-All P m (x ∷ items) wire n =
    if_both (λ (p : List Item × List Item). All P p.0) (m.takes wire) _ _
      (λ on. flush-All P m items (x ∷ wire) n.1) (λ off. n)

pub flush-Follow :
    (m : Moment) (items wire : List Item)
    → All NotData items
    → Follow items wire
    → Follow (flush m items wire).0 (flush m items wire).1
unfolding flush
flush-Follow m [] wire n f = tt
flush-Follow m (x ∷ items) wire n f =
    if_both (λ (p : List Item × List Item). Follow p.0 p.1) (m.takes wire) _ _
      (λ on. flush-Follow m items (x ∷ wire) n.1 (Follow-cons x items wire n.0 f.1)) (λ off. f)
