-- ===== src/Retry/Dispatch/Addresses.antt =====
-- One event goes out for each item and topic, for the steps that it triggers.
use katalog_manager.Base.{
  ℕ, ◌≤◌, ◌≡◌, refl, ◌∙◌, Bool, true, false, ◌&&◌, Option, none, some, List, [], ◌∷◌, ◌++◌, arith,
  length, Bool-cases, inl, inr, ◌==◌, All, All-append, length-append,
}
use katalog_manager.Base.Text.{Text}
use katalog_manager.Retry.Claim.{Claimed}
use katalog_manager.Retry.Dispatch.{
  Mark, Message, Outcome, goes_by, message_of, add_to, group_from, topic_num, topic_of, settle,
  settle_all,
}

pub same_address : Message → Message → Bool
same_address m n = m.item == n.item && topic_num m.topic == topic_num n.topic

-- What holds of the messages, after a step joined one of them.
All-add_to :
    (P : Message → Type 0) (how : Mark) (c : Claimed) (ms : List Message)
    → ((m : Message) → goes_by c m ≡ true → P m → P (record m { members = m.members ++ (c ∷ []) }))
    → P (message_of how c)
    → All P ms
    → All P (add_to how c ms)
unfolding add_to
All-add_to P how c [] join new a = (new, tt)
All-add_to P how c (m ∷ ms) join new a = elim (Bool-cases (goes_by c m)) [
  | inl e ↦ rw e (join m e a.0, a.1)
  | inr e ↦ rw e (a.0, All-add_to P how c ms join new a.1)
]

-- No two messages of one item and topic.
abbrev pub AreDistinct : List Message → Type 0
AreDistinct [] = Unit
AreDistinct (m ∷ ms) = All (λ n. same_address m n ≡ false) ms × AreDistinct ms

same_address-message_of :
    (how : Mark) (c : Claimed) (m : Message) → same_address m (message_of how c) ≡ goes_by c m
unfolding same_address goes_by message_of topic_of
same_address-message_of how c m = refl

AreDistinct-add_to :
    (how : Mark) (c : Claimed) (ms : List Message) → AreDistinct ms → AreDistinct (add_to how c ms)
unfolding add_to
AreDistinct-add_to how c [] d = (tt, tt)
AreDistinct-add_to how c (m ∷ ms) d = elim (Bool-cases (goes_by c m)) [
  | inl e ↦ rw e (unfold same_address in d)
  | inr e ↦ rw e (
    All-add_to (λ n. same_address m n ≡ false) how c ms (λ n g h. unfold same_address in h)
        (same_address-message_of how c m ∙ e) d.0,
    AreDistinct-add_to how c ms d.1,
  )
]

-- Each message is sent for one step at least, and each of its steps is of its item and has its topic.
abbrev pub IsAddressed : Message → Type 0
IsAddressed m = (1 ≤ length m.members) × All (λ c. goes_by c m ≡ true) m.members

IsAddressed-message_of : (how : Mark) (c : Claimed) → IsAddressed (message_of how c)
unfolding message_of goes_by topic_of
IsAddressed-message_of how c = (omega arith, (ground arith, tt))

IsAddressed-join :
    (c : Claimed) (m : Message)
    → goes_by c m ≡ true
    → IsAddressed m
    → IsAddressed (record m { members = m.members ++ (c ∷ []) })
unfolding goes_by
IsAddressed-join c m g (some_step, a) = (
  omega (arith, length-append {0} m.members (c ∷ [])),
  All-append (λ d. goes_by d m ≡ true) m.members (c ∷ []) a (g, tt),
)

group_from-messages :
    (how : Mark) (ms : List Message) (cs : List Claimed)
    → All IsAddressed ms × AreDistinct ms
    → All IsAddressed (group_from how ms cs) × AreDistinct (group_from how ms cs)
unfolding group_from
group_from-messages how ms [] h = h
group_from-messages how ms (c ∷ cs) (a, d) = group_from-messages how (add_to how c ms) cs (
  All-add_to IsAddressed how c ms (λ m g h. IsAddressed-join c m g h) (IsAddressed-message_of how c)
      a,
  AreDistinct-add_to how c ms d,
)

-- The messages of the claimed steps: no two of one item and topic, and each is for steps of its item
-- whose trigger has its topic, one at least.
pub group_from_lem :
    (how : Mark) (cs : List Claimed)
    → All IsAddressed (group_from how [] cs) × AreDistinct (group_from how [] cs)
group_from_lem how cs = group_from-messages how [] cs (tt, tt)

settle-items :
    (seen : List ℕ) (o : Outcome) (m : Message) (e : Option Text)
    → 1 ≤ length m.members
    → o.items ≤ o.sent
    → (settle seen o m e).1.items ≤ (settle seen o m e).1.sent
unfolding settle
settle-items seen o m none h k = ground arith
settle-items seen o m (some e) h k = k

-- The items that events went to are no more than the steps sent.
pub settle_all-items-le :
    (seen : List ℕ) (o : Outcome) (ms : List Message) (es : List (Option Text))
    → All IsAddressed ms
    → o.items ≤ o.sent
    → (settle_all seen o ms es).items ≤ (settle_all seen o ms es).sent
unfolding settle_all
settle_all-items-le seen o [] es a h = h
settle_all-items-le seen o (m ∷ ms) [] a h = h
settle_all-items-le seen o (m ∷ ms) (e ∷ es) a h =
    let (seen', o') = settle seen o m e in
    settle_all-items-le seen' o' ms es a.1 (settle-items seen o m e a.0.0 h)
