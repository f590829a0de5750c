-- ===== src/Retry/Dispatch/Conserve.antt =====
-- internal/retry/retry.go: dispatch; which steps' events were sent, and which steps were not.
use katalog_manager.Base.{
  ℕ, ◌+◌, ◌≡◌, refl, Bool, Option, none, some, List, [], ◌∷◌, ◌++◌, arith, length, length-append,
  count, count-append, All,
}
use katalog_manager.Base.Text.{Text}
use katalog_manager.Processing.Table.{Row}
use katalog_manager.Retry.Claim.{Claimed}
use katalog_manager.Retry.Dispatch.{
  Mark, Message, Outcome, nothing_sent, message_of, add_to, group_from, settle, settle_all,
  dispatch,
}
use katalog_manager.Retry.Dispatch.Addresses.{IsAddressed, AreDistinct, group_from_lem}

-- The steps whose message the publisher took.
unfoldable pub delivered : List Message → List (Option Text) → List Claimed
delivered (m ∷ ms) (none ∷ es) = m.members ++ delivered ms es
delivered (m ∷ ms) (some e ∷ es) = delivered ms es
delivered ms es = []

module _ (p : Claimed → Bool) where
  -- The steps of the messages that pass the test.
  abbrev total : List Message → ℕ
  total [] = 0
  total (m ∷ ms) = count p m.members + total ms

  total-add_to :
      (how : Mark) (c : Claimed) (ms : List Message)
      → total (add_to how c ms) ≡ total ms + count p (c ∷ [])
  unfolding add_to message_of
  total-add_to how c [] = omega arith
  total-add_to how c (m ∷ ms) =
      ground (arith, total-add_to how c ms, count-append {0} p m.members (c ∷ []))

  total-group_from :
      (how : Mark) (ms : List Message) (cs : List Claimed)
      → total (group_from how ms cs) ≡ total ms + count p cs
  unfolding group_from
  total-group_from how ms [] = unfold count in omega arith
  total-group_from how ms (c ∷ cs) = omega (
    arith,
    total-group_from how (add_to how c ms) cs,
    total-add_to how c ms,
    count-append {0} p (c ∷ []) cs,
  )

  settle_all-total :
      (seen : List ℕ) (o : Outcome) (ms : List Message) (es : List (Option Text))
      → length es ≡ length ms
      → count p (delivered ms es) + count p (settle_all seen o ms es).not_sent
        ≡ count p o.not_sent + total ms
  unfolding settle_all settle delivered
  settle_all-total seen o [] [] h = unfold count in omega arith
  settle_all-total seen o [] (e ∷ es) h = absurd (omega arith)
  settle_all-total seen o (m ∷ ms) [] h = absurd (omega arith)
  settle_all-total seen o (m ∷ ms) (none ∷ es) h =
      let (seen', o') = settle seen o m none in
      omega (
        arith,
        settle_all-total seen' o' ms es (omega arith),
        count-append {0} p m.members (delivered ms es),
      )
  settle_all-total seen o (m ∷ ms) (some e ∷ es) h =
      let (seen', o') = settle seen o m (some e) in
      omega (
        arith,
        settle_all-total seen' o' ms es (omega arith),
        count-append {0} p o.not_sent m.members,
      )

settle_all-sent :
    (seen : List ℕ) (o : Outcome) (ms : List Message) (es : List (Option Text))
    → (settle_all seen o ms es).sent ≡ o.sent + length (delivered ms es)
unfolding settle_all settle delivered
settle_all-sent seen o [] es = omega arith
settle_all-sent seen o (m ∷ ms) [] = omega arith
settle_all-sent seen o (m ∷ ms) (none ∷ es) =
    let (seen', o') = settle seen o m none in
    omega (arith, settle_all-sent seen' o' ms es, length-append {0} m.members (delivered ms es))
settle_all-sent seen o (m ∷ ms) (some e ∷ es) =
    let (seen', o') = settle seen o m (some e) in settle_all-sent seen' o' ms es

-- Where the publisher answers an error or none for each message, each claimed step is in the messages that
-- were sent or among the steps that were not, as many times as it was claimed: so many of either pass any
-- test as of the claimed steps. The steps that were sent are counted, and no two messages are of one item
-- and topic, each for steps of its item whose trigger has its topic, one at least.
pub dispatch_lem :
    (publish : List Message → List (Option Text)) (says : Option Text → Text) (how : Mark) (now : ℕ)
    (automatic : Bool) (back_off : ℕ) (cs : List Claimed) (rows : List Row) (p : Claimed → Bool)
    → ((ms : List Message) → length (publish ms) ≡ length ms)
    → let o = (dispatch publish says how now automatic back_off cs rows).1 in
      let msgs = group_from how [] cs in
      let sent = delivered msgs (publish msgs) in
      (count p sent + count p o.not_sent ≡ count p cs)
      × (o.sent ≡ length sent)
      × All IsAddressed msgs
      × AreDistinct msgs
unfolding dispatch
dispatch_lem publish says how now automatic back_off [] rows p h =
    unfold group_from in unfold delivered in unfold count in (refl, refl, tt, tt)
dispatch_lem publish says how now automatic back_off (c ∷ cs) rows p h =
    let msgs = group_from how [] (c ∷ cs) in
    let (addressed, distinct) = group_from_lem how (c ∷ cs) in
    let none_before : count p nothing_sent.not_sent ≡ 0 = unfold count in refl in
    (
      omega (
        arith,
        settle_all-total p [] nothing_sent msgs (publish msgs) (h msgs),
        total-group_from p how [] (c ∷ cs),
      ),
      omega (arith, settle_all-sent [] nothing_sent msgs (publish msgs)),
      addressed,
      distinct,
    )
