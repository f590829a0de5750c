-- ===== src/Retry/Queue/Enqueue/Once.antt =====
-- internal/retry/queue.go: which titles EnqueueReencode queues, and what ClearReencodeQueue leaves.
use katalog_manager.Base.{
  ℕ, suc, ◌+◌, ◌||◌, ◌≤◌, ◌≡◌, refl, sym, Bool, true, false, none, some, Option-cases, List, [],
  ◌∷◌, ◌++◌, arith, any, count, length, length-append, count-append, ◌==◌, Bool-cases, inl, inr,
  ==_iff,
}
use katalog_manager.Retry.Queue.{Entry, Unqueueable, Selection, is_sent, unqueueable_of}
use katalog_manager.Retry.Queue.Enqueue.Distinct.{picks_of-once}
use katalog_manager.Retry.Queue.Enqueue.{
  Names, Request, picks_of, split_picks, is_active_of, insert_titles, new_entry, enqueue,
  delete_states, clear_reencode_queue, default_states,
}

-- No title is queued or sent twice.
abbrev pub IsOnce : List Entry → Type 0
IsOnce qs = (item : ℕ) → count (is_active_of item) qs ≤ 1

any-count : (p : Entry → Bool) (qs : List Entry) → any p qs ≡ false → count p qs ≡ 0
unfolding count
any-count p [] h = refl
any-count p (q ∷ qs) h = ground (arith, any-count p qs)

module _ (next item : ℕ) (s : Selection) (n : ℕ) where
  last-le : count (is_active_of n) (new_entry next item s ∷ []) ≤ 1
  unfolding count
  last-le = ground arith

  last-other : (item == n) ≡ false → count (is_active_of n) (new_entry next item s ∷ []) ≡ 0
  unfolding count
  last-other k = rw k refl

append-IsOnce :
    (next item : ℕ) (s : Selection) (qs : List Entry)
    → any (is_active_of item) qs ≡ false
    → IsOnce qs
    → IsOnce (qs ++ (new_entry next item s ∷ []))
append-IsOnce next item s qs e h n = elim (Bool-cases (item == n)) [
  | inl k ↦
      let same : item ≡ n = (==_iff item n).0 k in
      let absent = rw same at (any-count (is_active_of item) qs e) in
      omega (
        arith,
        count-append {0} (is_active_of n) qs (new_entry next item s ∷ []),
        h n,
        last-le next item s n,
      )
  | inr k ↦ omega (
    arith,
    count-append {0} (is_active_of n) qs (new_entry next item s ∷ []),
    h n,
    last-other next item s n k,
  )
]

insert_titles-IsOnce :
    (next : ℕ) (ts : List (ℕ × Selection)) (qs : List Entry)
    → IsOnce qs
    → IsOnce (insert_titles next ts qs).0
unfolding insert_titles
insert_titles-IsOnce next [] qs h = h
insert_titles-IsOnce next ((item, s) ∷ ts) qs h = elim (Bool-cases (any (is_active_of item) qs)) [
  | inl e ↦ rw e (insert_titles-IsOnce (suc next) ts qs h)
  | inr e ↦ rw e (
      insert_titles-IsOnce (suc next) ts (qs ++ (new_entry next item s ∷ []))
        (append-IsOnce next item s qs e h))
]

-- Of the titles picked, each is queued now, was queued already, or is skipped.
split_picks-length :
    (n : Names) (ts : List (ℕ × Selection))
    → length (split_picks n ts).0 + length (split_picks n ts).1 ≡ length ts
unfolding split_picks
split_picks-length n [] = refl
split_picks-length n ((id, s) ∷ ts) = ground (arith, split_picks-length n ts)

insert_titles-le :
    (next : ℕ) (ts : List (ℕ × Selection)) (qs : List Entry)
    → (insert_titles next ts qs).1 ≤ length ts
unfolding insert_titles
insert_titles-le next [] qs = omega arith
insert_titles-le next ((item, s) ∷ ts) qs = ground (
  arith,
  insert_titles-le (suc next) ts qs,
  insert_titles-le (suc next) ts (qs ++ (new_entry next item s ∷ [])),
)

delete_states-sent :
    (qs : List Entry)
    → (count is_sent (delete_states default_states qs).0 ≡ count is_sent qs)
      × (length (delete_states default_states qs).0 + (delete_states default_states qs).1
          ≡ length qs)
unfolding delete_states count
delete_states-sent [] = (refl, refl)
delete_states-sent (q ∷ qs) = ground (arith, delete_states-sent qs)

-- The titles to queue are those picked that are not skipped for what they are.
split_picks-queued :
    (n : Names) (ts : List (ℕ × Selection)) (i id : ℕ) (s : Selection)
    → unqueueable_of n.facts i ≡ none
    → any (λ t. t.0 == id) (split_picks n ((i, s) ∷ ts)).0
      ≡ ((i == id) || any (λ t. t.0 == id) (split_picks n ts).0)
unfolding split_picks
split_picks-queued n ts i id s e = rw (e, any) refl

split_picks-skipped :
    (n : Names) (ts : List (ℕ × Selection)) (i id : ℕ) (s : Selection) (k : Unqueueable)
    → unqueueable_of n.facts i ≡ some k
    → any (λ t. t.0 == id) (split_picks n ((i, s) ∷ ts)).0
      ≡ any (λ t. t.0 == id) (split_picks n ts).0
unfolding split_picks
split_picks-skipped n ts i id s k e = rw (e, any) refl

split_picks-any :
    (n : Names) (ts : List (ℕ × Selection)) (id : ℕ)
    → any (λ t. t.0 == id) ts ≡ true
    → unqueueable_of n.facts id ≡ none
    → any (λ t. t.0 == id) (split_picks n ts).0 ≡ true
split_picks-any n [] id h u = cc
split_picks-any n ((i, s) ∷ ts) id h u = elim (Option-cases (unqueueable_of n.facts i)) [
  | inl e ↦ rw (split_picks-queued n ts i id s e) (ground (arith, h, split_picks-any n ts id))
  | inr (k, e) ↦ rw (split_picks-skipped n ts i id s k e) (elim (Bool-cases (i == id)) [
    | inl g ↦ let same : i ≡ id = (==_iff i id).0 g in absurd (let f = rw same at e in cc)
    | inr g ↦ ground (arith, h, split_picks-any n ts id)
  ])
]

any-append : (p : Entry → Bool) (xs ys : List Entry) → any p (xs ++ ys) ≡ (any p xs || any p ys)
any-append p [] ys = refl
any-append p (x ∷ xs) ys = ground (arith, any-append p xs ys)

insert_titles-keeps :
    (next : ℕ) (ts : List (ℕ × Selection)) (qs : List Entry) (id : ℕ)
    → any (is_active_of id) qs ≡ true
    → any (is_active_of id) (insert_titles next ts qs).0 ≡ true
unfolding insert_titles
insert_titles-keeps next [] qs id h = h
insert_titles-keeps next ((item, s) ∷ ts) qs id h = elim (Bool-cases (any (is_active_of item) qs)) [
  | inl e ↦ rw e (insert_titles-keeps (suc next) ts qs id h)
  | inr e ↦ rw e (
      insert_titles-keeps (suc next) ts (qs ++ (new_entry next item s ∷ [])) id (
        let e' = any-append (is_active_of id) qs (new_entry next item s ∷ []) in
        ground (arith, h, e')))
]

insert_titles-any :
    (next : ℕ) (ts : List (ℕ × Selection)) (qs : List Entry) (id : ℕ)
    → any (λ t. t.0 == id) ts ≡ true
    → any (is_active_of id) (insert_titles next ts qs).0 ≡ true
unfolding insert_titles
insert_titles-any next [] qs id h = cc
insert_titles-any next ((item, s) ∷ ts) qs id h =
    let added = qs ++ (new_entry next item s ∷ []) in
    elim (Bool-cases (item == id)) [
      | inl k ↦
          let same : item ≡ id = (==_iff item id).0 k in
          elim (Bool-cases (any (is_active_of item) qs)) [
            | inl e ↦ rw e (insert_titles-keeps (suc next) ts qs id (rw (sym same) e))
            | inr e ↦ rw e (
                insert_titles-keeps (suc next) ts added id (
                  let e' = any-append (is_active_of id) qs (new_entry next item s ∷ []) in
                  ground (arith, k, e')))
          ]
      | inr k ↦
          let later : any (λ t. t.0 == id) ts ≡ true = ground (arith, h, k) in
          elim (Bool-cases (any (is_active_of item) qs)) [
            | inl e ↦ rw e (insert_titles-any (suc next) ts qs id later)
            | inr e ↦ rw e (insert_titles-any (suc next) ts added id later)
          ]
    ]

-- After a request that names titles is queued, to a queue where no title is queued or sent twice, of each
-- title: it was picked once or skipped once, at most, whatever the request names, how often, and by which
-- of its selections; picked, and nothing keeps it from being queued, it is queued or sent; and that it is
-- once at most.
pub enqueue-IsOnce :
    (n : Names) (next : ℕ) (r : Request) (qs : List Entry)
    → IsOnce qs
    → (id : ℕ)
    → let p = picks_of n r in
      let qs' = (enqueue n next r qs).0 in
      (count (λ t. t.0 == id) p.titles + count (λ t. t.0 == id) p.skipped ≤ 1)
      × ((any (λ t. t.0 == id) p.titles ≡ true)
          → unqueueable_of n.facts id ≡ none
          → any (is_active_of id) qs' ≡ true)
      × (count (is_active_of id) qs' ≤ 1)
unfolding enqueue
enqueue-IsOnce n next r qs h id =
    let p = picks_of n r in
    let queue = (split_picks n p.titles).0 in
    (
      picks_of-once n r id,
      λ a u. insert_titles-any next queue qs id (split_picks-any n p.titles id a u),
      insert_titles-IsOnce next queue qs h id,
    )

-- A title that a request picks is queued now, was in the queue already, or is skipped: the three are
-- as many as the titles picked, and those skipped by their name.
pub enqueue-total :
    (n : Names) (next : ℕ) (r : Request) (qs : List Entry)
    → let out = (enqueue n next r qs).1 in
      out.queued + out.already_queued + length out.skipped
      ≡ length (picks_of n r).titles + length (picks_of n r).skipped
unfolding enqueue
enqueue-total n next r qs =
    let p = picks_of n r in
    let split = split_picks n p.titles in
    omega (
      arith,
      split_picks-length n p.titles,
      insert_titles-le next split.0 qs,
      length-append {0} p.skipped split.1,
    )

-- Clearing the queue with no state named deletes no title that is sent, and says how many it deleted.
pub clear_reencode_queue-sent :
    (qs : List Entry)
    → let (rest, n) = clear_reencode_queue [] qs in
      (count is_sent rest ≡ count is_sent qs)
      × ((d : ℕ) × (n ≡ some d) × (length rest + d ≡ length qs))
unfolding clear_reencode_queue
clear_reencode_queue-sent qs =
    let (kept, counted) = delete_states-sent qs in
    (kept, ((delete_states default_states qs).1, refl, counted))
