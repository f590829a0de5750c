-- ===== src/Retry/Queue/Enqueue/Distinct.antt =====
-- internal/retry/queue.go: EnqueueReencode picks or skips a title once.
use katalog_manager.Base.{
  ℕ, ◌+◌, ◌≤◌, ◌≡◌, refl, Bool, true, false, Option, none, some, if◌then◌else◌, List, [], ◌∷◌,
  arith, any, count, count-append, ◌==◌, Bool-cases, inl, inr, ==_iff,
}
use katalog_manager.Retry.Queue.{
  Selection, by_items, by_held, by_all, Skip, skip_unknown, skip_no_episodes, skip_type,
}
use katalog_manager.Retry.Queue.Enqueue.{
  Names, Request, Picks, Kind, title, series, other, no_picks, taken, pick, skip, pick_all,
  pick_kind, pick_series, pick_name, pick_names, picks_of,
}

-- No title is picked or skipped twice.
times : ℕ → Picks → ℕ
times id p = count (λ t. t.0 == id) p.titles + count (λ t. t.0 == id) p.skipped

IsDistinct : Picks → Type 0
IsDistinct p = (id : ℕ) → times id p ≤ 1

untaken :
    {A : Type 0} (id : ℕ) (ts : List (ℕ × A))
    → any (λ t. t.0 == id) ts ≡ false
    → count (λ t. t.0 == id) ts ≡ 0
unfolding count
untaken id [] h = refl
untaken id (t ∷ ts) h = ground (arith, untaken id ts)

one_of :
    {A : Type 0} (id n : ℕ) (a : A) (m : ℕ)
    → ((id == n) ≡ true → m ≡ 0)
    → m ≤ 1
    → m + count (λ (t : ℕ × A). t.0 == n) ((id, a) ∷ []) ≤ 1
unfolding count
one_of id n a m h k = elim (Bool-cases (id == n)) [
  | inl e ↦ rw e (omega (arith, h e))
  | inr e ↦ rw e (omega (arith, k))
]

untaken_times : (id : ℕ) (p : Picks) → taken id p ≡ false → times id p ≡ 0
unfolding times taken
untaken_times id p e =
    omega (arith, untaken id p.titles (ground (arith, e)), untaken id p.skipped (ground (arith, e)))

untaken_same : (id n : ℕ) (p : Picks) → taken id p ≡ false → (id == n) ≡ true → times n p ≡ 0
untaken_same id n p e k = rw (← (==_iff id n).0 k) (untaken_times id p e)

pick-IsDistinct : (s : Selection) (p : Picks) (id : ℕ) → IsDistinct p → IsDistinct (pick s p id)
unfolding pick IsDistinct
pick-IsDistinct s p id d n = elim (Bool-cases (taken id p)) [
  | inl e ↦ rw e (d n)
  | inr e ↦
      let one = one_of id n s (times n p) (untaken_same id n p e) (d n) in
      rw e (
        unfold times in
        omega (arith, one, count-append {0} (λ t. t.0 == n) p.titles ((id, s) ∷ [])))
]

skip-IsDistinct : (k : Skip) (p : Picks) (id : ℕ) → IsDistinct p → IsDistinct (skip k p id)
unfolding skip IsDistinct
skip-IsDistinct k p id d n = elim (Bool-cases (taken id p)) [
  | inl e ↦ rw e (d n)
  | inr e ↦
      let one = one_of id n k (times n p) (untaken_same id n p e) (d n) in
      rw e (
        unfold times in
        omega (arith, one, count-append {0} (λ t. t.0 == n) p.skipped ((id, k) ∷ [])))
]

pick_all-IsDistinct :
    (s : Selection) (p : Picks) (ids : List ℕ) → IsDistinct p → IsDistinct (pick_all s p ids)
unfolding pick_all
pick_all-IsDistinct s p [] d = d
pick_all-IsDistinct s p (id ∷ ids) d =
    pick_all-IsDistinct s (pick s p id) ids (pick-IsDistinct s p id d)

pick_series-IsDistinct :
    (p : Picks) (id : ℕ) (es : List ℕ) → IsDistinct p → IsDistinct (pick_series p id es)
pick_series-IsDistinct p id [] d = skip-IsDistinct skip_no_episodes p id d
pick_series-IsDistinct p id (e ∷ es) d = pick_all-IsDistinct by_items p (e ∷ es) d

pick_kind-IsDistinct :
    (n : Names) (p : Picks) (id : ℕ) (k : Option Kind)
    → IsDistinct p
    → IsDistinct (pick_kind n p id k)
unfolding pick_kind
pick_kind-IsDistinct n p id none d = skip-IsDistinct skip_unknown p id d
pick_kind-IsDistinct n p id (some title) d = pick-IsDistinct by_items p id d
pick_kind-IsDistinct n p id (some series) d = pick_series-IsDistinct p id (n.episodes_of id) d
pick_kind-IsDistinct n p id (some other) d = skip-IsDistinct skip_type p id d

pick_names-IsDistinct :
    (n : Names) (p : Picks) (ids : List (Option ℕ)) → IsDistinct p → IsDistinct (pick_names n p ids)
unfolding pick_names pick_name
pick_names-IsDistinct n p [] d = d
pick_names-IsDistinct n p (none ∷ ids) d = pick_names-IsDistinct n p ids d
pick_names-IsDistinct n p (some name ∷ ids) d =
    let id = n.holder name in
    pick_names-IsDistinct n (pick_name n p id) ids (elim (Bool-cases (taken id p)) [
      | inl e ↦ rw e d
      | inr e ↦ rw e (pick_kind-IsDistinct n p id (n.kind_of id) d)
    ])

pick_if-IsDistinct :
    (b : Bool) (s : Selection) (p : Picks) (ids : List ℕ)
    → IsDistinct p
    → IsDistinct (if b then pick_all s p ids else p)
pick_if-IsDistinct true s p ids d = pick_all-IsDistinct s p ids d
pick_if-IsDistinct false s p ids d = d

picks_of-IsDistinct : (n : Names) (r : Request) → IsDistinct (picks_of n r)
unfolding picks_of
picks_of-IsDistinct n r =
    let named = pick_names n no_picks r.items in
    let held = if r.held then pick_all by_held named n.held_titles else named in
    pick_if-IsDistinct r.all by_all held n.all_titles (
      pick_if-IsDistinct r.held by_held named n.held_titles (
        pick_names-IsDistinct n no_picks r.items
          (unfold IsDistinct in unfold times in λ id. unfold count in omega arith)))

pub picks_of-once :
    (n : Names) (r : Request) (id : ℕ)
    → count (λ t. t.0 == id) (picks_of n r).titles + count (λ t. t.0 == id) (picks_of n r).skipped
      ≤ 1
picks_of-once n r id = unfold IsDistinct in unfold times in picks_of-IsDistinct n r id
