-- ===== src/Retry/Queue/States.antt =====
-- The states of the queue's entries, through a pass.
use katalog_manager.Base.{
  ℕ, ◌≡◌, refl, Bool, true, false, Option, none, some, List, [], ◌∷◌, arith, Bool-cases, inl, inr,
  coalesce,
}
use katalog_manager.Base.Text.{Text}
use katalog_manager.Processing.Policy.{Policy}
use katalog_manager.Processing.Table.{Row}
use katalog_manager.Retry.Queue.{Entry, is_queued, is_sent}
use katalog_manager.Retry.Queue.Finish.{finish_sent, finish_entry, ends, end_entry}
use katalog_manager.Retry.Queue.Send.{World, Pass}
use katalog_manager.Retry.Queue.Drain.{
  Gate, Settings, drain_queue, drain_as, drain_ready, drain_rest, queue_idle,
}
use katalog_manager.Retry.Queue.Writes.{
  Pairs, Follows-refl, Writes-refl, Follows-pass, Pairs-refl, Pairs-trans, send_queued-Writes,
  Follows, Writes,
}

-- What finishSent makes of an entry: its state is over, or it is as it was.
abbrev Ended : Entry → Entry → Type 0
Ended q r = Writes is_sent q r × (is_queued r ≡ is_queued q)

end_entry-Ended :
    (now : ℕ) (reason : Option Text) (q : Entry)
    → is_sent q ≡ true
    → Ended q (end_entry now reason q)
unfolding end_entry
end_entry-Ended now reason q h = (
  record {
    follows = record { same_id = refl; same_item = refl; same_seq = refl; becomes = ground arith };
    kept = λ k. absurd (cc);
  },
  ground arith,
)

finish_entry-Ended :
    (held : Entry → Bool) (now : ℕ) (rows : List Row) (q : Entry)
    → Ended q (finish_entry held now rows q)
unfolding finish_entry
finish_entry-Ended held now rows q = elim (Bool-cases (ends held rows q)) [
  | inl h ↦ rw h (end_entry-Ended now _ q (ground arith))
  | inr h ↦ rw h (Writes-refl is_sent q, refl)
]

finish_sent-Ended :
    (held : Entry → Bool) (now : ℕ) (rows : List Row) (qs : List Entry)
    → Pairs Ended qs (finish_sent held now rows qs).0
unfolding finish_sent
finish_sent-Ended held now rows [] = tt
finish_sent-Ended held now rows (q ∷ qs) =
    (finish_entry-Ended held now rows q, finish_sent-Ended held now rows qs)

sent-not_queued : (q r : Entry) → is_queued r ≡ is_queued q → is_sent q ≡ true → is_queued r ≡ false
sent-not_queued q r h k = ground arith

Ended-Follows : (q r : Entry) → Ended q r → Follows q r
Ended-Follows q r e = e.0.follows

pub Pairs-map :
    (R S : Entry → Entry → Type 0)
    → ((q r : Entry) → R q r → S q r)
    → (qs rs : List Entry) → Pairs R qs rs
    → Pairs S qs rs
Pairs-map R S h [] [] a = tt
Pairs-map R S h [] (r ∷ rs) a = elim a [ ]
Pairs-map R S h (q ∷ qs) [] a = elim a [ ]
Pairs-map R S h (q ∷ qs) (r ∷ rs) (a, at) = (h q r a, Pairs-map R S h qs rs at)

drain_rest-Follows :
    (e : World) (p : Policy) (s : Settings) (now : ℕ) (idle : Option Text) (rows : List Row)
    (qs rs : List Entry) (pass : Pass)
    → Pairs Ended qs rs
    → Pairs Follows qs (drain_rest e p s now idle rows rs pass).1.0
unfolding drain_rest
drain_rest-Follows e p s now (some why) rows qs rs pass h =
    Pairs-map Ended Follows Ended-Follows qs rs h
drain_rest-Follows e p s now none rows qs rs pass h =
    Pairs-trans Ended (Writes is_queued) Follows
      (λ q r t a b. Follows-pass q r t a.0 (sent-not_queued q r a.1) b) qs rs _ h
      (send_queued-Writes e p s.limits now rows rs pass)

drain_ready-Follows :
    (e : World) (held : Entry → Bool) (g : Gate) (p : Policy) (s : Settings) (now : ℕ)
    (rows : List Row) (qs : List Entry)
    → Pairs Follows qs (drain_ready e held g p s now rows qs).1.0
unfolding drain_ready
drain_ready-Follows e held g p s now rows qs = elim (Bool-cases g.locked) [
  | inl h ↦ rw h (
      drain_rest-Follows e p s now (queue_idle g s) rows qs (finish_sent held now rows qs).0 _
        (finish_sent-Ended held now rows qs))
  | inr h ↦ rw h (Pairs-refl Follows Follows-refl qs)
]

drain_as-Follows :
    (e : World) (held : Entry → Bool) (g : Gate) (p : Policy) (s : Settings) (now : ℕ)
    (o : Option Text) (rows : List Row) (qs : List Entry)
    → Pairs Follows qs (drain_as e held g p s now o rows qs).1.0
unfolding drain_as
drain_as-Follows e held g p s now none rows qs = drain_ready-Follows e held g p s now rows qs
drain_as-Follows e held g p s now (some why) rows qs = Pairs-refl Follows Follows-refl qs

-- Whatever a pass over the queue finds, it keeps every entry, its title and its place, and each goes
-- on as it may: one queued is sent, failed or waits on, one sent is done, failed or still sent, and
-- one done or failed stays so.
pub drain_queue-Follows :
    (e : World) (held : Entry → Bool) (g : Gate) (p : Policy) (s : Settings) (now : ℕ)
    (rows : List Row) (qs : List Entry)
    → Pairs Follows qs (drain_queue e held g p s now rows qs).1.0
unfolding drain_queue
drain_queue-Follows e held g p s now rows qs =
    drain_as-Follows e held g p s now (coalesce g.queue_table g.step_table) rows qs
