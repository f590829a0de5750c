-- ===== src/Stream/Order.antt =====
-- What a client of the stream gets, of all that is published since it subscribed.
use mathlib.Core.List.{append-nil, append_assoc}
use katalog_manager.Base.{
  ℕ, zero, suc, ◌≤◌, ◌≡◌, refl, sym, ap, ◌∙◌, true, false, Option, none, some, List, [], ◌∷◌, ◌++◌,
  arith, map, length, length-append, get_elem?, ltb, Bool-cases, inl, inr,
}
use katalog_manager.Base.Text.{Text}
use katalog_manager.Stream.{
  Note, Client, Broker, Action, publishes, subscribes, unsubscribes, receives, client_buffer, send,
  subscribe, leave, receive, take_from, at_place, payload_of, send_all, publish, step, run,
  published_by, published,
}

-- What a channel holds of the notes published since it was made: all of them, in order, while it is
-- subscribed, and a first part of them once it is not.
pub record Kept (log : List Text) (c : Client) : Type 0 where
  pub all : c.subscribed ≡ true → log ≡ c.written ++ c.buffer
  pub first : (rest : List Text) × (log ≡ (c.written ++ c.buffer) ++ rest)
  pub few : length c.buffer ≤ client_buffer

all-first : (log s : List Text) → log ≡ s → (rest : List Text) × (log ≡ s ++ rest)
all-first log s e = ([], e ∙ sym (append-nil s))

send-Kept : (log : List Text) (p : Text) (c : Client) → Kept log c → Kept (log ++ p ∷ []) (send p c)
unfolding send
send-Kept log p c k = elim (Bool-cases c.subscribed) [
  | inr off ↦
      let (rest, e) = k.first in
      rw off (record {
        all = λ on. absurd (cc on);
        first = (
          rest ++ p ∷ [],
          ap (λ l. l ++ p ∷ []) e ∙ append_assoc (c.written ++ c.buffer) rest (p ∷ []),
        );
        few = k.few;
      })
  | inl on ↦
      let whole = k.all on in
      let more = ap (λ l. l ++ p ∷ []) whole in
      rw on (elim (Bool-cases (ltb (length c.buffer) client_buffer)) [
        | inl room ↦
            let e = more ∙ append_assoc c.written c.buffer (p ∷ []) in
            rw room (record {
              all = λ h. e;
              first = all-first (log ++ p ∷ []) (c.written ++ (c.buffer ++ p ∷ [])) e;
              few = rw (length-append c.buffer (p ∷ [])) (ground arith);
            })
        | inr full ↦
            rw full (record { all = λ h. absurd (cc h); first = (p ∷ [], more); few = k.few })
      ])
]

leave-Kept : (log : List Text) (c : Client) → Kept log c → Kept log (leave c)
unfolding leave
leave-Kept log c k = elim (Bool-cases c.subscribed) [
  | inr off ↦ rw off (record { all = λ on. absurd (cc on); first = k.first; few = k.few })
  | inl on ↦ rw on (record { all = λ h. absurd (cc h); first = k.first; few = k.few })
]

take_from-Kept :
    (log b : List Text) (c : Client) → c.buffer ≡ b → Kept log c → Kept log (take_from b c)
take_from-Kept log [] c e k = k
take_from-Kept log (p ∷ rest) c e k =
    let same : c.written ++ c.buffer ≡ (c.written ++ p ∷ []) ++ rest =
      ap (λ b. c.written ++ b) e ∙ sym (append_assoc c.written (p ∷ []) rest) in
    let few = rw e at k.few in
    let (after, f) = k.first in
    record {
      all = λ on. k.all on ∙ same;
      first = (after, f ∙ ap (λ l. l ++ after) same);
      few = omega arith;
    }

-- There is a channel at a place, of which something holds.
At : (Client → Type 0) → ℕ → Broker → Type 0
At P k b = (c : Client) × (get_elem? b k ≡ some c) × P c

on_some : (Client → Client) → Option Client → Option Client
on_some f none = none
on_some f (some c) = some (f c)

module _ (P Q : Client → Type 0) where
  At-map :
      (f : Client → Client)
      → ((c : Client) → P c → Q (f c))
      → (k : ℕ) (b : Broker) → At P k b
      → At Q k (map f b)
  unfolding At on_some
  At-map f h k [] (c, e, p) = absurd (cc e)
  At-map f h zero (d ∷ b) (c, e, p) = (f c, ap (on_some f) e, h c p)
  At-map f h (suc k) (d ∷ b) a = At-map f h k b a

module _ (P : Client → Type 0) where
  At-at_place :
      (f : Client → Client)
      → ((c : Client) → P c → P (f c))
      → (j k : ℕ) (b : Broker) → At P k b
      → At P k (at_place j f b)
  unfolding At on_some
  At-at_place f h j k [] a = a
  At-at_place f h zero zero (d ∷ b) (c, e, p) = (f c, ap (on_some f) e, h c p)
  At-at_place f h zero (suc k) (d ∷ b) a = a
  At-at_place f h (suc j) zero (d ∷ b) a = a
  At-at_place f h (suc j) (suc k) (d ∷ b) a = At-at_place f h j k b a

  At-append : (more : Broker) (k : ℕ) (b : Broker) → At P k b → At P k (b ++ more)
  unfolding At
  At-append more k [] (c, e, p) = absurd (cc e)
  At-append more zero (d ∷ b) a = a
  At-append more (suc k) (d ∷ b) a = At-append more k b a

  At-new : (c : Client) → P c → (b : Broker) → At P (length b) (b ++ c ∷ [])
  unfolding At
  At-new c p [] = (c, refl, p)
  At-new c p (d ∷ b) = At-new c p b

published_by-append :
    (o : Option Text) (log rest : List Text)
    → log ++ published_by o rest ≡ (log ++ published_by o []) ++ rest
published_by-append none log rest = ap (λ l. l ++ rest) (sym (append-nil log))
published_by-append (some p) log rest = sym (append_assoc log (p ∷ []) rest)

send_all-Kept :
    (o : Option Text) (log : List Text) (k : ℕ) (b : Broker)
    → At (Kept log) k b
    → At (Kept (log ++ published_by o [])) k (send_all o b)
unfolding send_all
send_all-Kept none log k b a = rw (append-nil log) a
send_all-Kept (some p) log k b a =
    At-map (Kept log) (Kept (log ++ p ∷ [])) (send p) (send-Kept log p) k b a

module _ (marshal : Note → Option Text) where
  run-Kept :
      (more : List Action) (log : List Text) (k : ℕ) (b : Broker)
      → At (Kept log) k b
      → At (Kept (log ++ published marshal more)) k (run marshal more b)
  unfolding run step publish published subscribe receive
  run-Kept [] log k b a = rw (append-nil log) a
  run-Kept (publishes n ∷ more) log k b a =
      let o = payload_of marshal n in
      rw (published_by-append o log (published marshal more))
        (run-Kept more (log ++ published_by o []) k (send_all o b) (send_all-Kept o log k b a))
  run-Kept (subscribes ∷ more) log k b a =
      run-Kept more log k (subscribe b) (At-append (Kept log) _ k b a)
  run-Kept (unsubscribes j ∷ more) log k b a =
      run-Kept more log k (at_place j leave b)
        (At-at_place (Kept log) leave (leave-Kept log) j k b a)
  run-Kept (receives j ∷ more) log k b a =
      run-Kept more log k (at_place j receive b)
        (At-at_place (Kept log) receive (λ c. take_from-Kept log c.buffer c refl) j k b a)

  -- Whatever is done after a client subscribes, its handler has written and its channel buffers, in
  -- order and each once, all the notes published since then while it is subscribed, and a first part of
  -- them once it is dropped or gone; and its channel never buffers more than 16.
  pub run-subscribe :
      (b : Broker) (more : List Action)
      → (c : Client) × (get_elem? (run marshal more (subscribe b)) (length b) ≡ some c)
        × (c.subscribed ≡ true → published marshal more ≡ c.written ++ c.buffer)
        × ((rest : List Text) × (published marshal more ≡ (c.written ++ c.buffer) ++ rest))
        × (length c.buffer ≤ 16)
  unfolding subscribe At
  run-subscribe b more =
      let fresh : Client = record {
        subscribed = true;
        closed = false;
        buffer = [];
        written = [];
      } in
      let starts : Kept [] fresh = record {
        all = λ h. refl;
        first = ([], refl);
        few = omega arith;
      } in
      let (c, e, k) = run-Kept more [] (length b) (subscribe b) (At-new (Kept []) fresh starts b) in
      (c, e, k.all, k.first, k.few)
