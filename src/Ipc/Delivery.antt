-- ===== src/Ipc/Delivery.antt =====
-- What a subscriber of server/internal/ipc/eventhub.go gets.
use mathlib.Core.List.{append_assoc}
use sshbackup.Common.{
  ℕ, suc, ◌≤◌, ◌≡◌, refl, sym, ap, ◌∙◌, subst, List, [], ◌∷◌, ◌++◌, All, length, length-append, ltb,
  ◌==◌, Bool-cases, inl, inr, ◌⊎◌, arith,
}
use sshbackup.Ipc.EventHub.{
  Subscriber, Hub, event_buffer_size, without, offer, offer_all, take_next, receive_from, Reach,
  start, after_subscribe, after_unsubscribe, after_publish, after_receive,
}

-- A list that is another one with some members left out.
pub data IsPart {Event : Type 0} : List Event → List Event → Type 0 where
  nothing : IsPart [] []
  kept : {xs ys : List Event} (e : Event) → IsPart xs ys → IsPart (e ∷ xs) (e ∷ ys)
  dropped : {xs ys : List Event} (e : Event) → IsPart xs ys → IsPart xs (e ∷ ys)

module _ {Event : Type 0} where
  IsPart-snoc :
      {xs ys : List Event} (e : Event) → IsPart xs ys → IsPart (xs ++ e ∷ []) (ys ++ e ∷ [])
  IsPart-snoc e nothing = kept e nothing
  IsPart-snoc e (kept d p) = kept d (IsPart-snoc e p)
  IsPart-snoc e (dropped d p) = dropped d (IsPart-snoc e p)

  IsPart-drop : {xs ys : List Event} (e : Event) → IsPart xs ys → IsPart xs (ys ++ e ∷ [])
  IsPart-drop e nothing = dropped e nothing
  IsPart-drop e (kept d p) = kept d (IsPart-drop e p)
  IsPart-drop e (dropped d p) = dropped d (IsPart-drop e p)

  -- A channel is bounded; what it has and what was taken from it is a part of what was sent, in the
  -- same order, and if an event is missing the channel has been full.
  pub record IsServed (s : Subscriber Event) : Type 0 where
    pub bounded : length s.buffer ≤ event_buffer_size
    pub in_order : IsPart (s.received ++ s.buffer) s.sent
    pub complete : (s.received ++ s.buffer ≡ s.sent) ⊎ (suc event_buffer_size ≤ length s.sent)

  IsPart-length : {xs ys : List Event} → IsPart xs ys → length xs ≤ length ys
  IsPart-length nothing = omega arith
  IsPart-length (kept e p) = omega (arith, IsPart-length p)
  IsPart-length (dropped e p) = omega (arith, IsPart-length p)

  offered :
      (e : Event) (s : Subscriber Event)
      → (s.received ++ s.buffer) ++ e ∷ [] ≡ s.received ++ (s.buffer ++ e ∷ [])
  offered e s = append_assoc s.received s.buffer (e ∷ [])

  offer-IsServed : (e : Event) (s : Subscriber Event) → IsServed s → IsServed (offer e s)
  offer-IsServed e s v =
      let sent_more = length-append s.sent (e ∷ []) in
      elim (Bool-cases (ltb (length s.buffer) event_buffer_size)) [
        | inl h ↦ simp h (record {
          bounded = ground (arith, h, length-append s.buffer (e ∷ []));
          in_order =
              subst (λ xs. IsPart xs (s.sent ++ e ∷ [])) (offered e s) (IsPart-snoc e v.in_order);
          complete = elim v.complete [
            | inl c ↦ inl (sym (offered e s) ∙ ap (λ xs. xs ++ e ∷ []) c)
            | inr c ↦ inr (omega (arith, c, sent_more))
          ];
        })
        | inr h ↦ simp h (record {
          bounded = v.bounded;
          in_order = IsPart-drop e v.in_order;
          complete = inr (
              ground
                (arith, h, sent_more, IsPart-length v.in_order, length-append s.received s.buffer));
        })
      ]

  taken : (e : Event) (es rs : List Event) → (rs ++ e ∷ []) ++ es ≡ rs ++ (e ∷ es)
  taken e es rs = append_assoc rs (e ∷ []) es

  take-IsServed :
      (s : Subscriber Event) (es : List Event)
      → s.buffer ≡ es
      → IsServed s
      → IsServed (take_next es s)
  take-IsServed s [] h v = v
  take-IsServed s (e ∷ es) h v =
      let same = taken e es s.received ∙ ap (λ b. s.received ++ b) (sym h) in
      (record {
        bounded = ground (arith, v.bounded, ap length h);
        in_order = subst (λ xs. IsPart xs s.sent) (sym same) v.in_order;
        complete = elim v.complete [ inl c ↦ inl (same ∙ c) | inr c ↦ inr c ];
      })

  offer_all-IsServed :
      (e : Event) (ss : List (Subscriber Event)) → All IsServed ss → All IsServed (offer_all e ss)
  offer_all-IsServed e [] h = tt
  offer_all-IsServed e (s ∷ ss) h = (offer-IsServed e s h.0, offer_all-IsServed e ss h.1)

  without-IsServed :
      (k : ℕ) (ss : List (Subscriber Event)) → All IsServed ss → All IsServed (without k ss)
  without-IsServed k [] h = tt
  without-IsServed k (s ∷ ss) h = elim (Bool-cases (s.key == k)) [
    | inl m ↦ simp m (without-IsServed k ss h.1)
    | inr m ↦ simp m (h.0, without-IsServed k ss h.1)
  ]

  receive_from-IsServed :
      (k : ℕ) (ss : List (Subscriber Event)) → All IsServed ss → All IsServed (receive_from k ss)
  receive_from-IsServed k [] h = tt
  receive_from-IsServed k (s ∷ ss) h = elim (Bool-cases (s.key == k)) [
    | inl m ↦ simp m (take-IsServed s s.buffer refl h.0, receive_from-IsServed k ss h.1)
    | inr m ↦ simp m (h.0, receive_from-IsServed k ss h.1)
  ]

  new-IsServed : (k : ℕ) → IsServed (record { key = k; buffer = []; sent = []; received = [] })
  new-IsServed k = record { bounded = omega arith; in_order = nothing; complete = inl refl }

  -- However subscriptions, publications and receives interleave, no subscriber has more than the
  -- buffer's size of events waiting; what it has received, with what waits for it, is a part of what
  -- was published since it subscribed, in the order of publication; and nothing is missing unless
  -- more events were published to it than the buffer holds.
  pub Reach-IsServed : (h : Hub Event) → Reach h → All IsServed h.subs
  Reach-IsServed h start = tt
  Reach-IsServed h (after_subscribe {h = g} r) = (new-IsServed g.next, Reach-IsServed g r)
  Reach-IsServed h (after_unsubscribe {h = g} k r) = without-IsServed k g.subs (Reach-IsServed g r)
  Reach-IsServed h (after_publish {h = g} e r) = offer_all-IsServed e g.subs (Reach-IsServed g r)
  Reach-IsServed h (after_receive {h = g} k r) = receive_from-IsServed k g.subs (Reach-IsServed g r)
