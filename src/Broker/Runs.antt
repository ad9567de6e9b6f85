-- ===== src/Broker/Runs.antt =====
-- Runs of the broker (internal/broker/broker.go), as a subscriber sees them: a queue as long as his
-- channel has room, and a part of the published events, in their order, in any case.
use mathlib.Core.List.{append-nil, append_assoc, Sublistᴰ}
use mathlib.Core.List.Sublistᴰ
use comin.Base.{
  Bool-cases, length, refl, arith, ◌⊎◌, inl, inr, ℕ, ◌≡◌, sym, ap, subst, ◌∙◌, true, some, List, [],
  ◌∷◌, ◌++◌,
}
use comin.Broker.{dispatch, dispatched, publish, send, send_all, Event, Broker, Action, step}
use comin.Broker.Channels.{IsValid, step-IsValid, passed}
use comin.Broker.Sending.{listed, send_all-listed}
use comin.Broker.Mailbox.{mailbox, published, taken, keeps, HasRoom, step-Delivers}

-- A run of the broker: what is published in it, and what the reader of the channel, who does not give
-- up his subscription, takes.
pub data Run (ch : ℕ) : Broker → List Event → List Event → Broker → Type 0 where
  none_yet : {b : Broker} → Run ch b [] [] b
  then_run :
      (a : Action) {b b' b'' : Broker} {sent got : List Event}
      → keeps ch a ≡ true
      → step a b ≡ some b'
      → Run ch b' sent got b''
      → Run ch b (published a ++ sent) (taken ch a b ++ got) b''

-- The channel has room whenever an event is handed out.
abbrev pub AlwaysHasRoom :
    (ch : ℕ) {b b' : Broker} {sent got : List Event} → Run ch b sent got b' → Type 0
AlwaysHasRoom ch none_yet = Unit
AlwaysHasRoom ch (then_run a {b} k h more) = HasRoom ch a b × AlwaysHasRoom ch more

-- In any run a subscriber gets the published events in their order, each at most once: what he takes
-- and has yet to get is a part of what he had yet to get and what is published.
pub run-Sublistᴰ :
    (ch : ℕ) {b b' : Broker} {sent got : List Event}
    → IsValid b
    → listed ch b.subscribers ≡ true
    → Run ch b sent got b'
    → Sublistᴰ (got ++ mailbox ch b') (mailbox ch b ++ sent)
run-Sublistᴰ ch {b} v l none_yet =
    subst (Sublistᴰ (mailbox ch b)) (sym (append-nil (mailbox ch b))) (Sublistᴰ.refl (mailbox ch b))
run-Sublistᴰ ch {b} {b' = last} v l (then_run a {b' = c} {sent} {got} k h more) =
    let d = step-Delivers ch a b c v k l h in
    let now = taken ch a b in
    let later = run-Sublistᴰ ch (step-IsValid a b c v h) d.still more in
    let this_step =
      subst (λ q. Sublistᴰ q (mailbox ch b ++ (published a ++ sent)))
        (append_assoc now (mailbox ch c) sent)
        (subst (Sublistᴰ ((now ++ mailbox ch c) ++ sent))
          (append_assoc (mailbox ch b) (published a) sent)
          (Sublistᴰ.append d.in_order (Sublistᴰ.refl sent))) in
    subst (λ q. Sublistᴰ q (mailbox ch b ++ (published a ++ sent)))
      (sym (append_assoc now got (mailbox ch last)))
      (Sublistᴰ.trans (Sublistᴰ.append (Sublistᴰ.refl now) later) this_step)

-- As long as his channel has room a subscriber sees a queue: what he takes and has yet to get is just
-- what he had yet to get and what is published.
pub run_refines :
    (ch : ℕ) {b b' : Broker} {sent got : List Event}
    → IsValid b
    → listed ch b.subscribers ≡ true
    → (r : Run ch b sent got b') → AlwaysHasRoom ch r
    → got ++ mailbox ch b' ≡ mailbox ch b ++ sent
run_refines ch {b} v l none_yet _ = sym (append-nil (mailbox ch b))
run_refines ch {b} {b' = last} v l (then_run a {b' = c} {sent} {got} k h more) (room, rooms) =
    let d = step-Delivers ch a b c v k l h in
    let now = taken ch a b in
    append_assoc now got (mailbox ch last)
    ∙ ap (λ q. now ++ q) (run_refines ch (step-IsValid a b c v h) d.still more rooms)
    ∙ sym (append_assoc now (mailbox ch c) sent)
    ∙ ap (λ q. q ++ sent) (d.in_full room)
    ∙ append_assoc (mailbox ch b) (published a) sent

may_hand_out : (b : Broker) → b.running ≡ true → step dispatch b ≡ dispatched b.publish_ch b
unfolding step
may_hand_out b running = ground arith

handed_out :
    (msg : Event) (rest : List Event) (b b' : Broker)
    → b.publish_ch ≡ msg ∷ rest
    → step dispatch b ≡ some b'
    → record b { publish_ch = rest; channels = send_all b.subscribers msg b.channels } ≡ b'
unfolding step
handed_out msg rest b b' e h = elim (Bool-cases b.running) [
  | inr r ↦ absurd (ground arith)
  | inl r ↦
      let ran : dispatched b.publish_ch b ≡ some b' = ground arith in
      passed true (record b { publish_ch = rest; channels = send_all b.subscribers msg b.channels })
        b' (ap (λ q. dispatched q b) (sym e) ∙ ran)
]

dropped : (buffer : List Event) (msg : Event) → length buffer ≡ 5 → send buffer msg ≡ buffer
unfolding send
dropped buffer msg full = ground arith

-- A subscriber whose channel is full loses the event that is handed out: his channel is as it was,
-- and the event has left the channel of the published events.
pub full_channel_loses_event :
    (ch : ℕ) (msg : Event) (rest : List Event) (b b' : Broker)
    → IsValid b
    → listed ch b.subscribers ≡ true
    → b.publish_ch ≡ msg ∷ rest
    → length (b.channels ch) ≡ 5
    → step dispatch b ≡ some b'
    → (b'.channels ch ≡ b.channels ch) × (b'.publish_ch ≡ rest)
unfolding step
full_channel_loses_event ch msg rest b b' v l e full h =
    let after : Broker = record b {
      publish_ch = rest;
      channels = send_all b.subscribers msg b.channels;
    } in
    let kept = send_all-listed ch b.subscribers msg b.channels v.apart l in
    let same : after ≡ b' = handed_out msg rest b b' e h in
    subst (λ (c : Broker). (c.channels ch ≡ b.channels ch) × (c.publish_ch ≡ rest)) same
      (kept ∙ dropped (b.channels ch) msg full, refl)

-- However slow the subscribers are, who publishes waits at most until the broker has handed out one
-- event: either the channel has room, or it has room after that step, which the broker can do.
pub publish_gets_through :
    (b : Broker) (msg : Event)
    → IsValid b
    → b.running ≡ true
    → ((b' : Broker) × (step (publish msg) b ≡ some b'))
      ⊎ ((b' : Broker) × (b'' : Broker) × (step dispatch b ≡ some b')
          × (step (publish msg) b' ≡ some b''))
unfolding step
publish_gets_through b msg v running = go b.publish_ch refl
  where
    go :
        (events : List Event)
        → b.publish_ch ≡ events
        → ((b' : Broker) × (step (publish msg) b ≡ some b'))
          ⊎ ((b' : Broker) × (b'' : Broker) × (step dispatch b ≡ some b')
              × (step (publish msg) b' ≡ some b''))
    go [] e = inl (record b { publish_ch = b.publish_ch ++ msg ∷ [] }, rw e refl)
    go (first ∷ []) e =
        let after : Broker = record b {
          publish_ch = [];
          channels = send_all b.subscribers first b.channels;
        } in
        inr (
          after,
          record after { publish_ch = msg ∷ [] },
          may_hand_out b running ∙ ap (λ q. dispatched q b) e,
          refl,
        )
    go (first ∷ second ∷ rest) e = absurd (let p = v.published in ground arith)
