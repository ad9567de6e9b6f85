-- ===== src/Broker/Mailbox.antt =====
-- What one step of the broker (internal/broker/broker.go) means to a subscriber, whose channel and
-- the channel of the published events are one queue to him.
use mathlib.Core.List.{append-nil, append_assoc, Sublistᴰ}
use mathlib.Core.List.Sublistᴰ
use comin.Base.{
  ℕ, ◌+◌, ◌<◌, ◌≡◌, refl, sym, ap, subst, ◌∙◌, Bool, true, false, not, ◌&&◌, inl, inr, some, List,
  [], ◌∷◌, ◌++◌, length, ltb, nat_eq, nat_eq_iff, Bool-cases, All, arith, if◌then◌else◌,
}
use comin.Broker.{
  Event, Broker, Action, start, stop, subscribe, dispatch, leave, publish, unsubscribe, receive,
  step, dispatched, tail_of, send, send_all, set_channel, without,
}
use comin.Broker.Channels.{IsApart, IsValid, passed, not_blocked}
use comin.Broker.Sending.{listed, send_all-listed, without-listed}

-- The abstract view: what the reader of the channel has yet to get.
abbrev pub mailbox : ℕ → Broker → List Event
mailbox ch b = b.channels ch ++ b.publish_ch

abbrev pub published : Action → List Event
published (publish msg) = msg ∷ []
published _ = []

abbrev head_of : List Event → List Event
head_of [] = []
head_of (msg ∷ rest) = msg ∷ []

-- What the reader of the channel takes.
abbrev pub taken : ℕ → Action → Broker → List Event
taken ch (receive c) b = if nat_eq ch c then head_of (b.channels c) else []
taken ch _ b = []

-- The subscription is not given up.
abbrev pub keeps : ℕ → Action → Bool
keeps ch (unsubscribe c) = not (nat_eq ch c)
keeps ch _ = true

-- There is room in the channel where an event is handed out.
abbrev pub HasRoom : ℕ → Action → Broker → Type 0
HasRoom ch dispatch b = length (b.channels ch) < 5
HasRoom ch _ b = Unit

-- What one step means to a subscriber: he stays listed, what he takes and has yet to get is a part of
-- what he had yet to get and what is published, and with room it is all of it.
pub record Delivers (ch : ℕ) (a : Action) (b b' : Broker) : Type 0 where
  pub still : listed ch b'.subscribers ≡ true
  pub in_order : Sublistᴰ (taken ch a b ++ mailbox ch b') (mailbox ch b ++ published a)
  pub in_full : HasRoom ch a b → taken ch a b ++ mailbox ch b' ≡ mailbox ch b ++ published a

in_both :
    (ch : ℕ) (a : Action) (b b' : Broker)
    → listed ch b'.subscribers ≡ true
    → taken ch a b ++ mailbox ch b' ≡ mailbox ch b ++ published a
    → Delivers ch a b b'
in_both ch a b b' l e = record {
  still = l;
  in_order = subst (λ q. Sublistᴰ (taken ch a b ++ mailbox ch b') q) e (Sublistᴰ.refl _);
  in_full = λ room. e;
}

-- An event that is handed out comes behind what the channel holds, or is dropped.
send-Sublistᴰ :
    (buffer : List Event) (msg : Event) → Sublistᴰ (send buffer msg) (buffer ++ msg ∷ [])
unfolding send
send-Sublistᴰ buffer msg = elim (Bool-cases (ltb (length buffer) 5)) [
  | inl room ↦ rw room (Sublistᴰ.refl (buffer ++ msg ∷ []))
  | inr full ↦ rw full (
      subst (λ l. Sublistᴰ l (buffer ++ msg ∷ [])) (append-nil buffer)
        (Sublistᴰ.append (Sublistᴰ.refl buffer) (Sublistᴰ.nil-sublist (msg ∷ []))))
]

send_with_room :
    (buffer : List Event) (msg : Event) → length buffer < 5 → send buffer msg ≡ buffer ++ msg ∷ []
unfolding send
send_with_room buffer msg room = ground arith

dispatched-Delivers :
    (ch : ℕ) (events : List Event) (b b' : Broker)
    → b.publish_ch ≡ events
    → IsApart b.subscribers
    → listed ch b.subscribers ≡ true
    → dispatched events b ≡ some b'
    → Delivers ch dispatch b b'
dispatched-Delivers ch [] b b' e apart l h = absurd (ground arith)
dispatched-Delivers ch (msg ∷ rest) b b' e apart l h =
    let after : Broker = record b {
      publish_ch = rest;
      channels = send_all b.subscribers msg b.channels;
    } in
    let sent = send_all-listed ch b.subscribers msg b.channels apart l in
    let whole : (b.channels ch ++ msg ∷ []) ++ rest ≡ mailbox ch b ++ [] =
      append_assoc (b.channels ch) (msg ∷ []) rest
      ∙ ap (λ q. b.channels ch ++ q) (sym e)
      ∙ sym (append-nil (mailbox ch b)) in
    subst (Delivers ch dispatch b) (passed true after b' h) (record {
      still = l;
      in_order =
          subst (λ q. Sublistᴰ (q ++ rest) (mailbox ch b ++ [])) (sym sent)
            (subst (λ q. Sublistᴰ (send (b.channels ch) msg ++ rest) q) whole
              (Sublistᴰ.append (send-Sublistᴰ (b.channels ch) msg) (Sublistᴰ.refl rest)));
      in_full =
          λ room. ap (λ q. q ++ rest) (sent ∙ send_with_room (b.channels ch) msg room) ∙ whole;
    })

tail_of-Delivers :
    (ch c : ℕ) (events : List Event) (b b' : Broker)
    → b.channels c ≡ events
    → listed ch b.subscribers ≡ true
    → tail_of c events b ≡ some b'
    → Delivers ch (receive c) b b'
tail_of-Delivers ch c [] b b' e l h = absurd (ground arith)
tail_of-Delivers ch c (msg ∷ rest) b b' e l h =
    let after : Broker = record b { channels = set_channel c rest b.channels } in
    subst (Delivers ch (receive c) b) (passed true after b' h) (elim (Bool-cases (nat_eq ch c)) [
      | inl own ↦ in_both ch (receive c) b after l (own_event own)
      | inr other ↦ in_both ch (receive c) b after l (rw (other, append-nil) refl)
    ])
  where
    own_event :
        nat_eq ch c ≡ true
        → taken ch (receive c) b ++ (set_channel c rest b.channels ch ++ b.publish_ch)
          ≡ mailbox ch b ++ []
    own_event own =
        let here : ch ≡ c = ground (arith, nat_eq_iff ch c) in
        rw (own, e, append-nil) (ap (λ q. q ++ b.publish_ch) (sym (ap b.channels here ∙ e)))

listed_below : (ch n : ℕ) (l : List ℕ) → All (λ c. c < n) l → listed ch l ≡ true → ch < n
unfolding listed
listed_below ch n [] h k = absurd (ground arith)
listed_below ch n (c ∷ rest) (first, others) k =
    ground (arith, nat_eq_iff ch c, listed_below ch n rest others)

-- A new channel is another one.
subscribe-Delivers :
    (ch : ℕ) (b b' : Broker)
    → IsValid b
    → listed ch b.subscribers ≡ true
    → step subscribe b ≡ some b'
    → Delivers ch subscribe b b'
unfolding step listed
subscribe-Delivers ch b b' v l h =
    let n = b.next_channel in
    let after : Broker = record b {
      subscribers = n ∷ b.subscribers;
      channels = set_channel n [] b.channels;
      next_channel = n + 1;
    } in
    let below : ch < n = listed_below ch n b.subscribers v.named l in
    let other : nat_eq ch n ≡ false = ground (arith, nat_eq_iff ch n) in
    subst (Delivers ch subscribe b) (passed true after b' h)
      (in_both ch subscribe b after (ground arith) (rw (other, append-nil) refl))

pub step-Delivers :
    (ch : ℕ) (a : Action) (b b' : Broker)
    → IsValid b
    → keeps ch a ≡ true
    → listed ch b.subscribers ≡ true
    → step a b ≡ some b'
    → Delivers ch a b b'
unfolding step
step-Delivers ch start b b' v k l h =
    let after : Broker = record b { running = true } in
    subst (Delivers ch start b) (not_blocked b.running after b' h)
      (in_both ch start b after l (sym (append-nil (mailbox ch b))))
step-Delivers ch stop b b' v k l h =
    let after : Broker = record b { stopped = true } in
    subst (Delivers ch stop b) (not_blocked b.stopped after b' h)
      (in_both ch stop b after l (sym (append-nil (mailbox ch b))))
step-Delivers ch subscribe b b' v k l h = subscribe-Delivers ch b b' v l h
step-Delivers ch dispatch b b' v k l h = elim (Bool-cases b.running) [
  | inl r ↦ dispatched-Delivers ch b.publish_ch b b' refl v.apart l (ground arith)
  | inr r ↦ absurd (ground arith)
]
step-Delivers ch leave b b' v k l h =
    let after : Broker = record b { running = false } in
    subst (Delivers ch leave b) (passed (b.running && b.stopped) after b' h)
      (in_both ch leave b after l (sym (append-nil (mailbox ch b))))
step-Delivers ch (publish msg) b b' v k l h =
    let after : Broker = record b { publish_ch = b.publish_ch ++ msg ∷ [] } in
    subst (Delivers ch (publish msg) b) (passed (ltb (length b.publish_ch) 1) after b' h) (
      in_both ch (publish msg) b after l
        (sym (append_assoc (b.channels ch) b.publish_ch (msg ∷ []))))
step-Delivers ch (unsubscribe c) b b' v k l h =
    let after : Broker = record b { subscribers = without c b.subscribers } in
    subst (Delivers ch (unsubscribe c) b) (passed true after b' h) (
      in_both ch (unsubscribe c) b after (without-listed ch c b.subscribers (ground arith) l)
        (sym (append-nil (mailbox ch b))))
step-Delivers ch (receive c) b b' v k l h = tail_of-Delivers ch c (b.channels c) b b' refl l h
