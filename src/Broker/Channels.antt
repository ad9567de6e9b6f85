-- ===== src/Broker/Channels.antt =====
-- The channels of the broker (internal/broker/broker.go): what one step does to one of them, and the
-- invariant of the broker.
use comin.Base.{
  ℕ, ◌+◌, ◌≤◌, ◌<◌, ◌≡◌, ◌≢◌, refl, subst, ◌&&◌, Bool, true, false, inl, inr, none, some, List, [],
  ◌∷◌, ◌++◌, length, length-append, ltb, nat_eq, Bool-cases, All, All-mono, arith, if◌then◌else◌,
}
use comin.Broker.{
  Event, Broker, Action, start, stop, subscribe, dispatch, leave, publish, unsubscribe, receive,
  step, dispatched, tail_of, send, send_all, set_channel, without, new,
}

-- Each subscriber is listed once.
abbrev pub IsApart : List ℕ → Type 0
IsApart [] = Unit
IsApart (c ∷ rest) = All (λ d. d ≢ c) rest × IsApart rest

-- Bounded channels, subscribers listed once, and channel names that are not given out again.
pub record IsValid (b : Broker) : Type 0 where
  pub published : length b.publish_ch ≤ 1
  pub buffered : (ch : ℕ) → length (b.channels ch) ≤ 5
  pub apart : IsApart b.subscribers
  pub named : All (λ c. c < b.next_channel) b.subscribers

pub send-bound :
    (buffer : List Event) (msg : Event) → length buffer ≤ 5 → length (send buffer msg) ≤ 5
unfolding send
send-bound buffer msg h = ground (arith, length-append buffer (msg ∷ []))

set_channel-bound :
    (ch : ℕ) (events : List Event) (channels : ℕ → List Event)
    → length events ≤ 5
    → ((c : ℕ) → length (channels c) ≤ 5)
    → (c : ℕ) → length (set_channel ch events channels c) ≤ 5
set_channel-bound ch events channels h k c = ground (arith, k c)

send_all-bound :
    (subscribers : List ℕ) (msg : Event) (channels : ℕ → List Event)
    → ((c : ℕ) → length (channels c) ≤ 5)
    → (c : ℕ) → length (send_all subscribers msg channels c) ≤ 5
unfolding send_all
send_all-bound [] msg channels h c = h c
send_all-bound (ch ∷ rest) msg channels h c =
    send_all-bound rest msg (set_channel ch (send (channels ch) msg) channels)
      (set_channel-bound ch (send (channels ch) msg) channels (send-bound (channels ch) msg (h ch))
        h)
      c

without-All : (P : ℕ → Type 0) (ch : ℕ) (l : List ℕ) → All P l → All P (without ch l)
unfolding without
without-All P ch [] h = tt
without-All P ch (c ∷ rest) (first, others) = elim (Bool-cases (nat_eq c ch)) [
  | inl e ↦ rw e (without-All P ch rest others)
  | inr e ↦ rw e (first, without-All P ch rest others)
]

without-IsApart : (ch : ℕ) (l : List ℕ) → IsApart l → IsApart (without ch l)
unfolding without
without-IsApart ch [] h = tt
without-IsApart ch (c ∷ rest) (first, others) = elim (Bool-cases (nat_eq c ch)) [
  | inl e ↦ rw e (without-IsApart ch rest others)
  | inr e ↦ rw e (without-All (λ d. d ≢ c) ch rest first, without-IsApart ch rest others)
]

pub new-IsValid : IsValid new
unfolding new
new-IsValid = record {
  published = ground arith;
  buffered = λ ch. ground arith;
  apart = tt;
  named = tt;
}

ltb_lt : (a b : ℕ) → ltb a b ≡ true → a < b
ltb_lt a b h = ground arith

-- What a call that does not block leaves behind.
pub passed : (c : Bool) (b b' : Broker) → (if c then some b else none) ≡ some b' → b ≡ b'
passed true b b' h = ground arith
passed false b b' h = absurd (ground arith)

pub not_blocked : (c : Bool) (b b' : Broker) → (if c then none else some b) ≡ some b' → b ≡ b'
not_blocked true b b' h = absurd (ground arith)
not_blocked false b b' h = ground arith

publish-IsValid :
    (room : Bool) (msg : Event) (b b' : Broker)
    → ltb (length b.publish_ch) 1 ≡ room
    → IsValid b
    → (if room then some (record b { publish_ch = b.publish_ch ++ msg ∷ [] }) else none) ≡ some b'
    → IsValid b'
publish-IsValid false msg b b' full v h = absurd (ground arith)
publish-IsValid true msg b b' room v h =
    subst IsValid (passed true (record b { publish_ch = b.publish_ch ++ msg ∷ [] }) b' h) (record {
      published =
          omega (arith, length-append b.publish_ch (msg ∷ []), ltb_lt (length b.publish_ch) 1 room);
      buffered = v.buffered;
      apart = v.apart;
      named = v.named;
    })

dispatched-IsValid :
    (events : List Event) (b b' : Broker)
    → b.publish_ch ≡ events
    → IsValid b
    → dispatched events b ≡ some b'
    → IsValid b'
dispatched-IsValid [] b b' e v h = absurd (ground arith)
dispatched-IsValid (msg ∷ rest) b b' e v h =
    let after : Broker = record b {
      publish_ch = rest;
      channels = send_all b.subscribers msg b.channels;
    } in
    let room : length rest ≤ 1 = let p = v.published in ground arith in
    subst IsValid (passed true after b' h) (record {
      published = room;
      buffered = send_all-bound b.subscribers msg b.channels v.buffered;
      apart = v.apart;
      named = v.named;
    })

tail_of-IsValid :
    (ch : ℕ) (events : List Event) (b b' : Broker)
    → b.channels ch ≡ events
    → IsValid b
    → tail_of ch events b ≡ some b'
    → IsValid b'
tail_of-IsValid ch [] b b' e v h = absurd (ground arith)
tail_of-IsValid ch (msg ∷ rest) b b' e v h =
    let after : Broker = record b { channels = set_channel ch rest b.channels } in
    let room : length rest ≤ 5 = let p = v.buffered ch in ground arith in
    subst IsValid (passed true after b' h) (record {
      published = v.published;
      buffered = set_channel-bound ch rest b.channels room v.buffered;
      apart = v.apart;
      named = v.named;
    })

subscribe-IsValid : (b b' : Broker) → IsValid b → step subscribe b ≡ some b' → IsValid b'
unfolding step
subscribe-IsValid b b' v h =
    let n = b.next_channel in
    let after : Broker = record b {
      subscribers = n ∷ b.subscribers;
      channels = set_channel n [] b.channels;
      next_channel = n + 1;
    } in
    subst IsValid (passed true after b' h) (record {
      published = v.published;
      buffered = set_channel-bound n [] b.channels (ground arith) v.buffered;
      apart = (All-mono (λ c l. ground arith) b.subscribers v.named, v.apart);
      named = (ground arith, All-mono (λ c l. ground arith) b.subscribers v.named);
    })

-- Every step keeps the invariant.
pub step-IsValid : (a : Action) (b b' : Broker) → IsValid b → step a b ≡ some b' → IsValid b'
unfolding step
step-IsValid start b b' v h =
    subst IsValid (not_blocked b.running (record b { running = true }) b' h)
      (record { published = v.published; buffered = v.buffered; apart = v.apart; named = v.named })
step-IsValid stop b b' v h =
    subst IsValid (not_blocked b.stopped (record b { stopped = true }) b' h)
      (record { published = v.published; buffered = v.buffered; apart = v.apart; named = v.named })
step-IsValid subscribe b b' v h = subscribe-IsValid b b' v h
step-IsValid dispatch b b' v h = elim (Bool-cases b.running) [
  | inl r ↦ dispatched-IsValid b.publish_ch b b' refl v (ground arith)
  | inr r ↦ absurd (ground arith)
]
step-IsValid leave b b' v h =
    subst IsValid (passed (b.running && b.stopped) (record b { running = false }) b' h)
      (record { published = v.published; buffered = v.buffered; apart = v.apart; named = v.named })
step-IsValid (publish msg) b b' v h =
    publish-IsValid (ltb (length b.publish_ch) 1) msg b b' refl v h
step-IsValid (unsubscribe ch) b b' v h =
    subst IsValid (passed true (record b { subscribers = without ch b.subscribers }) b' h) (record {
      published = v.published;
      buffered = v.buffered;
      apart = without-IsApart ch b.subscribers v.apart;
      named = without-All (λ c. c < b.next_channel) ch b.subscribers v.named;
    })
step-IsValid (receive ch) b b' v h = tail_of-IsValid ch (b.channels ch) b b' refl v h
