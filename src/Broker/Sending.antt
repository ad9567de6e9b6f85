-- ===== src/Broker/Sending.antt =====
-- The loop of the broker over its subscribers (internal/broker/broker.go), seen from one channel.
use mathlib.Core.Logic.{◌≢◌}
use comin.Base.{
  ℕ, ◌≡◌, refl, sym, ap, subst, ◌∙◌, Bool, true, false, inl, inr, List, [], ◌∷◌, nat_eq, nat_eq_iff,
  Bool-cases, All, arith, ◌||◌,
}
use comin.Broker.{Event, send, send_all, set_channel, without}
use comin.Broker.Channels.{IsApart}

unfoldable pub listed : ℕ → List ℕ → Bool
listed ch [] = false
listed ch (c ∷ rest) = nat_eq ch c || listed ch rest

pub send_all-unlisted :
    (ch : ℕ) (l : List ℕ) (msg : Event) (channels : ℕ → List Event)
    → listed ch l ≡ false
    → send_all l msg channels ch ≡ channels ch
unfolding send_all listed
send_all-unlisted ch [] msg channels h = refl
send_all-unlisted ch (c ∷ rest) msg channels h =
    let other : nat_eq ch c ≡ false = ground arith in
    send_all-unlisted ch rest msg (set_channel c (send (channels c) msg) channels) (ground arith)
    ∙ rw other refl

apart-listed : (ch : ℕ) (l : List ℕ) → All (λ d. d ≢ ch) l → listed ch l ≡ false
unfolding listed
apart-listed ch [] h = refl
apart-listed ch (c ∷ rest) (first, others) =
    ground (arith, nat_eq_iff ch c, apart-listed ch rest others)

-- An event that is handed out is sent once to a listed channel.
pub send_all-listed :
    (ch : ℕ) (l : List ℕ) (msg : Event) (channels : ℕ → List Event)
    → IsApart l
    → listed ch l ≡ true
    → send_all l msg channels ch ≡ send (channels ch) msg
unfolding send_all listed
send_all-listed ch [] msg channels h k = absurd (ground arith)
send_all-listed ch (c ∷ rest) msg channels (first, others) k = elim (Bool-cases (nat_eq ch c)) [
  | inl e ↦
      let here : ch ≡ c = ground (arith, nat_eq_iff ch c) in
      let absent : listed ch rest ≡ false =
        apart-listed ch rest (subst (λ x. All (λ d. d ≢ x) rest) (sym here) first) in
      send_all-unlisted ch rest msg (set_channel c (send (channels c) msg) channels) absent
      ∙ rw e (ap (λ x. send (channels x) msg) (sym here))
  | inr e ↦
      send_all-listed ch rest msg (set_channel c (send (channels c) msg) channels) others
        (ground arith)
      ∙ rw e refl
]

pub without-listed :
    (ch c : ℕ) (l : List ℕ)
    → nat_eq ch c ≡ false
    → listed ch l ≡ true
    → listed ch (without c l) ≡ true
unfolding without listed
without-listed ch c [] e h = h
without-listed ch c (d ∷ rest) e h =
    ground (arith, nat_eq_iff ch c, nat_eq_iff ch d, nat_eq_iff d c, without-listed ch c rest e)
