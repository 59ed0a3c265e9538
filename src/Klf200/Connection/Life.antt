-- ===== src/Klf200/Connection/Life.antt =====
-- `Connect`, `Disconnect` and the end of `readLoop` of app/klf200/connection.go, one step for what each
-- does under the mutex and one for each close of a channel, in any interleaving. Connections are
-- numbered in the order in which they are established, and a lifecycle has the number of its own.
use velux_to_mqtt_gw.Prelude.{
  ℕ, ◌+◌, ◌≤◌, ◌≡◌, ◌⊎◌, inl, inr, Option-cases, Bool-cases, refl, List, [], ◌∷◌, Bool, true, false,
  Option, none, some, ◌==◌, if◌then◌else◌, arith, All,
}

-- The fields of `Conn`, and the channels that a goroutine is bound to close, and those
-- that are closed.
pub record Conn : Type 0 where
  pub tls_conn : Option ℕ
  pub connected : Bool
  pub connection_counter : ℕ
  pub life : ℕ
  pub closing : List ℕ
  pub lost : List ℕ

unfoldable pub new_conn : Conn
new_conn = record {
  tls_conn = none;
  connected = false;
  connection_counter = 0;
  life = 0;
  closing = [];
  lost = [];
}

-- `Connect` behind a handshake that succeeded. Its test of `connected` is a section of its own before
-- the handshake, and says nothing about this one.
unfoldable pub install : Conn → Conn
install c = record c {
  tls_conn = some (c.connection_counter + 1);
  connected = true;
  connection_counter = c.connection_counter + 1;
  life = c.connection_counter + 1;
}

-- `Disconnect`: without a connection it returns, otherwise it goes on to close the lifecycle's channel.
unfoldable pub disconnect : Conn → Conn
disconnect c =
    let down = record c { tls_conn = none; connected = false } in
    elim c.tls_conn [ none ↦ down | some n ↦ record down { closing = c.life ∷ c.closing } ]

-- The deferred function of the read loop of connection `n`.
unfoldable pub loop_ended : ℕ → Conn → Conn
loop_ended n c = elim c.tls_conn [
  | none ↦ record c { closing = n ∷ c.closing }
  | some m ↦
      if m == n
      then record c { tls_conn = none; connected = false; closing = n ∷ c.closing }
      else record c { closing = n ∷ c.closing }
]

-- `signalLost`: only the first call for a lifecycle closes its channel.
unfoldable pub signal_lost : ℕ → Conn → Conn
signal_lost n c = record c { lost = n ∷ c.lost }

abbrev pub member : ℕ → List ℕ → Bool
member n [] = false
member n (m ∷ ms) = if m == n then true else member n ms

pub data Step : Conn → Conn → Type 0 where
  connects : (c : Conn) → Step c (install c)
  disconnects : (c : Conn) → Step c (disconnect c)
  ends : (c : Conn) (n : ℕ) → n ≤ c.connection_counter → Step c (loop_ended n c)
  signals : (c : Conn) (n : ℕ) → member n c.closing ≡ true → Step c (signal_lost n c)

pub data Reach : Conn → Type 0 where
  fresh : Reach new_conn
  next : {c d : Conn} → Reach c → Step c d → Reach d

-- Connected: with the newest connection, and its channel neither closed nor to be closed. Otherwise
-- there has been no connection, or some goroutine closes its channel or has done so.
abbrev pub IsSignalled : Conn → Type 0
IsSignalled c = elim c.tls_conn [
  | none ↦ (c.connected ≡ false) × ((c.connection_counter ≡ 0) ⊎ (member c.life c.closing ≡ true))
  | some n ↦
      (c.connected ≡ true)
      × (n ≡ c.connection_counter)
      × (member c.life c.closing ≡ false)
      × (member c.life c.lost ≡ false)
]

-- The channels that are closed or to be closed are of connections that there have been.
abbrev IsCounted : Conn → Type 0
IsCounted c =
    (c.life ≡ c.connection_counter)
    × All (λ n. n ≤ c.connection_counter) c.closing
    × All (λ n. n ≤ c.connection_counter) c.lost

All-later : (n : ℕ) (ms : List ℕ) → All (λ m. m ≤ n) ms → All (λ m. m ≤ n + 1) ms
All-later n [] h = tt
All-later n (m ∷ ms) h = (omega arith, All-later n ms h.1)

member-later : (n : ℕ) (ms : List ℕ) → All (λ m. m ≤ n) ms → member (n + 1) ms ≡ false
member-later n [] h = refl
member-later n (m ∷ ms) h = ground (arith, member-later n ms h.1)

member-below : (k n : ℕ) (ms : List ℕ) → All (λ m. m ≤ n) ms → member k ms ≡ true → k ≤ n
member-below k n [] h e = absurd (ground arith)
member-below k n (m ∷ ms) h e = ground (arith, member-below k n ms h.1)

Step-IsCounted : {c d : Conn} → Step c d → IsCounted c → IsCounted d
unfolding install disconnect loop_ended signal_lost
Step-IsCounted (connects c) i =
    (refl, All-later c.connection_counter c.closing i.1, All-later c.connection_counter c.lost i.2)
Step-IsCounted (disconnects c) i = elim (Option-cases c.tls_conn) [
  | inl e ↦ rw (disconnect, e) i
  | inr (m, e) ↦ rw (disconnect, e) (i.0, (omega arith, i.1), i.2)
]
Step-IsCounted (ends c n h) i = elim (Option-cases c.tls_conn) [
  | inl e ↦ rw (loop_ended, e) (i.0, (h, i.1), i.2)
  | inr (m, e) ↦ elim (Bool-cases (m == n)) [
    | inl q ↦ rw (loop_ended, e, q) (i.0, (h, i.1), i.2)
    | inr q ↦ rw (loop_ended, e, q) (i.0, (h, i.1), i.2)
  ]
]
Step-IsCounted (signals c n h) i =
    (i.0, i.1, (member-below n c.connection_counter c.closing i.1 h, i.2))

Step-IsSignalled : {c d : Conn} → Step c d → IsCounted c → IsSignalled c → IsSignalled d
unfolding install disconnect loop_ended signal_lost
Step-IsSignalled (connects c) i s = (
  refl,
  refl,
  member-later c.connection_counter c.closing i.1,
  member-later c.connection_counter c.lost i.2,
)
Step-IsSignalled (disconnects c) i s = elim (Option-cases c.tls_conn) [
  | inl e ↦ rw (disconnect, e) (refl, ground arith)
  | inr (m, e) ↦ rw (disconnect, e) ground arith
]
Step-IsSignalled (ends c n h) i s = elim (Option-cases c.tls_conn) [
  | inl e ↦ rw (loop_ended, e) ground arith
  | inr (m, e) ↦ rw (loop_ended, e) ground arith
]
Step-IsSignalled (signals c n h) i s = ground arith

Reach-IsCounted : {c : Conn} → Reach c → IsCounted c
unfolding new_conn
Reach-IsCounted fresh = (refl, tt, tt)
Reach-IsCounted (next r s) = Step-IsCounted s (Reach-IsCounted r)

-- However connecting, disconnecting, the ends of read loops and their signals interleave: a connected
-- client has the newest connection, whose channel is neither closed nor to be closed by anyone, and a
-- client that has been connected and is not any more has the channel that its callers wait on closed by
-- some goroutine.
pub Reach-IsSignalled : {c : Conn} → Reach c → IsSignalled c
unfolding new_conn
Reach-IsSignalled fresh = (refl, inl refl)
Reach-IsSignalled (next r s) = Step-IsSignalled s (Reach-IsCounted r) (Reach-IsSignalled r)
