-- ===== src/Http3ClientBackend/Numbers.antt =====
-- What the search for a gap in a journal finds.
use world_wide_anthropomorph.Base.{
  ℕ, suc, ◌+◌, ◌%◌, ◌<◌, ◌≤◌, ◌≡◌, refl, false, List, [], ◌∷◌, ltb, ◌==◌, Bool-cases, inl, inr,
  arith,
}
use world_wide_anthropomorph.TreeNode.TextForm.{long_values}
use world_wide_anthropomorph.TreeMessage.Changes.{SequentialNotification}
use world_wide_anthropomorph.Http3ClientBackend.Journal.{
  unsolicited, misses_number, notification_gap, last_valid,
}

-- A notification of the list has the number.
pub data Numbered (k : ℕ) : List SequentialNotification → Type 0 where
  found :
      {notification : SequentialNotification} {notifications : List SequentialNotification}
      → notification.0 ≡ k
      → Numbered k (notification ∷ notifications)
  later :
      {notification : SequentialNotification} {notifications : List SequentialNotification}
      → Numbered k notifications
      → Numbered k (notification ∷ notifications)

covered :
    (valid : SequentialNotification) (notifications : List SequentialNotification) (k : ℕ)
    → valid.0 < unsolicited
    → misses_number valid.0 notifications ≡ false
    → valid.0 < k
    → k ≤ (last_valid valid notifications).0
    → Numbered k notifications
unfolding misses_number last_valid
covered valid [] k small complete above below = absurd (omega (arith, above, below))
covered valid ((n, change) ∷ notifications) k small complete above below =
    elim (Bool-cases (n == unsolicited)) [
      | inl e ↦ later (
          covered valid notifications k small (cc (rw (misses_number, e) at complete)) above
            (rw (last_valid, e) at below))
      | inr e ↦ elim (Bool-cases (ltb ((valid.0 + 1) % long_values) n)) [
        | inl gap ↦ absurd (cc (rw (misses_number, e, gap) at complete))
        | inr near ↦ elim (Bool-cases (ltb n k)) [
          | inl more ↦ later (
              covered (n, change) notifications k (ground (arith, e, near, small))
                (cc (rw (misses_number, e, near) at complete)) (ground (arith, more))
                (rw (last_valid, e) at below))
          | inr less ↦ found (ground (arith, near, less, above, small))
        ]
      ]
    ]

last_valid-front :
    (front : SequentialNotification) (notifications : List SequentialNotification)
    → last_valid front (front ∷ notifications) ≡ last_valid front notifications
unfolding last_valid
last_valid-front front notifications = elim (Bool-cases (front.0 == unsolicited)) [
  | inl e ↦ rw (last_valid, e) refl
  | inr e ↦ rw (last_valid, e) refl
]

-- Where no gap is found, a journal has each number after the client's last notification, up to
-- that of the notification that becomes its last. The client's last number is less than -1.
pub notification_gap-none :
    (last k : ℕ) (front : SequentialNotification) (notifications : List SequentialNotification)
    → last < unsolicited
    → notification_gap last front notifications ≡ false
    → last < k
    → k ≤ (last_valid front notifications).0
    → Numbered k (front ∷ notifications)
unfolding notification_gap
notification_gap-none last k front notifications small no_gap above below =
    elim (Bool-cases (ltb last front.0)) [
      | inl late ↦ absurd (cc (rw (notification_gap, late) at no_gap))
      | inr early ↦
          covered front (front ∷ notifications) k (ground (arith, early, small))
            (cc (rw (notification_gap, early) at no_gap)) (ground (arith, early, above))
            (rw (last_valid-front front notifications) below)
    ]

-- The numbers of a list go up by one.
pub data IsRun : ℕ → List SequentialNotification → Type 0 where
  ended : {n : ℕ} → IsRun n []
  numbered :
      {n m : ℕ} {notification : SequentialNotification}
      {notifications : List SequentialNotification}
      → notification.0 ≡ m
      → m ≡ suc n
      → m < unsolicited
      → IsRun m notifications
      → IsRun n (notification ∷ notifications)

misses_number-IsRun :
    (n : ℕ) (notifications : List SequentialNotification)
    → IsRun n notifications
    → misses_number n notifications ≡ false
unfolding misses_number
misses_number-IsRun n [] ended = refl
misses_number-IsRun n (notification ∷ notifications) (numbered {m = m} e next small run) =
    let solicited : (m == unsolicited) ≡ false = ground (arith, small) in
    let near : ltb ((n + 1) % long_values) m ≡ false = ground (arith, next, small) in
    rw (misses_number, e, solicited, near) (misses_number-IsRun m notifications run)

-- A journal that begins at or before the client's last number, and whose numbers go up by one, has
-- no gap.
pub notification_gap-IsRun :
    (last : ℕ) (front : SequentialNotification) (notifications : List SequentialNotification)
    → front.0 ≤ last
    → last < unsolicited
    → IsRun front.0 notifications
    → notification_gap last front notifications ≡ false
unfolding notification_gap misses_number
notification_gap-IsRun last front notifications early small run =
    let known : ltb last front.0 ≡ false = ground (arith, early) in
    let solicited : (front.0 == unsolicited) ≡ false = ground (arith, early, small) in
    let near : ltb ((front.0 + 1) % long_values) front.0 ≡ false = ground (arith, early, small) in
    rw (notification_gap, misses_number, known, solicited, near)
      (misses_number-IsRun front.0 notifications run)
