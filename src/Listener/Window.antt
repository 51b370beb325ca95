-- ===== src/Listener/Window.antt =====
-- The heights that src/listener.rs recovers, and the waits between its sessions.
use pulsar_verifier.Prelude.{
  true, refl, ◌≡◌, ◌+◌, ◌-◌, ◌*◌, ◌≤◌, ◌&&◌, ◌↔◌, contains, ℕ, leb, length, ltb, suc, max, min,
  arith, ap, nat_eq, zero,
}
use pulsar_verifier.Listener.Blocks.{heights_from, active_heights, next_backoff}
use pulsar_verifier.Verification.Attempts.{duration_max}

contains-heights_from :
    (first count h : ℕ)
    → contains (heights_from first count) h ≡ (leb first h && ltb h (first + count))
unfolding heights_from contains
contains-heights_from first zero h = ground arith
contains-heights_from first (suc count) h =
    ground (arith, contains-heights_from (suc first) count h)

length-heights_from : (first count : ℕ) → length (heights_from first count) ≡ count
unfolding heights_from
length-heights_from first zero = refl
length-heights_from first (suc count) = ap suc (length-heights_from (suc first) count)

-- The active window holds the last three heights up to the latest one and no other, without the
-- height 0, which no block has.
pub active_heights_lem :
    (latest h : ℕ)
    → ((contains (active_heights latest) h ≡ true) ↔ ((1 ≤ h) × (h ≤ latest) × (latest ≤ h + 2)))
      × (length (active_heights latest) ≤ 3)
unfolding active_heights
active_heights_lem latest h =
    let first = max (latest - 2) 1 in
    let inside = contains-heights_from first (suc latest - first) h in
    let size = length-heights_from first (suc latest - first) in
    (
      (λ p. ground (arith, inside), λ q. ground (arith, inside, q.0, q.1, q.2)),
      ground (arith, size),
    )

-- If the configured maximum is a duration, the next wait never overflows and never exceeds it: it is the
-- smaller one of the doubled wait and the maximum.
pub next_backoff_lem :
    (maximum backoff : ℕ)
    → maximum ≤ duration_max
    → (next_backoff maximum backoff ≡ min (backoff * 2) maximum)
unfolding next_backoff
next_backoff_lem maximum backoff h = ground arith
