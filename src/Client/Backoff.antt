-- ===== src/Client/Backoff.antt =====
-- How long the client waits between connections.
use ha_lua.Base.{ℕ, ◌*◌, ◌≤◌, List, [], ◌∷◌, arith, All}
use ha_lua.Client.{second, back_off, delays}

back_off_bounds :
    (lived backoff : ℕ)
    → second ≤ backoff
    → backoff ≤ 60 * second
    → ((second ≤ (back_off lived backoff).0) × ((back_off lived backoff).0 ≤ 60 * second))
      × ((second ≤ (back_off lived backoff).1) × ((back_off lived backoff).1 ≤ 60 * second))
unfolding back_off
back_off_bounds lived backoff low high = ground arith

-- From a delay between a second and a minute on, whatever the lives of the connections, every delay that the
-- client waits is between a second and a minute.
pub delays_bounded :
    (rounds : List ℕ) (backoff : ℕ)
    → second ≤ backoff
    → backoff ≤ 60 * second
    → All (λ d. (second ≤ d) × (d ≤ 60 * second)) (delays rounds backoff)
unfolding delays
delays_bounded [] backoff low high = tt
delays_bounded (lived ∷ rounds) backoff low high =
    let (now, next) = back_off_bounds lived backoff low high in
    (now, delays_bounded rounds (back_off lived backoff).1 next.0 next.1)
