-- ===== src/Brr/Duration.antt =====
-- The wall duration of a request is the time between its start and its end.
use blobio.Base.{ℕ, ◌+◌, ◌*◌, ◌<◌, ◌≤◌, ◌≡◌, arith}
use blobio.Brr.{Timespec, nanos, wall_duration, client_duration}

abbrev pub total : Timespec → ℕ
total t = t.tv_sec * nanos + t.tv_nsec

-- For times whose nanoseconds are below a second, and an end that is not before the start: the
-- duration is what the end is later than the start, with nanoseconds below a second, on the server
-- and in the client alike.
pub total-wall_duration :
    (start end : Timespec)
    → start.tv_nsec < nanos
    → end.tv_nsec < nanos
    → total start ≤ total end
    → ((wall_duration start end).0 * nanos + (wall_duration start end).1 + total start ≡ total end)
      × ((wall_duration start end).1 < nanos)
      × (client_duration start end ≡ wall_duration start end)
unfolding wall_duration client_duration
total-wall_duration start end s e later = ground arith
