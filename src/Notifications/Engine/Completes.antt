-- ===== src/Notifications/Engine/Completes.antt =====
-- When an evaluation ends with a summary (app/services/notifications/engine.py).
use help_me_bid_backend.Base.{ℕ, ◌≢◌, List}
use help_me_bid_backend.Store.{Store}
use help_me_bid_backend.Notifications.Providers.{DeviceTarget, NotificationMessage}
use help_me_bid_backend.Notifications.World.{World, killed, Env, Outcome, done, value_error, died}

-- The call ends with a summary.
abbrev IsDone : Outcome × World → Type 0
IsDone (done s, w) = Unit
IsDone (value_error, w) = ⊥
IsDone (died, w) = ⊥

-- The process survives every call of the provider, which may raise.
abbrev pub Survives : Env → Type 0
Survives env =
    (n : ℕ) (m : NotificationMessage) (ts : List DeviceTarget) → env.respond n m ts ≢ killed
