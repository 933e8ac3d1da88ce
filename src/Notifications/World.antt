-- ===== src/Notifications/World.antt =====
-- The state of a pass of app/services/notifications/engine.py, and what it takes from outside. A
-- `World` is what the process and the database share: the tables as the session sees them and as
-- they were last committed, what the provider was asked to send (newest first), and the number of
-- times the clock was read.
use help_me_bid_backend.Base.{ℕ, suc, String, Bool, List}
use help_me_bid_backend.Dates.{Zone, today_in_app_timezone}
use help_me_bid_backend.Models.{Ipo, User, NotificationPreference}
use help_me_bid_backend.Store.{Store}
use help_me_bid_backend.Notifications.Providers.{NotificationMessage, DeviceTarget, SendResult}
use help_me_bid_backend.Notifications.Engine.Messages.{Texts}

-- One call of the provider, with the pair for which it was made.
pub record Send : Type 0 where
  pub preference : NotificationPreference
  pub user : User
  pub ipo : Ipo
  pub period_key : ℕ
  pub targets : List DeviceTarget

pub record World : Type 0 where
  pub session : Store
  pub committed : Store
  pub sends : List Send
  pub ticks : ℕ

-- How a call of the provider ends: it raises, it returns, or the process dies in it.
pub data Response : Type 0 where
  raised : (error : String) → Response
  returned : SendResult → Response
  killed : Response

-- `settings`, the clock (its n-th reading), the provider (its n-th answer) and text formatting.
pub record Env : Type 0 where
  pub zone : Zone
  pub notification_enabled : Bool
  pub window_start_hour : ℕ
  pub window_end_hour : ℕ
  pub utc_now : ℕ → ℕ
  pub provider_name : String
  pub respond : ℕ → NotificationMessage → List DeviceTarget → Response
  pub texts : Texts

pub record EvaluationSummary : Type 0 where
  pub rules_evaluated : ℕ
  pub ipos_considered : ℕ
  pub matches : ℕ
  pub claimed : ℕ
  pub duplicates_skipped : ℕ
  pub sent : ℕ
  pub failed : ℕ
  pub skipped_no_device : ℕ

-- How a call ends: with a summary, by the `ValueError` of `period_index`, or by the death of the
-- process. Whatever was not committed is lost in the last two.
pub data Outcome : Type 0 where
  done : EvaluationSummary → Outcome
  value_error died : Outcome

abbrev pub commit : World → World
commit w = record w { committed = w.session }

abbrev pub rollback : World → World
rollback w = record w { session = w.committed }

-- `session.execute` of a write that reads the clock.
abbrev pub timed : Env → (ℕ → Store → Store) → World → World
timed env write w = record w {
  session = write (env.utc_now w.ticks) w.session;
  ticks = suc w.ticks;
}

-- What one evaluation fixes for all its rules.
pub record Pass : Type 0 where
  pub env : Env
  pub now : ℕ

abbrev pub today : Pass → ℕ
today p = today_in_app_timezone p.env.zone p.now
