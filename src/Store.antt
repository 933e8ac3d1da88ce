-- ===== src/Store.antt =====
-- The tables that the services read and write, as one database session sees them: the rows of
-- app/db/models/ and the queries of app/repositories/. Ids are drawn from a counter, which stands
-- for `gen_random_uuid()`. Rules are listed oldest first, deliveries newest first.
mod Texts
unfoldable pub use Texts.*
use help_me_bid_backend.Base.{ℕ, List}
use help_me_bid_backend.Models.{Ipo, User, Device, NotificationPreference, NotificationDelivery}

pub record Store : Type 0 where
  pub users : List User
  pub preferences : List NotificationPreference
  pub devices : List Device
  pub ipos : List Ipo
  pub deliveries : List NotificationDelivery
  pub next_id : ℕ
