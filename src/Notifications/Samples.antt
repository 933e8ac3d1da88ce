-- ===== src/Notifications/Samples.antt =====
-- One user with one rule and one device, and an issue that closes at noon of the day.
use help_me_bid_backend.Base.{◌+◌, ◌*◌, true, false, none, some, [], ◌∷◌}
use help_me_bid_backend.Dates.{Zone, hour, day}
use help_me_bid_backend.Models.{
  Ipo, User, Device, NotificationPreference, Values, Field, name, ipo_type, exchange, close_date,
  gmp, gmp_percentage, subscription_times, units,
}
use help_me_bid_backend.Store.{Store}
use help_me_bid_backend.Notifications.World.{Pass, World, returned}

abbrev pub columns_of : Values
columns_of name = some "Acme"
columns_of ipo_type = some "SME"
columns_of exchange = some "NSE_SME"
columns_of close_date = some 20_000
columns_of gmp_percentage = some (units 25)
columns_of subscription_times = some (units 2)
columns_of Field.source_status = none
columns_of Field.open_date = none
columns_of Field.allotment_date = none
columns_of Field.listing_date = none
columns_of Field.has_anchor_investors = none
columns_of Field.price_min = none
columns_of Field.price_max = none
columns_of Field.lot_size = none
columns_of Field.issue_size_crore = none
columns_of gmp = none
columns_of Field.gmp_low = none
columns_of Field.gmp_high = none
columns_of Field.estimated_listing_price = none
columns_of Field.rating = none
columns_of Field.pe_ratio = none

abbrev pub acme : Ipo
acme = record {
  id = 7;
  source = "investorgain";
  source_ipo_id = "1";
  symbol = none;
  slug = none;
  detail_url = none;
  columns = columns_of;
  raw_data = [];
  source_updated_text = none;
  first_seen_at = 0;
  last_scraped_at = none;
  data_changed_at = none;
}

abbrev pub ann : User
ann = record {
  id = 1;
  phone_number = "+919876543210";
  hashed_password = "x";
  name = none;
  email = none;
  is_active = true;
  last_login_at = none;
}

abbrev pub phone : Device
phone = record {
  id = 3;
  user_id = 1;
  device_type = "ANDROID";
  push_token = "t1";
  device_name = none;
  app_version = none;
  is_active = true;
  last_seen_at = none;
  invalidated_at = none;
}

abbrev pub rule : NotificationPreference
rule = record {
  id = 2;
  user_id = 1;
  label = none;
  is_enabled = true;
  min_gmp_percentage = units 15;
  max_gmp_percentage = none;
  interval_minutes = 180;
  only_on_close_date = false;
  ipo_types = some ("SME" ∷ []);
  exchanges = none;
  min_subscription_times = some (units 1);
  channels = "PUSH" ∷ [];
  last_evaluated_at = none;
}

abbrev pub tables : Store
tables = record {
  users = ann ∷ [];
  preferences = rule ∷ [];
  devices = phone ∷ [];
  ipos = acme ∷ [];
  deliveries = [];
  next_id = 100;
}

abbrev pub start : World
start = record { session = tables; committed = tables; sends = []; ticks = 0 }

abbrev pub india : Zone
india now = now + 19_800_000_000

abbrev pub noon : Pass
noon = record {
  env = record {
    zone = india;
    notification_enabled = true;
    window_start_hour = 9;
    window_end_hour = 21;
    utc_now = λ n. n;
    provider_name = "fcm";
    respond = λ n message targets. returned (record {
      success = true;
      provider = "fcm";
      provider_message_id = some "m";
      error = none;
      invalid_tokens = [];
    });
    texts = record { decimal = λ v. "n"; date = λ d. "d"; uuid = λ i. "u" };
  };
  now = 20_000 * day + 6 * hour;
}
