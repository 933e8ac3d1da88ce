-- ===== src/Models.antt =====
-- The rows of app/db/models/ (ipo.py, user.py, device.py, notification.py). An id is a number
-- that stands for the UUID, which the program only compares. A decimal is a whole number of
-- millionths (`units`), signed, and finer digits are left out; a date is a number of days and a timestamp of microseconds, as in
-- Dates. The JSONB column `extra_conditions` is never read and is left out.
use help_me_bid_backend.Base.{ℕ, ◌*◌, String, Bool, Option, List, [], ◌∷◌}
use help_me_bid_backend.Base.Int.{ℤ, pos}

-- A whole number as a decimal.
abbrev pub units : ℕ → ℤ
units n = pos (n * 1_000_000)

-- `TRACKED_FIELDS` of app/repositories/ipo.py: the columns of `ipos` that come from the source
-- and are compared on every scrape.
pub data Field : Type 0 where
  name ipo_type exchange source_status : Field
  open_date close_date allotment_date listing_date : Field
  price_min price_max lot_size issue_size_crore : Field
  gmp gmp_percentage gmp_low gmp_high estimated_listing_price : Field
  subscription_times rating pe_ratio has_anchor_investors : Field

abbrev pub tracked_fields : List Field
tracked_fields =
    name ∷ ipo_type ∷ exchange ∷ source_status ∷ open_date ∷ close_date ∷ allotment_date
    ∷ listing_date ∷ price_min ∷ price_max ∷ lot_size ∷ issue_size_crore ∷ gmp ∷ gmp_percentage
    ∷ gmp_low ∷ gmp_high ∷ estimated_listing_price ∷ subscription_times ∷ rating ∷ pe_ratio
    ∷ has_anchor_investors ∷ []

-- The type of a column's values.
abbrev pub Column : Field → Type 0
Column name = String
Column ipo_type = String
Column exchange = String
Column source_status = String
Column open_date = ℕ
Column close_date = ℕ
Column allotment_date = ℕ
Column listing_date = ℕ
Column has_anchor_investors = Bool
Column _ = ℤ

-- The values of the tracked columns; `none` is NULL.
abbrev pub Values : Type 0
Values = (f : Field) → Option (Column f)

-- A row of `ipos`. The attributes that the code reads and writes by name are `columns`.
pub record Ipo : Type 0 where
  pub id : ℕ
  pub source : String
  pub source_ipo_id : String
  pub symbol : Option String
  pub slug : Option String
  pub detail_url : Option String
  pub columns : Values
  pub raw_data : List (String × String)
  pub source_updated_text : Option String
  pub first_seen_at : ℕ
  pub last_scraped_at : Option ℕ
  pub data_changed_at : Option ℕ

pub record User : Type 0 where
  pub id : ℕ
  pub phone_number : String
  pub hashed_password : String
  pub name : Option String
  pub email : Option String
  pub is_active : Bool
  pub last_login_at : Option ℕ

pub record Device : Type 0 where
  pub id : ℕ
  pub user_id : ℕ
  pub device_type : String
  pub push_token : String
  pub device_name : Option String
  pub app_version : Option String
  pub is_active : Bool
  pub last_seen_at : Option ℕ
  pub invalidated_at : Option ℕ

pub record NotificationPreference : Type 0 where
  pub id : ℕ
  pub user_id : ℕ
  pub label : Option String
  pub is_enabled : Bool
  pub min_gmp_percentage : ℤ
  pub max_gmp_percentage : Option ℤ
  pub interval_minutes : ℕ
  pub only_on_close_date : Bool
  pub ipo_types : Option (List String)
  pub exchanges : Option (List String)
  pub min_subscription_times : Option ℤ
  pub channels : List String
  pub last_evaluated_at : Option ℕ

-- `DeliveryStatus` of app/db/enums.py.
pub data DeliveryStatus : Type 0 where
  pending sent failed skipped : DeliveryStatus

pub record NotificationDelivery : Type 0 where
  pub id : ℕ
  pub user_id : ℕ
  pub preference_id : ℕ
  pub ipo_id : ℕ
  pub channel : String
  pub period_key : ℕ
  pub business_date : ℕ
  pub status : DeliveryStatus
  pub attempts : ℕ
  pub sent_at : Option ℕ
  pub failed_at : Option ℕ
  pub gmp_percentage_at_send : Option ℤ
  pub payload : String × String
  pub provider : Option String
  pub provider_message_id : Option String
  pub error_message : Option String
