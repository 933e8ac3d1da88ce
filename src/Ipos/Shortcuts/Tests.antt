-- ===== src/Ipos/Shortcuts/Tests.antt =====
-- The shortcuts on Wednesday 2024-10-02, which is day 19998.
use help_me_bid_backend.Base.{◌≡◌, refl}
use help_me_bid_backend.Ipos.Shortcuts.{this_week, resolve_date_shortcut}

from_monday : (resolve_date_shortcut this_week 19_998).0 ≡ 19_996
unfolding resolve_date_shortcut
from_monday = refl
