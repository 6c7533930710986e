-- ===== src/Server/RateLimit.antt =====
-- `RateLimiter` of server/init/src/main.rs: a fixed window for each client address. The clock's
-- answer is an argument; a count is a `u32`.
pub mod Laws
use rdoc_sacompanion.Base.{
  ℕ, ◌+◌, ◌-◌, ◌%◌, ◌^◌, String, Bool, Option, none, some, ltb, leb, if◌then◌else◌, unwrap_or,
}
use rdoc_sacompanion.Dict.{Dict, get, insert, retain}

abbrev pub rl_window : ℕ
rl_window = 300

abbrev pub rl_join_max : ℕ
rl_join_max = 30

abbrev pub rl_create_max : ℕ
rl_create_max = 20

-- The window's start and the count.
pub record Window : Type 0 where
  pub start : ℕ
  pub count : ℕ

abbrev pub Limiter : Type 0
Limiter = Dict Window

-- `entry(…).or_insert((now, 0))`, and the reset when the window is over.
unfoldable pub current_window : Option Window → (now window : ℕ) → Window
current_window none now window = record { start = now; count = 0 }
current_window (some e) now window =
    if leb window (now - e.start) then record { start = now; count = 0 } else e

unfoldable pub count_call : Window → Window
count_call e = record e { count = (e.count + 1) % 2 ^ 32 }

-- `RateLimiter::allow`
unfoldable pub allow : String → (max window now : ℕ) → Limiter → Bool × Limiter
unfolding current_window count_call
allow ip max window now m =
    let e = count_call (current_window (get ip m) now window) in (leb e.count max, insert ip e m)

keep_window : (window now : ℕ) → Window → Option Window
keep_window window now e = if ltb (now - e.start) window then some e else none

-- `RateLimiter::prune`
unfoldable pub prune : (window now : ℕ) → Limiter → Limiter
unfolding keep_window
prune window now m = retain (keep_window window now) m
