-- ===== src/Core/Engine/Meter.antt =====
-- The bandwidth display: the timer's arm in the loop of apps/companion-core/src/lib.rs, and
-- `stats_bytes` of apps/companion-core/src/mesh.rs. The floating-point formula for kbit/s is a
-- parameter.
use rdoc_sacompanion.Base.{ℕ, ◌+◌, ◌-◌, ◌≤◌, ◌≡◌, Option, none, some, List, [], ◌∷◌, ◌++◌, arith}
use rdoc_sacompanion.Core.Engine.{UiEvent, net}

-- An entry of a connection's report.
pub data Stats : Type 0 where
  transport : (bytes_sent bytes_received : ℕ) → Stats
  other : Stats

unfoldable pub report_bytes : List Stats → ℕ × ℕ
report_bytes [] = (0, 0)
report_bytes (transport sent received ∷ report) =
    let (up, down) = report_bytes report in (sent + up, received + down)
report_bytes (other ∷ report) = report_bytes report

-- `stats_bytes`, over the reports of all connections
unfoldable pub stats_bytes : List (List Stats) → ℕ × ℕ
unfolding report_bytes
stats_bytes [] = (0, 0)
stats_bytes (report ∷ reports) =
    let (up, down) = report_bytes report in
    let (ups, downs) = stats_bytes reports in (up + ups, down + downs)

-- `last_bytes` and `last_inst`, once `net_primed`.
pub record Reading : Type 0 where
  pub up : ℕ
  pub down : ℕ
  pub at : ℕ

-- The bytes since the last reading, and the time that they took.
pub record Change : Type 0 where
  pub up : ℕ
  pub down : ℕ
  pub elapsed : ℕ

unfoldable pub change : (now : ℕ) → ℕ × ℕ → Option Reading → Option Change
change now bytes none = none
change now (up, down) (some last) =
    some (record { up = up - last.up; down = down - last.down; elapsed = now - last.at })

-- `saturating_sub(..) as f64 * 8.0 / 1000.0 / dt`, as a `u32`
abbrev pub Kbps : Type 0
Kbps = (bytes elapsed : ℕ) → ℕ

abbrev shown : Kbps → (members : ℕ) → Option Change → List UiEvent
shown kbps members none = []
shown kbps members (some c) = net members (kbps c.up c.elapsed) (kbps c.down c.elapsed) ∷ []

unfoldable pub net_tick :
    Kbps → (members now : ℕ) → List (List Stats) → Option Reading → Option Reading × List UiEvent
unfolding stats_bytes change
net_tick kbps members now reports last =
    let bytes = stats_bytes reports in
    (
      some (record { up = bytes.0; down = bytes.1; at = now }),
      shown kbps members (change now bytes last),
    )

-- A turn of the timer: the members, the time, and the reports of all connections.
pub record Tick : Type 0 where
  pub members : ℕ
  pub now : ℕ
  pub reports : List (List Stats)

unfoldable pub net_ticks : Kbps → List Tick → Option Reading → List UiEvent
unfolding net_tick
net_ticks kbps [] last = []
net_ticks kbps (t ∷ ticks) last =
    let here = net_tick kbps t.members t.now t.reports last in here.1 ++ net_ticks kbps ticks here.0

-- The upload that the events show, added up.
abbrev shown_up : List UiEvent → ℕ
shown_up [] = 0
shown_up (net peers up down ∷ events) = up + shown_up events
shown_up (_ ∷ events) = shown_up events

-- The total of bytes sent never falls: no connection is closed.
abbrev Rises : List Tick → ℕ → Type 0
Rises [] sent = Unit
Rises (t ∷ ticks) sent = (sent ≤ (stats_bytes t.reports).0) × Rises ticks (stats_bytes t.reports).0

abbrev last_sent : List Tick → ℕ → ℕ
last_sent [] sent = sent
last_sent (t ∷ ticks) sent = last_sent ticks (stats_bytes t.reports).0

-- While no connection is closed, no byte is shown twice and none is left out: with the bytes
-- themselves in place of the rate, what is shown adds up to what was sent since the first reading.
pub net_ticks-exact :
    (ticks : List Tick) (last : Reading)
    → Rises ticks last.up
    → shown_up (net_ticks (λ bytes elapsed. bytes) ticks (some last)) + last.up
      ≡ last_sent ticks last.up
unfolding net_ticks net_tick change
net_ticks-exact [] last rises = omega arith
net_ticks-exact (t ∷ ticks) last rises =
    let next : Reading = record {
      up = (stats_bytes t.reports).0;
      down = (stats_bytes t.reports).1;
      at = t.now;
    } in
    omega (arith, net_ticks-exact ticks next rises.1, rises.0)
