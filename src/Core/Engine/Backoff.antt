-- ===== src/Core/Engine/Backoff.antt =====
-- The pauses between the attempts to reconnect in the loop of `start` in
-- apps/companion-core/src/lib.rs.
use native.Mathlib.Nat.{pow-suc}
use rdoc_sacompanion.Base.{
  ℕ, zero, suc, ◌^◌, ◌+◌, String, ◌≡◌, refl, ◌∙◌, ap, Bool, true, false, not, some, List, [], ◌∷◌,
  ◌++◌, arith, leb, if◌then◌else◌,
}
use rdoc_sacompanion.Core.Engine.{
  EngineConfig, Event, retry_failed, server_gone, Engine, next_backoff, on_retry_failed,
  on_server_gone, step, is_ready, run,
}

if_not : {A : Type 0} (b : Bool) (x y : A) → b ≡ false → y ≡ (if b then x else y)
if_not false x y h = refl
if_not true x y h = absurd (cc h)

-- What comes behind the choice of the loop.
chosen :
    (b c : Bool) (f : Engine → Engine) (later later' skipped skipped' s : Engine)
    → later' ≡ f later
    → skipped' ≡ f skipped
    → (b ≡ false → s ≡ f s)
    → (if b then if c then later' else skipped' else s)
      ≡ f (if b then if c then later else skipped else s)
chosen false c f later later' skipped skipped' s l k stop = stop refl
chosen true true f later later' skipped skipped' s l k stop = l
chosen true false f later later' skipped skipped' s l k stop = k

run-append_one :
    (cfg : EngineConfig) (evs : List Event) (ev : Event) (s : Engine)
    → run cfg (evs ++ ev ∷ []) s ≡ run cfg (ev ∷ []) (run cfg evs s)
unfolding run
run-append_one cfg [] ev s = refl
run-append_one cfg (e ∷ evs) ev s =
    chosen s.running (is_ready e s) (run cfg (ev ∷ [])) _ _ _ _ s
      (run-append_one cfg evs ev (step cfg e s).0) (run-append_one cfg evs ev s)
      (if_not s.running _ s)

run-one :
    (cfg : EngineConfig) (ev : Event) (s : Engine)
    → s.running ≡ true
    → is_ready ev s ≡ true
    → run cfg (ev ∷ []) s ≡ (step cfg ev s).0
unfolding run
run-one cfg ev s on ready = simp (on, ready)

-- The link is lost, and then `n` attempts to reconnect fail, each at its time.
pub outage : (at : ℕ → ℕ) (message : String) (n : ℕ) → List Event
outage at message zero = server_gone (at zero) ∷ []
outage at message (suc n) = outage at message n ++ retry_failed (at (suc n)) message ∷ []

-- `2 ^ (n + 1)` seconds, or 30 if that is more.
abbrev pub pause : ℕ → ℕ
pause n = if leb (2 ^ suc n) 30 then 2 ^ suc n else 30

next_backoff-pause : (n : ℕ) → next_backoff (pause n) ≡ pause (suc n)
unfolding next_backoff
next_backoff-pause n = ground (arith, pow-suc 2 (suc n))

-- The loop is running, the link is down, and the next attempt is due this long after the time.
pub record IsDown (now pause : ℕ) (s : Engine) : Type 0 where
  pub running : s.running ≡ true
  pub down : s.link ≡ false
  pub backoff : s.backoff ≡ pause
  pub next_try : s.next_try ≡ some (now + pause)

fails-IsDown :
    (cfg : EngineConfig) (at : ℕ → ℕ) (n now : ℕ) (message : String) (s : Engine)
    → IsDown (at n) (pause n) s
    → IsDown now (pause (suc n)) (run cfg (retry_failed now message ∷ []) s)
unfolding step on_retry_failed
fails-IsDown cfg at n now message s i =
    let next : next_backoff s.backoff ≡ pause (suc n) =
      ap next_backoff i.backoff ∙ next_backoff-pause n in
    rw (run-one cfg (retry_failed now message) s i.running (ap not i.down)) (record {
      running = i.running;
      down = i.down;
      backoff = next;
      next_try = ap (λ b. some (now + b)) next;
    })

-- From any state in which the loop runs and the link is up: after the link is lost and then `n`
-- attempts have failed, at whatever times, the loop goes on without the link, and the next attempt is
-- due `2 ^ (n + 1)` seconds after the last failure, or 30 if that is more.
pub run-outage :
    (cfg : EngineConfig) (at : ℕ → ℕ) (message : String) (n : ℕ) (s : Engine)
    → s.running ≡ true
    → s.link ≡ true
    → IsDown (at n) (pause n) (run cfg (outage at message n) s)
unfolding outage step on_server_gone
run-outage cfg at message zero s running up =
    rw (run-one cfg (server_gone (at zero)) s running up)
      (record { running = running; down = refl; backoff = refl; next_try = refl })
run-outage cfg at message (suc n) s running up =
    let i = run-outage cfg at message n s running up in
    rw (run-append_one cfg (outage at message n) (retry_failed (at (suc n)) message) s)
      (fails-IsDown cfg at n (at (suc n)) message (run cfg (outage at message n) s) i)
