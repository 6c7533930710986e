-- ===== src/Server/Http/Budget.antt =====
-- The two REST handlers of server/init/src/main.rs count a client's calls in the same limiter.
use rdoc_sacompanion.Base.{
  ℕ, ◌+◌, ◌-◌, ◌^◌, ◌≤◌, ◌<◌, String, ◌≡◌, refl, sym, ◌∙◌, ap, Option, none, some, not, List, [],
  ◌∷◌, map, arith, Bool-cases, inl, inr, ◌||◌, unwrap_or,
}
use rdoc_sacompanion.Dict.{get}
use rdoc_sacompanion.Server.{Crypto}
use rdoc_sacompanion.Server.Auth.{AuthConfig}
use rdoc_sacompanion.Server.RateLimit.{allow, rl_window, rl_join_max, rl_create_max}
use rdoc_sacompanion.Server.RateLimit.Laws.{Call, Within, run, calls_of, allow-run_iff}
use rdoc_sacompanion.Server.Socket.{len_ok}
use rdoc_sacompanion.Server.Http.{
  Client, client_ip, Service, Draws, error, create_session, join_session, max_code, max_pin,
}

-- A request to join: by whom, when, and with what.
pub record Try : Type 0 where
  pub from : Client
  pub at : ℕ
  pub code : String
  pub pin : Option String

-- The requests to join, one after another.
pub attempts : List Try → Service → Service
attempts [] s = s
attempts (t ∷ ts) s = attempts ts (join_session t.from t.at t.code t.pin s).1

-- What a request to join is to the limiter.
abbrev pub call_of : Try → Call
call_of t = record { ip = client_ip t.from; max = rl_join_max; now = t.at }

join_session-rate :
    (t : Try) (s : Service)
    → (join_session t.from t.at t.code t.pin s).1.rate
      ≡ (allow (client_ip t.from) rl_join_max rl_window t.at s.rate).1
unfolding join_session
join_session-rate t s =
    elim (Bool-cases (not (allow (client_ip t.from) rl_join_max rl_window t.at s.rate).0)) [
      | inl refused ↦ rw refused refl
      | inr allowed ↦
          elim (Bool-cases
            (not (len_ok t.code max_code) || not (len_ok (unwrap_or t.pin "") max_pin))) [
              | inl long ↦ rw (allowed, long) refl
              | inr short ↦ rw (allowed, short) refl
            ]
    ]

-- Whatever the requests are answered, the limiter has counted each.
rate-attempts :
    (ts : List Try) (s : Service) → (attempts ts s).rate ≡ run rl_window s.rate (map call_of ts)
unfolding attempts run
rate-attempts [] s = refl
rate-attempts (t ∷ ts) s =
    rate-attempts ts _ ∙ ap (λ m. run rl_window m (map call_of ts)) (join_session-rate t s)

-- Both handlers count in one limiter: once an address has made 20 requests to join within a window
-- that the first of them opened (among any requests to join from other addresses), its next request
-- for a session is refused with 429, though it has made none before, and stores no session. (A `u32`
-- has room for the requests.)
pub create_session-refused_by_joins :
    (crypto : Crypto) (auth : AuthConfig) (client : Client) (now : ℕ) (draws : Draws) (s : Service)
    (first : Try) (ts : List Try)
    → get (client_ip client) s.rate ≡ none
    → client_ip first.from ≡ client_ip client
    → Within (client_ip client) rl_window first.at (map call_of ts)
    → now - first.at < rl_window
    → rl_create_max ≤ calls_of (client_ip client) (map call_of (first ∷ ts))
    → calls_of (client_ip client) (map call_of (first ∷ ts)) + 1 < 2 ^ 32
    → let s' = attempts (first ∷ ts) s in
      create_session crypto auth client now draws s'
      ≡ some (
        error 429 "rate_limited",
        record s' { rate = (allow (client_ip client) rl_create_max rl_window now s'.rate).1 },
      )
unfolding create_session
create_session-refused_by_joins crypto auth client now draws s first ts new is_ip w recent many
      small =
    let s' = attempts (first ∷ ts) s in
    let below =
      allow-run_iff (client_ip client) rl_window now rl_create_max s.rate (call_of first)
        (map call_of ts) new is_ip w recent small in
    elim (Bool-cases (allow (client_ip client) rl_create_max rl_window now s'.rate).0) [
      | inl allowed ↦ absurd (
          omega (
            arith,
            below.0 (
                ap (λ m. (allow (client_ip client) rl_create_max rl_window now m).0)
                  (sym (rate-attempts (first ∷ ts) s))
                ∙ allowed),
            many,
          ))
      | inr denied ↦ rw denied refl
    ]
