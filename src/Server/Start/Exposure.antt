-- ===== src/Server/Start/Exposure.antt =====
-- Where the server listens, and what its sweep leaves alone.
use rdoc_sacompanion.Base.{
  ℕ, ◌-◌, ◌≤◌, ◌<◌, String, ◌==◌, ◌≡◌, refl, Bool, true, false, not, Option, none, some, List,
  is_some, unwrap_or, ◌&&◌, if◌then◌else◌, Bool-cases, inl, inr,
}
use rdoc_sacompanion.Dict.{Dict, get}
use rdoc_sacompanion.Dict.Distinct.{DistinctKeys}
use rdoc_sacompanion.Server.{Crypto}
use rdoc_sacompanion.Server.Auth.{EnvResult, from_env, token_for}
use rdoc_sacompanion.Server.Tls.{Tls, Pem, Outside}
use rdoc_sacompanion.Server.Sessions.{Session, max_age_secs}
use rdoc_sacompanion.Server.Sessions.Lifetime.{reap_iff}
use rdoc_sacompanion.Server.RateLimit.{Limiter, allow, rl_window}
use rdoc_sacompanion.Server.RateLimit.Laws.{allow-prune}
use rdoc_sacompanion.Server.Room.{Rooms}
use rdoc_sacompanion.Server.Start.{Startup, nth, port_of, main, listen, is_live, tick, wants_mint}

-- Unencrypted, and not on the loopback address alone.
abbrev pub is_exposed : Startup → Bool
is_exposed (Startup.plain ip port) = not (ip == "127.0.0.1")
is_exposed s = false

abbrev pub is_ok : EnvResult → Bool
is_ok (EnvResult.ok auth) = true
is_ok EnvResult.refused = false

module _ (crypto : Crypto) (pem : Pem) (o : Outside) (env : String → Option String) where
  listen-is_exposed :
      (fs : Dict String)
      → is_exposed (listen crypto pem o env fs)
        ≡ (is_some (env "TLS_DISABLE") && is_some (env "ALLOW_PLAIN_PUBLIC_BIND"))
  unfolding listen
  listen-is_exposed fs = elim (Bool-cases (is_some (env "TLS_DISABLE"))) [
    | inl t ↦ elim (Bool-cases (is_some (env "ALLOW_PLAIN_PUBLIC_BIND"))) [
      | inl a ↦ rw (t, a) refl
      | inr a ↦ rw (t, a) refl
    ]
    | inr t ↦ rw t (certificate _)
  ]
    where
      certificate :
          (r : Option Tls)
          → is_exposed (elim r [
            | none ↦ Startup.no_certificate
            | some cert ↦ Startup.secure "0.0.0.0" (port_of (env "PORT")) cert
          ])
            ≡ false
      certificate none = refl
      certificate (some cert) = refl

  -- The server takes unencrypted connections from the network exactly when its authentication is
  -- configured, it is not asked for a token, and both TLS_DISABLE and ALLOW_PLAIN_PUBLIC_BIND are
  -- set.
  pub main-is_exposed :
      (args : List String) (fs : Dict String)
      → is_exposed (main crypto pem o env args fs) ≡ (
          is_ok (from_env env)
          && (not (wants_mint args)
              && (is_some (env "TLS_DISABLE") && is_some (env "ALLOW_PLAIN_PUBLIC_BIND"))))
  unfolding main
  main-is_exposed args fs = configured (from_env env)
    where
      configured :
          (r : EnvResult)
          → is_exposed (elim r [
            | EnvResult.refused ↦ Startup.bad_config
            | EnvResult.ok auth ↦
                if wants_mint args
                then Startup.minted (token_for crypto auth (unwrap_or (nth 2 args) ""))
                else listen crypto pem o env fs
          ])
            ≡ (is_ok r
                && (not (wants_mint args)
                    && (is_some (env "TLS_DISABLE") && is_some (env "ALLOW_PLAIN_PUBLIC_BIND"))))
      configured EnvResult.refused = refl
      configured (EnvResult.ok auth) = elim (Bool-cases (wants_mint args)) [
        | inl m ↦ rw m refl
        | inr m ↦ rw m (listen-is_exposed fs)
      ]

-- The sweep keeps each session that is younger than 24 hours and whose room has members, and
-- changes no later decision of the rate limiter.
pub tick-keeps :
    (now : ℕ) (rooms : Rooms) (sessions : Dict Session) (limiter : Limiter) (c : String)
    (s : Session)
    → DistinctKeys sessions
    → DistinctKeys limiter
    → get c sessions ≡ some s
    → now - s.created < max_age_secs
    → is_live rooms s.room ≡ true
    → let (sessions', limiter') = tick now rooms sessions limiter in
      (get c sessions' ≡ some (record s { last_active = now }))
      × ((ip : String) (max later : ℕ)
          → now ≤ later
          → (allow ip max rl_window later limiter').0 ≡ (allow ip max rl_window later limiter).0)
unfolding tick
tick-keeps now rooms sessions limiter c s ds dl e young live = (
  (reap_iff now (is_live rooms) sessions ds c (record s { last_active = now })).1
      (s, e, (young, inl (live, refl))),
  λ ip max later h. allow-prune ip max rl_window now later limiter dl h,
)
