-- ===== src/Tests/Host.antt =====
-- The server's pages, certificate, start and sweep at small inputs.
use rdoc_sacompanion.App.Rigs.{
  Command, connect, serverless_offer, disconnect, fails_later, works, run, initial,
}
use rdoc_sacompanion.App.Rigs.Running.{running, held, all_unowned, run-running}
use rdoc_sacompanion.Base.{
  ℕ, ◌+◌, List, String, ◌==◌, ◌||◌, ◌≡◌, ◌≢◌, refl, true, none, some, [], ◌∷◌, arith, nat_eq,
  eq_iff, if◌then◌else◌,
}
use rdoc_sacompanion.Dict.{get}
use rdoc_sacompanion.Server.Page.{esc, landing, replace}
use rdoc_sacompanion.Server.Page.Markup.{marks, landing-marks}
use rdoc_sacompanion.Server.Tls.{Tls, Pem, Outside, ensure, store, fingerprint_of}
use rdoc_sacompanion.Server.Tls.Pin.{ensure-stable}

escaped : esc "<b a='&'>" ≡ "&lt;b a=&#x27;&amp;&#x27;&gt;"
unfolding esc replace
escaped = refl

less_is_markup :
    (c : ℕ)
    → nat_eq c b'<' ≡ true
    → (nat_eq c b'<' || nat_eq c b'>' || nat_eq c b'"' || nat_eq c b'\'') ≡ true
less_is_markup c h = ground arith

landing-marks_example :
    marks (λ c. nat_eq c b'<') (landing "https://x.org" "<script>" none (some "de"))
    ≡ marks (λ c. nat_eq c b'<') (landing "https://x.org" "" none (some "de"))
landing-marks_example =
    landing-marks (λ c. nat_eq c b'<') less_is_markup "https://x.org" "<script>" none (some "de")

abbrev pem : Pem
pem = record {
  first_cert = λ s. if s == "" then none else some (1 ∷ []);
  sha256 = λ bytes. bytes;
  hex_encode = λ bytes. "01";
}

abbrev outside : (cert : String) → Outside
outside cert = record {
  generate = λ sans. some (cert, "key");
  readable = λ path. true;
  writable = λ path. true;
}

abbrev made : Tls
made = record { cert_pem = "cert"; key_pem = "key"; fingerprint = "01" }

paths_differ : ◌≢◌ {A = String} "init-cert.pem" "init-key.pem"
paths_differ h = ground (arith, (eq_iff "init-cert.pem" "init-key.pem").1 h)

ensure-stable_example :
    let fs = (ensure pem (outside "cert") none "init-cert.pem" "init-key.pem" []).0 in
    ensure pem (outside "other") (some "x.org") "init-cert.pem" "init-key.pem" fs ≡ (fs, some made)
ensure-stable_example =
    ensure-stable pem "init-cert.pem" "init-key.pem" paths_differ (outside "cert") (outside "other")
      none (some "x.org") [] made refl refl (unfold ensure store fingerprint_of get in refl)

-- A connect to a server that is not there, one that works, a call without a server, and the end.
abbrev evening : List Command
evening =
    connect fails_later ∷ connect works ∷ serverless_offer works ∷ connect works ∷ disconnect ∷ []

run-running_example :
    running (run evening initial).stops ≡ held (run evening initial) + all_unowned evening
run-running_example = run-running evening
