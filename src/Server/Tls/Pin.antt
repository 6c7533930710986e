-- ===== src/Server/Tls/Pin.antt =====
-- The pinned fingerprint stays the same across restarts.
use rdoc_sacompanion.Base.{
  String, ◌==◌, eq_iff, eq_refl, ◌≡◌, ◌≢◌, refl, subst, true, false, ◌&&◌, Option, some, arith,
  Bool-cases, Option-cases, inl, inr,
}
use rdoc_sacompanion.Dict.{Dict, get, get-insert, contains_key}
use rdoc_sacompanion.Server.Tls.{
  Tls, Pem, Outside, fingerprint_of, read_to_string, with_fingerprint, sans, load, store, ensure,
}

module _ (pem : Pem) (cert_path key_path : String) (apart : cert_path ≢ key_path) where
  -- Both files are there, and this is what they hold.
  record Holds (fs : Dict String) (tls : Tls) : Type 0 where
    cert : get cert_path fs ≡ some tls.cert_pem
    key : get key_path fs ≡ some tls.key_pem
    print : fingerprint_of pem tls.cert_pem ≡ some tls.fingerprint

  with_fingerprint-some :
      (cert key : String) (tls : Tls)
      → with_fingerprint pem cert key ≡ some tls
      → (cert ≡ tls.cert_pem)
        × ((key ≡ tls.key_pem) × (fingerprint_of pem cert ≡ some tls.fingerprint))
  with_fingerprint-some cert key tls e = elim (Option-cases (fingerprint_of pem cert)) [
    | inl h ↦ ground arith
    | inr (fp, h) ↦ ground arith
  ]

  paths-apart : (key_path == cert_path) ≡ false
  paths-apart = ground (arith, eq_iff key_path cert_path)

  store-Holds :
      (o : Outside) (cert key : String) (fs : Dict String) (tls : Tls)
      → (store pem o cert_path key_path cert key fs).1 ≡ some tls
      → Holds (store pem o cert_path key_path cert key fs).0 tls
  unfolding store
  store-Holds o cert key fs tls e = elim (Bool-cases (o.writable cert_path)) [
    | inl c ↦ elim (Bool-cases (o.writable key_path)) [
      | inl k ↦
          let (same_cert, (same_key, print)) = with_fingerprint-some cert key tls (ground arith) in
          rw (c, k)
            (record {
              cert = rw (get-insert, paths-apart, get-insert, eq_refl, same_cert) refl;
              key = rw (get-insert, eq_refl, same_key) refl;
              print = subst (λ t. fingerprint_of pem t ≡ some tls.fingerprint) same_cert print;
            })
      | inr k ↦ absurd (ground arith)
    ]
    | inr c ↦ absurd (ground arith)
  ]

  load-Holds :
      (o : Outside) (fs : Dict String) (tls : Tls)
      → load pem o cert_path key_path fs ≡ some tls
      → Holds fs tls
  unfolding load
  load-Holds o fs tls e = elim (Option-cases (read_to_string o cert_path fs)) [
    | inl c ↦ absurd (ground arith)
    | inr (cert, c) ↦ elim (Option-cases (read_to_string o key_path fs)) [
      | inl k ↦ absurd (ground arith)
      | inr (key, k) ↦
          let (same_cert, (same_key, print)) = with_fingerprint-some cert key tls (ground arith) in
          record {
            cert = ground arith;
            key = ground arith;
            print = subst (λ t. fingerprint_of pem t ≡ some tls.fingerprint) same_cert print;
          }
    ]
  ]

  ensure-Holds :
      (o : Outside) (extra : Option String) (fs : Dict String) (tls : Tls)
      → (ensure pem o extra cert_path key_path fs).1 ≡ some tls
      → Holds (ensure pem o extra cert_path key_path fs).0 tls
  unfolding ensure
  ensure-Holds o extra fs tls e =
      elim (Bool-cases (contains_key cert_path fs && contains_key key_path fs)) [
        | inl b ↦ rw b (load-Holds o fs tls (ground arith))
        | inr b ↦ elim (Option-cases (o.generate (sans extra))) [
          | inl g ↦ absurd (ground arith)
          | inr ((cert, key), g) ↦ rw (b, g) (store-Holds o cert key fs tls (ground arith))
        ]
      ]

  Holds-load :
      (o : Outside) (fs : Dict String) (tls : Tls)
      → o.readable cert_path ≡ true
      → o.readable key_path ≡ true
      → Holds fs tls
      → load pem o cert_path key_path fs ≡ some tls
  unfolding load
  Holds-load o fs tls rc rk h = ground (arith, rc, rk, h.cert, h.key, h.print)

  Holds-ensure :
      (o : Outside) (extra : Option String) (fs : Dict String) (tls : Tls)
      → o.readable cert_path ≡ true
      → o.readable key_path ≡ true
      → Holds fs tls
      → ensure pem o extra cert_path key_path fs ≡ (fs, some tls)
  unfolding ensure
  Holds-ensure o extra fs tls rc rk h = rw (h.cert, h.key, Holds-load o fs tls rc rk h) refl

  -- The certificate that one run returned, made or found, is what every later run returns, whatever
  -- the variable TLS_SAN says then, as long as both files can be read; and no later run writes.
  pub ensure-stable :
      (o later : Outside) (extra extra_later : Option String) (fs : Dict String) (tls : Tls)
      → later.readable cert_path ≡ true
      → later.readable key_path ≡ true
      → (ensure pem o extra cert_path key_path fs).1 ≡ some tls
      → let fs' = (ensure pem o extra cert_path key_path fs).0 in
        ensure pem later extra_later cert_path key_path fs' ≡ (fs', some tls)
  ensure-stable o later extra extra_later fs tls rc rk e =
      Holds-ensure later extra_later _ tls rc rk (ensure-Holds o extra fs tls e)
