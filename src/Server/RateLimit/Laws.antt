-- ===== src/Server/RateLimit/Laws.antt =====
-- What the rate limiter of server/init/src/main.rs guarantees.
use native.Mathlib.Nat.{zero-add}
use rdoc_sacompanion.Base.{
  ℕ, ◌+◌, ◌-◌, ◌^◌, ◌≤◌, ◌<◌, String, ◌==◌, eq_iff, ◌≡◌, ◌≢◌, ◌↔◌, true, none, some, List, [], ◌∷◌,
  arith, if◌then◌else◌, Bool-cases, ◌∙◌, inl, inr,
}
use rdoc_sacompanion.Dict.{get, get-insert}
use rdoc_sacompanion.Dict.Distinct.{DistinctKeys, get-retain}
use rdoc_sacompanion.Server.RateLimit.{
  Limiter, current_window, count_call, allow, keep_window, prune,
}

-- A call that the server makes: for an address, with its own maximum, at a time.
pub record Call : Type 0 where
  pub ip : String
  pub max : ℕ
  pub now : ℕ

-- The calls one after another, and how many of those for the address were allowed.
unfoldable pub run : (window : ℕ) → Limiter → List Call → Limiter
run window m [] = m
run window m (c ∷ cs) = run window (allow c.ip c.max window c.now m).1 cs

unfoldable pub calls_of : String → List Call → ℕ
calls_of ip [] = 0
calls_of ip (c ∷ cs) = (if c.ip == ip then 1 else 0) + calls_of ip cs

-- Every call for the address is less than a window after the time.
abbrev pub Within : (ip : String) (window start : ℕ) → List Call → Type 0
Within ip window start [] = Unit
Within ip window start (c ∷ cs) =
    (c.ip ≡ ip → (start ≤ c.now) × (c.now - start < window)) × Within ip window start cs

get-allow :
    (ip : String) (max window now : ℕ) (m : Limiter) (j : String)
    → get j (allow ip max window now m).1
      ≡ (if ip == j then some (count_call (current_window (get ip m) now window)) else get j m)
unfolding allow
get-allow ip max window now m j =
    get-insert ip j (count_call (current_window (get ip m) now window)) m

-- One counted call inside the window.
get-allow_within :
    (ip : String) (max window now start k : ℕ) (m : Limiter)
    → get ip m ≡ some (record { start = start; count = k })
    → now - start < window
    → k + 1 < 2 ^ 32
    → get ip (allow ip max window now m).1 ≡ some (record { start = start; count = k + 1 })
unfolding current_window count_call
get-allow_within ip max window now start k m e w small =
    ground (arith, get-allow ip max window now m ip, eq_iff ip ip)

get-allow_other :
    (ip j : String) (max window now : ℕ) (m : Limiter)
    → ip ≢ j
    → get j (allow ip max window now m).1 ≡ get j m
get-allow_other ip j max window now m differs =
    ground (arith, get-allow ip max window now m j, eq_iff ip j)

-- Inside a window the entry counts the calls for its address, whatever calls for other addresses
-- stand between them.
run-count :
    (ip : String) (window start k : ℕ) (m : Limiter) (cs : List Call)
    → get ip m ≡ some (record { start = start; count = k })
    → Within ip window start cs
    → k + calls_of ip cs < 2 ^ 32
    → get ip (run window m cs) ≡ some (record { start = start; count = k + calls_of ip cs })
unfolding run calls_of
run-count ip window start k m [] e w small = rw e (ground arith)
run-count ip window start k m (c ∷ cs) e w small = elim (Bool-cases (c.ip == ip)) [
  | inl same ↦
      let is_ip : c.ip ≡ ip = (eq_iff c.ip ip).0 same in
      rw same (
        rw (add_assoc-one k (calls_of ip cs)) (
          run-count ip window start (k + 1) _ cs
            (rw is_ip
              (get-allow_within ip c.max window c.now start k m e (w.0 is_ip).1 (ground arith)))
            w.1 (ground arith)))
  | inr other ↦ rw other (
      rw (zero-add (calls_of ip cs)) (
        run-count ip window start k _ cs
          (get-allow_other c.ip ip c.max window c.now m (λ i. ground (arith, eq_iff c.ip ip)) ∙ e)
          w.1 (ground arith)))
]
  where
    add_assoc-one : (k n : ℕ) → k + (1 + n) ≡ k + 1 + n
    add_assoc-one k n = omega arith

get-allow_first :
    (ip : String) (max window now : ℕ) (m : Limiter)
    → get ip m ≡ none
    → get ip (allow ip max window now m).1 ≡ some (record { start = now; count = 1 })
unfolding current_window count_call
get-allow_first ip max window now m e =
    ground (arith, get-allow ip max window now m ip, eq_iff ip ip)

-- The entry of an address after its first call and some more within the window.
get-run_first :
    (ip : String) (window : ℕ) (m : Limiter) (first : Call) (cs : List Call)
    → get ip m ≡ none
    → first.ip ≡ ip
    → Within ip window first.now cs
    → 1 + calls_of ip cs < 2 ^ 32
    → get ip (run window m (first ∷ cs))
      ≡ some (record { start = first.now; count = 1 + calls_of ip cs })
unfolding run
get-run_first ip window m first cs new is_ip w small =
    run-count ip window first.now 1 _ cs
      (rw is_ip (get-allow_first ip first.max window first.now m new)) w small

calls_of_first :
    (ip : String) (first : Call) (cs : List Call)
    → first.ip ≡ ip
    → calls_of ip (first ∷ cs) ≡ 1 + calls_of ip cs
unfolding calls_of
calls_of_first ip first cs e = ground (arith, eq_iff first.ip ip)

-- Within a window that an address opens with its first call, its next call is allowed exactly when
-- fewer calls than the maximum were made for it. Calls for other addresses do not count. (A `u32`
-- has room for the calls.)
pub allow-run_iff :
    (ip : String) (window now max : ℕ) (m : Limiter) (first : Call) (cs : List Call)
    → get ip m ≡ none
    → first.ip ≡ ip
    → Within ip window first.now cs
    → now - first.now < window
    → calls_of ip (first ∷ cs) + 1 < 2 ^ 32
    → ((allow ip max window now (run window m (first ∷ cs))).0 ≡ true)
      ↔ (calls_of ip (first ∷ cs) < max)
unfolding allow
allow-run_iff ip window now max m first cs new is_ip w recent small =
    let calls = calls_of_first ip first cs is_ip in
    let entry = get-run_first ip window m first cs new is_ip w (omega arith) in
    rw entry (unfold current_window in (ground arith))

-- Throwing windows away that are over changes no later answer.
pub allow-prune :
    (ip : String) (max window now later : ℕ) (m : Limiter)
    → DistinctKeys m
    → now ≤ later
    → (allow ip max window later (prune window now m)).0 ≡ (allow ip max window later m).0
unfolding allow prune
allow-prune ip max window now later m d h = ground (arith, get-retain (keep_window window now) ip m)
