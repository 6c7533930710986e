-- ===== src/Core/Audio/Resampler/Rate.antt =====
-- The resampler's phase and the number of samples that it makes.
use native.Mathlib.Nat.{suc-mul, add-mul, mul-le-mul_right}
use mathlib.Core.List.{append_assoc}
use rdoc_sacompanion.Base.{
  ℕ, zero, suc, ◌+◌, ◌*◌, ◌≤◌, ◌<◌, ◌≡◌, refl, List, [], ◌∷◌, ◌++◌, true, false, arith, ltb, leb,
  length, length-append, Bool-cases, inl, inr,
}
use rdoc_sacompanion.Core.Audio.Floats.{Float, lit, ◌+f◌, ◌-f◌, ◌<f◌}
use rdoc_sacompanion.Core.Audio.Resampler.{Resampler, fill, feed, process}

-- What the phase arithmetic of f64 does at a fixed `step`: on the values that the phase takes,
-- `t` is `ticks t` ticks, 1.0 is `one` of them, adding `step` adds from `lo` to `hi`, and
-- subtracting 1.0 is exact.
pub record IsClock {D : Type 0} ⦃d : Float D⦄ (step : D) : Type 1 where
  pub Taken : D → Type 0
  pub ticks : D → ℕ
  pub one : ℕ
  pub lo : ℕ
  pub hi : ℕ
  pub lo_pos : 0 < lo
  pub start : Taken (lit 0 1)
  pub ticks-start : ticks (lit 0 1) ≡ 0
  pub below : (t : D) → Taken t → (t <f lit 1 1) ≡ ltb (ticks t) one
  pub advance : (t : D) → Taken t → (t <f lit 1 1) ≡ true → Taken (t +f step)
  pub fast : (t : D) → Taken t → (t <f lit 1 1) ≡ true → ticks t + lo ≤ ticks (t +f step)
  pub slow : (t : D) → Taken t → (t <f lit 1 1) ≡ true → ticks (t +f step) ≤ ticks t + hi
  pub carry : (t : D) → Taken t → (t <f lit 1 1) ≡ false → Taken (t -f lit 1 1)
  pub ticks-carry :
      (t : D) → Taken t → (t <f lit 1 1) ≡ false → ticks (t -f lit 1 1) + one ≡ ticks t

length-append-mul :
    {A : Type 0} (xs ys : List A) (k : ℕ) → length (xs ++ ys) * k ≡ length xs * k + length ys * k
length-append-mul xs ys k = rw (length-append xs ys) (add-mul (length xs) (length ys) k)

module _ {F D : Type 0} ⦃f : Float F⦄ ⦃d : Float D⦄ (narrow : D → F) where
  -- How a stream is cut into calls makes no difference to what comes out.
  pub process-append :
      (fuel : ℕ) (r : Resampler F D) (xs ys : List F)
      → let (r1, out1) = process narrow fuel r xs in
        let (r2, out2) = process narrow fuel r1 ys in
        process narrow fuel r (xs ++ ys) ≡ (r2, out1 ++ out2)
  unfolding process
  process-append fuel r [] ys = refl
  process-append fuel r (x ∷ xs) ys =
      let (r1, out1) = feed narrow fuel r x in simp (process-append fuel r1 xs ys, append_assoc)

  module _ (step : D) (c : IsClock step) where
    -- The phase between two input samples.
    pub record IsOn (r : Resampler F D) : Type 0 where
      pub same_step : r.step ≡ step
      pub taken : c.Taken r.t
      pub low : c.ticks r.t ≤ c.hi

    record Filled (t : D) (out : List F) (t' : D) : Type 0 where
      taken : c.Taken t'
      ended : (t' <f lit 1 1) ≡ false
      fast : c.ticks t + length out * c.lo ≤ c.ticks t'
      slow : c.ticks t' ≤ c.ticks t + length out * c.hi
      low : c.ticks t ≤ c.one + c.hi → c.ticks t' ≤ c.one + c.hi

    fill-Filled :
        (fuel : ℕ) (prev cur : F) (t : D)
        → c.Taken t
        → c.one ≤ c.ticks t + fuel
        → let (out, t') = fill narrow fuel step prev cur t in Filled t out t'
    unfolding fill
    fill-Filled zero prev cur t v h = record {
      taken = v;
      ended = ground (arith, c.below t v);
      fast = omega arith;
      slow = omega arith;
      low = ground (arith, c.below t v);
    }
    fill-Filled (suc n) prev cur t v h = elim (Bool-cases (t <f lit 1 1)) [
      | inl e ↦
          let i =
            fill-Filled n prev cur (t +f step) (c.advance t v e)
              (omega (arith, c.fast t v e, c.lo_pos)) in
          rw e (record {
            taken = i.taken;
            ended = i.ended;
            fast = omega (arith, i.fast, c.fast t v e, suc-mul);
            slow = omega (arith, i.slow, c.slow t v e, suc-mul);
            low = λ l. i.low (ground (arith, c.below t v, c.slow t v e));
          })
      | inr e ↦ rw e (record {
        taken = v;
        ended = e;
        fast = omega arith;
        slow = omega arith;
        low = λ l. omega arith;
      })
    ]

    -- What `m` samples after the first do to the phase, and how many samples they make.
    pub record Processed (r : Resampler F D) (m : ℕ) (out : List F) (r' : Resampler F D)
        : Type 0 where
      pub on : IsOn r'
      pub primed : r'.have_prev ≡ true
      pub fast : c.ticks r.t + length out * c.lo ≤ c.ticks r'.t + m * c.one
      pub slow : c.ticks r'.t + m * c.one ≤ c.ticks r.t + length out * c.hi

    module _ (fuel : ℕ) (enough : c.one ≤ fuel) where
      feed-Processed :
          (r : Resampler F D) (x : F)
          → IsOn r
          → r.have_prev ≡ true
          → let (r', out) = feed narrow fuel r x in Processed r 1 out r'
      unfolding feed
      feed-Processed r x on p =
          let i = fill-Filled fuel r.prev x r.t on.taken (omega arith) in
          rw (p, on.same_step)
            (record {
              on = record {
                same_step = refl;
                taken = c.carry _ i.taken i.ended;
                low = omega (arith, c.ticks-carry _ i.taken i.ended, i.low);
              };
              primed = refl;
              fast = omega (arith, c.ticks-carry _ i.taken i.ended, i.fast);
              slow = omega (arith, c.ticks-carry _ i.taken i.ended, i.slow);
            })

      pub process-count :
          (r : Resampler F D) (xs : List F)
          → IsOn r
          → r.have_prev ≡ true
          → let (r', out) = process narrow fuel r xs in Processed r (length xs) out r'
      unfolding process
      process-count r [] on p = record {
        on = on;
        primed = p;
        fast = omega arith;
        slow = omega arith;
      }
      process-count r (x ∷ xs) on p =
          let (r1, out) = feed narrow fuel r x in
          let i = feed-Processed r x on p in
          let j = process-count r1 xs i.on i.primed in
          record {
            on = j.on;
            primed = j.primed;
            fast = omega (
              arith,
              i.fast,
              j.fast,
              length-append-mul out (process narrow fuel r1 xs).1 c.lo,
              suc-mul (length xs) c.one,
            );
            slow = omega (
              arith,
              i.slow,
              j.slow,
              length-append-mul out (process narrow fuel r1 xs).1 c.hi,
              suc-mul (length xs) c.one,
            );
          }

      feed-first :
          (r : Resampler F D) (x : F)
          → IsOn r
          → r.have_prev ≡ false
          → let (r1, out) = feed narrow fuel r x in IsOn r1 × (r1.have_prev ≡ true) × (out ≡ [])
      unfolding feed
      feed-first r x on p =
          rw p (record { same_step = on.same_step; taken = on.taken; low = on.low }, refl, refl)

      Processed-made :
          {r r' : Resampler F D} (made m : ℕ) (out : List F)
          → Processed r m out r'
          → c.ticks r.t ≤ c.hi
          → (made + 1) * c.hi < m * c.one
          → made ≤ length out
      Processed-made made m out i low big = elim (Bool-cases (leb made (length out))) [
        | inl enough_made ↦ ground arith
        | inr less ↦
            let n : ℕ = length out + 1 in
            let at_most : n ≤ made = ground arith in
            absurd (
              omega (
                arith,
                i.slow,
                add-mul made 1 c.hi,
                add-mul (length out) 1 c.hi,
                mul-le-mul_right c.hi at_most,
              ))
      ]

      -- What a stream makes of the samples behind its first one.
      pub process-Made :
          (made : ℕ) (r : Resampler F D) (x : F) (xs : List F)
          → IsOn r
          → (made + 1) * c.hi < length xs * c.one
          → let (r', out) = process narrow fuel r (x ∷ xs) in IsOn r' × (made ≤ length out)
      unfolding process
      process-Made made r x xs on big = elim (Bool-cases r.have_prev) [
        | inl p ↦
            let i = process-count r (x ∷ xs) on p in
            (
              i.on,
              Processed-made made (suc (length xs)) _ i on.low
                  (omega (arith, suc-mul (length xs) c.one)),
            )
        | inr p ↦
            let (on1, p1, e) = feed-first r x on p in
            let i = process-count (feed narrow fuel r x).0 xs on1 p1 in
            (i.on, rw e (Processed-made made (length xs) _ i on1.low big))
      ]
