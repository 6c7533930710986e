-- ===== src/App/Ptt.antt =====
-- The push-to-talk key of apps/companion/src-tauri/src/main.rs: the listener of raw input and the
-- commands that bind a key. A key's text is what `raw_code` makes of the event.
use rdoc_sacompanion.Base.{
  String, ◌==◌, ◌≡◌, refl, sym, subst, ◌∙◌, Bool, true, false, ◌&&◌, not, Option, none, some, List,
  [], ◌∷◌, ◌++◌, leb, len, if◌then◌else◌, All, Bool-cases, inl, inr,
}
use rdoc_sacompanion.Text.{is_empty}

-- `PTT_BINDING` and `PTT_CAPTURE`
pub record Ptt : Type 0 where
  pub binding : Option String
  pub capture : Bool

-- A key or a button goes down or up.
pub record Raw : Type 0 where
  pub code : String
  pub down : Bool

-- What the webview is sent.
pub data Emit : Type 0 where
  ptt_bound : (code : String) → Emit
  ptt : (down : Bool) → Emit

abbrev pub is_bound : Option String → String → Bool
is_bound none code = false
is_bound (some b) code = b == code

-- The body of the callback in `start_raw_input`.
unfoldable pub on_raw : Raw → Ptt → Ptt × List Emit
on_raw ev s =
    if s.capture
    then if ev.down
      then (record { binding = some ev.code; capture = false }, ptt_bound ev.code ∷ [])
      else (s, [])
    else (s, if is_bound s.binding ev.code then ptt ev.down ∷ [] else [])

-- The events in the order in which they come.
unfoldable pub listen : List Raw → Ptt → Ptt × List Emit
listen [] s = (s, [])
listen (ev ∷ evs) s =
    let here = on_raw ev s in let rest = listen evs here.0 in (rest.0, here.1 ++ rest.1)

abbrev usable_code : String → Option String
usable_code c = if not (is_empty c) && leb (len c) 64 then some c else none

unfoldable pub set_ptt_binding : Option String → Ptt → Ptt
set_ptt_binding none s = record s { binding = none }
set_ptt_binding (some c) s = record s { binding = usable_code c }

unfoldable pub start_ptt_capture : Ptt → Ptt
start_ptt_capture s = record s { capture = true }

-- The presses and releases of one key.
unfoldable pub edges_of : Option String → List Raw → List Emit
edges_of b [] = []
edges_of b (ev ∷ evs) =
    let rest = edges_of b evs in if is_bound b ev.code then ptt ev.down ∷ rest else rest

abbrev bound_to : Option String → Ptt
bound_to b = record { binding = b; capture = false }

abbrev capturing : Option String → Ptt
capturing b = record { binding = b; capture = true }

listen-bound_to :
    (evs : List Raw) (b : Option String) → listen evs (bound_to b) ≡ (bound_to b, edges_of b evs)
unfolding listen on_raw edges_of
listen-bound_to [] b = refl
listen-bound_to (ev ∷ evs) b = elim (Bool-cases (is_bound b ev.code)) [
  | inl bound ↦ rw (bound, listen-bound_to evs b) refl
  | inr other ↦ rw (other, listen-bound_to evs b) refl
]

-- Outside of the capture mode the listener sends exactly the presses and releases of the bound key,
-- in their order, and changes nothing.
pub listen-bound :
    (evs : List Raw) (s : Ptt) → s.capture ≡ false → listen evs s ≡ (s, edges_of s.binding evs)
listen-bound evs s h =
    let same : bound_to s.binding ≡ s = λ i. record { binding = s.binding; capture = sym h i } in
    subst (λ t. listen evs t ≡ (t, edges_of s.binding evs)) same (listen-bound_to evs s.binding)

abbrev pub IsRelease : Raw → Type 0
IsRelease ev = ev.down ≡ false

releases_ignored :
    (evs rest : List Raw) (b : Option String)
    → All IsRelease evs
    → listen (evs ++ rest) (capturing b) ≡ listen rest (capturing b)
unfolding listen on_raw
releases_ignored [] rest b a = refl
releases_ignored (ev ∷ evs) rest b a = rw (a.0, releases_ignored evs rest b a.1) refl

-- After `start_ptt_capture`, whatever keys are released first, the next key pressed becomes the
-- binding and is reported once, no transmission is started or stopped by it, and what follows is
-- read with the new binding.
pub listen-capture :
    (evs rest : List Raw) (code : String) (s : Ptt)
    → All IsRelease evs
    → listen (evs ++ (record { code = code; down = true } ∷ rest)) (start_ptt_capture s) ≡ (
      record { binding = some code; capture = false },
      ptt_bound code ∷ edges_of (some code) rest,
    )
unfolding start_ptt_capture listen on_raw
listen-capture evs rest code s a =
    releases_ignored evs (record { code = code; down = true } ∷ rest) s.binding a
    ∙ rw (listen-bound_to rest (some code)) refl
