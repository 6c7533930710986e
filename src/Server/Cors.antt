-- ===== src/Server/Cors.antt =====
-- `build_cors` of server/init/src/main.rs: which origins may call the server from a browser. Whether a
-- text is a header value is a parameter.
use rdoc_sacompanion.Base.{
  String, ◌==◌, ◌≡◌, refl, Bool, false, ◌||◌, Option, none, some, List, [], ◌∷◌, ◌++◌, map, arith,
  keep_if, nat_eq, Bool-cases, inl, inr, ◌∙◌, ◌&&◌, eq_iff,
}
use rdoc_sacompanion.Text.{split, trim}

abbrev pub own_origins : List String
own_origins =
    "https://squadlink.raumdock.org" ∷ "http://tauri.localhost" ∷ "https://tauri.localhost"
    ∷ "tauri://localhost" ∷ "http://localhost:1420" ∷ []

-- The parts of EXTRA_CORS_ORIGINS
abbrev pub extra_origins : Option String → List String
extra_origins none = []
extra_origins (some extra) = map trim (split (λ c. nat_eq c b',') extra)

unfoldable pub build_cors : (parses : String → Bool) → (extra : Option String) → List String
build_cors parses extra = keep_if parses own_origins ++ keep_if parses (extra_origins extra)

abbrev pub is_in : String → List String → Bool
is_in o [] = false
is_in o (p ∷ ps) = p == o || is_in o ps

is_in-append : (o : String) (ps qs : List String) → is_in o (ps ++ qs) ≡ (is_in o ps || is_in o qs)
is_in-append o [] qs = refl
is_in-append o (p ∷ ps) qs = ground (arith, is_in-append o ps qs)

is_in-keep_if :
    (f : String → Bool) (o : String) (ps : List String)
    → is_in o (keep_if f ps) ≡ (f o && is_in o ps)
is_in-keep_if f o [] = ground arith
is_in-keep_if f o (p ∷ ps) = elim (Bool-cases (f p)) [
  | inl kept ↦ ground (arith, kept, eq_iff p o, is_in-keep_if f o ps)
  | inr dropped ↦ ground (arith, dropped, eq_iff p o, is_in-keep_if f o ps)
]

-- An origin is allowed exactly if it is a header value and is one of the project's own or an entry of
-- EXTRA_CORS_ORIGINS, blanks around the entry aside.
pub build_cors-allowed :
    (parses : String → Bool) (extra : Option String) (origin : String)
    → is_in origin (build_cors parses extra)
      ≡ (parses origin && (is_in origin own_origins || is_in origin (extra_origins extra)))
unfolding build_cors
build_cors-allowed parses extra origin =
    is_in-append origin (keep_if parses own_origins) (keep_if parses (extra_origins extra))
    ∙ ground (
      arith,
      is_in-keep_if parses origin own_origins,
      is_in-keep_if parses origin (extra_origins extra),
    )
