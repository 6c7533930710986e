-- ===== src/Server/Lang.antt =====
-- `Lang` of server/init/src/i18n.rs: which language a page is sent in.
use text.Mathlib.Text.{get?}
use rdoc_sacompanion.Base.{
  String, ◌==◌, ◌≡◌, refl, Option, none, some, List, [], ◌∷◌, nat_eq, if◌then◌else◌, unwrap_or,
  ◌>>=◌,
}
use rdoc_sacompanion.Text.{before, split, strip_prefix, to_ascii_lowercase, trim}

pub data Lang : Type 0 where
  en de it es fr : Lang

unfoldable pub code : Lang → String
code en = "en"
code de = "de"
code it = "it"
code es = "es"
code fr = "fr"

abbrev of_code : String → Option Lang
of_code s =
    if s == "en"
    then some en
    else if s == "de"
    then some de
    else if s == "it"
    then some it
    else if s == "es"
    then some es
    else if s == "fr"
    then some fr
    else none

-- The first two bytes, in lower case and without white space around them.
unfoldable pub parse : String → Option Lang
unfolding trim to_ascii_lowercase
parse s = get? (to_ascii_lowercase (trim s)) 0 2 >>= of_code

unfoldable pub first_match : List String → Option Lang
unfolding parse
first_match [] = none
first_match (part ∷ parts) = elim (parse (before (λ c. nat_eq c b';') part)) [
  | some l ↦ some l
  | none ↦ first_match parts
]

abbrev from_accept : Option String → Lang
from_accept none = en
from_accept (some a) = unwrap_or (first_match (split (λ c. nat_eq c b',') a)) en

unfoldable pub detect : (query accept : Option String) → Lang
unfolding first_match parse
detect query accept = unwrap_or (query >>= parse) (from_accept accept)

-- The value of the first `lang=` in the query.
unfoldable pub query_lang : List String → Option String
query_lang [] = none
query_lang (kv ∷ kvs) = elim (strip_prefix "lang=" kv) [ some v ↦ some v | none ↦ query_lang kvs ]

unfoldable pub lang_of : (query accept : Option String) → Lang
unfolding query_lang detect
lang_of query accept = detect (query >>= λ s. query_lang (split (λ c. nat_eq c b'&') s)) accept

-- A link of the language switcher is honoured: a query that is a language's code gives that
-- language, whatever the browser accepts.
pub detect-code : (l : Lang) (accept : Option String) → detect (some (code l)) accept ≡ l
unfolding detect code parse trim to_ascii_lowercase
detect-code en accept = refl
detect-code de accept = refl
detect-code it accept = refl
detect-code es accept = refl
detect-code fr accept = refl
