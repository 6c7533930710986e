-- ===== src/Server/Page.antt =====
-- The pages that the server sends: `esc`, `footer`, `shell` and the handler `landing` of
-- server/init/src/main.rs, `nav`, `switcher` and `landing` of server/init/src/i18n.rs. The base URL is
-- an argument.
pub mod Texts
pub mod Markup
use Prim.Native.Char.{code}
use Prim.Native.String.{◌++◌}
use rdoc_sacompanion.Base.{ℕ, String, ◌==◌, Bool, Option, List, [], ◌∷◌, nat_eq, if◌then◌else◌}
use rdoc_sacompanion.Text.{take_chars}
use rdoc_sacompanion.Server.Lang
use rdoc_sacompanion.Server.Lang.{Lang, lang_of}
use rdoc_sacompanion.Server.Page.Texts.{
  html_csp, page_css, logo, github_url, raumdock_url, Nav, nav, Words, landing_words,
}

-- `s.replace(c, t)`
unfoldable pub replace : (c : ℕ) (t : String) → String → String
replace p t String.[] = String.[]
replace p t (String.◌∷◌ c s) =
    let rest = replace p t s in if nat_eq (code c) p then t ++ rest else String.◌∷◌ c rest

unfoldable pub esc : String → String
esc s =
    replace b'\'' "&#x27;"
      (replace b'"' "&quot;" (replace b'>' "&gt;" (replace b'<' "&lt;" (replace b'&' "&amp;" s))))

abbrev pub all_langs : List Lang
all_langs = Lang.en ∷ Lang.de ∷ Lang.it ∷ Lang.es ∷ Lang.fr ∷ []

-- `l.code().to_uppercase()`
abbrev label : Lang → String
label Lang.en = "EN"
label Lang.de = "DE"
label Lang.it = "IT"
label Lang.es = "ES"
label Lang.fr = "FR"

abbrev is_same : Lang → Lang → Bool
is_same a b = Lang.code a == Lang.code b

unfoldable pub switcher_links : (path : String) (cur : Lang) → List Lang → String
switcher_links path cur [] = ""
switcher_links path cur (l ∷ ls) =
    let on = if is_same l cur then " class=\"on\"" else "" in
    ("<a href=\"" ++ path ++ "?lang=" ++ Lang.code l ++ "\"" ++ on ++ ">" ++ label l ++ "</a>")
    ++ switcher_links path cur ls

unfoldable pub switcher : (path : String) (cur : Lang) → String
switcher path cur = "<nav class=\"lang\">" ++ switcher_links path cur all_langs ++ "</nav>"

unfoldable pub footer : (base : String) → Lang → String
footer base l =
    let n = nav l in
    let lc = Lang.code l in
    "<a href=\"" ++ base ++ "/download/\">" ++ n.download ++ "</a><a href=\"/privacy?lang=" ++ lc
    ++ "\">" ++ n.privacy ++ "</a><a href=\"/legal?lang=" ++ lc ++ "\">" ++ n.legal
    ++ "</a><a href=\"/license?lang=" ++ lc ++ "\">" ++ n.license ++ "</a><a href=\"" ++ github_url
    ++ "\">GitHub</a><a href=\"" ++ raumdock_url ++ "\">raumdock.org</a>"

unfoldable pub shell : (base : String) → Lang → (path title body : String) → String
shell base l path title body =
    let lc = Lang.code l in
    "<!doctype html><html lang=\""
    ++ lc
    ++ "\"><head><meta charset=\"utf-8\">"
    ++ html_csp
    ++ "<meta name=\"viewport\" content=\"width=device-width, initial-scale=1\"><title>"
    ++ title
    ++ " — RDOC SquadLink Lite</title><link rel=\"icon\" href=\""
    ++ base
    ++ "/download/sl-logo.png\">"
    ++ page_css
    ++ "</head><body><header class=\"top\"><img src=\""
    ++ base
    ++ "/download/sl-logo.png\" alt=\"SquadLink Lite\" onerror=\"this.onerror=null;this.src='"
    ++ logo
    ++ "'\"><a href=\"/?lang="
    ++ lc
    ++ "\">RDOC SquadLink Lite</a>"
    ++ switcher path l
    ++ "</header><main>"
    ++ body
    ++ "</main><footer>"
    ++ footer base l
    ++ "</footer></body></html>"

-- `i18n::landing`
unfoldable pub landing_body : Lang → (base shown : String) → String
landing_body l base shown =
    let w = landing_words l in
    "<h1>RDOC SquadLink Lite</h1>\n<p>" ++ w.intro ++ "</p>\n<p class=\"muted\">" ++ w.codelbl
    ++ "</p>\n<p class=\"code\">" ++ shown ++ "</p>\n<ol>\n<li><a href=\"" ++ base
    ++ "/download/\">" ++ w.step1 ++ "</a></li>\n<li>" ++ w.step2
    ++ "</li>\n</ol>\n<p><a class=\"dl\" href=\"" ++ base ++ "/download/\">" ++ w.btn
    ++ "</a></p>\n<p class=\"muted\">" ++ w.foot ++ "</p>"

-- What the handler does with the code once it is escaped.
unfoldable pub landing_page : (base : String) → Lang → (shown : String) → String
landing_page base l shown =
    shell base l ("/j/" ++ shown) "RDOC SquadLink Lite" (landing_body l base shown)

-- The handler, on the path's code, the query and the header `accept-language`.
unfoldable pub landing : (base session_code : String) → (query accept : Option String) → String
landing base session_code query accept =
    landing_page base (lang_of query accept) (esc (take_chars 32 session_code))
