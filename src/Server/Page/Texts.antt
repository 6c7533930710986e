-- ===== src/Server/Page/Texts.antt =====
-- The constant texts of the server's pages, of server/init/src/main.rs and server/init/src/i18n.rs.
use rdoc_sacompanion.Base.{String}
use rdoc_sacompanion.Server.Lang.{Lang}

abbrev pub github_url : String
github_url = "https://github.com/cccdemon/RDOC-SquadLinkLite"

abbrev pub raumdock_url : String
raumdock_url = "https://raumdock.org"

unfoldable pub html_csp : String
html_csp =
    "<meta http-equiv=\"Content-Security-Policy\" content=\"default-src 'none'; img-src 'self' data:; style-src 'unsafe-inline'; base-uri 'none'; form-action 'none'\">"

unfoldable pub page_css : String
page_css =
    "<style>\n:root{color-scheme:dark}\nbody{font-family:system-ui,-apple-system,Segoe UI,sans-serif;background:#0f1115;color:#dfe3e8;margin:0;line-height:1.6}\nmain{max-width:40rem;margin:0 auto;padding:1.4rem 1.2rem 3rem}\n.top{display:flex;align-items:center;gap:.55rem;padding:.9rem 1.2rem;border-bottom:1px solid #242833}\n.top img{width:26px;height:26px;display:block}\n.top a{color:#dfe3e8;text-decoration:none;font-weight:600}\nh1{font-size:1.45rem;font-weight:600;margin:.3rem 0 .7rem}\nh2{font-size:1.05rem;font-weight:600;margin:1.5rem 0 .3rem}\np{margin:.6rem 0}\na{color:#7fb0ff}\n.muted{color:#9aa3ad;font-size:.9rem}\nul{padding-left:1.25rem;margin:.5rem 0}\n.links a{display:block;margin:.25rem 0}\n.dl{display:inline-block;margin:.5rem 0;padding:.5rem .9rem;border:1px solid #3a414e;border-radius:5px;text-decoration:none;color:#dfe3e8}\n.code{font-size:1.5rem;font-weight:700;letter-spacing:.1em;background:#0b1626;border:1px solid #1e293b;border-radius:8px;padding:.5rem 1rem;display:inline-block}\n.lang{margin-left:auto;display:flex;gap:.45rem}\n.lang a{color:#9aa3ad;font-size:.78rem;text-decoration:none}\n.lang a.on{color:#7fb0ff;font-weight:700}\nfooter{max-width:40rem;margin:0 auto;padding:1rem 1.2rem;border-top:1px solid #242833;color:#9aa3ad;font-size:.82rem}\nfooter a{color:#9aa3ad;margin-right:1rem;display:inline-block}\ncode{background:#1a1d23;padding:.1rem .3rem;border-radius:3px}\n</style>"

unfoldable pub logo : String
logo =
    "data:image/svg+xml,%3Csvg xmlns='http://www.w3.org/2000/svg' viewBox='0 0 100 100'%3E%3Ccircle cx='50' cy='50' r='48' fill='%230a0a0a'/%3E%3Cpath d='M22 62 q28 14 56 0 l-6-22 q-24-10-44 0 z' fill='%23444'/%3E%3Cellipse cx='50' cy='46' rx='26' ry='18' fill='%23f6c200'/%3E%3Cellipse cx='62' cy='40' rx='8' ry='5' fill='%23ffffff' opacity='.5'/%3E%3C/svg%3E"

-- The labels of the footer.
pub record Nav : Type 0 where
  pub download : String
  pub privacy : String
  pub legal : String
  pub license : String

unfoldable pub nav : Lang → Nav
nav Lang.en = record {
  download = "Download";
  privacy = "Privacy";
  legal = "Legal notice";
  license = "License";
}
nav Lang.de = record {
  download = "Download";
  privacy = "Datenschutz";
  legal = "Impressum";
  license = "Lizenz";
}
nav Lang.it = record {
  download = "Download";
  privacy = "Privacy";
  legal = "Note legali";
  license = "Licenza";
}
nav Lang.es = record {
  download = "Descargar";
  privacy = "Privacidad";
  legal = "Aviso legal";
  license = "Licencia";
}
nav Lang.fr = record {
  download = "Télécharger";
  privacy = "Confidentialité";
  legal = "Mentions légales";
  license = "Licence";
}

-- The texts of the landing page.
pub record Words : Type 0 where
  pub intro : String
  pub codelbl : String
  pub step1 : String
  pub step2 : String
  pub btn : String
  pub foot : String

unfoldable pub landing_words : Lang → Words
landing_words Lang.en = record {
  intro = "You have been invited to a voice session.";
  codelbl = "Session code:";
  step1 = "App not installed? Download here";
  step2 = "Open the app → Join → enter the code + the 6-digit PIN (from the host).";
  btn = "Download SquadLink Lite";
  foot = "Audio runs directly peer-to-peer (encrypted). The server only brokers.";
}
landing_words Lang.de = record {
  intro = "Du wurdest zu einer Voice-Session eingeladen.";
  codelbl = "Session-Code:";
  step1 = "App noch nicht installiert? Hier herunterladen";
  step2 = "App öffnen → Beitreten → Code + die 6-stellige PIN (vom Host) eingeben.";
  btn = "SquadLink Lite herunterladen";
  foot = "Audio läuft direkt Peer-zu-Peer (verschlüsselt). Der Server vermittelt nur.";
}
landing_words Lang.it = record {
  intro = "Sei stato invitato a una sessione vocale.";
  codelbl = "Codice sessione:";
  step1 = "App non installata? Scaricala qui";
  step2 = "Apri l'app → Partecipa → inserisci il codice + il PIN di 6 cifre (dall'host).";
  btn = "Scarica SquadLink Lite";
  foot = "L'audio è diretto peer-to-peer (cifrato). Il server fa solo da tramite.";
}
landing_words Lang.es = record {
  intro = "Te han invitado a una sesión de voz.";
  codelbl = "Código de sesión:";
  step1 = "¿App no instalada? Descárgala aquí";
  step2 = "Abre la app → Unirse → introduce el código + el PIN de 6 dígitos (del anfitrión).";
  btn = "Descargar SquadLink Lite";
  foot = "El audio es directo peer-to-peer (cifrado). El servidor solo intermedia.";
}
landing_words Lang.fr = record {
  intro = "Vous avez été invité à une session vocale.";
  codelbl = "Code de session :";
  step1 = "App non installée ? Téléchargez-la ici";
  step2 = "Ouvrez l'app → Rejoindre → saisissez le code + le PIN à 6 chiffres (de l'hôte).";
  btn = "Télécharger SquadLink Lite";
  foot = "L'audio est direct pair-à-pair (chiffré). Le serveur ne fait que l'intermédiaire.";
}
