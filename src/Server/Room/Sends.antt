-- ===== src/Server/Room/Sends.antt =====
-- What the loops over a room's members do to the channels.
use rdoc_sacompanion.Base.{
  ℕ, String, ◌==◌, eq_iff, ◌≡◌, ◌≢◌, refl, Bool, true, false, some, [], ◌∷◌, arith, if◌then◌else◌,
  Bool-cases, inl, inr, ◌∙◌, ap, sym,
}
use rdoc_sacompanion.Dict.{get}
use rdoc_sacompanion.Protocol.{ServerMsg}
use rdoc_sacompanion.Server.Channel.{
  Channels, send, try_send, IsBounded, send-IsBounded, send_self, send_other,
}
use rdoc_sacompanion.Server.Room.{PeerHandle, Room, send_all, send_others}

pub send_all-IsBounded :
    (msg : ServerMsg) (r : Room) (chans : Channels) (conn : ℕ)
    → IsBounded (chans conn)
    → IsBounded (send_all msg r chans conn)
unfolding send_all
send_all-IsBounded msg [] chans conn b = b
send_all-IsBounded msg ((id, h) ∷ r) chans conn b =
    send_all-IsBounded msg r (send h.tx msg chans) conn (send-IsBounded h.tx msg chans conn b)

if-IsBounded :
    (b : Bool) (c d : Channels) (conn : ℕ)
    → IsBounded (c conn)
    → IsBounded (d conn)
    → IsBounded ((if b then c else d) conn)
if-IsBounded true c d conn p q = p
if-IsBounded false c d conn p q = q

pub send_others-IsBounded :
    (me : String) (msg : ServerMsg) (r : Room) (chans : Channels) (conn : ℕ)
    → IsBounded (chans conn)
    → IsBounded (send_others me msg r chans conn)
unfolding send_others
send_others-IsBounded me msg [] chans conn b = b
send_others-IsBounded me msg ((id, h) ∷ r) chans conn b =
    send_others-IsBounded me msg r (if id == me then chans else send h.tx msg chans) conn (
      if-IsBounded (id == me) chans (send h.tx msg chans) conn b
        (send-IsBounded h.tx msg chans conn b))

-- No member of the room has the channel.
abbrev pub NoTx : ℕ → Room → Type 0
NoTx conn [] = Unit
NoTx conn ((id, h) ∷ r) = (h.tx ≢ conn) × NoTx conn r

-- The members have different channels.
abbrev pub DistinctTx : Room → Type 0
DistinctTx [] = Unit
DistinctTx ((id, h) ∷ r) = NoTx h.tx r × DistinctTx r

pub NoTx-get :
    (conn : ℕ) (r : Room) (id : String) (h : PeerHandle)
    → NoTx conn r
    → get id r ≡ some h
    → h.tx ≢ conn
unfolding get
NoTx-get conn [] id h n e = λ _. cc
NoTx-get conn ((j, h') ∷ r) id h n e = elim (Bool-cases (j == id)) [
  | inl same ↦ ground arith
  | inr other ↦ NoTx-get conn r id h n.1 (ground arith)
]

pub send_all-NoTx :
    (msg : ServerMsg) (r : Room) (chans : Channels) (conn : ℕ)
    → NoTx conn r
    → send_all msg r chans conn ≡ chans conn
unfolding send_all
send_all-NoTx msg [] chans conn n = refl
send_all-NoTx msg ((id, h) ∷ r) chans conn n =
    send_all-NoTx msg r (send h.tx msg chans) conn n.1 ∙ send_other h.tx msg chans conn n.0

if-send_other :
    (b : Bool) (to : ℕ) (msg : ServerMsg) (chans : Channels) (conn : ℕ)
    → to ≢ conn
    → (if b then chans else send to msg chans) conn ≡ chans conn
if-send_other true to msg chans conn h = refl
if-send_other false to msg chans conn h = send_other to msg chans conn h

pub send_others-NoTx :
    (me : String) (msg : ServerMsg) (r : Room) (chans : Channels) (conn : ℕ)
    → NoTx conn r
    → send_others me msg r chans conn ≡ chans conn
unfolding send_others
send_others-NoTx me msg [] chans conn n = refl
send_others-NoTx me msg ((id, h) ∷ r) chans conn n =
    send_others-NoTx me msg r (if id == me then chans else send h.tx msg chans) conn n.1
    ∙ if-send_other (id == me) h.tx msg chans conn n.0

-- A broadcast offers the message once to every member.
pub send_all_member :
    (msg : ServerMsg) (r : Room) (chans : Channels) (id : String) (h : PeerHandle)
    → DistinctTx r
    → get id r ≡ some h
    → send_all msg r chans h.tx ≡ try_send msg (chans h.tx)
unfolding send_all get
send_all_member msg [] chans id h d e = cc
send_all_member msg ((j, h') ∷ r) chans id h d e = elim (Bool-cases (j == id)) [
  | inl same ↦
      let first : h' ≡ h = ground arith in
      rw (← first)
        (send_all-NoTx msg r (send h'.tx msg chans) h'.tx d.0 ∙ send_self h'.tx msg chans)
  | inr other ↦
      let later : get id r ≡ some h = ground arith in
      send_all_member msg r (send h'.tx msg chans) id h d.1 later
      ∙ ap (try_send msg)
          (send_other h'.tx msg chans h.tx (λ e. NoTx-get h'.tx r id h d.0 later (sym e)))
]

-- The same over all members but one.
pub send_others_member :
    (me : String) (msg : ServerMsg) (r : Room) (chans : Channels) (id : String) (h : PeerHandle)
    → DistinctTx r
    → get id r ≡ some h
    → id ≢ me
    → send_others me msg r chans h.tx ≡ try_send msg (chans h.tx)
unfolding send_others get
send_others_member me msg [] chans id h d e differs = cc
send_others_member me msg ((j, h') ∷ r) chans id h d e differs = elim (Bool-cases (j == id)) [
  | inl same ↦
      let first : h' ≡ h = ground arith in
      let not_me : (j == me) ≡ false = ground (arith, eq_iff j me, eq_iff j id) in
      rw (not_me, ← first)
        (send_others-NoTx me msg r (send h'.tx msg chans) h'.tx d.0 ∙ send_self h'.tx msg chans)
  | inr other ↦
      let later : get id r ≡ some h = ground arith in
      send_others_member me msg r (if j == me then chans else send h'.tx msg chans) id h d.1 later
        differs
      ∙ ap (try_send msg) (
          if-send_other (j == me) h'.tx msg chans h.tx
            (λ e. NoTx-get h'.tx r id h d.0 later (sym e)))
]

-- The member who is left out gets nothing.
pub send_others_self :
    (me : String) (msg : ServerMsg) (r : Room) (chans : Channels) (h : PeerHandle)
    → DistinctTx r
    → get me r ≡ some h
    → send_others me msg r chans h.tx ≡ chans h.tx
unfolding send_others get
send_others_self me msg [] chans h d e = refl
send_others_self me msg ((j, h') ∷ r) chans h d e = elim (Bool-cases (j == me)) [
  | inl same ↦
      let first : h' ≡ h = ground arith in
      rw (same, ← first) (send_others-NoTx me msg r chans h'.tx d.0)
  | inr other ↦
      let later : get me r ≡ some h = ground arith in
      rw other (
        send_others_self me msg r (send h'.tx msg chans) h d.1 later
        ∙ send_other h'.tx msg chans h.tx (λ e. NoTx-get h'.tx r me h d.0 later (sym e)))
]
