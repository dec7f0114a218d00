-- ===== src/Session/Logs.antt =====
-- What a log of I/O events sends and frees.
use actor_model_server.Base.{suc, ◌+◌, Bool, true, false, arith}
use actor_model_server.Base.{ℕ, ◌≡◌, refl, sym, ap, ◌∙◌, List, [], ◌∷◌, ◌++◌, map, append_assoc}
use actor_model_server.Session.{
  IoEvent, freed, wsa_send, wsa_recv, shutdown_socket, close_socket, actor_destroyed,
  session_released,
}

-- The buffers of all `WSASend` calls of a log, in order.
abbrev pub sent_of : List IoEvent → List ℕ
sent_of [] = []
sent_of (wsa_send bs ∷ es) = bs ++ sent_of es
sent_of (wsa_recv _ _ ∷ es) = sent_of es
sent_of (freed _ ∷ es) = sent_of es
sent_of (shutdown_socket ∷ es) = sent_of es
sent_of (close_socket ∷ es) = sent_of es
sent_of (actor_destroyed ∷ es) = sent_of es
sent_of (session_released ∷ es) = sent_of es

-- The buffers that a log frees, in order.
abbrev pub freed_of : List IoEvent → List ℕ
freed_of [] = []
freed_of (freed b ∷ es) = b ∷ freed_of es
freed_of (wsa_send _ ∷ es) = freed_of es
freed_of (wsa_recv _ _ ∷ es) = freed_of es
freed_of (shutdown_socket ∷ es) = freed_of es
freed_of (close_socket ∷ es) = freed_of es
freed_of (actor_destroyed ∷ es) = freed_of es
freed_of (session_released ∷ es) = freed_of es

pub sent_of-append : (xs ys : List IoEvent) → sent_of (xs ++ ys) ≡ sent_of xs ++ sent_of ys
sent_of-append [] ys = refl
sent_of-append (wsa_send bs ∷ es) ys =
    ap (◌++◌ bs) (sent_of-append es ys) ∙ sym (append_assoc bs _ _)
sent_of-append (wsa_recv _ _ ∷ es) ys = sent_of-append es ys
sent_of-append (freed _ ∷ es) ys = sent_of-append es ys
sent_of-append (shutdown_socket ∷ es) ys = sent_of-append es ys
sent_of-append (close_socket ∷ es) ys = sent_of-append es ys
sent_of-append (actor_destroyed ∷ es) ys = sent_of-append es ys
sent_of-append (session_released ∷ es) ys = sent_of-append es ys

pub freed_of-append : (xs ys : List IoEvent) → freed_of (xs ++ ys) ≡ freed_of xs ++ freed_of ys
freed_of-append [] ys = refl
freed_of-append (freed b ∷ es) ys = ap (◌∷◌ b) (freed_of-append es ys)
freed_of-append (wsa_send _ ∷ es) ys = freed_of-append es ys
freed_of-append (wsa_recv _ _ ∷ es) ys = freed_of-append es ys
freed_of-append (shutdown_socket ∷ es) ys = freed_of-append es ys
freed_of-append (close_socket ∷ es) ys = freed_of-append es ys
freed_of-append (actor_destroyed ∷ es) ys = freed_of-append es ys
freed_of-append (session_released ∷ es) ys = freed_of-append es ys

pub freed_of-frees : (bs : List ℕ) → freed_of (map freed bs) ≡ bs
freed_of-frees [] = refl
freed_of-frees (b ∷ bs) = ap (◌∷◌ b) (freed_of-frees bs)

pub sent_of-frees : (bs : List ℕ) → sent_of (map freed bs) ≡ []
sent_of-frees [] = refl
sent_of-frees (b ∷ bs) = sent_of-frees bs

-- The `WSASend` calls of a log that have started an I/O.
abbrev pub sends_in : List IoEvent → ℕ
sends_in [] = 0
sends_in (wsa_send bs ∷ es) = suc (sends_in es)
sends_in (wsa_recv _ _ ∷ es) = sends_in es
sends_in (freed _ ∷ es) = sends_in es
sends_in (shutdown_socket ∷ es) = sends_in es
sends_in (close_socket ∷ es) = sends_in es
sends_in (actor_destroyed ∷ es) = sends_in es
sends_in (session_released ∷ es) = sends_in es

abbrev pub started : Bool → List IoEvent → ℕ
started true events = sends_in events
started false events = 0

abbrev pub releases : List IoEvent → Bool
releases [] = false
releases (session_released ∷ es) = true
releases (wsa_send _ ∷ es) = releases es
releases (wsa_recv _ _ ∷ es) = releases es
releases (freed _ ∷ es) = releases es
releases (shutdown_socket ∷ es) = releases es
releases (close_socket ∷ es) = releases es
releases (actor_destroyed ∷ es) = releases es

pub releases-append :
    (xs ys : List IoEvent) → releases xs ≡ false → releases (xs ++ ys) ≡ releases ys
releases-append [] ys h = refl
releases-append (session_released ∷ es) ys h = cc
releases-append (wsa_send bs ∷ es) ys h = releases-append es ys h
releases-append (wsa_recv _ _ ∷ es) ys h = releases-append es ys h
releases-append (freed _ ∷ es) ys h = releases-append es ys h
releases-append (shutdown_socket ∷ es) ys h = releases-append es ys h
releases-append (close_socket ∷ es) ys h = releases-append es ys h
releases-append (actor_destroyed ∷ es) ys h = releases-append es ys h

sends_in-append : (xs ys : List IoEvent) → sends_in (xs ++ ys) ≡ sends_in xs + sends_in ys
sends_in-append [] ys = omega arith
sends_in-append (wsa_send bs ∷ es) ys = omega (arith, sends_in-append es ys)
sends_in-append (wsa_recv _ _ ∷ es) ys = sends_in-append es ys
sends_in-append (freed _ ∷ es) ys = sends_in-append es ys
sends_in-append (shutdown_socket ∷ es) ys = sends_in-append es ys
sends_in-append (close_socket ∷ es) ys = sends_in-append es ys
sends_in-append (actor_destroyed ∷ es) ys = sends_in-append es ys
sends_in-append (session_released ∷ es) ys = sends_in-append es ys

sends_in-frees : (bs : List ℕ) → sends_in (map freed bs) ≡ 0
sends_in-frees [] = refl
sends_in-frees (b ∷ bs) = sends_in-frees bs

pub sends_in-quiet :
    (posted : Bool) (bs : List ℕ) (events more : List IoEvent)
    → sends_in events ≡ 0
    → started posted ((map freed bs ++ events) ++ more) ≡ started posted more
sends_in-quiet false bs events more q = refl
sends_in-quiet true bs events more q = omega (
  arith,
  sends_in-append (map freed bs ++ events) more,
  sends_in-append (map freed bs) events,
  sends_in-frees bs,
)
