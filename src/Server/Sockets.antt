-- ===== src/Server/Sockets.antt =====
-- Setting up the two sockets: what is open afterwards.
use distributed_disk.Common.{
  ℕ, ◌≡◌, ◌≢◌, refl, ap, ◌∙◌, Bool, true, false, Option, none, some, List, ◌∷◌, All, close,
  close-cons,
}
use distributed_disk.Server.{Answers, set_up_sockets}

-- The kernel gives a descriptor that is not open.
abbrev pub IsFresh : List ℕ → Option ℕ → Type 0
IsFresh opened none = Unit {0}
IsFresh opened (some fd) = All (λ f. f ≢ fd) opened

-- What CreateAndSetUpSocket leaves open.
abbrev pub Opens : Answers → List ℕ → Type 0
Opens a opened =
    ((tcp udp : ℕ)
      → (set_up_sockets a opened).0 ≡ some (tcp, udp)
      → (a.tcp_socket ≡ some tcp)
        × (a.udp_socket ≡ some udp)
        × ((set_up_sockets a opened).1 ≡ udp ∷ tcp ∷ opened))
    × ((set_up_sockets a opened).0 ≡ none → (set_up_sockets a opened).1 ≡ opened)

abbrev answers : Option ℕ → Bool → Bool → Option ℕ → Bool → Answers
answers tcp bound listens udp udp_bound = record {
  tcp_socket = tcp;
  tcp_bind = bound;
  tcp_listen = listens;
  udp_socket = udp;
  udp_bind = udp_bound;
}

-- Where both sockets are set up they are what the kernel gave, and are open.
both_by :
    (tcp : Option ℕ) (bound listens : Bool) (udp : Option ℕ) (udp_bound : Bool) (opened : List ℕ)
    (t u : ℕ)
    → let a = answers tcp bound listens udp udp_bound in
      (set_up_sockets a opened).0 ≡ some (t, u)
      → (tcp ≡ some t) × (udp ≡ some u) × ((set_up_sockets a opened).1 ≡ u ∷ t ∷ opened)
unfolding set_up_sockets
both_by none bound listens udp udp_bound opened t u e = cc
both_by (some t') false listens udp udp_bound opened t u e = cc
both_by (some t') true false udp udp_bound opened t u e = cc
both_by (some t') true true none udp_bound opened t u e = cc
both_by (some t') true true (some u') false opened t u e = cc
both_by (some t') true true (some u') true opened t u e = (cc, cc, cc)

pub set_up_sockets_both :
    (a : Answers) (opened : List ℕ) (t u : ℕ)
    → (set_up_sockets a opened).0 ≡ some (t, u)
    → (a.tcp_socket ≡ some t)
      × (a.udp_socket ≡ some u)
      × ((set_up_sockets a opened).1 ≡ u ∷ t ∷ opened)
set_up_sockets_both a opened t u e =
    both_by a.tcp_socket a.tcp_bind a.tcp_listen a.udp_socket a.udp_bind opened t u e

none_by :
    (tcp : Option ℕ) (bound listens : Bool) (udp : Option ℕ) (udp_bound : Bool) (opened : List ℕ)
    → IsFresh opened tcp
    → ((fd : ℕ) → tcp ≡ some fd → IsFresh (fd ∷ opened) udp)
    → let a = answers tcp bound listens udp udp_bound in
      (set_up_sockets a opened).0 ≡ none → (set_up_sockets a opened).1 ≡ opened
unfolding set_up_sockets
none_by none bound listens udp udp_bound opened fresh second e = refl
none_by (some t) false listens udp udp_bound opened fresh second e = close-cons t opened fresh
none_by (some t) true false udp udp_bound opened fresh second e = close-cons t opened fresh
none_by (some t) true true none udp_bound opened fresh second e = close-cons t opened fresh
none_by (some t) true true (some u) false opened fresh second e =
    ap (close t) (close-cons u (t ∷ opened) (second t refl)) ∙ close-cons t opened fresh
none_by (some t) true true (some u) true opened fresh second e = cc

-- Either both sockets are set up and open, or what was open before is what is open: a socket that
-- could not be bound or listened on is closed, and so is the first one where the second one fails.
-- (The kernel gives descriptors that are not open.)
pub set_up_sockets-Opens :
    (a : Answers) (opened : List ℕ)
    → IsFresh opened a.tcp_socket
    → ((tcp : ℕ) → a.tcp_socket ≡ some tcp → IsFresh (tcp ∷ opened) a.udp_socket)
    → Opens a opened
set_up_sockets-Opens a opened fresh second = (
  set_up_sockets_both a opened,
  none_by a.tcp_socket a.tcp_bind a.tcp_listen a.udp_socket a.udp_bind opened fresh second,
)
