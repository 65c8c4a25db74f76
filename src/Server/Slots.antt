-- ===== src/Server/Slots.antt =====
-- Which socket a thread of the server reads: its place of the array is written again once
-- MAX_CLIENTS later connections are accepted, whether the thread has read it or not.
use multi_threaded_proxy_ser.Base.{
  ℕ, zero, suc, ◌+◌, ◌≤◌, ◌<◌, ◌%◌, ◌≡◌, refl, sym, ◌∙◌, subst, inl, inr, Bool-cases, Bool, true,
  false, Option, none, some, List, [], ◌∷◌, ◌++◌, Bytes, length, length-append, arith, ◌==◌,
  if◌then◌else◌,
}
use multi_threaded_proxy_ser.Cache.Store.{Heap}
use multi_threaded_proxy_ser.Worker.Accept.{
  Accepting, Accepted, waiting, accept_loop, start_thread, max_clients,
}
use multi_threaded_proxy_ser.Server.System.{
  Starting, Server, Step, Reach, initial, later, accept, enter, request, store, finish, started,
  read_socket,
}

abbrev pub get_elem? : List ℕ → ℕ → Option ℕ
get_elem? [] n = none
get_elem? (x ∷ l) zero = some x
get_elem? (x ∷ l) (suc n) = get_elem? l n

-- Of the connections with sockets `l`, the last with the place of the `k`-th has the socket `x`.
pub record IsLast (k : ℕ) (l : List ℕ) (x : ℕ) : Type 0 where
  pub last : ℕ
  pub not_before : k ≤ last
  pub place : last % max_clients ≡ k % max_clients
  pub no_later : length l ≤ last + max_clients
  pub socket : get_elem? l last ≡ some x

-- The threads wait for sockets of the connections before the `n`-th, at their places.
abbrev pub AreStarting : ℕ → List Starting → Type 0
AreStarting n [] = Unit {0}
AreStarting n (t ∷ l) =
    (t.connection < n) × (t.place ≡ t.connection % max_clients) × AreStarting n l

pub record IsSlots (s : Server) : Type 0 where
  pub index : s.accepting.i ≡ length s.accepted % max_clients
  pub slot :
      (k : ℕ)
      → k < length s.accepted
      → IsLast k s.accepted (s.accepting.connected_socket_id (k % max_clients))
  pub threads : AreStarting (length s.accepted) s.starting

get_elem?-last : (l : List ℕ) (x : ℕ) → get_elem? (l ++ x ∷ []) (length l) ≡ some x
get_elem?-last [] x = refl
get_elem?-last (y ∷ l) x = get_elem?-last l x

get_elem?-append : (l r : List ℕ) (n x : ℕ) → get_elem? l n ≡ some x → get_elem? (l ++ r) n ≡ some x
get_elem?-append [] r n x e = cc
get_elem?-append (y ∷ l) r zero x e = e
get_elem?-append (y ∷ l) r (suc n) x e = get_elem?-append l r n x e

get_elem?-lt : (l : List ℕ) (n x : ℕ) → get_elem? l n ≡ some x → n < length l
get_elem?-lt [] n x e = absurd cc
get_elem?-lt (y ∷ l) zero x e = omega arith
get_elem?-lt (y ∷ l) (suc n) x e = omega (arith, get_elem?-lt l n x e)

AreStarting-suc : (n : ℕ) (l : List Starting) → AreStarting n l → AreStarting (suc n) l
AreStarting-suc n [] are = tt
AreStarting-suc n (t ∷ l) are = (omega (arith, are.0), are.1, AreStarting-suc n l are.2)

AreStarting-started :
    (created : Bool) (n : ℕ) (a : Accepting) (l : List Starting)
    → a.i ≡ n % max_clients
    → AreStarting n l
    → AreStarting (suc n) (started created n a l)
AreStarting-started true n a l e are = (omega arith, e, AreStarting-suc n l are)
AreStarting-started false n a l e are = AreStarting-suc n l are

AreStarting-without :
    (n : ℕ) (us : List Starting) (t : Starting) (vs : List Starting)
    → AreStarting n (us ++ t ∷ vs)
    → AreStarting n (us ++ vs)
AreStarting-without n [] t vs are = are.2
AreStarting-without n (u ∷ us) t vs are = (are.0, are.1, AreStarting-without n us t vs are.2)

AreStarting-at :
    (n : ℕ) (us : List Starting) (t : Starting) (vs : List Starting)
    → AreStarting n (us ++ t ∷ vs)
    → (t.connection < n) × (t.place ≡ t.connection % max_clients)
AreStarting-at n [] t vs are = (are.0, are.1)
AreStarting-at n (u ∷ us) t vs are = AreStarting-at n us t vs are.2

-- One more connection: either its place is that of the `k`-th, or the last one stays the last.
slot-accept :
    (l : List ℕ) (x : ℕ) (old : ℕ → ℕ) (k : ℕ)
    → ((k : ℕ) → k < length l → IsLast k l (old (k % max_clients)))
    → k < suc (length l)
    → IsLast k
        (l ++ x ∷ [])
        (if k % max_clients == length l % max_clients then x else old (k % max_clients))
slot-accept l x old k slot below = elim (Bool-cases (k % max_clients == length l % max_clients)) [
  | inl e ↦ rw e (record {
    last = length l;
    not_before = omega (arith, below);
    place = ground (arith, e);
    no_later = omega (arith, length-append l (x ∷ []));
    socket = get_elem?-last l x;
  })
  | inr e ↦
      let earlier : k < length l = ground (arith, e, below) in
      let o = slot k earlier in
      rw e (record {
        last = o.last;
        not_before = o.not_before;
        place = o.place;
        no_later = ground (arith, e, o.no_later, o.place, length-append l (x ∷ []));
        socket = get_elem?-append l (x ∷ []) o.last _ o.socket;
      })
]

accepting_of : {a b : Accepting} → Accepted.waiting a ≡ waiting b → a ≡ b
accepting_of e = cc

-- What one turn of the loop makes of the array, when its index is within it.
pub accept_loop-one :
    (socket : ℕ) (a : Accepting)
    → a.i < max_clients
    → accept_loop (some socket ∷ []) a ≡ waiting (start_thread a socket ((a.i + 1) % max_clients))
unfolding accept_loop
accept_loop-one socket a inside = ground (arith, inside)

accept-IsSlots :
    (s : Server) (socket : ℕ) (created : Bool) (a : Accepting)
    → accept_loop (some socket ∷ []) s.accepting ≡ waiting a
    → IsSlots s
    → IsSlots (record s {
      accepting = a;
      accepted = s.accepted ++ socket ∷ [];
      starting = started created (length s.accepted) s.accepting s.starting;
    })
accept-IsSlots s socket created a run w =
    let inside : s.accepting.i < max_clients = omega (arith, w.index) in
    let turned = accepting_of (sym (accept_loop-one socket s.accepting inside) ∙ run) in
    let longer = length-append s.accepted (socket ∷ []) in
    let one_more : suc (length s.accepted) ≡ length (s.accepted ++ socket ∷ []) =
      omega (arith, longer) in
    subst
      (λ b. IsSlots (record s {
        accepting = b;
        accepted = s.accepted ++ socket ∷ [];
        starting = started created (length s.accepted) s.accepting s.starting;
      }))
      turned
      (record {
        index = omega (arith, longer, w.index);
        slot = λ k below. rw w.index (
            slot-accept s.accepted socket s.accepting.connected_socket_id k w.slot
              (omega (arith, below, longer)));
        threads =
            subst (λ n. AreStarting n (started created (length s.accepted) s.accepting s.starting))
              one_more
              (AreStarting-started created (length s.accepted) s.accepting s.starting w.index
                w.threads);
      })

Step-IsSlots : {Key : Bytes → Type 0} {s t : Server} → Step Key s t → IsSlots s → IsSlots t
Step-IsSlots {s} (accept socket created {a} run) w = accept-IsSlots s socket created a run w
Step-IsSlots {s} (enter us t vs at some_left) w = record {
  index = w.index;
  slot = w.slot;
  threads =
      AreStarting-without (length s.accepted) us t vs
        (subst (AreStarting (length s.accepted)) at w.threads);
}
Step-IsSlots (request step e) w = record { index = w.index; slot = w.slot; threads = w.threads }
Step-IsSlots (store someone step) w = record { index = w.index; slot = w.slot; threads = w.threads }
Step-IsSlots (finish n a sent closed posts e run) w = record {
  index = w.index;
  slot = w.slot;
  threads = w.threads;
}

pub Reach-IsSlots : {Key : Bytes → Type 0} {h : Heap} {s : Server} → Reach Key h s → IsSlots s
Reach-IsSlots initial = record {
  index = refl;
  slot = λ k below. absurd (omega (arith, below));
  threads = tt;
}
Reach-IsSlots (later r step) = Step-IsSlots step (Reach-IsSlots r)

-- In every reachable state of the server, the socket that a thread reads if it gets the semaphore
-- now is that of the last connection with its place: of its own, or of one accepted later, whose
-- number is the same modulo MAX_CLIENTS.
pub read_socket-IsLast :
    {Key : Bytes → Type 0} {h : Heap} {s : Server} (us : List Starting) (t : Starting)
    (vs : List Starting)
    → Reach Key h s
    → s.starting ≡ us ++ t ∷ vs
    → IsLast t.connection s.accepted (read_socket s t)
read_socket-IsLast {s} us t vs r at =
    let w = Reach-IsSlots r in
    let (below, place) =
      AreStarting-at (length s.accepted) us t vs
        (subst (AreStarting (length s.accepted)) at w.threads) in
    rw place (w.slot t.connection below)

-- In every reachable state of the server, a thread that gets the semaphore while at most MAX_CLIENTS
-- connections were accepted from its own on reads its own socket.
pub own_socket :
    {Key : Bytes → Type 0} {h : Heap} {s : Server} (us : List Starting) (t : Starting)
    (vs : List Starting)
    → Reach Key h s
    → s.starting ≡ us ++ t ∷ vs
    → length s.accepted ≤ t.connection + max_clients
    → get_elem? s.accepted t.connection ≡ some (read_socket s t)
own_socket {s} us t vs r at few =
    let o = read_socket-IsLast us t vs r at in
    let inside = get_elem?-lt s.accepted o.last (read_socket s t) o.socket in
    let same : o.last ≡ t.connection = omega (arith, o.not_before, o.place, inside, few) in
    subst (λ n. get_elem? s.accepted n ≡ some (read_socket s t)) same o.socket
