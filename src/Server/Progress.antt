-- ===== src/Server/Progress.antt =====
-- No deadlock: whatever has happened, all the threads there are can still come to their end.
use multi_threaded_proxy_ser.Base.{
  ℕ, zero, suc, ◌+◌, ◌*◌, ◌≤◌, ◌<◌, ◌≡◌, refl, ap, ◌∙◌, inl, inr, ◌⊎◌, Bool-cases, true, false,
  none, some, List, [], ◌∷◌, Bytes, length, arith, count, List-cases,
}
use multi_threaded_proxy_ser.Pending.Table.{Ptr, PendingEntry, Pending, is_completed}
use multi_threaded_proxy_ser.Pending.System.{complete, wake, leave}
use multi_threaded_proxy_ser.Pending.Safety.{
  pending_complete-returns, drop_ref-returns, Reach-Counted,
}
use multi_threaded_proxy_ser.Pending.Refs.{used_live}
use multi_threaded_proxy_ser.Pending.Keys.{IsShort, fetchers}
use multi_threaded_proxy_ser.Pending.SingleFlight.{awaited_fetch}
use multi_threaded_proxy_ser.Cache.Store.{Heap}
use multi_threaded_proxy_ser.Request.Token.{c_str}
use multi_threaded_proxy_ser.Worker.Receive.{receive}
use multi_threaded_proxy_ser.Worker.Thread.{Answers, ended, serve, thread_fn}
use multi_threaded_proxy_ser.Worker.Accept.{max_clients}
use multi_threaded_proxy_ser.Server.System.{
  Starting, Server, Step, Reach, later, enter, request, finish,
}
use multi_threaded_proxy_ser.Server.Bounds.{at_work, Reach-at_work, Reach-pending}

zero_or_suc : (n : ℕ) → (n ≡ 0) ⊎ ((m : ℕ) × (n ≡ suc m))
zero_or_suc zero = inl refl
zero_or_suc (suc m) = inr (m, refl)

-- Steps one after the other.
pub data Steps (Key : Bytes → Type 0) (s : Server) : Server → Type 0 where
  done : Steps Key s s
  next : {t u : Server} → Steps Key s t → Step Key t u → Steps Key s u

-- How many of its steps each thread has left at most, if it asks for nothing more.
abbrev remaining : Server → ℕ
remaining s =
    2 * length s.starting
    + s.idle
    + 2 * length s.pending.fetching
    + 2 * length s.pending.leaving
    + 3 * length s.pending.waiting

-- A thread whose client has left comes to its end.
abbrev gone : Answers
gone = record {
  buffer_given = true;
  received = [];
  key_given = true;
  lookup = λ t. none;
  fetches = false;
  handled = false;
  delivered = [];
  date = [];
  alloc = λ n. true;
  bad_port = λ s. false;
}

gone-ended : thread_fn gone 2 ≡ ended [] 1 1
unfolding thread_fn serve receive c_str
gone-ended = refl

-- A step that brings a thread closer to its end.
abbrev Closer : Server → Type 0
Closer s = (t : Server) × Step IsShort s t × (remaining t < remaining s) × (t.accepted ≡ s.accepted)

is_completed-entry :
    (p : Ptr) (m : Pending) (e : PendingEntry)
    → m.heap p ≡ some e
    → e.completed ≡ true
    → is_completed p m ≡ some true
unfolding is_completed
is_completed-entry p m e h c = ground (arith, h, c)

module _ {h : Heap} {s : Server} (r : Reach IsShort h s) where
  finish-Closer : (n : ℕ) → s.idle ≡ suc n → Closer s
  finish-Closer n e = (_, finish n gone [] 1 1 e gone-ended, omega (arith, e), refl)

  complete-Closer : (u : Bytes) (us : List Bytes) → s.pending.fetching ≡ u ∷ us → Closer s
  complete-Closer u us e =
      let (m, run) = pending_complete-returns u (Reach-pending r) in
      (_, request (complete [] u us e run) refl, omega (arith, ap length e), refl)

  leave-Closer : (p : Ptr) (ps : List Ptr) → s.pending.leaving ≡ p ∷ ps → Closer s
  leave-Closer p ps e =
      let some_left : 0 < count p s.pending.leaving = ground (arith, ap (count p) e) in
      let (m, run) = drop_ref-returns p (Reach-pending r) some_left in
      (_, request (leave [] p ps e run) refl, omega (arith, ap length e), refl)

  -- If nobody fetches, whoever waits can go on.
  wake-Closer :
      (p : Ptr) (ps : List Ptr) → s.pending.fetching ≡ [] → s.pending.waiting ≡ p ∷ ps → Closer s
  wake-Closer p ps nobody e =
      let some_left : 0 < count p s.pending.waiting = ground (arith, ap (count p) e) in
      let (entry, holds) =
        used_live p (Reach-Counted (Reach-pending r)) (omega (arith, some_left)) in
      elim (Bool-cases entry.completed) [
        | inl completed ↦ (
          _,
          request (wake [] p ps e (is_completed-entry p s.pending.mem entry holds completed)) refl,
          omega (arith, ap length e),
          refl,
        )
        | inr open_entry ↦
            let fetched = awaited_fetch p entry (Reach-pending r) holds open_entry in
            absurd (omega (arith, fetched, ap (fetchers entry.url) nobody))
      ]

  -- If nobody is at work, the semaphore is free.
  enter-Closer :
      (t : Starting) (ts : List Starting) → at_work s ≡ 0 → s.starting ≡ t ∷ ts → Closer s
  enter-Closer t ts nobody e =
      let free : 0 < s.seamaphore = omega (arith, Reach-at_work r, nobody) in
      (_, enter [] t ts e free, omega (arith, ap length e), refl)

  free-Closer : at_work s ≡ 0 → 0 < remaining s → Closer s
  free-Closer nobody some_left = elim (List-cases s.starting) [
    | inl e ↦ absurd (omega (arith, nobody, some_left, ap length e))
    | inr (t, ts, e) ↦ enter-Closer t ts nobody e
  ]

  outside-Closer :
      s.idle ≡ 0 → s.pending.leaving ≡ [] → s.pending.fetching ≡ [] → 0 < remaining s → Closer s
  outside-Closer no_idle no_leaver nobody some_left = elim (List-cases s.pending.waiting) [
    | inl e ↦
        free-Closer (omega (arith, no_idle, ap length no_leaver, ap length nobody, ap length e))
          some_left
    | inr (p, ps, e) ↦ wake-Closer p ps nobody e
  ]

  settled-Closer : s.idle ≡ 0 → s.pending.leaving ≡ [] → 0 < remaining s → Closer s
  settled-Closer no_idle no_leaver some_left = elim (List-cases s.pending.fetching) [
    | inl e ↦ outside-Closer no_idle no_leaver e some_left
    | inr (u, us, e) ↦ complete-Closer u us e
  ]

  busy-Closer : s.idle ≡ 0 → 0 < remaining s → Closer s
  busy-Closer no_idle some_left = elim (List-cases s.pending.leaving) [
    | inl e ↦ settled-Closer no_idle e some_left
    | inr (p, ps, e) ↦ leave-Closer p ps e
  ]

  -- Some thread can always make a step towards its end.
  closer : 0 < remaining s → Closer s
  closer some_left = elim (zero_or_suc s.idle) [
    | inl e ↦ busy-Closer e some_left
    | inr (n, e) ↦ finish-Closer n e
  ]

-- No thread is there, and the semaphore is back at MAX_CLIENTS.
pub record IsDrained (s : Server) : Type 0 where
  pub nobody_starts : length s.starting ≡ 0
  pub nobody_works : at_work s ≡ 0
  pub released : s.seamaphore ≡ max_clients

-- A state that steps other than `accept` have led to.
abbrev Drains : Server → Type 0
Drains s = (t : Server) × Steps IsShort s t × IsDrained t × (t.accepted ≡ s.accepted)

drain-from :
    {h : Heap} (fuel : ℕ) (s t : Server)
    → Reach IsShort h t
    → Steps IsShort s t
    → t.accepted ≡ s.accepted
    → remaining t ≤ fuel
    → Drains s
drain-from zero s t r steps same enough = (
  t,
  steps,
  record {
    nobody_starts = omega (arith, enough);
    nobody_works = omega (arith, enough);
    released = omega (arith, enough, Reach-at_work r);
  },
  same,
)
drain-from (suc fuel) s t r steps same enough = elim (zero_or_suc (remaining t)) [
  | inl e ↦ (
    t,
    steps,
    record {
      nobody_starts = omega (arith, e);
      nobody_works = omega (arith, e);
      released = omega (arith, e, Reach-at_work r);
    },
    same,
  )
  | inr (n, e) ↦
      let (u, step, less, kept) = closer r (omega (arith, e)) in
      drain-from fuel s u (later r step) (next steps step) (kept ∙ same)
        (omega (arith, less, enough))
]

-- If every key that is asked for fits its field, then from every reachable state of the server
-- there are steps that accept no further connection and lead to a state without threads, in which
-- the semaphore is at MAX_CLIENTS again, so that no reachable state is a deadlock.
pub Reach-drains :
    {h : Heap} {s : Server}
    → Reach IsShort h s
    → (t : Server) × Steps IsShort s t × IsDrained t × (t.accepted ≡ s.accepted)
Reach-drains {s} r = drain-from (remaining s) s s r done refl (omega arith)
