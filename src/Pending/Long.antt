-- ===== src/Pending/Long.antt =====
-- Keys that do not fit their field. An entry has room for 511 bytes of the key, and the walks compare
-- the field with the whole key.
use native.Mathlib.Decide.{ℕ_discrete}
use multi_threaded_proxy_ser.Base.{
  count, count-middle, ℕ, ◌≤◌, ◌<◌, ◌≡◌, ap, ◌≢◌, inl, inr, false, Option, none, some, ◌∷◌, take,
  refl, arith, Bytes, length, length-take, subst, if◌then◌else◌, ==_refl, ne→==,
}
use multi_threaded_proxy_ser.Hash.{pending_hash}
use multi_threaded_proxy_ser.Pending.Table.{
  Ptr, null, PendingEntry, Heap, Pending, write, url_field, pending_wait_or_register,
  pending_complete,
}
use multi_threaded_proxy_ser.Pending.System.{
  System, Step, register, join, complete, wake, leave, Reach, started, later,
}
use multi_threaded_proxy_ser.Pending.Refs.{registered, dropped, drop_ref-dropped, used_live}
use multi_threaded_proxy_ser.Pending.Ops.{finished, FoundIn, wait_or_register_cases, complete_cases}
use multi_threaded_proxy_ser.Pending.Safety.{Counted, Reach-Counted}

-- What an entry's field can hold.
abbrev Fits : Option PendingEntry → Type 0
Fits none = Unit {0}
Fits (some e) = length e.url ≤ 511

abbrev AllFit : Heap → Type 0
AllFit h = (p : Ptr) → Fits (h p)

AllFit-write :
    (h : Heap) (p : Ptr) (c : Option PendingEntry) → AllFit h → Fits c → AllFit (write h p c)
AllFit-write h p c a f q = elim (ℕ_discrete p q) [
  | yes e ↦ rw (e, ==_refl q) f
  | no n ↦ rw (ne→== p q n) (a q)
]

url_field-fits : (url : Bytes) → length (url_field url) ≤ 511
unfolding url_field
url_field-fits url = omega (arith, length-take 511 url)

entry_fits : (h : Heap) (p : Ptr) {e : PendingEntry} → h p ≡ some e → AllFit h → length e.url ≤ 511
entry_fits h p k a = subst Fits k (a p)

dropped-Fits : (e : PendingEntry) → length e.url ≤ 511 → Fits (dropped e)
dropped-Fits e f = ground arith

-- Two outcomes of one call leave one heap.
one_heap :
    {c : Option Pending} {m n : Pending} → c ≡ some m → c ≡ some n → AllFit m.heap → AllFit n.heap
one_heap {m} {n} k l a = subst AllFit (ground (arith, k, l)) a

one_result :
    {c : Option (Ptr × Pending)} {p q : Ptr} {m n : Pending}
    → c ≡ some (p, m)
    → c ≡ some (q, n)
    → AllFit m.heap
    → AllFit n.heap
one_result {m} {n} k l a = subst AllFit (ground (arith, k, l)) a

Step-AllFit :
    {Key : Bytes → Type 0} {s t : System}
    → Step Key s t
    → Counted s.mem s.waiting s.leaving
    → AllFit s.mem.heap
    → AllFit t.mem.heap
Step-AllFit {s} (register fresh url _ f0 free run) v a =
    elim (wait_or_register_cases v url fresh f0) [
      | inl (missing, alike) ↦
          one_result alike run (AllFit-write s.mem.heap fresh _ a (url_field-fits url))
      | inr (p, f, alike) ↦ absurd (f.nonnull (ground (arith, alike, run)))
    ]
Step-AllFit {s} (join fresh url _ f0 free p0 run) v a =
    elim (wait_or_register_cases v url fresh f0) [
      | inl (missing, alike) ↦ absurd (p0 (ground (arith, alike, run)))
      | inr (q, f, alike) ↦
          one_result alike run (AllFit-write s.mem.heap q _ a (entry_fits s.mem.heap q f.holds a))
    ]
Step-AllFit {s} (complete us url vs held run) v a = elim (complete_cases v url) [
  | inl (missing, alike) ↦ one_heap alike run a
  | inr (p, f, alike) ↦
      let l = entry_fits s.mem.heap p f.holds a in
      one_heap alike run
        (AllFit-write _ p _ (AllFit-write s.mem.heap p _ a l) (dropped-Fits (finished f.entry) l))
]
Step-AllFit (wake ps p qs at done) v a = a
Step-AllFit {s} (leave ps p qs at run) v a =
    let some_left : 0 < count p s.leaving = omega (
      arith,
      ap (count p) at,
      count-middle p ps p qs,
      ap {B = ℕ} (λ b. if b then 1 else 0) (==_refl p),
    ) in
    let (e, h) = used_live p v (omega arith) in
    one_heap (drop_ref-dropped s.mem p e h) run
      (AllFit-write s.mem.heap p _ a (dropped-Fits e (entry_fits s.mem.heap p h a)))

Reach-AllFit : {Key : Bytes → Type 0} {s : System} → Reach Key s → AllFit s.mem.heap
Reach-AllFit started = λ p. tt
Reach-AllFit (later r st) = Step-AllFit st (Reach-Counted r) (Reach-AllFit r)

-- No entry has a key of 512 bytes or more.
not_found_long :
    (m : Pending) (url : Bytes) (p : Ptr) → AllFit m.heap → 512 ≤ length url → ¬ FoundIn url m p
not_found_long m url p a long f =
    absurd (omega (arith, entry_fits m.heap p f.holds a, ap length f.key))

-- The completion of such a key finds no entry, in any reachable state.
complete_long :
    {Key : Bytes → Type 0} {s : System} (url : Bytes)
    → Reach Key s
    → 512 ≤ length url
    → pending_complete url s.mem ≡ some s.mem
complete_long {s} url r long = elim (complete_cases (Reach-Counted r) url) [
  | inl (_, run) ↦ run
  | inr (p, f, _) ↦ absurd (not_found_long s.mem url p (Reach-AllFit r) long f)
]

-- A thread that asks for it is told to fetch it, even when others fetch it already.
fetch_long :
    {Key : Bytes → Type 0} {s : System} (fresh : Ptr) (url : Bytes)
    → Reach Key s
    → fresh ≢ null
    → 512 ≤ length url
    → pending_wait_or_register fresh url s.mem ≡ some (null, registered s.mem fresh url)
fetch_long {s} fresh url r f0 long = elim (wait_or_register_cases (Reach-Counted r) url fresh f0) [
  | inl (_, run) ↦ run
  | inr (p, f, _) ↦ absurd (not_found_long s.mem url p (Reach-AllFit r) long f)
]

-- In any reachable state, even when others fetch it already, a thread that asks for a key of 512
-- bytes or more is told to fetch it and enters the first 511 bytes of the key as the first entry of
-- their bucket; when it completes the key at once, nothing changes: the entry stays in the bucket,
-- with its reference and not completed. `fresh` is the unused address that `malloc` gives.
pub long_key_stays :
    {Key : Bytes → Type 0} {s : System} (fresh : Ptr) (url : Bytes)
    → Reach Key s
    → Key url
    → fresh ≢ null
    → s.mem.heap fresh ≡ none
    → 512 ≤ length url
    → (m : Pending) × (pending_wait_or_register fresh url s.mem ≡ some (null, m))
      × (pending_complete url m ≡ some m)
      × (m.heap fresh ≡ some (record { url = take 511 url; ref_count = 1; completed = false }))
      × (m.pending_table (pending_hash (take 511 url))
          ≡ fresh ∷ s.mem.pending_table (pending_hash (take 511 url)))
unfolding url_field
long_key_stays {s} fresh url r key f0 free long =
    let run = fetch_long fresh url r f0 long in
    (
      registered s.mem fresh url,
      run,
      complete_long url (later r (register fresh url key f0 free run)) long,
      rw (==_refl fresh) refl,
      rw (==_refl (pending_hash (take 511 url))) refl,
    )
