-- ===== src/Pending/SingleFlight.antt =====
-- Keys that fit their field: one thread at most fetches a key, and whoever waits, waits for a fetch
-- that is under way.
use native.Mathlib.Decide.{ℕ_discrete}
use multi_threaded_proxy_ser.Base.{
  count-middle, ==_refl, not-has-erase_self, ℕ, ◌+◌, ◌≤◌, ◌<◌, ◌≡◌, refl, sym, ap, ◌∙◌, inl, inr,
  true, false, none, some, List, [], ◌∷◌, ◌++◌, arith, Bytes, same, same→eq, same_refl,
  if◌then◌else◌, has, erase, count, subst,
}
use multi_threaded_proxy_ser.Hash.{pending_hash}
use multi_threaded_proxy_ser.Pending.Table.{new_entry, Ptr, PendingEntry, Pending}
use multi_threaded_proxy_ser.Pending.System.{
  System, Step, register, join, complete, wake, leave, start, Reach, started, later,
}
use multi_threaded_proxy_ser.Pending.Inv.{Inv, as-IsLive, as-IsDead}
use multi_threaded_proxy_ser.Pending.Walk.{bucket_live}
use multi_threaded_proxy_ser.Pending.Refs.{retained, registered, released, dropped}
use multi_threaded_proxy_ser.Pending.Ops.{completed, finished, FoundIn, MissingIn}
use multi_threaded_proxy_ser.Pending.Keys.{
  IsShort, has_key, keyed, fetchers, Single, fetchers-middle, keyed-erase, missing-keyed,
  keyed-write, keyed-write_head, keyed-write_twice, url_field_short, other_bucket, keyed-frame,
}
use multi_threaded_proxy_ser.Pending.Safety.{Counted, Reach-Counted}
use multi_threaded_proxy_ser.Pending.Refs.{used_live, drop_ref-dropped, leaver_done}
use multi_threaded_proxy_ser.Pending.Ops.{wait_or_register_cases, complete_cases}

module _ {m : Pending} {waiters leavers : Ptr → ℕ} (v : Inv m waiters leavers)
    {fetching : List Bytes} (w : Single m fetching) where
  register-Single :
      (fresh : Ptr) (url : Bytes)
      → IsShort url
      → m.heap fresh ≡ none
      → MissingIn url m
      → Single (registered m fresh url) (url ∷ fetching)
  register-Single fresh url short free missing =
      let field = url_field_short url short in
      let index = pending_hash url in
      let new = some (new_entry url) in
      let d = as-IsDead free (v.here fresh) in
      let none_yet =
        missing-keyed m.heap url _ (bucket_live v (pending_hash url)) missing.missing in
      record {
        paired = λ u. elim (ℕ_discrete index (pending_hash u)) [
          | yes e ↦
              rw (field, e, ==_refl (pending_hash u))
                (keyed-write_head m.heap fresh
                    (some (record { url = url; ref_count = 1; completed = false })) u
                    (m.pending_table (pending_hash u)) (d.unlisted (pending_hash u))
                  ∙ ap (λ k. (if same url u then 1 else 0) + k) (w.paired u))
          | no n ↦
              rw (field, (other_bucket m.pending_table url u (fresh ∷ m.pending_table index) n).0)
                (keyed-write m.heap fresh _ u (m.pending_table (pending_hash u))
                    (d.unlisted (pending_hash u))
                  ∙ w.paired u
                  ∙ rw (other_bucket m.pending_table url u [] n).1 (omega arith))
        ];
        single = λ u. ground (arith, same→eq url u, w.single u, w.paired url, none_yet);
      }

  retain-Single :
      (p : Ptr) (e : PendingEntry) → m.heap p ≡ some e → Single (retained m p e) fetching
  retain-Single p e h = record {
    paired = λ u.
        keyed-frame _ m.heap u (m.pending_table (pending_hash u)) (λ q k. ground (arith, h))
        ∙ w.paired u;
    single = w.single;
  }

  release-Single :
      (p : Ptr) (e : PendingEntry)
      → ((i : ℕ) → has p (m.pending_table i) ≡ false)
      → Single (released m p e) fetching
  release-Single p e out = record {
    paired = λ u.
        keyed-frame _ m.heap u (m.pending_table (pending_hash u))
          (λ q k. ground (arith, k, out (pending_hash u)))
        ∙ w.paired u;
    single = w.single;
  }

  complete-Single :
      (us : List Bytes) (url : Bytes) (vs : List Bytes) (p : Ptr) (f : FoundIn url m p)
      → fetching ≡ us ++ url ∷ vs
      → Single (completed m url p f.entry) (us ++ vs)
  complete-Single us url vs p f held =
      let index = pending_hash url in
      let ps = m.pending_table index in
      let left = λ (u : Bytes).
        keyed-write_twice m.heap p (some (finished f.entry)) (dropped (finished f.entry)) u in
      let key =
        λ (u : Bytes). ap (λ o. has_key o u) f.holds ∙ ap (λ k. if same k u then 1 else 0) f.key in
      let l = as-IsLive f.holds (v.here p) in
      record {
        paired = λ u. elim (ℕ_discrete index (pending_hash u)) [
          | yes e ↦
              rw (sym e, ==_refl index)
                (omega (
                  arith,
                  left u (erase p ps) (not-has-erase_self p ps (v.distinct index)),
                  keyed-erase m.heap u p ps f.member,
                  key u,
                  w.paired u,
                  ap (λ i. keyed m.heap u (m.pending_table i)) e,
                  ap (fetchers u) held,
                  fetchers-middle u us url vs,
                ))
          | no n ↦ rw ((other_bucket m.pending_table url u (erase p ps) n).0) (
              omega (
                arith,
                left u (m.pending_table (pending_hash u))
                    (l.own (pending_hash u) (λ z. n (sym (z ∙ ap pending_hash f.key)))),
                w.paired u,
                ap (fetchers u) held,
                fetchers-middle u us url vs,
                ap {B = ℕ} (λ b. if b then 1 else 0) (other_bucket m.pending_table url u [] n).1,
              ))
        ];
        single = λ u. omega (arith, w.single u, ap (fetchers u) held, fetchers-middle u us url vs);
      }

  missing-absurd :
      (us : List Bytes) (url : Bytes) (vs : List Bytes)
      → fetching ≡ us ++ url ∷ vs
      → MissingIn url m
      → ⊥
  missing-absurd us url vs held missing = ground (
    arith,
    missing-keyed m.heap url _ (bucket_live v (pending_hash url)) missing.missing,
    w.paired url,
    ap (fetchers url) held,
    fetchers-middle url us url vs,
    same_refl url,
  )

-- Both invariants at once.
Step-Single :
    {s t : System}
    → Step IsShort s t
    → Counted s.mem s.waiting s.leaving
    → Single s.mem s.fetching
    → Single t.mem t.fetching
Step-Single {s} (register fresh url short f0 free run) v w =
    elim (wait_or_register_cases v url fresh f0) [
      | inl (missing, alike) ↦
          subst (λ m. Single m (url ∷ s.fetching)) (ground (arith, alike, run))
            (register-Single v w fresh url short free missing)
      | inr (p, f, alike) ↦ absurd (f.nonnull (ground (arith, alike, run)))
    ]
Step-Single {s} (join fresh url short f0 free p0 run) v w =
    elim (wait_or_register_cases v url fresh f0) [
      | inl (missing, alike) ↦ absurd (p0 (ground (arith, alike, run)))
      | inr (q, f, alike) ↦
          subst (λ m. Single m s.fetching) (ground (arith, alike, run))
            (retain-Single v w q f.entry f.holds)
    ]
Step-Single (complete us url vs held run) v w = elim (complete_cases v url) [
  | inl (missing, alike) ↦ absurd (missing-absurd v w us url vs held missing)
  | inr (p, f, alike) ↦
      subst (λ m. Single m (us ++ vs)) (ground (arith, alike, run))
        (complete-Single v w us url vs p f held)
]
Step-Single (wake ps p qs at done) v w = w
Step-Single {s} (leave ps p qs at run) v w =
    let some_left : 0 < count p s.leaving = omega (
      arith,
      ap (count p) at,
      count-middle p ps p qs,
      ap {B = ℕ} (λ b. if b then 1 else 0) (==_refl p),
    ) in
    let (e, h) = used_live p v (omega arith) in
    let done = leaver_done (as-IsLive h (v.here p)) some_left in
    subst (λ m. Single m s.fetching) (ground (arith, drop_ref-dropped s.mem p e h, run))
      (release-Single v w p e done.1)

start-Single : Single start.mem start.fetching
start-Single = record { paired = λ u. refl; single = λ u. omega arith }

pub Reach-Single : {s : System} → Reach IsShort s → Single s.mem s.fetching
Reach-Single started = start-Single
Reach-Single (later r st) = Step-Single st (Reach-Counted r) (Reach-Single r)

-- If every key that is asked for fits its field of 511 bytes, then in every reachable state at
-- most one thread fetches a key.
pub single_flight : {s : System} (url : Bytes) → Reach IsShort s → fetchers url s.fetching ≤ 1
single_flight url r = (Reach-Single r).single url

-- If every key that is asked for fits its field, then in every reachable state each entry that is
-- not completed, and so each that a thread may have to wait for, is of a key that exactly one
-- thread is fetching.
pub awaited_fetch :
    {s : System} (p : Ptr) (e : PendingEntry)
    → Reach IsShort s
    → s.mem.heap p ≡ some e
    → e.completed ≡ false
    → fetchers e.url s.fetching ≡ 1
awaited_fetch {s} p e r h open_entry =
    let l = as-IsLive h ((Reach-Counted r).here p) in
    let w = Reach-Single r in
    let listed : has p (s.mem.pending_table (pending_hash e.url)) ≡ true =
      ground (arith, l.flagged, open_entry) in
    let key : has_key (s.mem.heap p) e.url ≡ 1 = rw (h, same_refl e.url) in
    omega (arith, keyed-erase s.mem.heap e.url p _ listed, key, w.paired e.url, w.single e.url)
