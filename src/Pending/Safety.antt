-- ===== src/Pending/Safety.antt =====
-- Every interleaving: no thread touches a freed entry, and no entry outlives its use.
use multi_threaded_proxy_ser.Base.{
  ap, Option-cases, ℕ, ◌+◌, ◌<◌, ◌≡◌, sym, ◌∙◌, ◌≢◌, inl, inr, Bool, false, none, some, List, ◌∷◌,
  ◌++◌, arith, Bytes, if◌then◌else◌, has, count, count-middle, subst, fun_ext,
}
use multi_threaded_proxy_ser.Hash.{pending_hash}
use multi_threaded_proxy_ser.Pending.Table.{
  Ptr, null, PendingEntry, Pending, pending_wait_or_register, drop_ref, is_completed,
  pending_complete,
}
use multi_threaded_proxy_ser.Pending.System.{
  System, Step, register, join, complete, wake, leave, Reach, started, later,
}
use multi_threaded_proxy_ser.Pending.Inv.{Inv, init-Inv, as-IsLive, in_table}
use multi_threaded_proxy_ser.Pending.Refs.{
  register-Inv, retain-Inv, up, wake-Inv, drop_ref-Inv, drop_ref-dropped, used_live,
}
use multi_threaded_proxy_ser.Pending.Ops.{wait_or_register_cases, pending_complete_lem}

-- The threads of a system hold the references that the entries count.
abbrev pub Counted : Pending → List Ptr → List Ptr → Type 0
Counted m waiting leaving = Inv m (λ p. count p waiting) (λ p. count p leaving)

count-up : (p : Ptr) (ps : List Ptr) → (λ q. count q (p ∷ ps)) ≡ up p (λ q. count q ps)
count-up p ps = fun_ext λ q. ground arith

count-up_middle :
    (ps : List Ptr) (p : Ptr) (qs : List Ptr)
    → (λ q. count q (ps ++ p ∷ qs)) ≡ up p (λ q. count q (ps ++ qs))
count-up_middle ps p qs = fun_ext λ q. ground (arith, count-middle q ps p qs)

some-state : {A : Type 0} {a b : A} → some a ≡ some b → a ≡ b
some-state e = cc

pub Step-Counted :
    {Key : Bytes → Type 0} {s t : System}
    → Step Key s t
    → Counted s.mem s.waiting s.leaving
    → Counted t.mem t.waiting t.leaving
Step-Counted {s} (register fresh url _ f0 free run) v =
    elim (wait_or_register_cases v url fresh f0) [
      | inl (missing, same) ↦
          subst (λ m. Counted m s.waiting s.leaving) (ground (arith, same, run))
            (register-Inv fresh url v f0 free)
      | inr (p, f, same) ↦ absurd (f.nonnull (ground (arith, same, run)))
    ]
Step-Counted {s} (join fresh url {p} {m} _ f0 free p0 run) v =
    elim (wait_or_register_cases v url fresh f0) [
      | inl (missing, same) ↦ absurd (p0 (ground (arith, same, run)))
      | inr (q, f, same) ↦
          let at_p : q ≡ p = ground (arith, same, run) in
          subst (λ g. Inv m g (λ r. count r s.leaving))
            (ap (λ o. up o (λ r. count r s.waiting)) at_p ∙ sym (count-up p s.waiting))
            (subst (λ n. Inv n (up q (λ r. count r s.waiting)) (λ r. count r s.leaving))
              (ground (arith, same, run)) (retain-Inv q f.entry v f.holds))
    ]
Step-Counted {s} (complete us url vs held run) v =
    let (n, same, w) = pending_complete_lem v url in
    subst (λ m. Counted m s.waiting s.leaving) (some-state (sym same ∙ run)) w
Step-Counted {s} (wake ps p qs at done) v =
    let v' : Inv s.mem (up p (λ q. count q (ps ++ qs))) (λ q. count q s.leaving) =
      subst (λ f. Inv s.mem f (λ q. count q s.leaving)) (count-up_middle ps p qs)
        (subst (λ w. Counted s.mem w s.leaving) at v) in
    subst (Inv s.mem (λ q. count q (ps ++ qs))) (sym (count-up p s.leaving))
      (wake-Inv _ _ p v' done)
Step-Counted {s} (leave ps p qs at run) v =
    let v' : Inv s.mem (λ q. count q s.waiting) (up p (λ q. count q (ps ++ qs))) =
      subst (Inv s.mem (λ q. count q s.waiting)) (count-up_middle ps p qs)
        (subst (Counted s.mem s.waiting) at v) in
    let (n, same, w) = drop_ref-Inv p v' in
    subst (λ m. Counted m s.waiting (ps ++ qs)) (some-state (sym same ∙ run)) w

pub Reach-Counted :
    {Key : Bytes → Type 0} {s : System} → Reach Key s → Counted s.mem s.waiting s.leaving
Reach-Counted started = init-Inv
Reach-Counted (later r st) = Step-Counted st (Reach-Counted r)

-- In every reachable state pending_wait_or_register returns: all entries of the bucket that it walks
-- are live.
pub wait_or_register-returns :
    {Key : Bytes → Type 0} {s : System} (fresh : Ptr) (url : Bytes)
    → Reach Key s
    → fresh ≢ null
    → (r : Ptr × Pending) × (pending_wait_or_register fresh url s.mem ≡ some r)
wait_or_register-returns fresh url r f0 =
    elim (wait_or_register_cases (Reach-Counted r) url fresh f0) [
      | inl (_, run) ↦ (_, run)
      | inr (_, _, run) ↦ (_, run)
    ]

-- In every reachable state pending_complete returns for every key.
pub pending_complete-returns :
    {Key : Bytes → Type 0} {s : System} (url : Bytes)
    → Reach Key s
    → (m : Pending) × (pending_complete url s.mem ≡ some m)
pending_complete-returns url r =
    let (n, run, _) = pending_complete_lem (Reach-Counted r) url in (n, run)

-- In every reachable state a thread that waits for an entry can read its flag: the entry has not been
-- freed.
pub is_completed-returns :
    {Key : Bytes → Type 0} {s : System} (p : Ptr)
    → Reach Key s
    → 0 < count p s.waiting
    → (b : Bool) × (is_completed p s.mem ≡ some b)
unfolding is_completed
is_completed-returns p r k =
    let (e, h) = used_live p (Reach-Counted r) (omega arith) in (e.completed, ground (arith, h))

-- In every reachable state a thread that leaves pending_wait can give its reference up: the entry
-- has not been freed.
pub drop_ref-returns :
    {Key : Bytes → Type 0} {s : System} (p : Ptr)
    → Reach Key s
    → 0 < count p s.leaving
    → (m : Pending) × (drop_ref p s.mem ≡ some m)
drop_ref-returns {s} p r k =
    let (e, h) = used_live p (Reach-Counted r) (omega arith) in (_, drop_ref-dropped s.mem p e h)

-- In every reachable state an entry's count is the number of threads that wait for it or leave it,
-- and one more while it is in the table.
pub Reach-ref_count :
    {Key : Bytes → Type 0} {s : System} (p : Ptr) (e : PendingEntry)
    → Reach Key s
    → s.mem.heap p ≡ some e
    → e.ref_count
      ≡ count p s.waiting + count p s.leaving + (if in_table s.mem.pending_table p e then 1 else 0)
Reach-ref_count p e r h = (as-IsLive h ((Reach-Counted r).here p)).counted

-- In every reachable state an address that no thread waits for or leaves and that is in no bucket
-- holds no entry: the last reference freed it.
pub Reach-freed :
    {Key : Bytes → Type 0} {s : System} (p : Ptr)
    → Reach Key s
    → count p s.waiting + count p s.leaving ≡ 0
    → ((i : ℕ) → has p (s.mem.pending_table i) ≡ false)
    → s.mem.heap p ≡ none
Reach-freed {s} p r unused out = elim (Option-cases (s.mem.heap p)) [
  | inl gone ↦ gone
  | inr (e, h) ↦
      let l = as-IsLive h ((Reach-Counted r).here p) in
      absurd (ground (arith, l.counted, l.needed, out (pending_hash e.url)))
]
