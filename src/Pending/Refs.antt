-- ===== src/Pending/Refs.antt =====
-- Each operation of the pending table keeps the reference counts right.
use native.Mathlib.Decide.{ℕ_discrete}
use multi_threaded_proxy_ser.Base.{
  subst, ==_refl, ne→==, ℕ, ◌+◌, ◌-◌, ◌<◌, ◌≡◌, sym, ◌≢◌, inl, inr, true, false, Option, none, some,
  ◌∷◌, arith, Bytes, ◌==◌, if◌then◌else◌, has, Bool-cases, Option-cases,
}
use multi_threaded_proxy_ser.Hash.{pending_hash}
use multi_threaded_proxy_ser.Pending.Table.{
  Ptr, null, PendingEntry, Pending, write, set_bucket, url_field, new_entry, with_refs, drop_ref,
  is_completed,
}
use multi_threaded_proxy_ser.Pending.Inv.{
  Table, IsLive, At, Inv, as-IsLive, as-IsDead, At-table, At-write,
}

-- The tables that the operations leave.
abbrev pub retained : Pending → Ptr → PendingEntry → Pending
retained m p e = record m { heap = write m.heap p (some (with_refs e (e.ref_count + 1))) }

abbrev pub registered : Pending → Ptr → Bytes → Pending
registered m p url =
    let index = pending_hash (url_field url) in
    record {
      heap = write m.heap p (some (new_entry url));
      pending_table = set_bucket m.pending_table index (p ∷ m.pending_table index);
    }

abbrev pub dropped : PendingEntry → Option PendingEntry
dropped e = if e.ref_count - 1 == 0 then none else some (with_refs e (e.ref_count - 1))

abbrev pub released : Pending → Ptr → PendingEntry → Pending
released m p e = record m { heap = write m.heap p (dropped e) }

abbrev pub up : Ptr → (Ptr → ℕ) → Ptr → ℕ
up p f q = if q == p then f q + 1 else f q

pub up_self : (p : Ptr) (f : Ptr → ℕ) → up p f p ≡ f p + 1
up_self p f = rw (==_refl p)

pub up_other : (p : Ptr) (f : Ptr → ℕ) (q : Ptr) → q ≢ p → up p f q ≡ f q
up_other p f q n = rw (ne→== q p n)

-- An address with a thread at it holds an entry.
pub used_live :
    {m : Pending} {waiters leavers : Ptr → ℕ} (p : Ptr)
    → Inv m waiters leavers
    → 0 < waiters p + leavers p
    → (e : PendingEntry) × (m.heap p ≡ some e)
used_live {m} p v u = elim (Option-cases (m.heap p)) [
  | inl gone ↦ let d = as-IsDead gone (v.here p) in absurd (omega (arith, d.unused, d.left))
  | inr live ↦ live
]

-- Behind the address that changes its role, all others are as they were.
module _ {m : Pending} (waiters leavers : Ptr → ℕ) (p q : Ptr) (n : q ≢ p) where
  not_waiting :
      Inv m (up p waiters) leavers → At m.pending_table (waiters q) (leavers q) q (m.heap q)
  not_waiting v =
      subst (λ w. At m.pending_table w (leavers q) q (m.heap q)) (up_other p waiters q n) (v.here q)

  not_leaving :
      Inv m waiters (up p leavers) → At m.pending_table (waiters q) (leavers q) q (m.heap q)
  not_leaving v =
      subst (λ w. At m.pending_table (waiters q) w q (m.heap q)) (up_other p leavers q n) (v.here q)

-- `wake`: a thread that sees the entry completed goes from waiting to leaving.
pub wake-Inv :
    {m : Pending} (waiters leavers : Ptr → ℕ) (p : Ptr)
    → Inv m (up p waiters) leavers
    → is_completed p m ≡ some true
    → Inv m waiters (up p leavers)
unfolding is_completed
wake-Inv {m} waiters leavers p v k =
    let (e, h) = used_live p v (omega (arith, up_self p waiters)) in
    let l = as-IsLive h (v.here p) in
    let woken : IsLive m.pending_table (waiters p) (up p leavers p) p e = record {
      counted = omega (arith, l.counted, up_self p waiters, up_self p leavers);
      flagged = l.flagged;
      own = l.own;
      needed = l.needed;
      early = λ f. ground (arith, h, k, f);
    } in
    record {
      here = λ q. elim (ℕ_discrete q p) [
        | yes at_p ↦
            subst (λ r. At m.pending_table (waiters r) (up p leavers r) r (m.heap r)) (sym at_p)
              (subst (At m.pending_table (waiters p) (up p leavers p) p) (sym h) woken)
        | no n ↦
            subst (λ w. At m.pending_table (waiters q) w q (m.heap q))
              (sym (up_other p leavers q n)) (not_waiting waiters leavers p q n v)
      ];
      distinct = v.distinct;
      no_null = v.no_null;
    }

pub drop_ref-dropped :
    (m : Pending) (p : Ptr) (e : PendingEntry)
    → m.heap p ≡ some e
    → drop_ref p m ≡ some (released m p e)
unfolding drop_ref
drop_ref-dropped m p e h = ground (arith, h)

-- A completed entry without its place in the table, once one of its references is dropped.
pub dropped-At :
    (t : Table) (waiters leavers : ℕ) (p : Ptr) (e : PendingEntry)
    → e.completed ≡ true
    → ((i : ℕ) → has p (t i) ≡ false)
    → e.ref_count ≡ waiters + leavers + 1
    → At t waiters leavers p (dropped e)
dropped-At t waiters leavers p e done out refs = elim (Bool-cases (e.ref_count - 1 == 0)) [
  | inl last ↦ rw last (record { unused = ground arith; left = ground arith; unlisted = out })
  | inr kept ↦ rw kept (record {
    counted = ground (arith, out (pending_hash e.url));
    flagged = ground (arith, out (pending_hash e.url));
    own = λ i n. out i;
    needed = ground arith;
    early = λ f. cc;
  })
]

-- A thread leaves completed entries only, and these are in no bucket.
pub leaver_done :
    {t : Table} {waiters leavers : ℕ} {p : Ptr} {e : PendingEntry}
    → IsLive t waiters leavers p e
    → 0 < leavers
    → (e.completed ≡ true) × ((i : ℕ) → has p (t i) ≡ false)
leaver_done {e} l some_left =
    let done : e.completed ≡ true = ground (arith, l.early) in
    (
      done,
      λ i. elim (ℕ_discrete i (pending_hash e.url)) [
        | yes own ↦ rw own (ground (arith, l.flagged, done))
        | no n ↦ l.own i n
      ],
    )

module _ {m : Pending} {waiters leavers : Ptr → ℕ} where
  -- `join`: a thread that finds an entry takes a reference.
  pub retain-Inv :
      (p : Ptr) (e : PendingEntry)
      → Inv m waiters leavers
      → m.heap p ≡ some e
      → Inv (retained m p e) (up p waiters) leavers
  retain-Inv p e v h =
      let l = as-IsLive h (v.here p) in
      record {
        here =
            At-write m.pending_table (up p waiters) leavers m.heap p _
              (record {
                counted = ground (arith, l.counted);
                flagged = l.flagged;
                own = l.own;
                needed = ground arith;
                early = l.early;
              })
              (λ q n. rw (ne→== q p n) (v.here q));
        distinct = v.distinct;
        no_null = ground (arith, v.no_null, h);
      }

  -- `leave`: the reference is given up, and the last one frees the entry.
  pub drop_ref-Inv :
      (p : Ptr)
      → Inv m waiters (up p leavers)
      → (n : Pending) × (drop_ref p m ≡ some n) × Inv n waiters leavers
  unfolding drop_ref
  drop_ref-Inv p v =
      let (e, h) = used_live p v (omega (arith, up_self p leavers)) in
      let l = as-IsLive h (v.here p) in
      let done = leaver_done l (omega (arith, up_self p leavers)) in
      (
        record m { heap = write m.heap p (dropped e) },
        ground (arith, h),
        record {
          here =
              At-write m.pending_table waiters leavers m.heap p (dropped e)
                (dropped-At m.pending_table (waiters p) (leavers p) p e done.0 done.1
                  (ground (arith, l.counted, done.0, l.flagged, up_self p leavers)))
                (λ q n. not_leaving waiters leavers p q n v);
          distinct = v.distinct;
          no_null = ground (arith, v.no_null, h);
        },
      )

  -- `register`: the new entry is in the table, and nobody waits for it yet.
  pub register-Inv :
      (p : Ptr) (url : Bytes)
      → Inv m waiters leavers
      → p ≢ null
      → m.heap p ≡ none
      → Inv (registered m p url) waiters leavers
  register-Inv p url v p0 h =
      let index = pending_hash (url_field url) in
      let d = as-IsDead h (v.here p) in
      record {
        here =
            At-write _ waiters leavers m.heap p _
              (record {
                counted = ground (arith, d.unused, d.left);
                flagged = ground arith;
                own = λ i n. ground (arith, d.unlisted i);
                needed = omega arith;
                early = λ _. d.left;
              })
              (λ q n. At-table m.pending_table _ _ _ q (m.heap q) (λ i. ground arith) (v.here q));
        distinct = λ i. ground (arith, v.distinct i, d.unlisted i);
        no_null = ground (arith, v.no_null);
      }
