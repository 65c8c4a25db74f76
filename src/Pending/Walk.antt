-- ===== src/Pending/Walk.antt =====
-- The walks along a bucket: without a fault, to the first entry with the key.

use multi_threaded_proxy_ser.Base.{
  ℕ, ◌≡◌, refl, ◌≢◌, ◌⊎◌, inl, inr, true, false, some, List, [], ◌∷◌, arith, Bytes, same, ◌==◌, has,
  has-head, erase, same→eq, same_refl, Bool-cases, Option-cases,
}
use multi_threaded_proxy_ser.Pending.Table.{
  Ptr, null, PendingEntry, Heap, Pending, find_in, unlink_in,
}
use multi_threaded_proxy_ser.Pending.Inv.{Inv, as-IsDead}

-- Every address of a bucket holds an entry.
abbrev pub AllLive : Heap → List Ptr → Type 0
AllLive h [] = Unit {0}
AllLive h (p ∷ ps) = (p ≢ null) × ((e : PendingEntry) × (h p ≡ some e)) × AllLive h ps

module _ {m : Pending} {waiters leavers : Ptr → ℕ} (v : Inv m waiters leavers) where
  held_live :
      (i : ℕ) (p : Ptr)
      → has p (m.pending_table i) ≡ true
      → (p ≢ null) × ((e : PendingEntry) × (m.heap p ≡ some e))
  held_live i p k = elim (Option-cases (m.heap p)) [
    | inl gone ↦ absurd (ground (arith, (as-IsDead gone (v.here p)).unlisted i))
    | inr (e, h) ↦ ((λ z. ground (arith, z, v.no_null, h)), (e, h))
  ]

  all_live :
      (i : ℕ) (ps : List Ptr)
      → ((p : Ptr) → has p ps ≡ true → has p (m.pending_table i) ≡ true)
      → AllLive m.heap ps
  all_live i [] sub = tt
  all_live i (p ∷ ps) sub =
      let l = held_live i p (sub p (ground arith)) in
      (l.0, l.1, all_live i ps (λ q k. sub q (ground arith)))

  pub bucket_live : (i : ℕ) → AllLive m.heap (m.pending_table i)
  bucket_live i = all_live i (m.pending_table i) (λ p k. k)

-- What a walk finds: the first entry with the key.
pub record Found (h : Heap) (url : Bytes) (ps : List Ptr) (p : Ptr) : Type 0 where
  pub entry : PendingEntry
  pub found : find_in h url ps ≡ some p
  pub unlinked : unlink_in h url ps ≡ some (p, erase p ps)
  pub nonnull : p ≢ null
  pub member : has p ps ≡ true
  pub holds : h p ≡ some entry
  pub key : entry.url ≡ url

pub record Missing (h : Heap) (url : Bytes) (ps : List Ptr) : Type 0 where
  pub missing : find_in h url ps ≡ some null
  pub kept : unlink_in h url ps ≡ some (null, ps)

-- The walks meet no fault.
pub walk_cases :
    (h : Heap) (url : Bytes) (ps : List Ptr)
    → AllLive h ps
    → Missing h url ps ⊎ ((p : Ptr) × Found h url ps p)
unfolding find_in unlink_in
walk_cases h url [] a = inl (record { missing = refl; kept = refl })
walk_cases h url (p ∷ ps) (p0, (e, k), a) = elim (Bool-cases (same e.url url)) [
  | inl hit ↦ inr (
    p,
    record {
      entry = e;
      found = ground (arith, k, hit);
      unlinked = ground (arith, k, hit);
      nonnull = p0;
      member = has-head p ps;
      holds = k;
      key = same→eq e.url url hit;
    },
  )
  | inr miss ↦ elim (walk_cases h url ps a) [
    | inl m ↦ inl (record {
      missing = ground (arith, k, miss, m.missing);
      kept = ground (arith, k, miss, m.kept);
    })
    | inr (q, f) ↦
        let apart : (p == q) ≡ false = ground (arith, k, miss, f.holds, f.key, same_refl url) in
        inr (
          q,
          record {
            entry = f.entry;
            found = ground (arith, k, miss, f.found);
            unlinked = ground (arith, k, miss, f.unlinked, apart);
            nonnull = f.nonnull;
            member = ground (arith, f.member);
            holds = f.holds;
            key = f.key;
          },
        )
  ]
]
