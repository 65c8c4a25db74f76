-- ===== src/Pending/Ops.antt =====
-- pending_wait_or_register and pending_complete, whole.

use multi_threaded_proxy_ser.Base.{
  erase-Distinct, not-has-erase_self, has-erase, ne→==, ℕ, ◌≡◌, refl, sym, ◌≢◌, ◌⊎◌, inl, inr, true,
  some, arith, Bytes, erase,
}
use multi_threaded_proxy_ser.Hash.{pending_hash}
use multi_threaded_proxy_ser.Pending.Table.{
  Ptr, null, PendingEntry, Pending, write, set_bucket, find_pending, pending_wait_or_register,
  drop_ref, pending_complete,
}
use multi_threaded_proxy_ser.Pending.Inv.{Inv, as-IsLive, At-table, At-write}
use multi_threaded_proxy_ser.Pending.Walk.{bucket_live, Found, Missing, walk_cases}
use multi_threaded_proxy_ser.Pending.Refs.{retained, registered, dropped, dropped-At}

-- What is left when the first entry with the key goes from its bucket and the table's reference to
-- it is dropped.
abbrev pub finished : PendingEntry → PendingEntry
finished e = record e { completed = true }

abbrev pub completed : Pending → Bytes → Ptr → PendingEntry → Pending
completed m url p e = record {
  heap = write (write m.heap p (some (finished e))) p (dropped (finished e));
  pending_table =
      set_bucket m.pending_table (pending_hash url) (erase p (m.pending_table (pending_hash url)));
}

abbrev pub FoundIn : Bytes → Pending → Ptr → Type 0
FoundIn url m p = Found m.heap url (m.pending_table (pending_hash url)) p

abbrev pub MissingIn : Bytes → Pending → Type 0
MissingIn url m = Missing m.heap url (m.pending_table (pending_hash url))

module _ {m : Pending} {waiters leavers : Ptr → ℕ} (v : Inv m waiters leavers) (url : Bytes) where
  bucket_cases : MissingIn url m ⊎ ((p : Ptr) × FoundIn url m p)
  bucket_cases =
      walk_cases m.heap url (m.pending_table (pending_hash url)) (bucket_live v (pending_hash url))

  -- A new key is registered; for a known one the thread gets a reference to the first entry.
  pub wait_or_register_cases :
      (fresh : Ptr)
      → fresh ≢ null
      → (MissingIn url m
          × (pending_wait_or_register fresh url m ≡ some (null, registered m fresh url)))
        ⊎ ((p : Ptr) × (f : FoundIn url m p) × (pending_wait_or_register fresh url m
              ≡ some (p, retained m p f.entry)))
  unfolding pending_wait_or_register find_pending
  wait_or_register_cases fresh f0 = elim bucket_cases [
    | inl missing ↦ inl (missing, ground (arith, missing.missing))
    | inr (p, f) ↦ inr (p, f, ground (arith, f.found, f.holds, f.nonnull))
  ]

  pub complete_cases :
      (MissingIn url m × (pending_complete url m ≡ some m))
      ⊎ ((p : Ptr) × (f : FoundIn url m p) × (pending_complete url m
            ≡ some (completed m url p f.entry)))
  unfolding pending_complete drop_ref
  complete_cases = elim bucket_cases [
    | inl missing ↦ inl (missing, ground (arith, missing.kept))
    | inr (p, f) ↦ inr (p, f, ground (arith, f.unlinked, f.holds, f.nonnull))
  ]

  pub completed-Inv :
      (p : Ptr) (f : FoundIn url m p) → Inv (completed m url p f.entry) waiters leavers
  completed-Inv p f =
      let index = pending_hash url in
      let l = as-IsLive f.holds (v.here p) in
      let e = f.entry in
      record {
        here =
            At-write _ waiters leavers _ p _
              (dropped-At _ (waiters p) (leavers p) p (finished e) refl
                (λ i. ground (
                  arith,
                  not-has-erase_self p (m.pending_table index) (v.distinct index),
                  l.own i,
                  f.key,
                ))
                (ground (arith, l.counted, f.key, f.member)))
              (λ q n. rw (ne→== p q (λ e. n (sym e))) (
                At-table m.pending_table _ _ _ q (m.heap q)
                  (λ i. ground (arith, has-erase p q (m.pending_table index) n)) (v.here q)));
        distinct = λ i.
            ground
              (arith, v.distinct i, erase-Distinct p (m.pending_table index) (v.distinct index));
        no_null = ground (arith, v.no_null, f.nonnull);
      }

  pub pending_complete_lem :
      (n : Pending) × (pending_complete url m ≡ some n) × Inv n waiters leavers
  pending_complete_lem = elim complete_cases [
    | inl (missing, run) ↦ (m, run, v)
    | inr (p, f, run) ↦ (completed m url p f.entry, run, completed-Inv p f)
  ]
