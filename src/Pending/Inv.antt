-- ===== src/Pending/Inv.antt =====
-- The invariant of the pending table: what an entry's reference count says.
use native.Mathlib.Decide.{ℕ_discrete}
use multi_threaded_proxy_ser.Base.{
  subst, ==_refl, ne→==, ℕ, ◌+◌, ◌<◌, ◌≡◌, refl, sym, ◌∙◌, ◌≢◌, Bool, false, not, Option, none,
  some, List, if◌then◌else◌, has, Distinct,
}
use multi_threaded_proxy_ser.Hash.{pending_hash}
use multi_threaded_proxy_ser.Pending.Table.{Ptr, null, PendingEntry, Heap, Pending, write, init}

abbrev pub Table : Type 0
Table = ℕ → List Ptr

abbrev pub in_table : Table → Ptr → PendingEntry → Bool
in_table t p e = has p (t (pending_hash e.url))

-- An entry for which `waiters` threads wait and which `leavers` more are about to leave, each with
-- a reference. The table holds one more until the fetch is over.
pub record IsLive (t : Table) (waiters leavers : ℕ) (p : Ptr) (e : PendingEntry) : Type 0 where
  pub counted : e.ref_count ≡ waiters + leavers + (if in_table t p e then 1 else 0)
  pub flagged : e.completed ≡ not (in_table t p e)
  pub own : (i : ℕ) → i ≢ pending_hash e.url → has p (t i) ≡ false
  pub needed : 0 < e.ref_count
  pub early : e.completed ≡ false → leavers ≡ 0

-- An address without an entry, which nobody knows.
pub record IsDead (t : Table) (waiters leavers : ℕ) (p : Ptr) : Type 0 where
  pub unused : waiters ≡ 0
  pub left : leavers ≡ 0
  pub unlisted : (i : ℕ) → has p (t i) ≡ false

abbrev pub At : Table → ℕ → ℕ → Ptr → Option PendingEntry → Type 0
At t waiters leavers p none = IsDead t waiters leavers p
At t waiters leavers p (some e) = IsLive t waiters leavers p e

pub record Inv (m : Pending) (waiters leavers : Ptr → ℕ) : Type 0 where
  pub here : (p : Ptr) → At m.pending_table (waiters p) (leavers p) p (m.heap p)
  pub distinct : (i : ℕ) → Distinct (m.pending_table i)
  pub no_null : m.heap null ≡ none

pub init-Inv : Inv init (λ p. 0) (λ p. 0)
init-Inv = record {
  here = λ p. record { unused = refl; left = refl; unlisted = λ i. refl };
  distinct = λ i. tt;
  no_null = refl;
}

module _ {t : Table} {waiters leavers : ℕ} {p : Ptr} where
  pub as-IsLive :
      {c : Option PendingEntry} {e : PendingEntry}
      → c ≡ some e
      → At t waiters leavers p c
      → IsLive t waiters leavers p e
  as-IsLive h a = subst (At t waiters leavers p) h a

  pub as-IsDead :
      {c : Option PendingEntry} → c ≡ none → At t waiters leavers p c → IsDead t waiters leavers p
  as-IsDead h a = subst (At t waiters leavers p) h a

-- What is known of an address depends on its place in the table only.
pub At-table :
    (t u : Table) (waiters leavers : ℕ) (p : Ptr) (c : Option PendingEntry)
    → ((i : ℕ) → has p (u i) ≡ has p (t i))
    → At t waiters leavers p c
    → At u waiters leavers p c
At-table t u waiters leavers p none alike a = record {
  unused = a.unused;
  left = a.left;
  unlisted = λ i. alike i ∙ a.unlisted i;
}
At-table t u waiters leavers p (some e) alike a = record {
  counted = rw (alike (pending_hash e.url)) a.counted;
  flagged = rw (alike (pending_hash e.url)) a.flagged;
  own = λ i n. alike i ∙ a.own i n;
  needed = a.needed;
  early = a.early;
}

-- After a write, the address written and all others are looked at by themselves.
pub At-write :
    (t : Table) (waiters leavers : Ptr → ℕ) (h : Heap) (p : Ptr) (c : Option PendingEntry)
    → At t (waiters p) (leavers p) p c
    → ((q : Ptr) → q ≢ p → At t (waiters q) (leavers q) q (h q))
    → (q : Ptr) → At t (waiters q) (leavers q) q (write h p c q)
At-write t waiters leavers h p c a others q = elim (ℕ_discrete q p) [
  | yes e ↦ rw (e, ==_refl p) a
  | no n ↦ rw (ne→== p q (λ e. n (sym e))) (others q n)
]
