-- ===== src/Pending/Keys.antt =====
-- How many entries of a bucket have a key, how many threads fetch it, and what changes that.
use native.Mathlib.Decide.{ℕ_discrete}
use multi_threaded_proxy_ser.Base.{
  same_ne, ==_refl, ne→==, ℕ, ◌+◌, ◌≤◌, ◌≡◌, refl, ap, ◌∙◌, ◌≢◌, true, false, Option, none, some,
  List, [], ◌∷◌, ◌++◌, arith, Bytes, same, if◌then◌else◌, has, erase, length, take_of_length-le,
  has-head,
}
use multi_threaded_proxy_ser.Hash.{pending_hash}
use multi_threaded_proxy_ser.Pending.Table.{
  Ptr, null, PendingEntry, Heap, Pending, url_field, find_in, set_bucket, write,
}
use multi_threaded_proxy_ser.Pending.Inv.{Table}
use multi_threaded_proxy_ser.Pending.Walk.{AllLive}

-- The keys that the field of an entry holds whole.
abbrev pub IsShort : Bytes → Type 0
IsShort url = length url ≤ 511

abbrev pub has_key : Option PendingEntry → Bytes → ℕ
has_key none url = 0
has_key (some e) url = if same e.url url then 1 else 0

-- The entries of a bucket that have the key.
abbrev pub keyed : Heap → Bytes → List Ptr → ℕ
keyed h url [] = 0
keyed h url (p ∷ ps) = has_key (h p) url + keyed h url ps

abbrev pub fetchers : Bytes → List Bytes → ℕ
fetchers url [] = 0
fetchers url (u ∷ us) = (if same u url then 1 else 0) + fetchers url us

-- Each key that is being fetched has its one entry in the table, and no entry is there without.
pub record Single (m : Pending) (fetching : List Bytes) : Type 0 where
  pub paired :
      (url : Bytes) → keyed m.heap url (m.pending_table (pending_hash url)) ≡ fetchers url fetching
  pub single : (url : Bytes) → fetchers url fetching ≤ 1

pub fetchers-middle :
    (url : Bytes) (us : List Bytes) (u : Bytes) (vs : List Bytes)
    → fetchers url (us ++ u ∷ vs) ≡ (if same u url then 1 else 0) + fetchers url (us ++ vs)
fetchers-middle url [] u vs = refl
fetchers-middle url (w ∷ us) u vs = omega (arith, fetchers-middle url us u vs)

-- What is written elsewhere, or keeps the key, leaves a bucket's keys.
pub keyed-frame :
    (g h : Heap) (url : Bytes) (ps : List Ptr)
    → ((p : Ptr) → has p ps ≡ true → has_key (g p) url ≡ has_key (h p) url)
    → keyed g url ps ≡ keyed h url ps
keyed-frame g h url [] alike = refl
keyed-frame g h url (p ∷ ps) alike =
    omega (arith, alike p (has-head p ps), keyed-frame g h url ps (λ q k. alike q (ground arith)))

pub keyed-erase :
    (h : Heap) (url : Bytes) (p : Ptr) (ps : List Ptr)
    → has p ps ≡ true
    → keyed h url ps ≡ has_key (h p) url + keyed h url (erase p ps)
keyed-erase h url p [] k = cc
keyed-erase h url p (q ∷ ps) k = elim (ℕ_discrete q p) [
  | yes e ↦ rw (e, ==_refl p) refl
  | no n ↦ rw (ne→== q p n) (omega (arith, keyed-erase h url p ps (ground arith)))
]

pub missing-keyed :
    (h : Heap) (url : Bytes) (ps : List Ptr)
    → AllLive h ps
    → find_in h url ps ≡ some null
    → keyed h url ps ≡ 0
unfolding find_in
missing-keyed h url [] a f = refl
missing-keyed h url (p ∷ ps) (p0, (e, k), a) f = ground (arith, k, p0, missing-keyed h url ps a)

pub keyed-write :
    (h : Heap) (p : Ptr) (c : Option PendingEntry) (url : Bytes) (ps : List Ptr)
    → has p ps ≡ false
    → keyed (write h p c) url ps ≡ keyed h url ps
keyed-write h p c url ps out = keyed-frame (write h p c) h url ps (λ q k. ground (arith, k, out))

pub keyed-write_head :
    (h : Heap) (p : Ptr) (c : Option PendingEntry) (url : Bytes) (ps : List Ptr)
    → has p ps ≡ false
    → keyed (write h p c) url (p ∷ ps) ≡ has_key c url + keyed h url ps
keyed-write_head h p c url ps out =
    rw (==_refl p) (ap (λ k. has_key c url + k) (keyed-write h p c url ps out))

pub url_field_short : (url : Bytes) → IsShort url → url_field url ≡ url
unfolding url_field
url_field_short url short = take_of_length-le 511 url short

-- What another bucket has is not of this key.
pub other_bucket :
    (t : Table) (url u : Bytes) (ps : List Ptr)
    → pending_hash url ≢ pending_hash u
    → (set_bucket t (pending_hash url) ps (pending_hash u) ≡ t (pending_hash u))
      × (same url u ≡ false)
other_bucket t url u ps n = (ground arith, same_ne url u (λ e. n (ap pending_hash e)))

pub keyed-write_twice :
    (h : Heap) (p : Ptr) (c d : Option PendingEntry) (url : Bytes) (ps : List Ptr)
    → has p ps ≡ false
    → keyed (write (write h p c) p d) url ps ≡ keyed h url ps
keyed-write_twice h p c d url ps out =
    keyed-write (write h p c) p d url ps out ∙ keyed-write h p c url ps out
