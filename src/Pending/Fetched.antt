-- ===== src/Pending/Fetched.antt =====
-- What pending_wait_or_register promises, without its table: whether the key is being fetched.
use mathlib.Core.HLevel.{⊥_prop}
use mathlib.Core.Logic.{∥∥₁_elim}
use multi_threaded_proxy_ser.Base.{
  ◌<◌, ◌≡◌, refl, sym, ap, ◌∙◌, ◌≢◌, ◌↔◌, inl, inr, some, List, [], ◌∷◌, ◌++◌, arith, Bytes, same,
  same→eq, same_refl, Bool-cases,
}
use multi_threaded_proxy_ser.Hash.{pending_hash}
use multi_threaded_proxy_ser.Pending.Table.{Ptr, null, Pending, pending_wait_or_register}
use multi_threaded_proxy_ser.Pending.System.{System, Reach}
use multi_threaded_proxy_ser.Pending.Walk.{bucket_live}
use multi_threaded_proxy_ser.Pending.Ops.{FoundIn, MissingIn, wait_or_register_cases}
use multi_threaded_proxy_ser.Pending.Keys.{
  IsShort, has_key, fetchers, fetchers-middle, keyed-erase, missing-keyed,
}
use multi_threaded_proxy_ser.Pending.Safety.{Reach-Counted}
use multi_threaded_proxy_ser.Pending.SingleFlight.{Reach-Single}

-- Some thread fetches the key, whichever it is.
abbrev pub IsFetched : Bytes → List Bytes → Type 0
IsFetched url l = ∥ ((us : List Bytes) × (vs : List Bytes) × (l ≡ us ++ url ∷ vs)) ∥₁

IsFetched-cons : (u url : Bytes) (l : List Bytes) → IsFetched url l → IsFetched url (u ∷ l)
IsFetched-cons u url l f = ∥∥₁_elim f squash₁ λ (us, vs, e). ∣ (u ∷ us, vs, ap (◌∷◌ u) e) ∣₁

fetchers-IsFetched : (url : Bytes) (l : List Bytes) → 0 < fetchers url l → IsFetched url l
fetchers-IsFetched url [] k = absurd (omega (arith, k))
fetchers-IsFetched url (u ∷ l) k = elim (Bool-cases (same u url)) [
  | inl e ↦ ∣ ([], l, ap (λ w. w ∷ l) (same→eq u url e)) ∣₁
  | inr e ↦ IsFetched-cons u url l (fetchers-IsFetched url l (ground (arith, e, k)))
]

not-IsFetched : (url : Bytes) (l : List Bytes) → fetchers url l ≡ 0 → ¬ IsFetched url l
not-IsFetched url l none_of f = ∥∥₁_elim f ⊥_prop λ (us, vs, e).
    ground (arith, none_of, ap (fetchers url) e, fetchers-middle url us url vs, same_refl url)

module _ {s : System} (url : Bytes) (r : Reach IsShort s) where
  missing-not-IsFetched : MissingIn url s.mem → ¬ IsFetched url s.fetching
  missing-not-IsFetched missing = not-IsFetched url s.fetching (
      sym ((Reach-Single r).paired url)
      ∙ missing-keyed s.mem.heap url (s.mem.pending_table (pending_hash url))
          (bucket_live (Reach-Counted r) (pending_hash url)) missing.missing)

  found-IsFetched : (p : Ptr) → FoundIn url s.mem p → IsFetched url s.fetching
  found-IsFetched p f =
      let key : has_key (s.mem.heap p) url ≡ 1 = rw (f.holds, f.key, same_refl url) refl in
      let bucket = s.mem.pending_table (pending_hash url) in
      fetchers-IsFetched url s.fetching (
        omega
          (arith, key, keyed-erase s.mem.heap url p bucket f.member, (Reach-Single r).paired url))

-- If every key that is asked for fits its field, then in every reachable state
-- pending_wait_or_register returns, and with NULL, which makes the thread the one to fetch, exactly
-- if no thread is fetching the key.
pub wait_or_register-IsFetched :
    {s : System} (fresh : Ptr) (url : Bytes)
    → Reach IsShort s
    → fresh ≢ null
    → (r : Ptr × Pending) × (pending_wait_or_register fresh url s.mem ≡ some r)
      × ((r.0 ≡ null) ↔ (¬ IsFetched url s.fetching))
wait_or_register-IsFetched fresh url r f0 =
    elim (wait_or_register_cases (Reach-Counted r) url fresh f0) [
      | inl (missing, run) ↦ (_, run, (λ e. missing-not-IsFetched url r missing, λ n. refl))
      | inr (p, f, run) ↦
          (_, run, (λ e. absurd (f.nonnull e), λ n. absurd (n (found-IsFetched url r p f))))
    ]
