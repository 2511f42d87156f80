-- ===== src/RateLimiter/Clients.antt =====
-- The map has one entry for each client, and never more than the bound.
use native.Mathlib.Nat.{mod-lt}
use tao_core_go.Prelude.{
  ℕ, zero, suc, ◌+◌, ◌%◌, ◌≤◌, ◌<◌, Text, Bool, true, false, not, none, some, List, [], ◌∷◌, ◌≡◌,
  refl, sym, ap, inl, inr, arith, length, leb, ◌==◌, text_eq_instance, text_eq_iff, if◌then◌else◌,
  find, filter, count, update_where, Bool-cases, Option-cases,
}
use tao_core_go.Prelude.Rows.{IsUnique, count-update_where}
use tao_core_go.Prelude.Int.{ltb_ℤ, pos}
use tao_core_go.RateLimiter.{
  ClientVisitor, RateLimiter, max_tracked_rate_limit_clients, is_past, visitor_of, delete_at, evict,
  fresh_visitor, admit_new, restart, count_request, handle, cleanup, passed, too_many, Event,
  request, tick, step, run,
}

pub record IsBounded (rl : RateLimiter) : Type 0 where
  pub one_entry : IsUnique (λ (v : ClientVisitor). v.client_ip) rl.visitors
  pub bounded : length rl.visitors ≤ max_tracked_rate_limit_clients

count-delete_at_le :
    (p : ClientVisitor → Bool) (i : ℕ) (vs : List ClientVisitor)
    → count p (delete_at i vs) ≤ count p vs
unfolding delete_at count
count-delete_at_le p i [] = omega arith
count-delete_at_le p zero (v ∷ vs) = omega arith
count-delete_at_le p (suc i) (v ∷ vs) = omega (arith, count-delete_at_le p i vs)

pub length-delete_at :
    (i : ℕ) (vs : List ClientVisitor) → i < length vs → suc (length (delete_at i vs)) ≡ length vs
unfolding delete_at
length-delete_at i [] h = absurd (omega arith)
length-delete_at zero (v ∷ vs) h = refl
length-delete_at (suc i) (v ∷ vs) h = ap suc (length-delete_at i vs (omega arith))

length-evict :
    (pick : ℕ) (vs : List ClientVisitor) → 0 < length vs → suc (length (evict pick vs)) ≡ length vs
unfolding evict
length-evict pick vs h = length-delete_at (pick % length vs) vs (mod-lt pick h)

count-none :
    (ip : Text) (vs : List ClientVisitor)
    → visitor_of ip vs ≡ none
    → count (λ v. v.client_ip == ip) vs ≡ 0
unfolding visitor_of find count
count-none ip [] h = refl
count-none ip (v ∷ vs) h = ground (arith, count-none ip vs)

length-update_where :
    (p : ClientVisitor → Bool) (f : ClientVisitor → ClientVisitor) (vs : List ClientVisitor)
    → length (update_where p f vs) ≡ length vs
unfolding update_where
length-update_where p f [] = refl
length-update_where p f (v ∷ vs) = ap suc (length-update_where p f vs)

count-filter_le :
    (p q : ClientVisitor → Bool) (vs : List ClientVisitor) → count q (filter p vs) ≤ count q vs
unfolding filter count
count-filter_le p q [] = omega arith
count-filter_le p q (v ∷ vs) = ground (arith, count-filter_le p q vs)

length-filter_le :
    (p : ClientVisitor → Bool) (vs : List ClientVisitor) → length (filter p vs) ≤ length vs
unfolding filter
length-filter_le p [] = omega arith
length-filter_le p (v ∷ vs) = ground (arith, length-filter_le p vs)

-- A new entry at the front of what is left of the others.
fresh-IsBounded :
    (ip : Text) (now : ℕ) (rl : RateLimiter) (left : List ClientVisitor)
    → visitor_of ip rl.visitors ≡ none
    → IsBounded rl
    → ((q : ClientVisitor → Bool) → count q left ≤ count q rl.visitors)
    → length left < max_tracked_rate_limit_clients
    → IsBounded (record rl { visitors = fresh_visitor ip now ∷ left })
unfolding count
fresh-IsBounded ip now rl left absent b fewer room = record {
  one_entry = λ i. elim (Bool-cases (ip == i)) [
    | inl same ↦
        let e : ip ≡ i = (text_eq_iff ip i).0 same in
        let gone : count (λ v. v.client_ip == i) rl.visitors ≡ 0 =
          rw (← e) (count-none ip rl.visitors absent) in
        rw same (omega (arith, gone, fewer (λ v. v.client_ip == i)))
    | inr other ↦ rw other (omega (arith, b.one_entry i, fewer (λ v. v.client_ip == i)))
  ];
  bounded = omega (arith, room);
}

admit_new-IsBounded :
    (ip : Text) (now pick : ℕ) (rl : RateLimiter)
    → visitor_of ip rl.visitors ≡ none
    → IsBounded rl
    → IsBounded (admit_new ip now pick rl)
unfolding admit_new evict
admit_new-IsBounded ip now pick rl absent b =
    elim (Bool-cases (leb max_tracked_rate_limit_clients (length rl.visitors))) [
      | inl full ↦
          let many : max_tracked_rate_limit_clients ≤ length rl.visitors = ground (arith, full) in
          rw full (
            fresh-IsBounded ip now rl _ absent b
              (λ q. count-delete_at_le q (pick % length rl.visitors) rl.visitors)
              (omega (arith, length-evict pick rl.visitors (omega (arith, many)), b.bounded)))
      | inr room ↦
          rw room (
            fresh-IsBounded ip now rl rl.visitors absent b (λ q. omega arith)
              (ground (arith, room)))
    ]

-- An update of a client's entry keeps the clients.
update-IsBounded :
    (ip : Text) (f : ClientVisitor → ClientVisitor) (rl : RateLimiter)
    → ((v : ClientVisitor) → v.client_ip == ip ≡ true → (f v).client_ip ≡ v.client_ip)
    → IsBounded rl
    → IsBounded (record rl { visitors = update_where (λ v. v.client_ip == ip) f rl.visitors })
update-IsBounded ip f rl keeps b = record {
  one_entry = λ i.
      rw
        (count-update_where (λ v. v.client_ip == i) (λ v. v.client_ip == ip) f rl.visitors
          (λ v j hit. ap (λ k. k == i) (keeps v hit)))
        (b.one_entry i);
  bounded = rw (length-update_where (λ v. v.client_ip == ip) f rl.visitors) b.bounded;
}

module _ (ip : Text) (now pick : ℕ) (rl : RateLimiter) where
  pub handle_new :
      visitor_of ip rl.visitors ≡ none → handle ip now pick rl ≡ (passed, admit_new ip now pick rl)
  unfolding handle
  handle_new absent = ground arith

  pub handle_past :
      (v : ClientVisitor)
      → visitor_of ip rl.visitors ≡ some v
      → is_past rl.window now v ≡ true
      → handle ip now pick rl ≡ (passed, restart ip now rl)
  unfolding handle
  handle_past v listed over = ground arith

  pub handle_counted :
      (v : ClientVisitor)
      → visitor_of ip rl.visitors ≡ some v
      → is_past rl.window now v ≡ false
      → handle ip now pick rl
        ≡ (if ltb_ℤ rl.limit (pos (v.count + 1)) then too_many else passed, count_request ip rl)
  unfolding handle
  handle_counted v listed still = ground arith

  handle-IsBounded : IsBounded rl → IsBounded (handle ip now pick rl).1
  unfolding restart count_request
  handle-IsBounded b = elim (Option-cases (visitor_of ip rl.visitors)) [
    | inl absent ↦ rw (handle_new absent) (admit_new-IsBounded ip now pick rl absent b)
    | inr (v, listed) ↦ elim (Bool-cases (is_past rl.window now v)) [
      | inl over ↦ rw (handle_past v listed over) (
          update-IsBounded ip (λ _. fresh_visitor ip now) rl
            (λ w hit. sym ((text_eq_iff w.client_ip ip).0 hit)) b)
      | inr still ↦
          rw (handle_counted v listed still)
            (update-IsBounded ip (λ w. record w { count = w.count + 1 }) rl (λ w hit. refl) b)
    ]
  ]

cleanup-IsBounded : (now : ℕ) (rl : RateLimiter) → IsBounded rl → IsBounded (cleanup now rl)
unfolding cleanup
cleanup-IsBounded now rl b =
    let keep = λ (v : ClientVisitor). not (is_past rl.window now v) in
    record {
      one_entry = λ i.
          omega (arith, b.one_entry i, count-filter_le keep (λ v. v.client_ip == i) rl.visitors);
      bounded = omega (arith, b.bounded, length-filter_le keep rl.visitors);
    }

pub step-IsBounded : (e : Event) (rl : RateLimiter) → IsBounded rl → IsBounded (step e rl)
unfolding step
step-IsBounded (request ip now pick) rl b = handle-IsBounded ip now pick rl b
step-IsBounded (tick now) rl b = cleanup-IsBounded now rl b

-- Any run of requests and cleanups, whichever entries are evicted, keeps one entry for each client
-- and at most 10000 entries.
pub run-IsBounded : (es : List Event) (rl : RateLimiter) → IsBounded rl → IsBounded (run es rl)
unfolding run
run-IsBounded [] rl b = b
run-IsBounded (e ∷ es) rl b = run-IsBounded es (step e rl) (step-IsBounded e rl b)
