-- ===== src/RateLimiter/Bound.antt =====
-- How many requests of a client pass while its window lasts and nothing is evicted.
use mathlib.Core.Path.{subst}
use tao_core_go.Prelude.{
  ℕ, suc, ◌+◌, ◌-◌, ◌≤◌, ◌<◌, Text, Bool, true, false, not, some, List, [], ◌∷◌, ◌≡◌, refl, sym,
  ◌∙◌, ap, inl, inr, arith, length, leb, ◌==◌, text_eq_instance, text_eq_refl, text_eq_iff,
  if◌then◌else◌, find, filter, update_where, All, Bool-cases, Option-cases,
}
use tao_core_go.Prelude.Int.{ℤ, pos, pos_part, ltb_ℤ, sub_ℕ}
use tao_core_go.RateLimiter.{
  ClientVisitor, RateLimiter, max_tracked_rate_limit_clients, is_past, visitor_of, fresh_visitor,
  admit_new, restart, count_request, handle, cleanup, Verdict, passed, one_if_passed, too_many,
  Event, request, tick, step, count_passed, passed_in,
}
use tao_core_go.RateLimiter.Clients.{handle_new, handle_past, handle_counted}

-- The time of an event.
abbrev pub time_of : Event → ℕ
time_of (request client_ip now pick) = now
time_of (tick now) = now

-- The client's entry, in a window that is not over at that time.
pub record IsTracked (ip : Text) (c : ℕ) (started : ℕ) (rl : RateLimiter) : Type 0 where
  pub entry : ClientVisitor
  pub listed : visitor_of ip rl.visitors ≡ some entry
  pub counted : entry.count ≡ c
  pub since : entry.last_seen ≡ started

module _ (ip other : Text) (different : (other == ip) ≡ false) where
  visitor_of-update_other :
      (f : ClientVisitor → ClientVisitor) (vs : List ClientVisitor)
      → ((v : ClientVisitor) → v.client_ip == other ≡ true → (f v).client_ip ≡ v.client_ip)
      → visitor_of ip (update_where (λ v. v.client_ip == other) f vs) ≡ visitor_of ip vs
  unfolding visitor_of find update_where
  visitor_of-update_other f [] keeps = refl
  visitor_of-update_other f (v ∷ vs) keeps =
      let later = visitor_of-update_other f vs keeps in
      elim (Bool-cases (v.client_ip == other)) [
        | inl hit ↦
            let e : v.client_ip ≡ other = (text_eq_iff v.client_ip other).0 hit in
            let miss : v.client_ip == ip ≡ false = rw e different in
            rw (hit, keeps v hit, miss) later
        | inr miss ↦ rw (miss, later) refl
      ]

visitor_of-update :
    (ip : Text) (f : ClientVisitor → ClientVisitor) (vs : List ClientVisitor) (v : ClientVisitor)
    → ((w : ClientVisitor) → (f w).client_ip ≡ w.client_ip)
    → visitor_of ip vs ≡ some v
    → visitor_of ip (update_where (λ w. w.client_ip == ip) f vs) ≡ some (f v)
unfolding visitor_of find update_where
visitor_of-update ip f [] v keeps h = cc
visitor_of-update ip f (w ∷ ws) v keeps h =
    ground (arith, keeps w, visitor_of-update ip f ws v keeps)

visitor_of-filter :
    (ip : Text) (p : ClientVisitor → Bool) (vs : List ClientVisitor) (v : ClientVisitor)
    → visitor_of ip vs ≡ some v
    → p v ≡ true
    → visitor_of ip (filter p vs) ≡ some v
unfolding visitor_of find filter
visitor_of-filter ip p [] v h k = cc
visitor_of-filter ip p (w ∷ ws) v h k = ground (arith, visitor_of-filter ip p ws v)

length-filter_le :
    (p : ClientVisitor → Bool) (vs : List ClientVisitor) → length (filter p vs) ≤ length vs
unfolding filter
length-filter_le p [] = omega arith
length-filter_le p (v ∷ vs) = ground (arith, length-filter_le p vs)

length-update_where :
    (p : ClientVisitor → Bool) (f : ClientVisitor → ClientVisitor) (vs : List ClientVisitor)
    → length (update_where p f vs) ≡ length vs
unfolding update_where
length-update_where p f [] = refl
length-update_where p f (v ∷ vs) = ap suc (length-update_where p f vs)

-- The window that started then is not over at that time.
abbrev pub InWindow : ℤ → ℕ → ℕ → Type 0
InWindow window started now = ltb_ℤ window (sub_ℕ now started) ≡ false

module _ (ip : Text) (started : ℕ) where
  -- What an event does to a tracked client: it uses up one of the requests left if it passes.
  record Follows (c : ℕ) (rl : RateLimiter) (spent : ℕ) (rl' : RateLimiter) : Type 0 where
    c' : ℕ
    tracked : IsTracked ip c' started rl'
    paid : spent + (pos_part rl.limit - c') ≤ pos_part rl.limit - c
    same_limit : rl'.limit ≡ rl.limit
    same_window : rl'.window ≡ rl.window
    grows : length rl'.visitors ≤ suc (length rl.visitors)

  module _ (c : ℕ) (rl : RateLimiter) (t : IsTracked ip c started rl) where
    own-Follows :
        (x : Verdict × RateLimiter)
        → x ≡ (
          if ltb_ℤ rl.limit (pos (t.entry.count + 1)) then too_many else passed,
          count_request ip rl,
        )
        → Follows c rl (one_if_passed x.0) x.1
    unfolding count_request
    own-Follows x e = rw e (record {
      c' = suc c;
      tracked = record {
        entry = record (t.entry) { count = t.entry.count + 1 };
        listed =
            visitor_of-update ip (λ v. record v { count = v.count + 1 }) rl.visitors t.entry
              (λ v. refl) t.listed;
        counted = omega (arith, t.counted);
        since = t.since;
      };
      paid = ground (arith, t.counted);
      same_limit = refl;
      same_window = refl;
      grows = omega (
        arith,
        length-update_where (λ v. v.client_ip == ip) (λ v. record v { count = v.count + 1 })
            rl.visitors,
      );
    })

    -- Nothing is spent, and the client's entry stays.
    kept-Follows :
        (rl' : RateLimiter)
        → visitor_of ip rl'.visitors ≡ some t.entry
        → rl'.limit ≡ rl.limit
        → rl'.window ≡ rl.window
        → length rl'.visitors ≤ suc (length rl.visitors)
        → Follows c rl 0 rl'
    kept-Follows rl' listed same_limit same_window grows = record {
      c' = c;
      tracked = record { entry = t.entry; listed = listed; counted = t.counted; since = t.since };
      paid = omega arith;
      same_limit = same_limit;
      same_window = same_window;
      grows = grows;
    }

    module _ (other : Text) (different : (other == ip) ≡ false) (now pick : ℕ) where
      updated_other :
          (f : ClientVisitor → ClientVisitor)
          → ((v : ClientVisitor) → v.client_ip == other ≡ true → (f v).client_ip ≡ v.client_ip)
          → Follows c rl 0
              (record rl { visitors = update_where (λ v. v.client_ip == other) f rl.visitors })
      updated_other f keeps =
          kept-Follows _ (visitor_of-update_other ip other different f rl.visitors keeps ∙ t.listed)
            refl refl (omega (arith, length-update_where (λ v. v.client_ip == other) f rl.visitors))

      -- A new client while there is room.
      admitted_other :
          length rl.visitors < max_tracked_rate_limit_clients
          → Follows c rl 0 (admit_new other now pick rl)
      unfolding admit_new visitor_of find
      admitted_other room =
          let free : leb max_tracked_rate_limit_clients (length rl.visitors) ≡ false =
            ground arith in
          rw free (
            kept-Follows (record rl { visitors = fresh_visitor other now ∷ rl.visitors })
              (rw different t.listed) refl refl (omega arith))

      other-Follows :
          length rl.visitors < max_tracked_rate_limit_clients
          → Follows c rl 0 (handle other now pick rl).1
      unfolding restart count_request
      other-Follows room = elim (Option-cases (visitor_of other rl.visitors)) [
        | inl absent ↦ rw (handle_new other now pick rl absent) (admitted_other room)
        | inr (v, listed) ↦ elim (Bool-cases (is_past rl.window now v)) [
          | inl over ↦ rw (handle_past other now pick rl v listed over) (
              updated_other (λ _. fresh_visitor other now)
                (λ w hit. sym ((text_eq_iff w.client_ip other).0 hit)))
          | inr still ↦
              rw (handle_counted other now pick rl v listed still)
                (updated_other (λ w. record w { count = w.count + 1 }) (λ w hit. refl))
        ]
      ]

    cleanup-Follows : (now : ℕ) → InWindow rl.window started now → Follows c rl 0 (cleanup now rl)
    unfolding cleanup is_past
    cleanup-Follows now w =
        kept-Follows _
          (visitor_of-filter ip (λ v. not (is_past rl.window now v)) rl.visitors t.entry t.listed
            (rw (t.since, w) refl))
          refl refl
          (omega (arith, length-filter_le (λ v. not (is_past rl.window now v)) rl.visitors))

    step-Follows :
        (e : Event)
        → InWindow rl.window started (time_of e)
        → length rl.visitors < max_tracked_rate_limit_clients
        → Follows c rl (count_passed ip e rl) (step e rl)
    unfolding step count_passed is_past
    step-Follows (request who now pick) w room = elim (Bool-cases (who == ip)) [
      | inl own ↦
          let e : who ≡ ip = (text_eq_iff who ip).0 own in
          let still : is_past rl.window now t.entry ≡ false = rw t.since w in
          rw (e, text_eq_refl ip)
            (own-Follows (handle ip now pick rl)
              (handle_counted ip now pick rl t.entry t.listed still))
      | inr other ↦ rw other (other-Follows who other now pick room)
    ]
    step-Follows (tick now) w room = cleanup-Follows now w

  -- While the window of a client with a given count lasts, and the map has room for every event of
  -- a run, no more of its requests pass than the limit leaves over that count.
  pub passed_in-bound :
      (c : ℕ) (es : List Event) (rl : RateLimiter)
      → IsTracked ip c started rl
      → All (λ e. InWindow rl.window started (time_of e)) es
      → length rl.visitors + length es ≤ max_tracked_rate_limit_clients
      → passed_in ip es rl ≤ pos_part rl.limit - c
  unfolding passed_in
  passed_in-bound c [] rl t ws room = omega arith
  passed_in-bound c (e ∷ es) rl t (w, ws) room =
      let f = step-Follows c rl t e w (omega (arith, room)) in
      let later =
        passed_in-bound f.c' es (step e rl) f.tracked
          (subst (λ win. All (λ e'. InWindow win started (time_of e')) es) (sym f.same_window) ws)
          (omega (arith, f.grows, room)) in
      let same : pos_part (step e rl).limit ≡ pos_part rl.limit = ap pos_part f.same_limit in
      omega (arith, f.paid, later, same)
