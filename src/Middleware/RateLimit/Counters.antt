-- ===== src/Middleware/RateLimit/Counters.antt =====
-- The in-memory limiter of internal/api/middleware/ratelimit.go against a counter for each client.
use text.Mathlib.TextEquality.{eq_iff}
use upguardly_server.Base.{
  ℕ, suc, ◌-◌, ◌≤◌, ◌≡◌, ◌⊎◌, refl, sym, ap, ap₂, subst, ◌∙◌, Bool, true, false, List, [], ◌∷◌,
  Option, none, some, String, arith, if◌then◌else◌, ltb, leb, ◌=?◌, string_eq, lookup,
  lookup-insert, inl, inr, Bool-cases,
}
use upguardly_server.Middleware.RateLimit.{
  RateLimiter, IpBucket, LimitResult, expired, clean, decide, allow_memory, remaining_of,
  new_rate_limiter,
}
use upguardly_server.Middleware.RateLimit.Window.{
  over, lookup-clean, lookup-clean-over, clean_frame, frame,
}

-- The abstract limiter: what each client's counter holds, with no table, no clean-up and no clock of
-- its own. `none` is a client that was never seen.
abbrev pub Counters : Type 0
Counters = String → Option IpBucket

abbrev first_answer : ℕ → ℕ → LimitResult
first_answer limit window = record {
  allowed = true;
  limit = limit;
  remaining = remaining_of limit 1;
  reset_after = window;
}

-- One request against the client's own counter.
abbrev count_request : ℕ → ℕ → ℕ → Option IpBucket → IpBucket × LimitResult
count_request limit window now none =
    (record { count = 1; window_start = now }, first_answer limit window)
count_request limit window now (some b) =
    let reset_after = window - (now - b.window_start) in
    if ltb window (now - b.window_start)
    then (record { count = 1; window_start = now }, first_answer limit window)
    else (if leb limit b.count
        then (
          b,
          record { allowed = false; limit = limit; remaining = 0; reset_after = reset_after },
        )
        else (
          record b { count = suc b.count },
          record {
            allowed = true;
            limit = limit;
            remaining = remaining_of limit (suc b.count);
            reset_after = reset_after;
          },
        ))

abbrev pub allow_counted : ℕ → ℕ → Counters → String → ℕ → Counters × LimitResult
allow_counted limit window w ip now =
    let (b, answer) = count_request limit window now (w ip) in
    (λ j. if ip =? j then some b else w j, answer)

-- The answers to a sequence of requests, with the clients and the times they come at.
pub answers : RateLimiter → List (String × ℕ) → List LimitResult
answers r [] = []
answers r ((ip, t) ∷ rs) = let (r', answer) = allow_memory r ip t in answer ∷ answers r' rs

pub counted_answers : ℕ → ℕ → Counters → List (String × ℕ) → List LimitResult
counted_answers limit window w [] = []
counted_answers limit window w ((ip, t) ∷ rs) =
    let (w', answer) = allow_counted limit window w ip t in
    answer ∷ counted_answers limit window w' rs

-- The clock does not go back.
abbrev pub Ordered : ℕ → List (String × ℕ) → Type 0
Ordered now [] = Unit
Ordered now ((ip, t) ∷ rs) = (now ≤ t) × Ordered t rs

abbrev lapsed : ℕ → ℕ → Option IpBucket → Bool
lapsed window now none = true
lapsed window now (some b) = expired window now b

-- The table and the counters agree on a client, or both have nothing that counts any more.
abbrev Agree : ℕ → ℕ → Option IpBucket → Option IpBucket → Type 0
Agree window now o p = (o ≡ p) ⊎ ((lapsed window now o ≡ true) × (lapsed window now p ≡ true))

lapsed_later :
    (window now later : ℕ) (o : Option IpBucket)
    → now ≤ later
    → lapsed window now o ≡ true
    → lapsed window later o ≡ true
lapsed_later window now later none order h = refl
lapsed_later window now later (some b) order h = ground (arith, h, order)

later-Agree :
    (window now later : ℕ) (o p : Option IpBucket)
    → now ≤ later
    → Agree window now o p
    → Agree window later o p
later-Agree window now later o p order (inl same) = inl same
later-Agree window now later o p order (inr (a, b)) =
    inr (lapsed_later window now later o order a, lapsed_later window now later p order b)

count_request-lapsed :
    (limit window now : ℕ) (o : Option IpBucket)
    → lapsed window now o ≡ true
    → count_request limit window now o ≡ count_request limit window now none
count_request-lapsed limit window now none h = refl
count_request-lapsed limit window now (some b) h = rw h refl

count_request-Agree :
    (limit window now : ℕ) (o p : Option IpBucket)
    → Agree window now o p
    → count_request limit window now o ≡ count_request limit window now p
count_request-Agree limit window now o p (inl same) = ap (count_request limit window now) same
count_request-Agree limit window now o p (inr (a, b)) =
    count_request-lapsed limit window now o a ∙ sym (count_request-lapsed limit window now p b)

module _ (q : RateLimiter) (ip : String) (now : ℕ) where
  decide_lem :
      (o : Option IpBucket) (j : String)
      → lookup q.buckets ip ≡ o
      → ((decide q ip now o).1 ≡ (count_request q.limit q.window now o).1)
        × (lookup (decide q ip now o).0.buckets j ≡ (
            if ip =? j then some (count_request q.limit q.window now o).0 else lookup q.buckets j))
  decide_lem none j h = (refl, lookup-insert q.buckets ip _ j)
  decide_lem (some b) j h = elim (Bool-cases (expired q.window now b)) [
    | inl e ↦ rw e (refl, lookup-insert q.buckets ip _ j)
    | inr e ↦ elim (Bool-cases (leb q.limit b.count)) [
      | inr room ↦ rw (e, room) (refl, lookup-insert q.buckets ip _ j)
      | inl full ↦
          rw (e, full)
            (
              refl,
              elim (Bool-cases (ip =? j)) [
                | inl own ↦
                    rw own (subst (λ k. lookup q.buckets k ≡ some b) ((eq_iff ip j).0 own) h)
                | inr apart ↦ rw apart refl
              ],
            )
    ]
  ]

over-lapsed :
    (window now : ℕ) (o : Option IpBucket) → over window now o ≡ true → lapsed window now o ≡ true
over-lapsed window now none h = refl
over-lapsed window now (some b) h = h

clean-Agree :
    (q : RateLimiter) (now : ℕ) (j : String) (p : Option IpBucket)
    → Agree q.window now (lookup q.buckets j) p
    → Agree q.window now (lookup (clean q now).buckets j) p
clean-Agree q now j p agree = elim (Bool-cases (over q.window now (lookup q.buckets j))) [
  | inr live ↦ rw (lookup-clean q now j live) agree
  | inl gone ↦ elim (lookup-clean-over q now j gone) [
    | inr e ↦ rw e agree
    | inl e ↦
        let mine = over-lapsed q.window now (lookup q.buckets j) gone in
        let other : lapsed q.window now p ≡ true = elim agree [
          | inl same ↦ subst (λ o. lapsed q.window now o ≡ true) same mine
          | inr (a, b) ↦ b
        ] in
        inr (rw e refl, other)
  ]
]

-- The table stands for the counters.
abbrev Stands : ℕ → RateLimiter → Counters → Type 0
Stands now r w = (j : String) → Agree r.window now (lookup r.buckets j) (w j)

module _ (r : RateLimiter) (w : Counters) (ip : String) (t : ℕ) (agree : Stands t r w) where
  same_count :
      count_request r.limit r.window t (lookup (clean r t).buckets ip)
      ≡ count_request r.limit r.window t (w ip)
  same_count =
      count_request-Agree r.limit r.window t (lookup (clean r t).buckets ip) (w ip)
        (clean-Agree r t ip (w ip) (agree ip))

  request_answer : (allow_memory r ip t).1 ≡ (allow_counted r.limit r.window w ip t).1
  unfolding allow_memory
  request_answer =
      let (l, v) = clean_frame r t in
      (decide_lem (clean r t) ip t (lookup (clean r t).buckets ip) ip refl).0
      ∙ ap₂ (λ a b. (count_request a b t (lookup (clean r t).buckets ip)).1) l v
      ∙ ap (λ (c : IpBucket × LimitResult). c.1) same_count

  request-Stands :
      (j : String)
      → Agree r.window t
          (lookup (allow_memory r ip t).0.buckets j)
          ((allow_counted r.limit r.window w ip t).0 j)
  unfolding allow_memory
  request-Stands j =
      let (l, v) = clean_frame r t in
      let moved : lookup (allow_memory r ip t).0.buckets j ≡ (
          if ip =? j
          then some (count_request r.limit r.window t (w ip)).0
          else lookup (clean r t).buckets j) =
        (decide_lem (clean r t) ip t (lookup (clean r t).buckets ip) j refl).1
        ∙ ap₂
            (λ a b.
              if ip =? j
              then some (count_request a b t (lookup (clean r t).buckets ip)).0
              else lookup (clean r t).buckets j)
            l v
        ∙ ap
            (λ (c : IpBucket × LimitResult).
              if ip =? j then some c.0 else lookup (clean r t).buckets j)
            same_count in
      elim (Bool-cases (ip =? j)) [
        | inl own ↦ inl (moved ∙ (rw own))
        | inr apart ↦
            let kept : lookup (allow_memory r ip t).0.buckets j ≡ lookup (clean r t).buckets j =
              moved ∙ (rw apart) in
            rw apart (rw kept (clean-Agree r t j (w j) (agree j)))
      ]

answers_from :
    (now : ℕ) (r : RateLimiter) (w : Counters) (rs : List (String × ℕ))
    → Stands now r w
    → Ordered now rs
    → answers r rs ≡ counted_answers r.limit r.window w rs
unfolding answers counted_answers
answers_from now r w [] agree order = refl
answers_from now r w ((ip, t) ∷ rs) agree (later, order) =
    let here : Stands t r w =
      λ j. later-Agree r.window now t (lookup r.buckets j) (w j) later (agree j) in
    let (l, v) = frame r ip t in
    let w' = (allow_counted r.limit r.window w ip t).0 in
    let next : Stands t (allow_memory r ip t).0 w' = λ j. rw v (request-Stands r w ip t here j) in
    ap₂ (λ answer rest. answer ∷ rest) (request_answer r w ip t here)
      (answers_from t (allow_memory r ip t).0 w' rs next order
        ∙ ap₂ (λ a b. counted_answers a b w' rs) l v)

-- The limiter refines its abstract description: a new limiter answers every sequence of requests, of
-- any clients, exactly as one counter for each client would that is never cleaned up, while the
-- clock does not go back.
pub answers-counted :
    (limit window start : ℕ) (rs : List (String × ℕ))
    → Ordered start rs
    → answers (new_rate_limiter limit window start) rs
      ≡ counted_answers limit window (λ ip. none) rs
unfolding new_rate_limiter
answers-counted limit window start rs order =
    answers_from start (new_rate_limiter limit window start) (λ ip. none) rs (λ j. inl refl) order
