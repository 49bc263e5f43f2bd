-- ===== src/Middleware/RateLimit/Window.antt =====
-- The in-memory limiter of internal/api/middleware/ratelimit.go over sequences of requests.
use text.Mathlib.TextEquality.{eq_iff}
use upguardly_server.Base.{
  ℕ, suc, ◌+◌, ◌-◌, ◌≤◌, ◌<◌, ◌≡◌, ◌⊎◌, refl, sym, ap, subst, ◌∙◌, Bool, true, false, ◌&&◌, List,
  [], ◌∷◌, Option, none, some, String, arith, if◌then◌else◌, ltb, leb, ◌=?◌, =?_refl, string_eq,
  lookup, lookup-insert, lookup-discard, inl, inr, Bool-cases, All,
}
use upguardly_server.Middleware.RateLimit.{
  RateLimiter, IpBucket, expired, stale, clean, clean_every, decide, allow_memory,
}

-- Whether a bucket counts: its window is not over.
abbrev pub over : ℕ → ℕ → Option IpBucket → Bool
over window now none = false
over window now (some b) = expired window now b

stale-lookup :
    (bs : List (String × IpBucket)) (window now : ℕ) (ip : String)
    → stale bs window now ip ≡ over window now (lookup bs ip)
stale-lookup [] window now ip = refl
stale-lookup ((i, b) ∷ bs) window now ip = elim (Bool-cases (i =? ip)) [
  | inl e ↦ rw e refl
  | inr e ↦ rw e (stale-lookup bs window now ip)
]

pub lookup-clean :
    (r : RateLimiter) (now : ℕ) (ip : String)
    → over r.window now (lookup r.buckets ip) ≡ false
    → lookup (clean r now).buckets ip ≡ lookup r.buckets ip
unfolding clean
lookup-clean r now ip h = elim (Bool-cases (ltb clean_every (now - r.last_clean))) [
  | inl e ↦ rw e (
      lookup-discard (stale r.buckets r.window now) r.buckets ip
      ∙ rw (stale-lookup r.buckets r.window now ip, h) refl)
  | inr e ↦ rw e refl
]

pub lookup-clean-over :
    (r : RateLimiter) (now : ℕ) (ip : String)
    → over r.window now (lookup r.buckets ip) ≡ true
    → (lookup (clean r now).buckets ip ≡ none)
      ⊎ (lookup (clean r now).buckets ip ≡ lookup r.buckets ip)
unfolding clean
lookup-clean-over r now ip h = elim (Bool-cases (ltb clean_every (now - r.last_clean))) [
  | inl e ↦ inl (
      rw e (
        lookup-discard (stale r.buckets r.window now) r.buckets ip
        ∙ rw (stale-lookup r.buckets r.window now ip, h) refl))
  | inr e ↦ inr (rw e refl)
]

pub clean_frame :
    (r : RateLimiter) (now : ℕ)
    → ((clean r now).limit ≡ r.limit) × ((clean r now).window ≡ r.window)
unfolding clean
clean_frame r now = ground arith

-- The answer of `decide` reads the limit and the window, not the other buckets.
decide_answer :
    (r s : RateLimiter) (ip : String) (now : ℕ) (o : Option IpBucket)
    → s.limit ≡ r.limit
    → s.window ≡ r.window
    → (decide s ip now o).1 ≡ (decide r ip now o).1
decide_answer r s ip now none l w = ground (arith, l, w)
decide_answer r s ip now (some b) l w = ground (arith, l, w)

decide-over :
    (r : RateLimiter) (ip : String) (now : ℕ) (o : Option IpBucket)
    → over r.window now o ≡ true
    → (decide r ip now o).1 ≡ (decide r ip now none).1
decide-over r ip now none h = refl
decide-over r ip now (some b) h = rw h refl

-- The periodic clean-up never changes an answer: every answer is the one decided on the caller's
-- bucket as it stood.
pub allow_memory-decide :
    (r : RateLimiter) (ip : String) (now : ℕ)
    → (allow_memory r ip now).1 ≡ (decide r ip now (lookup r.buckets ip)).1
unfolding allow_memory
allow_memory-decide r ip now =
    let (l, w) = clean_frame r now in
    decide_answer r (clean r now) ip now (lookup (clean r now).buckets ip) l w
    ∙ elim (Bool-cases (over r.window now (lookup r.buckets ip))) [
      | inr live ↦ ap (λ o. (decide r ip now o).1) (lookup-clean r now ip live)
      | inl gone ↦ elim (lookup-clean-over r now ip gone) [
        | inl e ↦
            ap (λ o. (decide r ip now o).1) e
            ∙ sym (decide-over r ip now (lookup r.buckets ip) gone)
        | inr e ↦ ap (λ o. (decide r ip now o).1) e
      ]
    ]

-- The requests of `ip` that are let through, in a sequence of requests from any clients.
abbrev pub admitted : RateLimiter → String → List (String × ℕ) → ℕ
admitted r ip [] = 0
admitted r ip ((i, t) ∷ rs) =
    let (r', res) = allow_memory r i t in
    (if (i =? ip) && res.allowed then 1 else 0) + admitted r' ip rs

-- The bucket of `ip` after a request in its window.
abbrev counted : IpBucket → Bool → IpBucket
counted b hit = if hit then record b { count = suc b.count } else b

decide_mine :
    (q : RateLimiter) (ip : String) (t : ℕ) (b : IpBucket)
    → lookup q.buckets ip ≡ some b
    → expired q.window t b ≡ false
    → (lookup (decide q ip t (some b)).0.buckets ip
        ≡ some (counted b (decide q ip t (some b)).1.allowed))
      × ((decide q ip t (some b)).1.allowed ≡ true → b.count < q.limit)
decide_mine q ip t b h live = elim (Bool-cases (leb q.limit b.count)) [
  | inl full ↦ rw (live, full) (h, λ a. cc)
  | inr room ↦
      rw (live, room)
        (
          lookup-insert q.buckets ip (record b { count = suc b.count }) ip ∙ rw (=?_refl ip) refl,
          λ a. ground (arith, room),
        )
]

decide_other :
    (q : RateLimiter) (i ip : String) (t : ℕ) (o : Option IpBucket)
    → (i =? ip) ≡ false
    → lookup (decide q i t o).0.buckets ip ≡ lookup q.buckets ip
decide_other q i ip t none h =
    lookup-insert q.buckets i (record { count = 1; window_start = t }) ip ∙ rw h refl
decide_other q i ip t (some b) h = elim (Bool-cases (expired q.window t b)) [
  | inl e ↦ rw e (lookup-insert q.buckets i (record { count = 1; window_start = t }) ip ∙ rw h refl)
  | inr e ↦ elim (Bool-cases (leb q.limit b.count)) [
    | inl full ↦ rw (e, full) refl
    | inr room ↦
        rw (e, room) (lookup-insert q.buckets i (record b { count = suc b.count }) ip ∙ rw h refl)
  ]
]

decide_frame :
    (q : RateLimiter) (i : String) (t : ℕ) (o : Option IpBucket)
    → ((decide q i t o).0.limit ≡ q.limit) × ((decide q i t o).0.window ≡ q.window)
decide_frame q i t none = (refl, refl)
decide_frame q i t (some b) = ground arith

lookup-allow_memory :
    (r : RateLimiter) (ip i : String) (t : ℕ) (b : IpBucket)
    → lookup r.buckets ip ≡ some b
    → expired r.window t b ≡ false
    → (lookup (allow_memory r i t).0.buckets ip
        ≡ some (counted b ((i =? ip) && (allow_memory r i t).1.allowed)))
      × (((i =? ip) && (allow_memory r i t).1.allowed) ≡ true → b.count < r.limit)
unfolding allow_memory
lookup-allow_memory r ip i t b h live =
    let (l, w) = clean_frame r t in
    let kept = lookup-clean r t ip (rw h live) ∙ h in
    elim (Bool-cases (i =? ip)) [
      | inl e ↦
          let same : i ≡ ip = (eq_iff i ip).0 e in
          let (after, room) = decide_mine (clean r t) ip t b kept (rw w live) in
          rw (same, =?_refl ip, kept) (after, λ a. rw l at (room a))
      | inr e ↦
          rw e (decide_other (clean r t) i ip t (lookup (clean r t).buckets i) e ∙ kept, λ a. cc)
    ]

pub frame :
    (r : RateLimiter) (i : String) (t : ℕ)
    → ((allow_memory r i t).0.limit ≡ r.limit) × ((allow_memory r i t).0.window ≡ r.window)
unfolding allow_memory
frame r i t =
    let (l, w) = clean_frame r t in
    let (l', w') = decide_frame (clean r t) i t (lookup (clean r t).buckets i) in (l' ∙ l, w' ∙ w)

-- The requests come within the bucket's window.
abbrev pub Live : List (String × ℕ) → IpBucket → ℕ → Type 0
Live rs b window = All (λ (q : String × ℕ). expired window q.1 b ≡ false) rs

-- Within the window of a bucket, whatever the other clients do, at most the rest of the limit is let
-- through.
pub admitted-bounded :
    (rs : List (String × ℕ)) (r : RateLimiter) (ip : String) (b : IpBucket)
    → lookup r.buckets ip ≡ some b
    → Live rs b r.window
    → admitted r ip rs ≤ r.limit - b.count
admitted-bounded [] r ip b h live = omega arith
admitted-bounded ((i, t) ∷ rs) r ip b h (live, rest) =
    let (after, room) = lookup-allow_memory r ip i t b h live in
    let (l, w) = frame r i t in
    elim (Bool-cases ((i =? ip) && (allow_memory r i t).1.allowed)) [
      | inl hit ↦
          let more =
            admitted-bounded rs (allow_memory r i t).0 ip (record b { count = suc b.count })
              (rw hit at after) (subst (Live rs b) (sym w) rest) in
          rw hit (omega (arith, more, room hit, l))
      | inr miss ↦
          let more =
            admitted-bounded rs (allow_memory r i t).0 ip b (rw miss at after)
              (subst (Live rs b) (sym w) rest) in
          rw miss (omega (arith, more, l))
    ]
