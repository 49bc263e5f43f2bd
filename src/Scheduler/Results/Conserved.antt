-- ===== src/Scheduler/Results/Conserved.antt =====
-- The results taken in and the results written (internal/scheduler/runner.go).
use upguardly_server.Base.{
  ℕ, suc, ◌+◌, ◌≤◌, ◌<◌, ◌≡◌, refl, ap, ◌∙◌, Bool, List, [], ◌∷◌, ◌++◌, arith, if◌then◌else◌, ltb,
  leb, length, Bool-cases, inl, inr,
}
use upguardly_server.Scheduler.Results.{
  PendingResult, ResultWriter, enqueue, flush, flush_calls, take_in, receive, receive_from, tick,
  drain, stop, result_batch_max, result_buffer_size,
}

-- From an empty writer, with the results that were enqueued, the latest first.
pub data WriterRun : List PendingResult → ResultWriter → Type 0 where
  empty : WriterRun [] (record { ch = []; batch = []; persisted = [] })
  enqueue_next :
      {ps : List PendingResult} {w : ResultWriter} (p : PendingResult)
      → WriterRun ps w
      → WriterRun (p ∷ ps) (enqueue w p)
  receive_next :
      {ps : List PendingResult} {w : ResultWriter} → WriterRun ps w → WriterRun ps (receive w)
  tick_next : {ps : List PendingResult} {w : ResultWriter} → WriterRun ps w → WriterRun ps (tick w)

ch-take_in : (w : ResultWriter) (p : PendingResult) → (take_in w p).ch ≡ w.ch
unfolding take_in flush
ch-take_in w p = elim (Bool-cases (leb result_batch_max (length (w.batch ++ p ∷ [])))) [
  | inl full ↦ rw full refl
  | inr room ↦ rw room refl
]

module _ (q : PendingResult → Bool) where
  abbrev pub number : List PendingResult → ℕ
  number [] = 0
  number (p ∷ ps) = (if q p then 1 else 0) + number ps

  abbrev pub number_of_calls : List (List PendingResult) → ℕ
  number_of_calls [] = 0
  number_of_calls (c ∷ cs) = number c + number_of_calls cs

  -- The results of a kind in the slice and in the calls, and those in the channel too.
  abbrev pub settled : ResultWriter → ℕ
  settled w = number w.batch + number_of_calls w.persisted

  abbrev pub held : ResultWriter → ℕ
  held w = number w.ch + settled w

  number-append : (xs ys : List PendingResult) → number (xs ++ ys) ≡ number xs + number ys
  number-append [] ys = omega arith
  number-append (x ∷ xs) ys = omega (arith, number-append xs ys)

  held-enqueue :
      (w : ResultWriter) (p : PendingResult) → held (enqueue w p) ≡ (if q p then 1 else 0) + held w
  unfolding enqueue
  held-enqueue w p = elim (Bool-cases (ltb (length w.ch) result_buffer_size)) [
    | inl room ↦ rw room (omega (arith, number-append w.ch (p ∷ [])))
    | inr full ↦ rw full (omega arith)
  ]

  number_of_calls-flush_calls :
      (b : List PendingResult) (cs : List (List PendingResult))
      → number_of_calls (flush_calls b cs) ≡ number b + number_of_calls cs
  number_of_calls-flush_calls [] cs = omega arith
  number_of_calls-flush_calls (p ∷ ps) cs = refl

  settled-flush : (w : ResultWriter) → settled (flush w) ≡ settled w
  unfolding flush
  settled-flush w = omega (arith, number_of_calls-flush_calls w.batch w.persisted)

  settled-take_in :
      (w : ResultWriter) (p : PendingResult)
      → settled (take_in w p) ≡ (if q p then 1 else 0) + settled w
  unfolding take_in
  settled-take_in w p = elim (Bool-cases (leb result_batch_max (length (w.batch ++ p ∷ [])))) [
    | inl full ↦ rw full (
        settled-flush (record w { batch = w.batch ++ p ∷ [] })
        ∙ omega (arith, number-append w.batch (p ∷ [])))
    | inr room ↦ rw room (omega (arith, number-append w.batch (p ∷ [])))
  ]

  held-receive_from :
      (w : ResultWriter) (ps : List PendingResult) → w.ch ≡ ps → held (receive_from w ps) ≡ held w
  held-receive_from w [] e = refl
  held-receive_from w (p ∷ ps) e = rw e (
      omega (
        arith,
        settled-take_in (record w { ch = ps }) p,
        ap number (ch-take_in (record w { ch = ps }) p),
      ))

  held-tick : (w : ResultWriter) → held (tick w) ≡ held w
  unfolding tick flush
  held-tick w = elim (Bool-cases (ltb 0 (length w.batch))) [
    | inl e ↦ rw e (omega (arith, number_of_calls-flush_calls w.batch w.persisted))
    | inr e ↦ rw e refl
  ]

  settled-drain :
      (w : ResultWriter) (ps : List PendingResult) → settled (drain w ps) ≡ number ps + settled w
  settled-drain w [] = omega arith
  settled-drain w (p ∷ ps) = omega (arith, settled-drain (take_in w p) ps, settled-take_in w p)

  run-held : {ps : List PendingResult} {w : ResultWriter} → WriterRun ps w → held w ≡ number ps
  unfolding receive
  run-held empty = refl
  run-held (enqueue_next {w = w} p r) =
      held-enqueue w p ∙ ap (λ n. (if q p then 1 else 0) + n) (run-held r)
  run-held (receive_next {w = w} r) = held-receive_from w w.ch refl ∙ run-held r
  run-held (tick_next {w = w} r) = held-tick w ∙ run-held r

  -- Whatever the interleaving of results, receives and ticks, when the writer is stopped the calls of
  -- PersistMonitorResults carry exactly the results that were enqueued, of every kind as many.
  pub stop-conserves :
      {ps : List PendingResult} {w : ResultWriter}
      → WriterRun ps w
      → number_of_calls (stop w).persisted ≡ number ps
  unfolding stop flush
  stop-conserves {w = w} r = omega (
    arith,
    number_of_calls-flush_calls (drain w w.ch).batch (drain w w.ch).persisted,
    settled-drain w w.ch,
    run-held r,
  )

-- The channel's buffer and the slice within their sizes.
abbrev pub Bounded : ResultWriter → Type 0
Bounded w = (length w.ch ≤ 4096) × (length w.batch < 200)

length-snoc :
    (ps : List PendingResult) (p : PendingResult) → length (ps ++ p ∷ []) ≡ suc (length ps)
length-snoc [] p = refl
length-snoc (x ∷ ps) p = omega (arith, length-snoc ps p)

take_in-Bounded : (w : ResultWriter) (p : PendingResult) → Bounded w → Bounded (take_in w p)
unfolding take_in flush
take_in-Bounded w p b = elim (Bool-cases (leb result_batch_max (length (w.batch ++ p ∷ [])))) [
  | inl full ↦ rw full (b.0, omega arith)
  | inr room ↦ rw room (b.0, ground (arith, room))
]

receive_from-Bounded :
    (w : ResultWriter) (ps : List PendingResult)
    → w.ch ≡ ps
    → Bounded w
    → Bounded (receive_from w ps)
receive_from-Bounded w [] e b = b
receive_from-Bounded w (p ∷ ps) e b =
    let size : suc (length ps) ≤ 4096 = rw e at b.0 in
    take_in-Bounded (record w { ch = ps }) p (omega (arith, size), b.1)

-- The buffer never holds more than 4096 results, and between the turns of the loop the slice holds
-- fewer than 200.
pub run-Bounded : {ps : List PendingResult} {w : ResultWriter} → WriterRun ps w → Bounded w
unfolding enqueue receive tick flush
run-Bounded empty = (omega arith, omega arith)
run-Bounded (enqueue_next {w = w} p r) =
    let b = run-Bounded r in
    elim (Bool-cases (ltb (length w.ch) result_buffer_size)) [
      | inl room ↦ rw (enqueue, room) (ground (arith, room, length-snoc w.ch p), b.1)
      | inr full ↦ rw (enqueue, full) b
    ]
run-Bounded (receive_next {w = w} r) = receive_from-Bounded w w.ch refl (run-Bounded r)
run-Bounded (tick_next {w = w} r) =
    let b = run-Bounded r in
    elim (Bool-cases (ltb 0 (length w.batch))) [
      | inl e ↦ rw (tick, e) (b.0, omega arith)
      | inr e ↦ rw (tick, e) b
    ]
