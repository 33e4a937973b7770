-- ===== src/Node/RoutingErrorRateLimit/Laws.antt =====
-- fips/src/node/routing_error_rate_limit.rs: forgetting old errors does not change the answers.
use fips_native.Base.{
  ℕ, ◌-◌, ◌≤◌, ◌≡◌, ◌⊎◌, inl, inr, refl, sym, ap, arith, List, [], ◌∷◌, Bool, true, false, Option,
  none, some, ltb, ◌==◌, if◌then◌else◌, Bool-cases,
}
use fips_native.Base.Map.{
  Map, get, insert, Distinct, filter_value, get-insert, get-retain, insert-Distinct,
  retain-Distinct,
}
use fips_native.Node.RoutingErrorRateLimit.{
  RoutingErrorRateLimiter, too_soon, cleanup, should_send, with_interval,
}

-- The limit without a cleanup: it keeps every error that it let pass, the newest first.
abbrev pub repeated : ℕ → Map ℕ → ℕ → ℕ → Bool
repeated min_interval sent dest now = elim (get sent dest) [
  | none ↦ false
  | some last ↦ ltb (now - last) min_interval
]

unfoldable pub permits : ℕ → Map ℕ → List (ℕ × ℕ) → List Bool
permits min_interval sent [] = []
permits min_interval sent ((dest, now) ∷ calls) =
    let pass = true ∷ permits min_interval ((dest, now) ∷ sent) calls in
    let stop = false ∷ permits min_interval sent calls in
    if repeated min_interval sent dest now then stop else pass

-- The answers of the limiter.
unfoldable pub answers : RoutingErrorRateLimiter → List (ℕ × ℕ) → List Bool
answers l [] = []
answers l ((dest, now) ∷ calls) =
    let (answer, next) = should_send l dest now in answer ∷ answers next calls

-- The clock does not run backwards.
abbrev pub Ascending : ℕ → List (ℕ × ℕ) → Type 0
Ascending now [] = Unit
Ascending now ((dest, later) ∷ calls) = (now ≤ later) × Ascending later calls

-- What the limiter has of a destination, against what was let pass.
abbrev AgreesOn : RoutingErrorRateLimiter → Map ℕ → ℕ → ℕ → Type 0
AgreesOn l sent now d =
    (get l.last_sent d ≡ get sent d)
    ⊎ ((get l.last_sent d ≡ none) × (t : ℕ) × (get sent d ≡ some t) × (l.max_age ≤ now - t))

abbrev Agrees : RoutingErrorRateLimiter → Map ℕ → ℕ → Type 0
Agrees l sent now = Distinct l.last_sent × ((d : ℕ) → AgreesOn l sent now d)

Agrees-le :
    (l : RoutingErrorRateLimiter) (sent : Map ℕ) (now later : ℕ)
    → now ≤ later
    → Agrees l sent now
    → Agrees l sent later
Agrees-le l sent now later h g =
    (g.0, λ d. elim (g.1 d) [ inl e ↦ inl e | inr (e, t, f, o) ↦ inr (e, t, f, omega arith) ])

-- Both judge a call alike.
same_judgement :
    (l : RoutingErrorRateLimiter) (sent : Map ℕ) (now d : ℕ)
    → l.min_interval ≤ l.max_age
    → AgreesOn l sent now d
    → too_soon l d now ≡ repeated l.min_interval sent d now
same_judgement l sent now d h (inl e) = rw (too_soon, e, repeated) refl
same_judgement l sent now d h (inr (e, t, f, o)) = rw (too_soon, e, repeated, f) (ground arith)

abbrev Kept : Option ℕ → Option ℕ → ℕ → ℕ → Type 0
Kept here sent max_age now =
    (here ≡ sent) ⊎ ((here ≡ none) × (t : ℕ) × (sent ≡ some t) × (max_age ≤ now - t))

-- The cleanup forgets what is old.
filtered :
    (here sent : Option ℕ) (max_age now d : ℕ)
    → Kept here sent max_age now
    → Kept (filter_value (λ k last. ltb (now - last) max_age) d here) sent max_age now
filtered none sent max_age now d g = g
filtered (some t) sent max_age now d (inl e) = elim (Bool-cases (ltb (now - t) max_age)) [
  | inl young ↦ rw young (inl e)
  | inr old ↦ rw old (inr (refl, t, sym e, ground arith))
]
filtered (some t) sent max_age now d (inr (e, u, f, o)) = absurd (cc)

-- After an error that is let pass, and the cleanup behind it.
passed :
    (l : RoutingErrorRateLimiter) (sent : Map ℕ) (dest now : ℕ)
    → Agrees l sent now
    → Agrees
        (cleanup (record l { last_sent = insert l.last_sent dest now }) now)
        ((dest, now) ∷ sent)
        now
unfolding get
passed l sent dest now g = (
  retain-Distinct _ _ (insert-Distinct l.last_sent dest now g.0),
  λ d.
      rw
        (
          get-retain (λ k last. ltb (now - last) l.max_age) (insert l.last_sent dest now) d
              (insert-Distinct l.last_sent dest now g.0),
          get-insert l.last_sent dest d now,
        )
        (filtered _ _ l.max_age now d (put d (dest == d) (g.1 d))),
)
  where
    put :
        (d : ℕ) (same : Bool)
        → AgreesOn l sent now d
        → Kept
            (if same then some now else get l.last_sent d)
            (if same then some now else get sent d)
            l.max_age
            now
    put d true h = inl refl
    put d false h = h

answers_from :
    (l : RoutingErrorRateLimiter) (sent : Map ℕ) (now : ℕ) (calls : List (ℕ × ℕ))
    → l.min_interval ≤ l.max_age
    → Ascending now calls
    → Agrees l sent now
    → answers l calls ≡ permits l.min_interval sent calls
unfolding answers permits should_send
answers_from l sent now [] h a g = refl
answers_from l sent now ((dest, later) ∷ calls) h a g =
    let g' = Agrees-le l sent now later a.0 g in
    let same = same_judgement l sent later dest h (g'.1 dest) in
    elim (Bool-cases (repeated l.min_interval sent dest later)) [
      | inl stop ↦ rw (same, stop) (ap (λ t. false ∷ t) (answers_from l sent later calls h a.1 g'))
      | inr pass ↦
          let next = cleanup (record l { last_sent = insert l.last_sent dest later }) later in
          rw (same, pass)
            (ap (λ t. true ∷ t)
              (answers_from next ((dest, later) ∷ sent) later calls h a.1
                (passed l sent dest later g')))
    ]

-- A limiter that has let nothing pass.
pub answers_from_empty :
    (l : RoutingErrorRateLimiter) (now : ℕ) (calls : List (ℕ × ℕ))
    → l.last_sent ≡ []
    → l.min_interval ≤ l.max_age
    → Ascending now calls
    → answers l calls ≡ permits l.min_interval [] calls
answers_from_empty l now calls e h a =
    answers_from l [] now calls h a (rw e tt, λ d. inl (ap (λ m. get m d) e))

-- On a clock that does not run backwards, the limiter of routing errors, which forgets old
-- errors, answers any run of calls like one that forgets none, if its interval is at most ten
-- seconds.
pub answers-permits :
    (min_interval now : ℕ) (calls : List (ℕ × ℕ))
    → min_interval ≤ 10000
    → Ascending now calls
    → answers (with_interval min_interval) calls ≡ permits min_interval [] calls
answers-permits min_interval now calls h a =
    answers_from_empty (with_interval min_interval) now calls refl h a
