-- ===== src/NetCheck/Checker/Rounds.antt =====
-- Rounds under every interleaving of their goroutines.
use focot_services.Prelude.{
  length, length-append, ℕ, suc, ◌+◌, ◌≤◌, ◌<◌, ◌≡◌, refl, sym, ◌∙◌, ◌≢◌, ◌⊎◌, inl, inr, true,
  false, List, [], ◌∷◌, ◌++◌, append_assoc, append-nil, arith, ℕ_discrete, dec_lt,
}
use focot_services.NetCheck.Config.{ProbeTarget}
use focot_services.NetCheck.Checker.{
  Job, Phase, scanning, dispatching, waiting, returned, Round, new_round, jobs_of, RoundStep,
  resolve_failed, resolve, scanned, next_target, cancel, acquire, release, done, wait_over, Checker,
  trigger, CheckerStep, tick, advance, end_round, Reach, start, next,
}

-- The addresses that the loop over one target has left.
abbrev left_over : Phase → List Job
left_over (dispatching x ips xs) = jobs_of x ips
left_over _ = []

pub record IsConsistent (max_concurrency : ℕ) (t : Round) : Type 0 where
  pub tokens : t.sem ≡ length t.probing
  pub counted : t.wg ≡ length t.probing + length t.closing
  pub bounded : t.sem ≤ max_concurrency
  pub finished : length t.started ≡ length t.finished + length t.probing
  pub joined : t.phase ≡ returned → t.wg ≡ 0
  pub covered : t.cancelled ≡ false → t.resolved ≡ t.started ++ left_over t.phase

length-middle {ℓ} :
    {A : Type ℓ} (xs ys : List A) (y : A) → length (xs ++ y ∷ ys) ≡ suc (length (xs ++ ys))
length-middle xs ys y = omega (arith, length-append xs (y ∷ ys), length-append xs ys)

RoundStep-IsConsistent :
    (m : ℕ) (t u : Round) → RoundStep m t u → IsConsistent m t → IsConsistent m u
RoundStep-IsConsistent m t u (resolve_failed x xs p e) c = ground arith
RoundStep-IsConsistent m t u (resolve x xs ips p e) c = ground (arith, append-nil t.started)
RoundStep-IsConsistent m t u (scanned p e) c = ground arith
RoundStep-IsConsistent m t u (next_target x xs p e) c = ground arith
RoundStep-IsConsistent m t u (cancel x ip ips xs p e) c = ground arith
RoundStep-IsConsistent m t u (acquire x ip ips xs p room e) c = ground (
  arith,
  length-append t.probing ((x, ip) ∷ []),
  length-append t.started ((x, ip) ∷ []),
  append_assoc t.started ((x, ip) ∷ []) (jobs_of x ips),
)
RoundStep-IsConsistent m t u (release before after job p e) c =
    ground (arith, length-middle before after job, length-append t.finished (job ∷ []))
RoundStep-IsConsistent m t u (done before after job p e) c =
    ground (arith, length-middle before after job)
RoundStep-IsConsistent m t u (wait_over p z e) c = ground arith

-- Either no round runs, or one does and the flag is set.
abbrev pub IsExclusive : ℕ → Checker → Type 0
IsExclusive m c =
    ((c.running ≡ false) × (c.rounds ≡ []))
    ⊎ ((t : Round) × (c.running ≡ true) × (c.rounds ≡ t ∷ []) × IsConsistent m t)

new_round-IsConsistent : (m : ℕ) (targets : List ProbeTarget) → IsConsistent m (new_round targets)
unfolding new_round
new_round-IsConsistent m targets = ground arith

only {ℓ} :
    {A : Type ℓ} (before after : List A) (t s : A)
    → before ++ t ∷ after ≡ s ∷ []
    → (before ≡ []) × (after ≡ []) × (t ≡ s)
only [] after t s e = (refl, cc, cc)
only (b ∷ []) after t s e = absurd (ground arith)
only (b ∷ b' ∷ before) after t s e = absurd (ground arith)

not-empty {ℓ} : {A : Type ℓ} (before after : List A) (t : A) → before ++ t ∷ after ≢ []
not-empty [] after t e = cc
not-empty (b ∷ before) after t e = cc

CheckerStep-IsExclusive :
    (targets : List ProbeTarget) (m : ℕ) (c d : Checker)
    → CheckerStep targets m c d
    → IsExclusive m c
    → IsExclusive m d
CheckerStep-IsExclusive targets m c d (tick e) (inl (idle, none_left)) = inr (
  new_round targets,
  unfold trigger in ground arith,
  unfold trigger in ground arith,
  new_round-IsConsistent m targets,
)
CheckerStep-IsExclusive targets m c d (tick e) (inr (t, busy, one, ok)) =
    inr (t, unfold trigger in ground arith, unfold trigger in ground arith, ok)
CheckerStep-IsExclusive targets m c d (advance before after t u p st e) (inl (idle, none_left)) =
    absurd (not-empty before after t (sym p ∙ none_left))
CheckerStep-IsExclusive targets m c d (advance before after t u p st e) (inr (s, busy, one, ok)) =
    let (nil, nil', same) = only before after t s (sym p ∙ one) in
    inr (u, ground arith, rw (e, nil, nil'), RoundStep-IsConsistent m t u st (rw same ok))
CheckerStep-IsExclusive targets m c d (end_round before after t p r e) (inl (idle, none_left)) =
    absurd (not-empty before after t (sym p ∙ none_left))
CheckerStep-IsExclusive targets m c d (end_round before after t p r e) (inr (s, busy, one, ok)) =
    let (nil, nil', same) = only before after t s (sym p ∙ one) in
    inl (ground arith, rw (e, nil, nil'))

-- However the ticks, the probes and the rounds interleave, at most one round runs, the flag says
-- whether one does, and its tokens, its counter and its records agree with its probes; so it never
-- has more probes under way than `max_concurrency`.
pub Reach-IsExclusive :
    (targets : List ProbeTarget) (m : ℕ) {c : Checker} → Reach targets m c → IsExclusive m c
Reach-IsExclusive targets m (start c e) = inl (ground arith)
Reach-IsExclusive targets m (next {c = c} {d = d} r st) =
    CheckerStep-IsExclusive targets m c d st (Reach-IsExclusive targets m r)

length-eq-zero {ℓ} : {A : Type ℓ} (xs : List A) → length xs ≡ 0 → xs ≡ []
length-eq-zero [] e = refl
length-eq-zero (x ∷ xs) e = absurd (omega arith)

-- A round of a reachable checker that has returned without being cancelled has probed every
-- address that its targets resolved to, each once and in order, and every probe has ended.
pub returned_complete :
    (targets : List ProbeTarget) (m : ℕ) {c : Checker} (t : Round)
    → Reach targets m c
    → c.rounds ≡ t ∷ []
    → t.phase ≡ returned
    → t.cancelled ≡ false
    → (t.started ≡ t.resolved)
      × (t.probing ≡ [])
      × (t.closing ≡ [])
      × (length t.finished ≡ length t.resolved)
returned_complete targets m t r one back full = elim (Reach-IsExclusive targets m r) [
  | inl (idle, none_left) ↦ absurd (ground arith)
  | inr (s, busy, here, ok) ↦
      let same : s ≡ t = ground arith in
      let ok' : IsConsistent m t = rw same at ok in
      let all : t.started ≡ t.resolved = ground (arith, append-nil t.started) in
      (
        all,
        length-eq-zero t.probing (omega (arith, ok'.joined back)),
        length-eq-zero t.closing (omega (arith, ok'.joined back)),
        ground (arith, ok'.joined back),
      )
]

release_one :
    (m : ℕ) (t : Round)
    → 0 < length t.probing
    → (u : Round) × RoundStep m t u × (u.cancelled ≡ t.cancelled)
release_one m t h = go t.probing refl
  where
    go :
        (jobs : List Job)
        → t.probing ≡ jobs
        → (u : Round) × RoundStep m t u × (u.cancelled ≡ t.cancelled)
    go [] e = absurd (ground arith)
    go (job ∷ jobs) e = (_, release [] jobs job e refl, refl)

done_one :
    (m : ℕ) (t : Round)
    → 0 < length t.closing
    → (u : Round) × RoundStep m t u × (u.cancelled ≡ t.cancelled)
done_one m t h = go t.closing refl
  where
    go :
        (jobs : List Job)
        → t.closing ≡ jobs
        → (u : Round) × RoundStep m t u × (u.cancelled ≡ t.cancelled)
    go [] e = absurd (ground arith)
    go (job ∷ jobs) e = (_, done [] jobs job e refl, refl)

-- A round that has not returned can always go on, by a step that is no cancellation: the round
-- waits for a token or for its probes only while a probe can end.
pub round_progress :
    (targets : List ProbeTarget) (m : ℕ) {c : Checker} (t : Round)
    → Reach targets m c
    → 0 < m
    → c.rounds ≡ t ∷ []
    → t.phase ≢ returned
    → (u : Round) × RoundStep m t u × (u.cancelled ≡ t.cancelled)
round_progress targets m t r some_room one going = elim (Reach-IsExclusive targets m r) [
  | inl (idle, none_left) ↦ absurd (ground arith)
  | inr (s, busy, here, ok) ↦
      let same : s ≡ t = ground arith in
      let ok' : IsConsistent m t = rw same at ok in go ok' t.phase refl
]
  where
    go :
        IsConsistent m t
        → (p : Phase) → t.phase ≡ p
        → (u : Round) × RoundStep m t u × (u.cancelled ≡ t.cancelled)
    go ok (scanning []) e = (_, scanned e refl, refl)
    go ok (scanning (x ∷ xs)) e = (_, resolve_failed x xs e refl, refl)
    go ok (dispatching x [] xs) e = (_, next_target x xs e refl, refl)
    go ok (dispatching x (ip ∷ ips) xs) e = elim (dec_lt t.sem m) [
      | yes room ↦ (_, acquire x ip ips xs e room refl, refl)
      | no full ↦ release_one m t (omega (arith, ok.tokens))
    ]
    go ok waiting e = elim (ℕ_discrete t.wg 0) [
      | yes z ↦ (_, wait_over e z refl, refl)
      | no busy ↦ elim (dec_lt 0 (length t.probing)) [
        | yes p ↦ release_one m t p
        | no q ↦ done_one m t (omega (arith, ok.counted))
      ]
    ]
    go ok returned e = absurd (going e)
