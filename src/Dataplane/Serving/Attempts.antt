-- ===== src/Dataplane/Serving/Attempts.antt =====
-- How many attempts a request makes, and what they leave behind.
use jbalance.Common.{
  text_instance, ℕ, zero, suc, ◌≤◌, ◌≡◌, refl, sym, ap, ◌∙◌, Bool, true, false, not, ◌&&◌, ◌||◌,
  Option, none, some, List, [], ◌∷◌, ◌++◌, pos, ltb, ltb_ℤ, Text, Run, returned, Bool-cases, inl,
  inr, ◌⊎◌, arith, length, subst, All,
}
use jbalance.Platform.{Platform, FloatOrder}
use jbalance.Dataplane.Entry.{BackendEntry, update_first, acquire_entry, selectable}
use jbalance.Dataplane.Ring.{RingPoint}
use jbalance.Dataplane.Backends.{BackendList, release, record_result}
use jbalance.Dataplane.Backends.Invariant.{
  IsValid, IsValid-mono, update_first-IsValid, acquire_entry-IsSound, record_result-IsValid,
  release-IsValid,
}
use jbalance.Dataplane.Backends.Counters.{release_pinned}
use jbalance.Dataplane.Backends.Updates.{Unique}
use jbalance.Dataplane.History.{selects-IsValid}
use jbalance.Dataplane.Selection.{refresh, next_for_key}
use jbalance.Dataplane.Selection.Refresh.{refresh-entries}
use jbalance.Dataplane.Selection.Owner.{Sorts}
use jbalance.Dataplane.Selection.Outcome.{InRange}
use jbalance.Dataplane.Selection.Balance.{next_for_key-release}
use jbalance.Dataplane.Selection.Outcome.{next_for_key-Serves}
use jbalance.Dataplane.Proxy.{ProxyConfig, Chosen, Cookie, select_backend, affinity_cookie}
use jbalance.Dataplane.Proxy.Affinity.{select_backend-Stays}
use jbalance.Dataplane.Serving.Repeats.{IsAllowed, attempts-IsAllowed}
use jbalance.Dataplane.Serving.{
  Incoming, Surroundings, Served, Upstream, serve_loop, after_choice, after_answer, after_retry,
  after_attempt, passed_on, cookie_list, serve_with_retries, request_retryable, attempts,
}
use jbalance.Dataplane.RetryWriter.{Call}
use jbalance.Dataplane.Serving.Actives.{
  actives, record_result-actives, release-actives, Unique-actives,
}

module _ ⦃p : Platform⦄ where
  -- No backend may be selected.
  abbrev pub IsOut : ℕ → BackendList p → Type 0
  IsOut now b = All (λ (e : BackendEntry). selectable now e ≡ false) b.entries

  -- Releasing what was chosen restores the entries; if nothing was, they are unchanged and none of
  -- them may be selected.
  abbrev Restores : ℕ → Option Text → BackendList p → BackendList p → Type 0
  Restores now none b1 b = (b1.entries ≡ b.entries) × IsOut now b1
  Restores now (some a) b1 b = (release a b1).entries ≡ b.entries

  abbrev Selects : ℕ → BackendList p → Chosen → Type 0
  Selects now b r =
      (b1 : BackendList p) × (a : Option Text) × (c : Cookie) × (r ≡ returned (b1, a, c))
      × IsValid now b1
      × Restores now a b1 b

module _ ⦃p : Platform⦄ (o : FloatOrder p) where
  next_for_key-Restores :
      (intn : ℕ → ℕ → ℕ)
      → InRange intn
      → (sort : List RingPoint → List RingPoint) → Sorts sort
      → (now : ℕ) (key : Text) (b b1 : BackendList p) (a : Option Text) → IsValid now b
      → Unique b.entries
      → next_for_key intn sort now key b ≡ returned (b1, a)
      → Restores now a b1 b
  next_for_key-Restores intn i sort s now key b b1 none v u q =
      elim (next_for_key-Serves o intn i sort s now key b v) [
        | inl (out, e) ↦
            let f : refresh now b ≡ b1 = cc (e, q) in
            let same : b1.entries ≡ b.entries =
              ap (λ (c : BackendList p). c.entries) (sym f) ∙ refresh-entries now b in
            (same, subst (All (λ e. selectable now e ≡ false)) (sym same) out)
        | inr (t, e, cursor, r, k, l) ↦ cc (l, q)
      ]
  next_for_key-Restores intn i sort s now key b b1 (some a) v u q =
      next_for_key-release o intn i sort s now key a b b1 v u q

  select_backend-Selects :
      (intn : ℕ → ℕ → ℕ)
      → InRange intn
      → (sort : List RingPoint → List RingPoint) → Sorts sort
      → (now : ℕ) (client : Text) (cookie : Option Text) (b : BackendList p) → IsValid now b
      → Unique b.entries
      → Selects now b (select_backend intn sort now client cookie b)
  unfolding release
  select_backend-Selects intn i sort s now client cookie b v u =
      elim (select_backend-Stays o intn i sort s now client cookie b v) [
        | inl (value, _, stays) ↦ (
          record b { entries = update_first value acquire_entry b.entries },
          some value,
          _,
          stays,
          update_first-IsValid b value acquire_entry v (λ f. (refl, refl, refl))
              acquire_entry-IsSound,
          release_pinned value b.entries v.sound,
        )
        | inr (_, _, (q, f, e)) ↦ (
          q.0,
          q.1,
          _,
          e,
          selects-IsValid o now b intn i sort s client q.0 q.1 f v,
          next_for_key-Restores intn i sort s now client b q.0 q.1 v u f,
        )
      ]

module _ ⦃p : Platform⦄ where
  -- Draws in range, sorts that sort, and times that do not fall.
  pub record IsOrderly (env : Surroundings) : Type 0 where
    pub draws : (k : ℕ) → InRange (env.intn k)
    pub sorts : (k : ℕ) → Sorts (env.sort k)
    pub answered : (k : ℕ) → env.selected_at k ≤ env.recorded_at k
    pub retried : (k : ℕ) → env.recorded_at k ≤ env.selected_at (suc k)

  -- The client's writer gets nothing, or the calls of one answer.
  abbrev pub FromOne : Surroundings → List Call → Type 0
  FromOne env calls =
      (calls ≡ [])
      ⊎ ((k : ℕ) × (addr : Text) × (buffered : Bool) × (calls
            ≡ passed_on buffered (env.upstream k addr)))

  -- A backend was available, or at some attempt none may be selected any more.
  abbrev pub FoundOne : Surroundings → Served p → Type 0
  FoundOne env s =
      (s.available ≡ true)
      ⊎ ((s.available ≡ false) × (k : ℕ) × IsOut (env.selected_at k) s.backends)

  -- At most `left` backends were tried, and every count of outstanding requests is as before.
  abbrev pub Settles : Surroundings → ℕ → BackendList p → Run (Served p) → Type 0
  Settles env left b r =
      (s : Served p) × (r ≡ returned s)
      × (length s.tried ≤ left)
      × (actives s.backends.entries ≡ actives b.entries)
      × FromOne env s.calls
      × FoundOne env s

module _ ⦃p : Platform⦄ (o : FloatOrder p) (cfg : ProxyConfig) (env : Surroundings)
    (orderly : IsOrderly env) (r : Incoming) (retryable : Bool) where
  after_attempt-actives :
      (now : ℕ) (a : Text) (up : Upstream) (b1 b : BackendList p)
      → (release a b1).entries ≡ b.entries
      → actives (after_attempt now a up b1).entries ≡ actives b.entries
  unfolding after_attempt
  after_attempt-actives now a up b1 b h =
      let ok = not up.failed && ltb up.status_code 500 in
      release-actives a (record_result now a ok b1) b1 (record_result-actives now a ok b1)
      ∙ ap actives h

  after_attempt-IsValid :
      (now : ℕ) (a : Text) (up : Upstream) (b : BackendList p)
      → IsValid now b
      → IsValid now (after_attempt now a up b)
  unfolding after_attempt
  after_attempt-IsValid now a up b v =
      let ok = not up.failed && ltb up.status_code 500 in
      release-IsValid now a (record_result now a ok b) (record_result-IsValid now a ok b v)

  -- An attempt that is followed by another shows the client nothing.
  retry-silent :
      (left : ℕ) (up : Upstream)
      → (retryable ≡ true) ⊎ (left ≡ 0)
      → (not up.failed || not (ltb 0 left)) ≡ false
      → passed_on (retryable && not (not (ltb 0 left))) up ≡ []
  unfolding passed_on
  retry-silent left up h q = ground arith

  after_retry-Settles :
      (left : ℕ) (cookies : List (Text × Text)) (addr : Text) (b after : BackendList p)
      (rest : Run (Served p))
      → actives after.entries ≡ actives b.entries
      → Settles env left after rest
      → Settles env (suc left) b (after_retry [] cookies addr rest)
  after_retry-Settles left cookies addr b after rest h (s, e, few, same, one, found) = (
    record s { cookies = cookies ++ s.cookies; tried = addr ∷ s.tried },
    ap (after_retry [] cookies addr) e,
    omega (arith, few),
    same ∙ h,
    one,
    found,
  )

  -- One attempt, where what follows it settles.
  after_choice-Settles :
      (left k : ℕ) (b : BackendList p) (next : BackendList p → Run (Served p))
      → (retryable ≡ true) ⊎ (left ≡ 0)
      → Unique b.entries
      → ((after : BackendList p)
          → IsValid (env.selected_at (suc k)) after
          → Unique after.entries
          → Settles env left after (next after))
      → (a : Option Text) (chosen : BackendList p) (cookie : Cookie)
      → IsValid (env.selected_at k) chosen
      → Restores (env.selected_at k) a chosen b
      → Settles env
          (suc left)
          b
          (after_choice cfg env retryable left k next (returned (chosen, a, cookie)))
  unfolding after_choice after_answer
  after_choice-Settles left k b next h u settles none chosen cookie valid restored =
      (_, refl, omega arith, ap actives restored.0, inl refl, inr (refl, k, restored.1))
  after_choice-Settles left k b next h u settles (some addr) chosen cookie valid restored =
      let up = env.upstream k addr in
      let after = after_attempt (env.recorded_at k) addr up chosen in
      let same = after_attempt-actives (env.recorded_at k) addr up chosen b restored in
      let kept =
        after_attempt-IsValid (env.recorded_at k) addr up chosen
          (IsValid-mono valid (orderly.answered k)) in
      elim (Bool-cases (not up.failed || not (ltb 0 left))) [
        | inl q ↦ rw q (_, refl, omega arith, same, inr (k, addr, _, refl), inl refl)
        | inr q ↦
            let silent = retry-silent left up h q in
            elim (Bool-cases (ltb_ℤ (pos 0) cfg.retry_backoff && env.gone k)) [
              | inl g ↦ rw (q, g) (_, refl, omega arith, same, inl silent, inl refl)
              | inr g ↦
                  rw (q, g, silent)
                    (after_retry-Settles left (cookie_list cookie) addr b after (next after) same (
                      settles after (IsValid-mono kept (orderly.retried k))
                        (Unique-actives b.entries after.entries (sym same) u)))
            ]
      ]

  serve_loop-Settles :
      (left k : ℕ) (b : BackendList p)
      → (retryable ≡ true) ⊎ (left ≤ 1)
      → IsValid (env.selected_at k) b
      → Unique b.entries
      → Settles env left b (serve_loop cfg env r retryable left k b)
  unfolding serve_loop
  serve_loop-Settles zero k b h v u = (_, refl, omega arith, refl, inl refl, inl refl)
  serve_loop-Settles (suc left) k b h v u =
      let (chosen, a, cookie, e, valid, restored) =
        select_backend-Selects o (env.intn k) (orderly.draws k) (env.sort k) (orderly.sorts k)
          (env.selected_at k) r.client (r.cookies (affinity_cookie b.sticky.cookie_name)) b v u in
      let next = serve_loop cfg env r retryable left (suc k) in
      subst (λ c. Settles env (suc left) b (after_choice cfg env retryable left k next c)) (sym e)
        (after_choice-Settles left k b next (ground (arith, h)) u
          (λ after w d. serve_loop-Settles left (suc k) after (ground (arith, h)) w d) a chosen
          cookie valid restored)

module _ ⦃p : Platform⦄ (o : FloatOrder p) (cfg : ProxyConfig) (env : Surroundings)
    (orderly : IsOrderly env) (r : Incoming) where
  -- On a valid list with unique addresses, in orderly surroundings and the order of float64, the
  -- attempts end without a panic: at most one backend is tried, or at most one more than the
  -- allowed retries for a GET, HEAD, OPTIONS or TRACE without a body that asks for no upgrade;
  -- every count of outstanding requests is as before, the client's writer gets the calls of at most
  -- one answer, and none is found only where at some attempt no backend may be selected.
  pub serve_with_retries-Settles :
      (b : BackendList p)
      → IsValid (env.selected_at 0) b
      → Unique b.entries
      → (s : Served p) × (serve_with_retries cfg env r b ≡ returned s)
        × IsAllowed cfg r (length s.tried)
        × (actives s.backends.entries ≡ actives b.entries)
        × FromOne env s.calls
        × FoundOne env s
  unfolding serve_with_retries attempts
  serve_with_retries-Settles b v u =
      let (s, e, few, same, one, found) =
        serve_loop-Settles o cfg env orderly r (request_retryable r)
          (attempts cfg (request_retryable r)) 0 b
          (elim (Bool-cases (request_retryable r)) [
            | inl q ↦ inl q
            | inr q ↦ inr (rw q (omega arith))
          ])
          v u in
      (s, e, attempts-IsAllowed cfg r (length s.tried) few, same, one, found)
